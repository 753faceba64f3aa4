-- ===== src/Nanopb/DecodeMessage/Safe/Decode.antt =====
-- pb_decode_noinit, pb_decode and pb_decode_delimited on a stream over a buffer.
use logoguess.Common.{ℕ, zero, suc, ◌<◌, arith, List}
use logoguess.Nanopb.Field.{PbField}
use logoguess.Nanopb.IStream.{IStream}
use logoguess.Nanopb.IStream.Safe.{IsBuffer}
use logoguess.Nanopb.Wire.Consumes.{Cut-IsBuffer, pb_make_string_substream-Opens}
use logoguess.Nanopb.Memory.{Memory}
use logoguess.Nanopb.DecodeMessage.Actions.{Result, DecodeProgram, DecodesMessage}
use logoguess.Nanopb.DecodeMessage.Defaults.{pb_field_set_to_default, pb_message_set_to_defaults}
use logoguess.Nanopb.DecodeMessage.Release.{pb_release_single_field, pb_release}
use logoguess.Nanopb.DecodeMessage.Values.{call_decoder}
use logoguess.Nanopb.DecodeMessage.{
  without_local, with_local, decode_or_release, decode_message, pb_decode_noinit, pb_decode,
  decode_delimited, pb_decode_delimited,
}
use logoguess.Nanopb.DecodeMessage.Safe.{
  Fine, succeeds, fails, faults, Fine-with_some, Fine-opened, Fine-closed,
}
use logoguess.Nanopb.DecodeMessage.Safe.Actions.{IsFine, IsFine->>, IsFine-stored}
use logoguess.Nanopb.DecodeMessage.Safe.Calls.{call_decoder-IsFine}
use logoguess.Nanopb.DecodeMessage.Safe.Fields.{CallbacksRead}
use logoguess.Nanopb.DecodeMessage.Safe.Message.{decode_body-IsFine}

Fine-without_local :
    {n : ℕ} {s : IStream} (slot : ℕ) {r : Result} → Fine n s r → Fine n s (without_local slot r)
Fine-without_local slot (succeeds a less) = succeeds a less
Fine-without_local slot (fails a) = fails a
Fine-without_local slot faults = faults

module _ (program : DecodeProgram) where
  decode_or_release-Fine :
      (depth : ℕ) (fields : List PbField) (p : ℕ) {s : IStream} {r : Result}
      → Fine 0 s r
      → Fine 0 s (decode_or_release program depth fields p r)
  decode_or_release-Fine depth fields p (succeeds a less) = succeeds a less
  decode_or_release-Fine depth fields p (fails {mem = mem} a) =
      Fine-with_some (pb_release program depth fields p mem) _ λ _ _. fails a
  decode_or_release-Fine depth fields p faults = faults

  decode_message-IsFine :
      {bound : ℕ} (noinit : DecodesMessage) (depth : ℕ)
      → ((fields : List PbField) (p : ℕ) → IsFine bound 0 (noinit fields p))
      → (fields : List PbField) (p : ℕ)
      → IsFine bound 0 (decode_message program noinit depth fields p)
  unfolding decode_message
  decode_message-IsFine noinit depth fine fields p =
      IsFine->> _ _ (IsFine-stored (pb_message_set_to_defaults program depth fields p))
        λ s mem h hb. decode_or_release-Fine depth fields p (fine fields p s mem h hb)

  module _ (callbacks : CallbacksRead program) where
    pub pb_decode_noinit-IsFine :
        (depth : ℕ) (fields : List PbField) (p : ℕ)
        → IsFine depth 0 (pb_decode_noinit program depth fields p)
    unfolding pb_decode_noinit
    pb_decode_noinit-IsFine zero fields p s mem h hb = absurd (omega arith)
    pb_decode_noinit-IsFine (suc depth) fields p s mem h hb =
        let noinit = pb_decode_noinit program depth in
        Fine-without_local (program.fixed_count_size_at depth) (
          decode_body-IsFine program callbacks (pb_field_set_to_default program depth)
            (pb_release_single_field program depth)
            (call_decoder program (decode_message program noinit depth) noinit)
            (call_decoder-IsFine program depth (decode_message program noinit depth) noinit
              (decode_message-IsFine noinit depth (pb_decode_noinit-IsFine depth))
              (pb_decode_noinit-IsFine depth))
            (program.fixed_count_size_at depth) fields p s
            (with_local (program.fixed_count_size_at depth) mem) h hb)

  module _ (callbacks : CallbacksRead program) where
    pb_decode-IsFine :
        (depth : ℕ) (fields : List PbField) (p : ℕ)
        → IsFine depth 0 (pb_decode program depth fields p)
    unfolding pb_decode
    pb_decode-IsFine depth =
        decode_message-IsFine (pb_decode_noinit program depth) depth
          (pb_decode_noinit-IsFine callbacks depth)

    pb_decode_delimited-IsFine :
        (depth : ℕ) (fields : List PbField) (p : ℕ)
        → IsFine depth 1 (pb_decode_delimited program depth fields p)
    unfolding pb_decode_delimited decode_delimited
    pb_decode_delimited-IsFine depth fields p s mem h hb =
        Fine-opened _ (pb_make_string_substream-Opens s h) λ before size c.
          Fine-closed c
            (pb_decode-IsFine depth fields p _ mem (Cut-IsBuffer c) (omega (arith, c.less, c.fits)))

-- pb_decode and pb_decode_delimited of any bytes, on a stream over a buffer that holds them, into
-- any memory by any descriptor tables, where a nesting depth above the number of bytes is allowed
-- for, and the user's functions keep to the stream and read something: no read outside of the
-- buffer and no loop over the stream without end. If they return true, `state` and `bytes_left` of
-- the stream have moved in step, by a byte or more for pb_decode_delimited, and a first error
-- message is kept; if they return false, the bytes that are left are still in the buffer. Of the
-- memory that they decode into nothing is said: an access outside of its objects, where they stop,
-- is allowed for.
pub pb_decode-Fine :
    (program : DecodeProgram) (depth : ℕ) (fields : List PbField) (dest_struct : ℕ) (s : IStream)
    (mem : Memory)
    → CallbacksRead program
    → IsBuffer s
    → s.bytes_left < depth
    → Fine 0 s (pb_decode program depth fields dest_struct s mem)
      × Fine 1 s (pb_decode_delimited program depth fields dest_struct s mem)
pb_decode-Fine program depth fields dest_struct s mem callbacks h hb = (
  pb_decode-IsFine program callbacks depth fields dest_struct s mem h hb,
  pb_decode_delimited-IsFine program callbacks depth fields dest_struct s mem h hb,
)
