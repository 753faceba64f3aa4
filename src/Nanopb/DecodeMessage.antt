-- ===== src/Nanopb/DecodeMessage.antt =====
-- The message level of pb_decode.c: pb_decode_noinit and pb_decode.
pub mod Actions
pub mod Defaults
pub mod Release
pub mod Values
pub mod Fields
pub mod Pointers
pub mod Extensions
pub mod Required
pub mod Safe
pub mod Rounds
use logoguess.Common.{
  ℕ, zero, suc, ◌+◌, ◌-◌, ◌%◌, ◌^◌, leb, ◌==◌, if◌then◌else◌, not, ◌&&◌, ◌||◌, Bool, true, false,
}
use logoguess.Common.{Option, none, some, List, [], ◌∷◌, length, get_elem?}
use logoguess.Nanopb.Errors.{wrong_fixed_count, missing_required_field}
use logoguess.Nanopb.Field.{PbField, htype, htype_repeated}
use logoguess.Nanopb.FieldIter.{FieldIter, pb_field_iter_begin, pb_field_iter_find}
use logoguess.Nanopb.IStream.{IStream, Outcome, done, failed}
use logoguess.Nanopb.IStream as I
use logoguess.Nanopb.Wire.{pb_decode_tag, pb_make_string_substream}
use logoguess.Nanopb.Memory.{Memory, Object, ◌>>=◌, load_size, store_number}
use logoguess.Nanopb.DecodeMessage.Actions.{
  Result, Action, returned, fault, overrun, and_then, ◌>>◌, return_error, with_some, loaded, stored,
  decoded, DecodeProgram, DecodesMessage, field_of,
}
use logoguess.Nanopb.DecodeMessage.Defaults.{
  SetsField, pb_field_set_to_default, pb_message_set_to_defaults,
}
use logoguess.Nanopb.DecodeMessage.Release.{ReleasesField, pb_release_single_field, pb_release}
use logoguess.Nanopb.DecodeMessage.Values.{closed, call_decoder}
use logoguess.Nanopb.DecodeMessage.Fields.{skip_field}
use logoguess.Nanopb.DecodeMessage.Extensions.{
  Moved, decode_field, decode_extension, find_extension_field,
}
use logoguess.Nanopb.DecodeMessage.Required.{mark_seen, required_count, all_seen}
use logoguess.Nanopb.DecodeMessage.Rounds.{decode_body}

-- The local's memory ends with the call.
unfoldable pub remove_object : ℕ → Memory → Memory
remove_object p [] = []
remove_object p (object ∷ mem) = if object.base == p then mem else object ∷ remove_object p mem

abbrev without_local : ℕ → Result → Result
without_local slot fault = fault
without_local slot overrun = overrun
without_local slot (returned status s mem) = returned status s (remove_object slot mem)

abbrev with_local : ℕ → Memory → Memory
with_local slot mem = record { base = slot; bytes = 0 ∷ 0 ∷ 0 ∷ 0 ∷ [] } ∷ mem

module _ (program : DecodeProgram) where
  abbrev pub decode_or_release : ℕ → List PbField → ℕ → Result → Result
  decode_or_release depth fields dest_struct fault = fault
  decode_or_release depth fields dest_struct overrun = overrun
  decode_or_release depth fields dest_struct (returned true s mem) = returned true s mem
  decode_or_release depth fields dest_struct (returned false s mem) =
      with_some (pb_release program depth fields dest_struct mem)
        (λ mem' s' _. returned false s' mem') s mem

  -- pb_decode, over a pb_decode_noinit.
  unfoldable pub decode_message : DecodesMessage → ℕ → DecodesMessage
  decode_message noinit depth fields dest_struct =
      stored (pb_message_set_to_defaults program depth fields dest_struct) >> λ s mem.
      decode_or_release depth fields dest_struct (noinit fields dest_struct s mem)

  -- pb_decode_noinit, for messages nested less than `depth` deep.
  unfoldable pub pb_decode_noinit : ℕ → DecodesMessage
  unfolding decode_body decode_message remove_object
  pb_decode_noinit zero fields dest_struct s mem = overrun
  pb_decode_noinit (suc depth) fields dest_struct s mem =
      let slot = program.fixed_count_size_at depth in
      let noinit = pb_decode_noinit depth in
      without_local slot (
        decode_body program (pb_field_set_to_default program depth)
          (pb_release_single_field program depth)
          (call_decoder program (decode_message noinit depth) noinit) slot fields dest_struct s
          (with_local slot mem))

  unfoldable pub pb_decode : ℕ → DecodesMessage
  unfolding decode_message pb_decode_noinit
  pb_decode depth = decode_message (pb_decode_noinit depth) depth

  -- pb_decode_delimited_noinit and pb_decode_delimited, over the function for the substream.
  unfoldable pub decode_delimited : DecodesMessage → DecodesMessage
  decode_delimited decode fields dest_struct s mem =
      decoded (pb_make_string_substream s) mem
        λ sub s' mem'. closed s' (decode fields dest_struct sub mem')

  unfoldable pub pb_decode_delimited_noinit : ℕ → DecodesMessage
  unfolding decode_delimited pb_decode_noinit
  pb_decode_delimited_noinit depth = decode_delimited (pb_decode_noinit depth)

  unfoldable pub pb_decode_delimited : ℕ → DecodesMessage
  unfolding decode_delimited pb_decode
  pb_decode_delimited depth = decode_delimited (pb_decode depth)

  unfoldable pub pb_decode_nullterminated : ℕ → DecodesMessage
  unfolding pb_decode
  pb_decode_nullterminated = pb_decode
