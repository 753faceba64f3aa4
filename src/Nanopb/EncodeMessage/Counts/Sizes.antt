-- ===== src/Nanopb/EncodeMessage/Counts/Sizes.antt =====
-- The sizes that pb_get_encoded_size and pb_encode_submessage calculate.
use logoguess.Common.{
  ℕ, ge→ltb, ◌≤◌, ◌<◌, ◌+◌, ◌%◌, ◌^◌, ◌≡◌, refl, sym, ap, ◌∙◌, arith, ==_iff, true, none, some,
  List,
}
use logoguess.Nanopb.Field.{PbField}
use logoguess.Nanopb.OStream.{OStream, sent, has_callback, pb_ostream_sizing}
use logoguess.Nanopb.Encode.{pb_encode_varint}
use logoguess.Nanopb.Memory.{Memory}
use logoguess.Nanopb.Program.{EncodeProgram}
use logoguess.Nanopb.EncodeMessage.{pb_encode, pb_get_encoded_size}
use logoguess.Nanopb.EncodeMessage.Values.{close_submessage, pb_encode_submessage, write_submessage}
use logoguess.Nanopb.EncodeMessage.Counts.Values.{Counts-varint}
use logoguess.Nanopb.EncodeMessage.Counts.Message.{CallbacksCount, Counts-pb_encode}

-- If the user's functions write as many bytes each time they are called, and pb_encode returns true
-- on a stream with a callback that was not written to, then pb_get_encoded_size returns true and
-- gives the number of bytes that pb_encode wrote.
pub pb_get_encoded_size_lem :
    (program : EncodeProgram) (mem : Memory) (depth : ℕ) (fields : List PbField) (src : ℕ)
    (s t : OStream)
    → CallbacksCount program
    → has_callback s.callback ≡ true
    → s.bytes_written ≡ 0
    → pb_encode program mem depth fields src s ≡ sent t
    → pb_get_encoded_size program mem depth fields src ≡ some (some t.bytes_written)
unfolding pb_get_encoded_size pb_ostream_sizing
pb_get_encoded_size_lem program mem depth fields src s t callbacks hs fresh e =
    let c = Counts-pb_encode program mem callbacks depth fields src in
    let r = c.on_sizing s t pb_ostream_sizing hs refl e in
    let low = r.in_range (omega arith) in
    let low' = r.writing_in_range (omega arith) in
    let same : r.measured.bytes_written ≡ t.bytes_written = omega (arith, r.same_count) in
    rw r.returns (ap (λ (n : ℕ). some (some n)) same)

-- If the user's functions write as many bytes each time they are called, pb_encode_submessage never
-- finds that "submsg size changed": where the length and then the second run of pb_encode are
-- written to a stream with a callback and with room for them, it returns true, and counts the
-- length and as many bytes as the first run of pb_encode calculated.
pub pb_encode_submessage_lem :
    (program : EncodeProgram) (mem : Memory) (depth : ℕ) (fields : List PbField) (src : ℕ)
    (s t z sub : OStream)
    → CallbacksCount program
    → has_callback s.callback ≡ true
    → t.bytes_written + z.bytes_written ≤ t.max_size
    → t.max_size < 2 ^ 64
    → pb_encode program mem depth fields src pb_ostream_sizing ≡ sent z
    → pb_encode_varint z.bytes_written s ≡ sent t
    → pb_encode program mem depth fields src
        (record t { max_size = z.bytes_written; bytes_written = 0; errmsg = none })
      ≡ sent sub
    → pb_encode_submessage (pb_encode program mem depth) fields src s
      ≡ sent (record t {
        bytes_written = t.bytes_written + z.bytes_written;
        state = sub.state;
        room = sub.room;
        errmsg = sub.errmsg;
      })
unfolding pb_encode_submessage write_submessage close_submessage pb_ostream_sizing
pb_encode_submessage_lem program mem depth fields src s t z sub callbacks hs fits small first
      written second =
    let c = Counts-pb_encode program mem callbacks depth fields src in
    let v = (Counts-varint z.bytes_written).on_sizing s t pb_ostream_sizing hs refl written in
    let r =
      c.on_sizing (record t { max_size = z.bytes_written; bytes_written = 0; errmsg = none }) sub
        pb_ostream_sizing v.still_writing refl second in
    let low = r.in_range (omega arith) in
    let low' = r.writing_in_range (omega arith) in
    let is_first : r.measured.bytes_written ≡ z.bytes_written = bytes (sym r.returns ∙ first) in
    let same : sub.bytes_written ≡ z.bytes_written = omega (arith, r.same_count) in
    let sum : (t.bytes_written + z.bytes_written) % 2 ^ 64 ≡ t.bytes_written + z.bytes_written =
      omega arith in
    rw (
      first,
      written,
      v.still_writing,
      sum,
      ge→ltb t.max_size (t.bytes_written + z.bytes_written) fits,
      second,
      same,
      (==_iff z.bytes_written z.bytes_written).1 refl,
      sum,
    )
  where
    bytes : {a b : OStream} → sent a ≡ sent b → a.bytes_written ≡ b.bytes_written
    bytes e = cc e
