-- ===== src/Nanopb/Encode/Safe.antt =====
-- The encoders of one value, and of scalar fields, on a stream over a buffer.
use native.Mathlib.Nat.{mod-lt}
use logoguess.Common.{ℕ, ◌*◌, ◌^◌, ◌≤◌, ◌<◌, arith, ◌==◌, ◌||◌}
use logoguess.Common.{List, length}
use logoguess.Common.Bits.{bit_or-lt}
use logoguess.Nanopb.Errors.{invalid_field_type}
use logoguess.Nanopb.Field.{PbField, ltype, ltype_bool, ltype_varint, ltype_uvarint, ltype_svarint}
use logoguess.Nanopb.Field.{ltype_fixed32, ltype_fixed64, ltype_bytes, ltype_string}
use logoguess.Nanopb.Field.{ltype_submessage, ltype_fixed_length_bytes}
use logoguess.Nanopb.OStream.{OStream, pb_write}
use logoguess.Nanopb.OStream.Safe.{
  IsBuffer, Sends, Sends-then, Sends-choose, Sends-error, pb_write-Sends,
}
use logoguess.Nanopb.Encode.{
  pb_encode_varint, pb_encode_fixed32, pb_encode_fixed64, pb_encode_tag, pb_encode_tag_for_field,
  pb_encode_string,
}
use logoguess.Nanopb.Encode.Varint.{varint64, pb_encode_varint-varint, length-varint}

pb_encode_varint-Sends :
    (v : ℕ) (s : OStream) → v < 2 ^ 64 → IsBuffer s → Sends s (pb_encode_varint v s)
pb_encode_varint-Sends v s hv h =
    rw (pb_encode_varint-varint v s hv)
      (pb_write-Sends (varint64 v) _ s (omega arith) (omega (arith, length-varint 9 v)) h)

pb_encode_fixed32-Sends : (v : ℕ) (s : OStream) → IsBuffer s → Sends s (pb_encode_fixed32 v s)
unfolding pb_encode_fixed32
pb_encode_fixed32-Sends v s h = pb_write-Sends _ 4 s (omega arith) (omega arith) h

pb_encode_fixed64-Sends : (v : ℕ) (s : OStream) → IsBuffer s → Sends s (pb_encode_fixed64 v s)
unfolding pb_encode_fixed64
pb_encode_fixed64-Sends v s h = pb_write-Sends _ 8 s (omega arith) (omega arith) h

pb_encode_tag-Sends :
    (wiretype field_number : ℕ) (s : OStream)
    → wiretype < 8
    → IsBuffer s
    → Sends s (pb_encode_tag wiretype field_number s)
unfolding pb_encode_tag
pb_encode_tag-Sends wiretype field_number s hw h =
    pb_encode_varint-Sends _ s
      (bit_or-lt 64 _ wiretype (mod-lt (field_number * 2 ^ 3) (omega arith)) (omega arith)) h

-- pb_encode_tag_for_field of any field on any stream over a buffer: nothing written outside the
-- buffer or over what is there, what was added counted, and the first error message kept, also when
-- the type is invalid or the stream full.
pb_encode_tag_for_field-Sends :
    (field : PbField) (s : OStream) → IsBuffer s → Sends s (pb_encode_tag_for_field field s)
unfolding pb_encode_tag_for_field
pb_encode_tag_for_field-Sends field s h =
    let t : ℕ = ltype field.type in
    Sends-choose
      ((t == ltype_bool || t == ltype_varint) || (t == ltype_uvarint || t == ltype_svarint)) _ _
      (λ _. pb_encode_tag-Sends 0 field.tag s (omega arith) h)
      (λ _.
        Sends-choose (t == ltype_fixed32) _ _
          (λ _. pb_encode_tag-Sends 5 field.tag s (omega arith) h)
          (λ _.
            Sends-choose (t == ltype_fixed64) _ _
              (λ _. pb_encode_tag-Sends 1 field.tag s (omega arith) h)
              (λ _.
                Sends-choose
                  ((t == ltype_bytes || t == ltype_string)
                    || (t == ltype_submessage || t == ltype_fixed_length_bytes))
                  _ _ (λ _. pb_encode_tag-Sends 2 field.tag s (omega arith) h)
                  (λ _. Sends-error invalid_field_type h))))

-- pb_encode_string of `size` bytes that stand in `buffer`, on any stream over a buffer: nothing
-- written outside the stream's buffer or over what is there, what was added counted, and the first
-- error message kept, also when the stream is full.
pb_encode_string-Sends :
    (buffer : List ℕ) (size : ℕ) (s : OStream)
    → size ≤ length buffer
    → size < 2 ^ 64
    → IsBuffer s
    → Sends s (pb_encode_string buffer size s)
unfolding pb_encode_string
pb_encode_string-Sends buffer size s hb hs h =
    Sends-then (pb_write buffer size) (pb_encode_varint-Sends size s hs h)
      λ t ht. pb_write-Sends buffer size t hb hs ht
