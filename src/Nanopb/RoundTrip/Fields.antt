-- ===== src/Nanopb/RoundTrip/Fields.antt =====
-- The pb_enc_ and pb_dec_ functions of the integer field types, as pairs.
use native.Mathlib.Nat.{mod-eq_of_lt}
use logoguess.Common.{ℕ, ◌+◌, ◌%◌, ◌^◌, ◌<◌, ◌≡◌, if◌then◌else◌, ltb, Option, some}
use logoguess.Common.{List, ◌++◌, length, ◌∙◌, lt→ltb}
use logoguess.Common.Int.{ℤ, to_signed, to_unsigned, IsInt}
use logoguess.Nanopb.Errors.{PbError, integer_too_large}
use logoguess.Nanopb.Field.{PbField}
use logoguess.Nanopb.IStream.{done, return_error}
use logoguess.Nanopb.IStream.Reads.{over}
use logoguess.Nanopb.OStream.{OStream}
use logoguess.Nanopb.RoundTrip.{Refills}
use logoguess.Nanopb.OStream.Room.{HasRoom}
use logoguess.Nanopb.Encode.{zigzag, pb_encode_svarint}
use logoguess.Nanopb.Encode.Varint.{varint64, pb_encode_varint-Emits}
use logoguess.Nanopb.EncodeScalar.{pb_enc_varint, pb_enc_uvarint, pb_enc_svarint}
use logoguess.Nanopb.Wire.Varint.{pb_decode_varint-varint}
use logoguess.Nanopb.DecodeScalar.{int_width, pb_dec_varint, pb_dec_uvarint, pb_dec_svarint}
use logoguess.Nanopb.DecodeScalar.{pb_decode_svarint}
use logoguess.Nanopb.RoundTrip.Signed.{
  int_width-Narrows, is_int, clamp_signed_lem, clamp_signed_fits, clamp_signed_low_half,
}
use logoguess.Nanopb.RoundTrip.Signed.{clamp_unsigned_lem, signed_value-to_unsigned, to_unsigned-lt}
use logoguess.Nanopb.RoundTrip.Signed.{zigzag-lt, unzigzag-zigzag}

-- On the varint of a uint64_t, pb_dec_uvarint stores it cut to the field's width, and returns true
-- exactly if nothing was cut off, "integer too large" otherwise.
pub pb_dec_uvarint_lem :
    (field : PbField) (w v : ℕ) (mem : List ℕ) (n : ℕ) (e : Option PbError)
    → int_width field.data_size ≡ some w
    → v < 2 ^ 64
    → pb_dec_uvarint field (over (varint64 v ++ mem) (length (varint64 v) + n) e) ≡ (
      if ltb v (2 ^ w)
          then done tt (over mem n e)
          else return_error integer_too_large (over mem n e),
      some (v % 2 ^ w),
    )
unfolding pb_dec_uvarint
pb_dec_uvarint_lem field w v mem n e hw hv =
    rw (pb_decode_varint-varint v mem n e hv, clamp_unsigned_lem field.data_size w v _ hw)

-- On the varint of the zigzag number of an int64_t, pb_dec_svarint stores the integer cut to the
-- field's width, and returns true exactly if nothing was cut off, "integer too large" otherwise.
pub pb_dec_svarint_lem :
    (field : PbField) (w : ℕ) (i : ℤ) (mem : List ℕ) (n : ℕ) (e : Option PbError)
    → int_width field.data_size ≡ some w
    → IsInt 64 i
    → pb_dec_svarint field (over (varint64 (zigzag i) ++ mem) (length (varint64 (zigzag i)) + n) e)
      ≡ (
        if is_int w i
            then done tt (over mem n e)
            else return_error integer_too_large (over mem n e),
        some (to_signed w (to_unsigned 64 i)),
      )
unfolding pb_dec_svarint pb_decode_svarint
pb_dec_svarint_lem field w i mem n e hw hi =
    rw (pb_decode_varint-varint (zigzag i) mem n e (zigzag-lt i hi), unzigzag-zigzag i hi)
      (clamp_signed_lem field.data_size w i _ hw hi)

-- A signed integer field of eight, four, two or one bytes: pb_enc_varint writes its value to a
-- stream with room for it, and pb_dec_varint stores it again and returns true.
pub pb_enc_varint-Refills :
    (field : PbField) (w : ℕ) (i : ℤ) (s : OStream) (mem : List ℕ) (n : ℕ) (e : Option PbError)
    → int_width field.data_size ≡ some w
    → IsInt w i
    → HasRoom (length (varint64 (to_unsigned 64 i))) s
    → Refills
        (pb_enc_varint field i)
        (pb_dec_varint field)
        (varint64 (to_unsigned 64 i))
        i
        s
        mem
        n
        e
unfolding pb_enc_varint pb_dec_varint
pb_enc_varint-Refills field w i s mem n e hw hi room = (
  rw (hw, pb_enc_varint) (pb_encode_varint-Emits (to_unsigned 64 i) (to_unsigned-lt i) s room),
  rw (
    pb_decode_varint-varint (to_unsigned 64 i) mem n e (to_unsigned-lt i),
    signed_value-to_unsigned field.data_size w i hw hi,
    clamp_signed_fits field.data_size w i (over mem n e) hw hi,
  ),
)

-- A zigzag field of eight, four, two or one bytes: pb_enc_svarint writes its value to a stream with
-- room for it, and pb_dec_svarint stores it again and returns true.
pub pb_enc_svarint-Refills :
    (field : PbField) (w : ℕ) (i : ℤ) (s : OStream) (mem : List ℕ) (n : ℕ) (e : Option PbError)
    → int_width field.data_size ≡ some w
    → IsInt w i
    → HasRoom (length (varint64 (zigzag i))) s
    → Refills (pb_enc_svarint field i) (pb_dec_svarint field) (varint64 (zigzag i)) i s mem n e
unfolding pb_enc_svarint pb_dec_svarint pb_encode_svarint pb_decode_svarint
pb_enc_svarint-Refills field w i s mem n e hw hi room =
    let wide = (int_width-Narrows field.data_size w hw).widens i hi in
    (
      rw (hw, pb_enc_svarint) (pb_encode_varint-Emits (zigzag i) (zigzag-lt i wide) s room),
      rw (
        pb_decode_varint-varint (zigzag i) mem n e (zigzag-lt i wide),
        unzigzag-zigzag i wide,
        clamp_signed_fits field.data_size w i (over mem n e) hw hi,
      ),
    )

-- An unsigned field of eight, four, two or one bytes: pb_enc_uvarint writes its value to a stream
-- with room for it, and pb_dec_uvarint stores it again and returns true.
pub pb_enc_uvarint-Refills :
    (field : PbField) (w v : ℕ) (s : OStream) (mem : List ℕ) (n : ℕ) (e : Option PbError)
    → int_width field.data_size ≡ some w
    → v < 2 ^ w
    → v < 2 ^ 64
    → HasRoom (length (varint64 v)) s
    → Refills (pb_enc_uvarint field v) (pb_dec_uvarint field) (varint64 v) v s mem n e
unfolding pb_enc_uvarint
pb_enc_uvarint-Refills field w v s mem n e hw hv wide room = (
  rw (hw, pb_enc_uvarint) (pb_encode_varint-Emits v wide s room),
  pb_dec_uvarint_lem field w v mem n e hw wide ∙ rw (lt→ltb v (2 ^ w) hv, mod-eq_of_lt hv),
)

-- On the varint of any uint64_t, pb_dec_varint of a field of four bytes stores the low half and
-- returns true: it finds no value too large.
pub pb_dec_varint-never_too_large :
    (field : PbField) (v : ℕ) (mem : List ℕ) (n : ℕ) (e : Option PbError)
    → field.data_size ≡ 4
    → v < 2 ^ 64
    → pb_dec_varint field (over (varint64 v ++ mem) (length (varint64 v) + n) e)
      ≡ (done tt (over mem n e), some (to_signed 32 v))
unfolding pb_dec_varint
pb_dec_varint-never_too_large field v mem n e hs hv = rw (
  pb_decode_varint-varint v mem n e hv,
  clamp_signed_low_half field.data_size v (over mem n e) hs,
)
