-- ===== src/Nanopb/Encode.antt =====
-- The helpers of pb_encode.c that write one value: varints, zigzag, fixed widths, tags, strings.
pub mod Safe
pub mod Varint
use mathlib.Core.Option
use logoguess.Common.{ℕ, zero, suc, ◌+◌, ◌-◌, ◌*◌, ◌/◌, ◌%◌, ◌^◌, bit_and, bit_or, ltb, leb, ◌==◌}
use logoguess.Common.{if◌then◌else◌, Bool, true, false, ◌||◌, Option, none, some}
use logoguess.Common.{List, [], ◌∷◌, length}
use logoguess.Common.Int.{ℤ, pos, negsuc, to_unsigned}
use logoguess.Nanopb.Errors.{PbError, invalid_field_type}
use logoguess.Nanopb.Field.{PbField, ltype, ltype_bool, ltype_varint, ltype_uvarint, ltype_svarint}
use logoguess.Nanopb.Field.{ltype_fixed32, ltype_fixed64, ltype_bytes, ltype_string}
use logoguess.Nanopb.Field.{ltype_submessage, ltype_fixed_length_bytes}
use logoguess.Nanopb.Wire.{wt_varint, wt_64bit, wt_string, wt_32bit}
use logoguess.Nanopb.OStream.{
  OStream, Emitted, Encoder, fault, and_then, ◌>>◌, return_error, pb_write,
}

-- The while loop of pb_encode_varint: what it stores in `buffer`, which holds ten bytes. None if it
-- would store more.
unfoldable pub varint_groups : ℕ → ℕ → Option (List ℕ)
varint_groups zero value = if value == 0 then some [] else none
varint_groups (suc room) value =
    let byte : ℕ = bit_or (bit_and value 0x7f) 0x80 % 256 in
    let more = Option.map (λ rest. byte ∷ rest) (varint_groups room (value / 128)) in
    if value == 0 then some [] else more

-- `buffer[i-1] &= 0x7F`.
unfoldable pub clear_last : List ℕ → List ℕ
clear_last [] = []
clear_last (byte ∷ []) = bit_and byte 0x7f ∷ []
clear_last (byte ∷ next ∷ rest) = byte ∷ clear_last (next ∷ rest)

unfoldable pub pb_encode_varint : ℕ → Encoder
pb_encode_varint value s =
    if leb value 0x7f then pb_write (value % 256 ∷ []) 1 s else elim (varint_groups 10 value) [
      | none ↦ fault
      | some stored ↦ pb_write (clear_last stored) (length stored) s
    ]

-- `~x` on 64 bits.
abbrev pub invert : ℕ → ℕ
invert x = 2 ^ 64 - 1 - x

unfoldable pub zigzag : ℤ → ℕ
zigzag (negsuc n) = invert (to_unsigned 64 (negsuc n) * 2 % 2 ^ 64)
zigzag (pos n) = to_unsigned 64 (pos n) * 2 % 2 ^ 64

unfoldable pub pb_encode_svarint : ℤ → Encoder
pb_encode_svarint value = pb_encode_varint (zigzag value)

-- `(pb_byte_t)((val >> shift) & 0xFF)`.
abbrev pub byte_at : ℕ → ℕ → ℕ
byte_at val shift = bit_and (val / 2 ^ shift) 0xff

unfoldable pub pb_encode_fixed32 : ℕ → Encoder
pb_encode_fixed32 val =
    pb_write (byte_at val 0 ∷ byte_at val 8 ∷ byte_at val 16 ∷ byte_at val 24 ∷ []) 4

unfoldable pub pb_encode_fixed64 : ℕ → Encoder
pb_encode_fixed64 val =
    pb_write
      (byte_at val 0
        ∷ byte_at val 8
        ∷ byte_at val 16
        ∷ byte_at val 24
        ∷ byte_at val 32
        ∷ byte_at val 40
        ∷ byte_at val 48
        ∷ byte_at val 56
        ∷ [])
      8

unfoldable pub pb_encode_tag : ℕ → ℕ → Encoder
pb_encode_tag wiretype field_number =
    pb_encode_varint (bit_or (field_number * 2 ^ 3 % 2 ^ 64) wiretype)

unfoldable pub pb_encode_tag_for_field : PbField → Encoder
unfolding pb_encode_tag
pb_encode_tag_for_field field =
    let t = ltype field.type in
    if (t == ltype_bool || t == ltype_varint) || (t == ltype_uvarint || t == ltype_svarint)
    then pb_encode_tag wt_varint field.tag
    else if t == ltype_fixed32
    then pb_encode_tag wt_32bit field.tag
    else if t == ltype_fixed64
    then pb_encode_tag wt_64bit field.tag
    else if (t == ltype_bytes || t == ltype_string)
        || (t == ltype_submessage || t == ltype_fixed_length_bytes)
    then pb_encode_tag wt_string field.tag
    else return_error invalid_field_type

-- pb_encode_string, of `size` bytes from `buffer` on.
unfoldable pub pb_encode_string : List ℕ → ℕ → Encoder
pb_encode_string buffer size = pb_encode_varint size >> pb_write buffer size
