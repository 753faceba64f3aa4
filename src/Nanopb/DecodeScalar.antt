-- ===== src/Nanopb/DecodeScalar.antt =====
-- The scalar decoders of pb_decode.c: zigzag and fixed-width values, and the pb_dec_ functions of
-- the packable field types and of fixed_length_bytes.
pub mod Safe
pub mod SafeFields
use logoguess.Common.{
  ℕ, ◌+◌, ◌-◌, ◌*◌, ◌/◌, ◌%◌, ◌^◌, bit_and, bit_or, ltb, ◌==◌, if◌then◌else◌, not,
}
use logoguess.Common.{Bool, Option, none, some, List, [], get_or, replicate}
use logoguess.Common.Int.{ℤ, to_signed, to_unsigned, int_eq}
use logoguess.Nanopb.Errors.{invalid_data_size, integer_too_large, bytes_overflow}
use logoguess.Nanopb.Errors.{incorrect_fixed_length}
use logoguess.Nanopb.IStream.{
  IStream, Outcome, Decoder, done, failed, fault, pure, and_then, buffer,
}
use logoguess.Nanopb.IStream.{return_error, pb_read}
use logoguess.Nanopb.Wire.{pb_decode_varint, pb_decode_varint32}
use logoguess.Nanopb.Encode.{invert}
use logoguess.Nanopb.Field.{PbField}

-- `*dest` of pb_decode_svarint, for the varint that was read.
unfoldable pub unzigzag : ℕ → ℤ
unzigzag value =
    if bit_and value 1 == 0 then to_signed 64 (value / 2) else to_signed 64 (invert (value / 2))

unfoldable pub pb_decode_svarint : Decoder ℤ
pb_decode_svarint s = and_then (pb_decode_varint s) λ value s'. done (unzigzag value) s'

-- `(uint32_t)bytes[i] << shift`.
abbrev pub shifted32 : List ℕ → ℕ → ℕ → ℕ
shifted32 bytes i shift = get_or bytes i 0 * 2 ^ shift % 2 ^ 32

unfoldable pub word32 : List ℕ → ℕ
word32 bytes =
    bit_or (bit_or (bit_or (shifted32 bytes 0 0) (shifted32 bytes 1 8)) (shifted32 bytes 2 16))
      (shifted32 bytes 3 24)

unfoldable pub pb_decode_fixed32 : Decoder ℕ
pb_decode_fixed32 s = and_then (pb_read buffer 4 s) λ bytes s'. done (word32 bytes) s'

abbrev pub shifted64 : List ℕ → ℕ → ℕ → ℕ
shifted64 bytes i shift = get_or bytes i 0 * 2 ^ shift % 2 ^ 64

unfoldable pub word64 : List ℕ → ℕ
word64 bytes =
    let b01 = bit_or (shifted64 bytes 0 0) (shifted64 bytes 1 8) in
    let b03 = bit_or (bit_or b01 (shifted64 bytes 2 16)) (shifted64 bytes 3 24) in
    let b05 = bit_or (bit_or b03 (shifted64 bytes 4 32)) (shifted64 bytes 5 40) in
    bit_or (bit_or b05 (shifted64 bytes 6 48)) (shifted64 bytes 7 56)

unfoldable pub pb_decode_fixed64 : Decoder ℕ
pb_decode_fixed64 s = and_then (pb_read buffer 8 s) λ bytes s'. done (word64 bytes) s'

-- What a pb_dec_ function leaves: what it returns, and what it stored at `dest`, if anything. It
-- may store a value and then return false.
abbrev pub Stored : Type 0 → Type 0
Stored A = Outcome (Unit {0}) × Option A

abbrev pub store_from : {A B : Type 0} → Outcome A → (A → IStream → Stored B) → Stored B
store_from (done a s) f = f a s
store_from (failed s) f = (failed s, none)
store_from fault f = (fault, none)

unfoldable pub pb_dec_bool : IStream → Stored Bool
pb_dec_bool s = store_from (pb_decode_varint32 s) λ value s'. (done tt s', some (not (value == 0)))

unfoldable pub pb_decode_bool : IStream → Stored Bool
unfolding pb_dec_bool
pb_decode_bool s = pb_dec_bool s

-- The bits of the integer type that `data_size` selects.
unfoldable pub int_width : ℕ → Option ℕ
int_width size =
    if size == 8
    then some 64
    else if size == 4
    then some 32
    else if size == 2
    then some 16
    else if size == 1
    then some 8
    else none

-- Store the value through the type that `data_size` selects, and check that it fits.
unfoldable pub clamp_signed : ℕ → ℤ → IStream → Stored ℤ
clamp_signed size svalue s = elim (int_width size) [
  | none ↦ (return_error invalid_data_size s, none)
  | some w ↦
      let clamped = to_signed w (to_unsigned 64 svalue) in
      (if int_eq clamped svalue then done tt s else return_error integer_too_large s, some clamped)
]

unfoldable pub clamp_unsigned : ℕ → ℕ → IStream → Stored ℕ
clamp_unsigned size value s = elim (int_width size) [
  | none ↦ (return_error invalid_data_size s, none)
  | some w ↦
      let clamped : ℕ = value % 2 ^ w in
      (if clamped == value then done tt s else return_error integer_too_large s, some clamped)
]

-- `svalue` of pb_dec_varint: fields of 32 bits at most go through an int32_t.
unfoldable pub signed_value : ℕ → ℕ → ℤ
signed_value size value = if size == 8 then to_signed 64 value else to_signed 32 value

unfoldable pub pb_dec_varint : PbField → IStream → Stored ℤ
pb_dec_varint field s =
    store_from (pb_decode_varint s)
      λ value s'. clamp_signed field.data_size (signed_value field.data_size value) s'

unfoldable pub pb_dec_uvarint : PbField → IStream → Stored ℕ
pb_dec_uvarint field s =
    store_from (pb_decode_varint s) λ value s'. clamp_unsigned field.data_size value s'

unfoldable pub pb_dec_svarint : PbField → IStream → Stored ℤ
pb_dec_svarint field s =
    store_from (pb_decode_svarint s) λ value s'. clamp_signed field.data_size value s'

unfoldable pub pb_dec_fixed32 : IStream → Stored ℕ
pb_dec_fixed32 s = store_from (pb_decode_fixed32 s) λ value s'. (done tt s', some value)

unfoldable pub pb_dec_fixed64 : IStream → Stored ℕ
pb_dec_fixed64 s = store_from (pb_decode_fixed64 s) λ value s'. (done tt s', some value)

-- pb_dec_fixed_length_bytes: `dest` is an array of `data_size` bytes. A pb_size_t has 32 bits.
unfoldable pub pb_dec_fixed_length_bytes : PbField → IStream → Stored (List ℕ)
pb_dec_fixed_length_bytes field s = store_from (pb_decode_varint32 s) λ size s'.
    if ltb (2 ^ 32 - 1) size
    then (return_error bytes_overflow s', none)
    else if size == 0
    then (done tt s', some (replicate field.data_size 0))
    else if not (size == field.data_size)
    then (return_error incorrect_fixed_length s', none)
    else store_from (pb_read buffer field.data_size s') λ bytes t. (done tt t, some bytes)
