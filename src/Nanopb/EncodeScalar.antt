-- ===== src/Nanopb/EncodeScalar.antt =====
-- The pb_enc_ functions of pb_encode.c for the scalar field types and for strings.
use mathlib.Core.Option
use logoguess.Common.{
  ℕ, zero, suc, ◌+◌, ◌-◌, ◌^◌, ltb, ◌==◌, if◌then◌else◌, ◌%◌, ◌&&◌, ◌||◌, Bool, true, false,
}
use logoguess.Common.{Option, none, some, List, [], ◌∷◌}
use logoguess.Common.Int.{ℤ, to_unsigned}
use logoguess.Nanopb.Errors.{invalid_data_size, bytes_size_exceeded}
use logoguess.Nanopb.OStream.{Encoder, fault, return_error}
use logoguess.Nanopb.Encode.{pb_encode_varint, pb_encode_svarint, pb_encode_fixed32}
use logoguess.Nanopb.Encode.{pb_encode_fixed64, pb_encode_string}
use logoguess.Nanopb.Field.{PbField, atype, atype_pointer, atype_static, bytes_offset}
use logoguess.Nanopb.DecodeScalar.{int_width}

-- safe_read_bool, over the bytes of a bool.
unfoldable pub safe_read_bool : List ℕ → Bool
safe_read_bool [] = false
safe_read_bool (b ∷ bytes) = if b == 0 then safe_read_bool bytes else true

unfoldable pub pb_enc_bool : List ℕ → Encoder
unfolding safe_read_bool
pb_enc_bool src = pb_encode_varint (if safe_read_bool src then 1 else 0)

-- `src` is the integer that stands there, read through the type that `data_size` selects.
unfoldable pub pb_enc_varint : PbField → ℤ → Encoder
pb_enc_varint field src = elim (int_width field.data_size) [
  | none ↦ return_error invalid_data_size
  | some w ↦ pb_encode_varint (to_unsigned 64 src)
]

unfoldable pub pb_enc_uvarint : PbField → ℕ → Encoder
pb_enc_uvarint field src = elim (int_width field.data_size) [
  | none ↦ return_error invalid_data_size
  | some w ↦ pb_encode_varint src
]

unfoldable pub pb_enc_svarint : PbField → ℤ → Encoder
pb_enc_svarint field src = elim (int_width field.data_size) [
  | none ↦ return_error invalid_data_size
  | some w ↦ pb_encode_svarint src
]

unfoldable pub pb_enc_fixed32 : ℕ → Encoder
pb_enc_fixed32 src = pb_encode_fixed32 src

unfoldable pub pb_enc_fixed64 : ℕ → Encoder
pb_enc_fixed64 src = pb_encode_fixed64 src

-- The loop of pb_enc_string over the memory from `src` on: the length, or none if it reads past
-- the memory. A round for each byte, and one for the end.
unfoldable pub string_length : ℕ → List ℕ → Option ℕ
string_length zero mem = some 0
string_length (suc max_size) [] = none
string_length (suc max_size) (b ∷ mem) =
    let more = Option.map suc (string_length max_size mem) in if b == 0 then some 0 else more

-- pb_enc_string of a pointer, which may be NULL, to the memory from there on.
unfoldable pub pb_enc_string : PbField → Option (List ℕ) → Encoder
pb_enc_string field none = pb_encode_string [] 0
pb_enc_string field (some src) =
    let max_size : ℕ = if atype field.type == atype_pointer then 2 ^ 64 - 1 else field.data_size in
    elim (string_length max_size src) [ none ↦ λ s. fault | some size ↦ pb_encode_string src size ]

-- pb_bytes_array_t: `bytes` is the memory from the array's first byte on.
pub record PbBytesArray : Type 0 where
  pub size : ℕ
  pub bytes : List ℕ

unfoldable pub pb_enc_bytes : PbField → Option PbBytesArray → Encoder
pb_enc_bytes field none = pb_encode_string [] 0
pb_enc_bytes field (some src) =
    let allocsize : ℕ = (src.size + bytes_offset) % 2 ^ 64 in
    if ltb allocsize src.size || atype field.type == atype_static && ltb field.data_size allocsize
    then return_error bytes_size_exceeded
    else pb_encode_string src.bytes src.size

unfoldable pub pb_enc_fixed_length_bytes : PbField → List ℕ → Encoder
pb_enc_fixed_length_bytes field src = pb_encode_string src field.data_size
