-- ===== src/Nanopb/Field.antt =====
-- Field descriptors: pb_field_t and the type nibbles of pb.h.
use logoguess.Common.{ℕ, bit_and}
use logoguess.Common.Int.{ℤ}

-- pb_field_t. `ptr` is an address, and 0 is NULL. `size_offset` is a pb_ssize_t.
pub record PbField : Type 0 where
  pub tag : ℕ
  pub type : ℕ
  pub data_offset : ℕ
  pub size_offset : ℤ
  pub data_size : ℕ
  pub array_size : ℕ
  pub ptr : ℕ

abbrev pub ltype_bool : ℕ
ltype_bool = 0x00

abbrev pub ltype_varint : ℕ
ltype_varint = 0x01

abbrev pub ltype_uvarint : ℕ
ltype_uvarint = 0x02

abbrev pub ltype_svarint : ℕ
ltype_svarint = 0x03

abbrev pub ltype_fixed32 : ℕ
ltype_fixed32 = 0x04

abbrev pub ltype_fixed64 : ℕ
ltype_fixed64 = 0x05

abbrev pub ltype_bytes : ℕ
ltype_bytes = 0x06

abbrev pub ltype_string : ℕ
ltype_string = 0x07

abbrev pub ltype_submessage : ℕ
ltype_submessage = 0x08

abbrev pub ltype_extension : ℕ
ltype_extension = 0x09

abbrev pub ltype_fixed_length_bytes : ℕ
ltype_fixed_length_bytes = 0x0a

abbrev pub htype_required : ℕ
htype_required = 0x00

abbrev pub htype_optional : ℕ
htype_optional = 0x10

abbrev pub htype_repeated : ℕ
htype_repeated = 0x20

abbrev pub htype_oneof : ℕ
htype_oneof = 0x30

abbrev pub atype_static : ℕ
atype_static = 0x00

abbrev pub atype_pointer : ℕ
atype_pointer = 0x80

abbrev pub atype_callback : ℕ
atype_callback = 0x40

-- PB_LTYPE, PB_HTYPE and PB_ATYPE.
abbrev pub ltype : ℕ → ℕ
ltype t = bit_and t 0x0f

abbrev pub htype : ℕ → ℕ
htype t = bit_and t 0x30

abbrev pub atype : ℕ → ℕ
atype t = bit_and t 0xc0

-- `offsetof(pb_bytes_array_t, bytes)`, behind a pb_size_t of 32 bits.
abbrev pub bytes_offset : ℕ
bytes_offset = 4
