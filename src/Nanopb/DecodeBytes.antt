-- ===== src/Nanopb/DecodeBytes.antt =====
-- pb_dec_bytes of pb_decode.c, for fields in the struct and behind a pointer.
pub mod Bounds
use logoguess.Common.{ℕ, ◌+◌, ◌-◌, ◌%◌, ◌^◌, ltb, ◌==◌, if◌then◌else◌}
use logoguess.Common.{Option, none, some, List}
use logoguess.Nanopb.Errors.{bytes_overflow, size_too_large}
use logoguess.Nanopb.IStream.{IStream, done, failed, fault, buffer, return_error, pb_read}
use logoguess.Nanopb.Wire.{pb_decode_varint32}
use logoguess.Nanopb.DecodeScalar.{Stored, store_from}
use logoguess.Nanopb.Field.{PbField, atype, atype_pointer, bytes_offset}
use logoguess.Nanopb.Allocate.{Realloc, allocate_field}
use logoguess.Nanopb.DecodeString.{put_bytes, put_result}
use logoguess.Nanopb.Memory.{to_bytes}

-- The read into the array whose size was stored. A callback that fails leaves its bytes as they were.
unfoldable pub read_array : ℕ → List ℕ → IStream → Stored (List ℕ)
unfolding put_bytes
read_array size dest s = elim (pb_read buffer size s) [
  | done bytes t ↦ put_result (done tt t) (put_bytes bytes_offset bytes dest)
  | failed t ↦ put_result (failed t) (some dest)
  | fault ↦ (fault, none)
]

-- `bdest->size = size`, and the read.
unfoldable pub read_bytes_array : ℕ → List ℕ → IStream → Stored (List ℕ)
unfolding put_bytes read_array
read_bytes_array size dest s = elim (put_bytes 0 (to_bytes 4 size) dest) [
  | none ↦ (fault, none)
  | some bdest ↦ read_array size bdest s
]

-- A field in the struct: `dest` is its memory.
unfoldable pub read_static_bytes : ℕ → ℕ → ℕ → Option (List ℕ) → IStream → Stored (List ℕ)
unfolding read_bytes_array
read_static_bytes data_size size alloc_size dest s =
    if ltb data_size alloc_size
    then (return_error bytes_overflow s, none)
    else elim dest [ none ↦ (fault, none) | some block ↦ read_bytes_array size block s ]

-- pb_dec_bytes: `dest` is the memory of the field, or the block behind its pointer, none for NULL.
-- What is stored is that memory afterwards, or the new block: a pb_bytes_array_t.
unfoldable pub pb_dec_bytes : Realloc → PbField → Option (List ℕ) → IStream → Stored (List ℕ)
unfolding read_static_bytes read_bytes_array
pb_dec_bytes pb_realloc field dest s = store_from (pb_decode_varint32 s) λ size s'.
    let alloc_size : ℕ = (size + bytes_offset) % 2 ^ 64 in
    if ltb (2 ^ 32 - 1) size
    then (return_error bytes_overflow s', none)
    else if ltb alloc_size size
    then (return_error size_too_large s', none)
    else if atype field.type == atype_pointer
    then (store_from (allocate_field pb_realloc dest alloc_size 1 s')
        λ block t. read_bytes_array size block t)
    else read_static_bytes field.data_size size alloc_size dest s'
