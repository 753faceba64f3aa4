-- ===== src/Nanopb/DecodeString.antt =====
-- pb_dec_string of pb_decode.c, for fields in the struct and behind a pointer.
pub mod Terminated
use logoguess.Common.{ℕ, suc, ◌+◌, ◌%◌, ◌^◌, ltb, leb, ◌==◌, if◌then◌else◌}
use logoguess.Common.{Option, none, some, List, [], ◌∷◌, ◌++◌, length, take, drop}
use logoguess.Nanopb.Errors.{size_too_large, string_overflow}
use logoguess.Nanopb.IStream.{IStream, Outcome, done, failed, fault, buffer, return_error, pb_read}
use logoguess.Nanopb.Wire.{pb_decode_varint32}
use logoguess.Nanopb.DecodeScalar.{Stored, store_from}
use logoguess.Nanopb.Field.{PbField, atype, atype_pointer}
use logoguess.Nanopb.Allocate.{Realloc, allocate_field}

-- Put the bytes into the memory at `dest`, from index `i` on. None outside of it.
unfoldable pub put_bytes : ℕ → List ℕ → List ℕ → Option (List ℕ)
put_bytes i bytes dest =
    if leb (i + length bytes) (length dest)
    then some (take i dest ++ (bytes ++ drop (i + length bytes) dest))
    else none

abbrev pub put_result : Outcome (Unit {0}) → Option (List ℕ) → Stored (List ℕ)
put_result r none = (fault, none)
put_result r (some dest) = (r, some dest)

-- The read into `dest` and the terminator, which is stored even if the read fails. A callback that
-- fails leaves `dest` as it was.
unfoldable pub read_string : ℕ → List ℕ → IStream → Stored (List ℕ)
unfolding put_bytes
read_string size dest s = elim (pb_read buffer size s) [
  | done bytes t ↦ put_result (done tt t) (put_bytes 0 (bytes ++ 0 ∷ []) dest)
  | failed t ↦ put_result (failed t) (put_bytes size (0 ∷ []) dest)
  | fault ↦ (fault, none)
]

-- A field in the struct: `dest` is its memory.
unfoldable pub read_static : ℕ → ℕ → ℕ → Option (List ℕ) → IStream → Stored (List ℕ)
unfolding read_string
read_static data_size size alloc_size dest s =
    if ltb data_size alloc_size
    then (return_error string_overflow s, none)
    else elim dest [ none ↦ (fault, none) | some block ↦ read_string size block s ]

-- pb_dec_string: `dest` is the memory of the field, or the block behind its pointer, none for NULL.
-- What is stored is that memory afterwards, or the new block.
unfoldable pub pb_dec_string : Realloc → PbField → Option (List ℕ) → IStream → Stored (List ℕ)
unfolding read_static read_string
pb_dec_string pb_realloc field dest s = store_from (pb_decode_varint32 s) λ size s'.
    let alloc_size : ℕ = (size + 1) % 2 ^ 32 in
    if ltb alloc_size size
    then (return_error size_too_large s', none)
    else if atype field.type == atype_pointer
    then (store_from (allocate_field pb_realloc dest alloc_size 1 s')
        λ block t. read_string size block t)
    else read_static field.data_size size alloc_size dest s'
