-- ===== src/Nanopb/Allocate.antt =====
-- The allocation of pointer fields in pb_decode.c: allocate_field.
pub mod Overflow
use logoguess.Common.{ℕ, ◌-◌, ◌*◌, ◌/◌, ◌%◌, ◌^◌, ltb, leb, ◌==◌, if◌then◌else◌, ◌&&◌, ◌||◌}
use logoguess.Common.{Bool, Option, none, some, List}
use logoguess.Nanopb.Errors.{invalid_size, size_too_large, realloc_failed}
use logoguess.Nanopb.IStream.{IStream, Outcome, done, return_error}

-- pb_realloc, which is realloc of the C library unless the build replaces it: the block at the
-- pointer, none for NULL, and the size that is asked for.
abbrev pub Realloc : Type 0
Realloc = Option (List ℕ) → ℕ → Option (List ℕ)

-- The call of pb_realloc: the new block, which the caller's pointer is set to, or the pointer stays.
unfoldable pub reallocate : Realloc → Option (List ℕ) → ℕ → IStream → Outcome (List ℕ)
reallocate pb_realloc ptr size s = elim (pb_realloc ptr size) [
  | none ↦ return_error realloc_failed s
  | some block ↦ done block s
]

-- Whether the sizes are rejected: the division is made only if one of them has more than half of the
-- bits of a size_t.
abbrev pub too_large : ℕ → ℕ → Bool
too_large data_size array_size =
    (leb (2 ^ 32) data_size || leb (2 ^ 32) array_size) && ltb ((2 ^ 64 - 1) / array_size) data_size

unfoldable pub allocate_field : Realloc → Option (List ℕ) → ℕ → ℕ → IStream → Outcome (List ℕ)
allocate_field pb_realloc ptr data_size array_size s =
    if data_size == 0 || array_size == 0
    then return_error invalid_size s
    else if too_large data_size array_size
    then return_error size_too_large s
    else reallocate pb_realloc ptr (array_size * data_size % 2 ^ 64) s
