-- ===== src/Nanopb/Memory.antt =====
-- The memory that the message level of nanopb works on: message structs, arrays behind pointers,
-- extensions and default values, at addresses of 64 bits. Numbers are little-endian.
pub mod Stored
use logoguess.Common.{ℕ, zero, suc, ◌+◌, ◌-◌, ◌*◌, ◌/◌, ◌%◌, ◌^◌, leb, if◌then◌else◌, ◌&&◌}
use logoguess.Common.{Bool, Option, none, some, List, [], ◌∷◌, ◌++◌, length, take, drop}

-- An object: bytes from an address on. No access reaches from one object into another.
pub record Object : Type 0 where
  pub base : ℕ
  pub bytes : List ℕ

abbrev pub Memory : Type 0
Memory = List Object

-- NULL.
abbrev pub null : ℕ
null = 0

-- `(char*)pointer + offset`.
abbrev pub plus : ℕ → ℕ → ℕ
plus p offset = (p + offset) % 2 ^ 64

module _ {A B : Type 0} where
  infixl 5 ◌>>=◌
  abbrev pub ◌>>=◌ : Option A → (A → Option B) → Option B
  none >>= f = none
  some a >>= f = f a

-- Whether the object holds `count` bytes at `p`.
abbrev pub holds : Object → ℕ → ℕ → Bool
holds object count p = leb object.base p && leb (p + count) (object.base + length object.bytes)

-- The `count` bytes at `p`.
unfoldable pub load : ℕ → ℕ → Memory → Option (List ℕ)
load count p [] = none
load count p (object ∷ mem) =
    let rest = load count p mem in
    if holds object count p then some (take count (drop (p - object.base) object.bytes)) else rest

-- The bytes from `p` to the end of its object.
unfoldable pub load_from : ℕ → Memory → Option (List ℕ)
load_from p [] = none
load_from p (object ∷ mem) =
    let rest = load_from p mem in
    if holds object 0 p then some (drop (p - object.base) object.bytes) else rest

abbrev pub overwrite : ℕ → List ℕ → Object → Object
overwrite offset bytes object = record object {
  bytes = take offset object.bytes ++ (bytes ++ drop (offset + length bytes) object.bytes);
}

-- Store the bytes at `p`.
unfoldable pub store : List ℕ → ℕ → Memory → Option Memory
store bytes p [] = none
store bytes p (object ∷ mem) =
    let rest = store bytes p mem >>= λ mem'. some (object ∷ mem') in
    if holds object (length bytes) p
    then some (overwrite (p - object.base) bytes object ∷ mem)
    else rest

unfoldable pub little_endian : List ℕ → ℕ
little_endian [] = 0
little_endian (b ∷ bytes) = b % 256 + 256 * little_endian bytes

unfoldable pub to_bytes : ℕ → ℕ → List ℕ
to_bytes zero v = []
to_bytes (suc count) v = v % 256 ∷ to_bytes count (v / 256)

-- A number of `count` bytes.
abbrev pub load_number : ℕ → ℕ → Memory → Option ℕ
load_number count p mem = load count p mem >>= λ bytes. some (little_endian bytes)

abbrev pub load_pointer : ℕ → Memory → Option ℕ
load_pointer = load_number 8

-- A pb_size_t.
abbrev pub load_size : ℕ → Memory → Option ℕ
load_size = load_number 4

abbrev pub store_number : ℕ → ℕ → ℕ → Memory → Option Memory
store_number count v = store (to_bytes count v)

-- The number of bytes of the memory, which bounds the length of a linked list in it.
unfoldable pub memory_size : Memory → ℕ
memory_size [] = 0
memory_size (object ∷ mem) = length object.bytes + memory_size mem
