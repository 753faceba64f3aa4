-- ===== src/Nanopb/Encode/Varint.antt =====
-- pb_encode_varint against a description of the varint format.
use logoguess.Common.{ℕ, zero, suc, ◌+◌, ◌/◌, ◌%◌, ◌^◌, ◌≤◌, ◌<◌, ◌≡◌, refl, ap, ◌∙◌, arith}
use logoguess.Common.{bit_and, bit_or, ltb, leb, if◌then◌else◌, some, Bool-cases}
use logoguess.Common.{ltb→lt, lt→ltb, ltb-false→le, leb→le, leb-false→lt, ge→ltb}
use logoguess.Common.{List, [], ◌∷◌, length, inl, inr}
use logoguess.Common.Bits.{low_seven, set_top_bit}
use native.Mathlib.Nat.{pow-suc}
use logoguess.Nanopb.OStream.{OStream, pb_write}
use logoguess.Nanopb.OStream.Room.{Emits, pb_write-Emits}
use logoguess.Nanopb.Encode.{varint_groups, clear_last, pb_encode_varint}

-- The varint of `v`, where `more` bytes may follow the first: seven bits a byte, the lowest first,
-- and 128 added to every byte but the last.
unfoldable pub varint : ℕ → ℕ → List ℕ
varint zero v = v ∷ []
varint (suc more) v =
    let tail = varint more (v / 128) in if ltb v 128 then v ∷ [] else (v % 128 + 128) ∷ tail

-- The varint of a uint64_t takes ten bytes at most.
abbrev pub varint64 : ℕ → List ℕ
varint64 = varint 9

stored_byte : (v : ℕ) → bit_or (bit_and v 0x7f) 0x80 % 256 ≡ v % 128 + 128
stored_byte v = omega (
  arith,
  low_seven v,
  ap (λ (t : ℕ). bit_or t 0x80) (low_seven v),
  set_top_bit (v % 128) (omega arith),
)

last_byte : (v : ℕ) → v < 128 → bit_and (v % 128 + 128) 0x7f ≡ v
last_byte v h = omega (arith, low_seven (v % 128 + 128))

-- What the loop stores: every byte has the top bit.
stored : ℕ → ℕ → List ℕ
stored zero v = (v % 128 + 128) ∷ []
stored (suc more) v =
    let tail = stored more (v / 128) in (v % 128 + 128) ∷ (if ltb v 128 then [] else tail)

varint_groups-zero : (room : ℕ) → varint_groups room 0 ≡ some []
unfolding varint_groups
varint_groups-zero zero = refl
varint_groups-zero (suc room) = refl

varint_groups_next :
    (room v : ℕ) {rest : List ℕ}
    → 0 < v
    → varint_groups room (v / 128) ≡ some rest
    → varint_groups (suc room) v ≡ some ((v % 128 + 128) ∷ rest)
unfolding varint_groups
varint_groups_next room v p e = rw (e, stored_byte v) (ground arith)

varint_groups_last : (room v : ℕ) → v < 128 → varint_groups room (v / 128) ≡ some []
varint_groups_last room v h =
    let e : v / 128 ≡ 0 = omega arith in ap (varint_groups room) e ∙ varint_groups-zero room

pub below_pow : (more v : ℕ) → v < 128 ^ suc (suc more) → v / 128 < 128 ^ suc more
below_pow more v h = omega (arith, pow-suc 128 (suc more))

varint_groups-stored :
    (more v : ℕ) → 0 < v → v < 128 ^ suc more → varint_groups (suc more) v ≡ some (stored more v)
unfolding stored
varint_groups-stored zero v p h = varint_groups_next 0 v p (varint_groups_last 0 v (omega arith))
varint_groups-stored (suc more) v p h = elim (Bool-cases (ltb v 128)) [
  | inl small ↦
      rw small
        (varint_groups_next (suc more) v p (varint_groups_last (suc more) v (ltb→lt v 128 small)))
  | inr large ↦ rw large (
      varint_groups_next (suc more) v p (
        varint_groups-stored more (v / 128) (omega (arith, ltb-false→le v 128 large))
          (below_pow more v h)))
]

clear_one : (x : ℕ) → clear_last (x ∷ []) ≡ bit_and x 0x7f ∷ []
unfolding clear_last
clear_one x = refl

clear_last-cons : (x more v : ℕ) → clear_last (x ∷ stored more v) ≡ x ∷ clear_last (stored more v)
unfolding clear_last stored
clear_last-cons x zero v = refl
clear_last-cons x (suc more) v = refl

clear_last-stored : (more v : ℕ) → v < 128 ^ suc more → clear_last (stored more v) ≡ varint more v
unfolding stored varint
clear_last-stored zero v h = rw clear_one (ap (λ (t : ℕ). t ∷ []) (last_byte v (omega arith)))
clear_last-stored (suc more) v h = elim (Bool-cases (ltb v 128)) [
  | inl small ↦ rw (small, clear_one) (ap (λ (t : ℕ). t ∷ []) (last_byte v (ltb→lt v 128 small)))
  | inr large ↦
      rw (large, clear_last-cons)
        (ap (λ r. (v % 128 + 128) ∷ r) (clear_last-stored more (v / 128) (below_pow more v h)))
]

length-stored : (more v : ℕ) → length (stored more v) ≡ length (varint more v)
unfolding stored varint
length-stored zero v = refl
length-stored (suc more) v = ground (arith, length-stored more (v / 128))

pub varint_one : (more v : ℕ) → v < 128 → varint more v ≡ v ∷ []
unfolding varint
varint_one zero v h = refl
varint_one (suc more) v h = rw (lt→ltb v 128 h)

-- pb_encode_varint writes the varint of its value.
pub pb_encode_varint-varint :
    (v : ℕ) (s : OStream)
    → v < 2 ^ 64
    → pb_encode_varint v s ≡ pb_write (varint64 v) (length (varint64 v)) s
unfolding pb_encode_varint
pb_encode_varint-varint v s h = elim (Bool-cases (leb v 0x7f)) [
  | inl small ↦
      rw (small, varint_one 9 v (omega (arith, leb→le v 0x7f small)))
        (ap (λ (t : ℕ). pb_write (t ∷ []) 1 s) (omega (arith, leb→le v 0x7f small)))
  | inr large ↦ rw (
    large,
    varint_groups-stored 9 v (omega (arith, leb-false→lt v 0x7f large)) (omega arith),
    clear_last-stored 9 v (omega arith),
    length-stored 9 v,
  )
]

pub pb_encode_varint-Emits : (v : ℕ) → v < 2 ^ 64 → Emits (pb_encode_varint v) (varint64 v)
pb_encode_varint-Emits v h s room =
    pb_encode_varint-varint v s h ∙ pb_write-Emits (varint64 v) s room

-- A varint does not depend on how many bytes it may have, once they are enough.
pub varint_enough : (m more v : ℕ) → m ≤ more → v < 128 ^ suc m → varint more v ≡ varint m v
unfolding varint
varint_enough zero more v le h = varint_one more v (omega arith)
varint_enough (suc m) zero v le h = absurd (omega arith)
varint_enough (suc m) (suc more) v le h =
    ap (λ (t : List ℕ). if ltb v 128 then v ∷ [] else (v % 128 + 128) ∷ t)
      (varint_enough m more (v / 128) (omega arith) (below_pow m v h))

pub varint_cons :
    (more v : ℕ) → 128 ≤ v → varint (suc more) v ≡ (v % 128 + 128) ∷ varint more (v / 128)
unfolding varint
varint_cons more v h = rw (ge→ltb v 128 h)

pub length-varint_pos : (more v : ℕ) → 0 < length (varint more v)
unfolding varint
length-varint_pos zero v = omega arith
length-varint_pos (suc more) v = ground arith

pub length-varint : (more v : ℕ) → length (varint more v) ≤ suc more
unfolding varint
length-varint zero v = omega arith
length-varint (suc more) v = ground (arith, length-varint more (v / 128))
