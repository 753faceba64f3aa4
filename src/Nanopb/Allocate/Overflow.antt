-- ===== src/Nanopb/Allocate/Overflow.antt =====
-- The overflow check of allocate_field.
use native.Mathlib.Nat.{div-add-mod, mod-lt, mod-eq_of_lt}
use logoguess.Common.{
  ℕ, zero, suc, ◌-◌, ◌*◌, ◌/◌, ◌^◌, ◌≤◌, ◌<◌, ◌≡◌, refl, arith, ltb, leb, ◌==◌, if◌then◌else◌, ◌&&◌,
  ◌||◌, Bool, true, false, Bool-cases, inl, inr, ltb→lt, ltb-false→le, leb-false→lt,
}
use logoguess.Common.{Option, List}
use logoguess.Nanopb.Errors.{invalid_size, size_too_large}
use logoguess.Nanopb.IStream.{IStream, return_error}
use logoguess.Nanopb.Allocate.{Realloc, reallocate, too_large, allocate_field}

quotient_low : (n a d : ℕ) → 0 < a → d ≤ n / a → a * d ≤ n
quotient_low n a d h le = grind (arith, div-add-mod n a)

quotient_high : (n a d : ℕ) → 0 < a → n / a < d → n < a * d
quotient_high n a d h lt = grind (arith, div-add-mod n a, mod-lt n {m = a})

halves_fit : (a d : ℕ) → a < 2 ^ 32 → d < 2 ^ 32 → a * d < 2 ^ 64
halves_fit a d ha hd = grind arith

small_lem : (d a : ℕ) → 0 < a → a * d < 2 ^ 64 → too_large d a ≡ false
small_lem d a h fits = elim (Bool-cases (ltb ((2 ^ 64 - 1) / a) d)) [
  | inl over ↦
      let more = quotient_high (2 ^ 64 - 1) a d h (ltb→lt ((2 ^ 64 - 1) / a) d over) in
      absurd (omega arith)
  | inr under ↦ rw (under, too_large) (and_false _)
]
  where
    and_false : (b : Bool) → (b && false) ≡ false
    and_false true = refl
    and_false false = refl

large_lem : (d a : ℕ) → 0 < a → 2 ^ 64 ≤ a * d → too_large d a ≡ true
large_lem d a h over = elim (Bool-cases (leb (2 ^ 32) d || leb (2 ^ 32) a)) [
  | inl wide ↦ rw (wide, divided) refl
  | inr narrow ↦
      let (hd, ha) = both_low _ _ narrow in
      let less = halves_fit a d (leb-false→lt (2 ^ 32) a ha) (leb-false→lt (2 ^ 32) d hd) in
      absurd (omega arith)
]
  where
    both_low : (b c : Bool) → (b || c) ≡ false → (b ≡ false) × (c ≡ false)
    both_low true c e = cc e
    both_low false c e = (refl, e)

    divided : ltb ((2 ^ 64 - 1) / a) d ≡ true
    divided = elim (Bool-cases (ltb ((2 ^ 64 - 1) / a) d)) [
      | inl above ↦ above
      | inr below ↦
          let less = quotient_low (2 ^ 64 - 1) a d h (ltb-false→le ((2 ^ 64 - 1) / a) d below) in
          absurd (omega arith)
    ]

-- allocate_field rejects a size of zero, and sizes whose product does not fit a size_t, and only
-- these: else it asks pb_realloc for exactly their product, which was not cut off.
pub allocate_field_lem :
    (pb_realloc : Realloc) (ptr : Option (List ℕ)) (data_size array_size : ℕ) (s : IStream)
    → allocate_field pb_realloc ptr data_size array_size s ≡ (
        if data_size == 0 || array_size == 0
        then return_error invalid_size s
        else if ltb (array_size * data_size) (2 ^ 64)
        then reallocate pb_realloc ptr (array_size * data_size) s
        else return_error size_too_large s)
unfolding allocate_field
allocate_field_lem pb_realloc ptr d zero s = rw (or_true (d == 0))
  where
    or_true : (b : Bool) → (b || true) ≡ true
    or_true true = refl
    or_true false = refl
allocate_field_lem pb_realloc ptr d (suc a) s = elim (Bool-cases (ltb (suc a * d) (2 ^ 64))) [
  | inl fits ↦
      let lt = ltb→lt (suc a * d) (2 ^ 64) fits in
      rw (fits, small_lem d (suc a) (omega arith) lt, mod-eq_of_lt lt)
  | inr over ↦ rw (over, large_lem d (suc a) (omega arith) (ltb-false→le (suc a * d) (2 ^ 64) over))
]
