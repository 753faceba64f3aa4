-- ===== src/Nanopb/DecodeMessage/Required/Words.antt =====
-- A word whose bits are the members of a set of numbers.
use native.Mathlib.Nat.{pow-suc, one-le-pow, suc-add, zero-add, add-zero, add-suc}
use logoguess.Common.{
  ℕ, zero, suc, ◌+◌, ◌-◌, ◌*◌, ◌/◌, ◌%◌, ◌^◌, ◌≤◌, ◌<◌, ◌≡◌, refl, sym, ap, ◌∙◌, arith,
}
use logoguess.Common.{
  bit_or, ◌==◌, if◌then◌else◌, Bool, true, false, ◌&&◌, ◌||◌, Bool-cases, inl, inr,
}
use logoguess.Common.Bits.{bit_or-halves, zero-bit_or, bit_or_comm, mask_suc, div_suc}

-- The set of the `n` lowest bits, and whether it has all numbers below `n`.
unfoldable pub word_of : ℕ → (ℕ → Bool) → ℕ
word_of zero f = 0
word_of (suc n) f = (if f 0 then 1 else 0) + 2 * word_of n (λ i. f (suc i))

unfoldable pub all_below : ℕ → (ℕ → Bool) → Bool
all_below zero f = true
all_below (suc n) f = f 0 && all_below n (λ i. f (suc i))

abbrev pub add : ℕ → (ℕ → Bool) → ℕ → Bool
add i f j = (i == j) || f j

pub word_of_same :
    (n : ℕ) (f g : ℕ → Bool) → ((i : ℕ) → i < n → f i ≡ g i) → word_of n f ≡ word_of n g
unfolding word_of
word_of_same zero f g same = refl
word_of_same (suc n) f g same =
    rw
      (
        same 0 (omega arith),
        word_of_same n (λ i. f (suc i)) (λ i. g (suc i)) λ i h. same (suc i) (omega arith),
      )
      refl

word_of-lt : (n : ℕ) (f : ℕ → Bool) → word_of n f < 2 ^ n
unfolding word_of
word_of-lt zero f = omega arith
word_of-lt (suc n) f = elim (Bool-cases (f 0)) [
  | inl is ↦ rw is (omega (arith, pow-suc 2 n, word_of-lt n (λ i. f (suc i))))
  | inr isnt ↦ rw isnt (omega (arith, pow-suc 2 n, word_of-lt n (λ i. f (suc i))))
]

halves :
    (b : Bool) (w : ℕ)
    → let a : ℕ = (if b then 1 else 0) + 2 * w in (a / 2 ≡ w) × (a % 2 ≡ (if b then 1 else 0))
halves true w = omega arith
halves false w = omega arith

-- Setting bit `i` adds `i`.
pub bit_or-word_of :
    (n i : ℕ) (f : ℕ → Bool) → i < n → bit_or (word_of n f) (2 ^ i) ≡ word_of n (add i f)
unfolding word_of
bit_or-word_of zero i f h = absurd (omega arith)
bit_or-word_of (suc n) zero f h =
    let w = word_of n (λ i. f (suc i)) in
    let (half, low) = halves (f 0) w in
    let a : ℕ = (if f 0 then 1 else 0) + 2 * w in
    let e : bit_or (a / 2) 0 ≡ w =
      ap (λ (t : ℕ). bit_or t 0) half ∙ (bit_or_comm w 0 ∙ zero-bit_or w) in
    let same = word_of_same n (λ i. f (suc i)) (λ i. add 0 f (suc i)) λ i h. unlike i f in
    bit_or-halves a 1 ∙ omega (arith, e, below (f 0) low, same)
  where
    unlike : (i : ℕ) (f : ℕ → Bool) → f (suc i) ≡ add 0 f (suc i)
    unlike i f = ground arith

    below : (b : Bool) {t : ℕ} → t ≡ (if b then 1 else 0) → t ≤ 1
    below true e = omega (arith, e)
    below false e = omega (arith, e)
bit_or-word_of (suc n) (suc i) f h =
    let w = word_of n (λ i. f (suc i)) in
    let (half, low) = halves (f 0) w in
    let a : ℕ = (if f 0 then 1 else 0) + 2 * w in
    let (half', low') = doubled i in
    let e : bit_or (a / 2) (2 ^ suc i / 2) ≡ bit_or w (2 ^ i) =
      ap (λ (t : ℕ). bit_or t (2 ^ suc i / 2)) half ∙ ap (bit_or w) half' in
    let same =
      word_of_same n (add i (λ j. f (suc j))) (λ j. add (suc i) f (suc j)) λ j h. shifted i j f in
    bit_or-halves a (2 ^ suc i)
    ∙ omega
        (arith, e, low, low', bit_or-word_of n i (λ j. f (suc j)) (omega arith), same, first i f)
  where
    kept : (i : ℕ) (f : ℕ → Bool) → add (suc i) f 0 ≡ f 0
    kept i f = ground arith

    first :
        (i : ℕ) (f : ℕ → Bool)
        → ◌≡◌ {A = ℕ} (if add (suc i) f 0 then 1 else 0) (if f 0 then 1 else 0)
    first i f = ap {B = ℕ} (λ (b : Bool). if b then 1 else 0) (kept i f)

    doubled : (i : ℕ) → (2 ^ suc i / 2 ≡ 2 ^ i) × (2 ^ suc i % 2 ≡ 0)
    doubled i = omega (arith, pow-suc 2 i)

    shifted : (i j : ℕ) (f : ℕ → Bool) → add i (λ k. f (suc k)) j ≡ add (suc i) f (suc j)
    shifted i j f = ground arith

-- The word is all ones if the set has all numbers below `n`.
pub word_of-all_below : (n : ℕ) (f : ℕ → Bool) → (word_of n f == 2 ^ n - 1) ≡ all_below n f
unfolding word_of all_below
word_of-all_below zero f = refl
word_of-all_below (suc n) f = elim (Bool-cases (f 0)) [
  | inl is ↦ rw is (ones n (word_of n (λ i. f (suc i))) ∙ word_of-all_below n (λ i. f (suc i)))
  | inr isnt ↦ rw isnt (even n (word_of n (λ i. f (suc i))))
]
  where
    ones : (n w : ℕ) → (1 + 2 * w == 2 ^ suc n - 1) ≡ (w == 2 ^ n - 1)
    ones n w = ground (arith, pow-suc 2 n, one-le-pow n 2)

    even : (n w : ℕ) → (0 + 2 * w == 2 ^ suc n - 1) ≡ false
    even n w = ground (arith, pow-suc 2 n, one-le-pow n 2)

-- A set without the numbers from `r` on.
pub word_of_short :
    (r k : ℕ) (f : ℕ → Bool)
    → ((j : ℕ) → r ≤ j → j < r + k → f j ≡ false)
    → word_of (r + k) f ≡ word_of r f
unfolding word_of
word_of_short zero zero f missing = refl
word_of_short zero (suc k) f missing =
    let short =
      word_of_short zero k (λ i. f (suc i)) λ j h h'. missing (suc j) (omega arith) (omega arith) in
    ap (λ (t : ℕ). word_of t f) (zero-add (suc k))
    ∙ empty k f (missing 0 (omega arith) (omega arith))
        (sym (ap (λ (t : ℕ). word_of t (λ i. f (suc i))) (zero-add k)) ∙ short)
  where
    empty :
        (k : ℕ) (f : ℕ → Bool)
        → f 0 ≡ false
        → word_of k (λ i. f (suc i)) ≡ 0
        → word_of (suc k) f ≡ 0
    empty k f h e = rw (h, e) refl
word_of_short (suc r) k f missing =
    let short =
      word_of_short r k (λ i. f (suc i)) λ j h h'. missing (suc j) (omega arith) (omega arith) in
    rw (suc-add r k) (ap (λ (t : ℕ). (if f 0 then 1 else 0) + 2 * t) short)

-- `allbits >> k` for words of `r + k` bits.
pub ones_shifted : (r k : ℕ) → (2 ^ (r + k) - 1) / 2 ^ k ≡ 2 ^ r - 1
ones_shifted r zero = ap (λ (t : ℕ). (2 ^ t - 1) / 1) (add-zero r) ∙ over_one (2 ^ r - 1)
  where
    over_one : (a : ℕ) → a / 1 ≡ a
    over_one a = omega arith
ones_shifted r (suc k) =
    ap (λ (t : ℕ). (2 ^ t - 1) / 2 ^ suc k) (add-suc r k)
    ∙ (sym (div_suc k (2 ^ suc (r + k) - 1))
        ∙ (ap (λ (t : ℕ). t / 2 ^ k) ((mask_suc (r + k)).0) ∙ ones_shifted r k))

pub all_below_same :
    (n : ℕ) (f g : ℕ → Bool) → ((i : ℕ) → f i ≡ g i) → all_below n f ≡ all_below n g
unfolding all_below
all_below_same zero f g same = refl
all_below_same (suc n) f g same =
    rw (same 0, all_below_same n (λ i. f (suc i)) (λ i. g (suc i)) λ i. same (suc i)) refl

pub all_below_add :
    (n m : ℕ) (f : ℕ → Bool) → all_below (n + m) f ≡ (all_below n f && all_below m (λ i. f (n + i)))
unfolding all_below
all_below_add zero m f =
    ap (λ (t : ℕ). all_below t f) (zero-add m)
    ∙ all_below_same m f (λ i. f (0 + i)) λ i. ap f (sym (zero-add i))
all_below_add (suc n) m f = rw (suc-add n m) (
    ap (λ (b : Bool). f 0 && b) (all_below_add n m (λ i. f (suc i)))
    ∙ (and_assoc (f 0) (all_below n (λ i. f (suc i))) (all_below m (λ i. f (suc (n + i))))
        ∙ ap (λ (b : Bool). (f 0 && all_below n (λ i. f (suc i))) && b)
            (all_below_same m (λ i. f (suc (n + i))) (λ i. f (suc n + i))
              λ i. ap f (sym (suc-add n i)))))
  where
    and_assoc : (a b c : Bool) → (a && (b && c)) ≡ ((a && b) && c)
    and_assoc true b c = refl
    and_assoc false b c = refl
