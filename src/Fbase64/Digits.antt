-- ===== src/Fbase64/Digits.antt =====
-- The alphabet of fbase64.c: every digit has its character, which is found again.
use mathlib.Core.Path.{subst}
use logoguess.Common.{
  ℕ, zero, suc, ◌+◌, ◌*◌, ◌/◌, ◌%◌, ◌<◌, ◌≡◌, refl, ap, arith, ltb, ◌==◌, ==_iff, ltb→lt,
  ltb-false→le,
}
use logoguess.Common.{Bool, true, false, not, ◌&&◌, Bool-cases, inl, inr, Option, none, some}
use logoguess.Common.Bits.{bit_and-mask}
use logoguess.Fbase64.{base64, pad64, digit, output1, output2, output3}
use logoguess.Fbase64.Scan.{isspace, strchr}

-- What the loop of f_b64_pton tests of a character.
pub record IsDigitChar (v ch : ℕ) : Type 0 where
  pub is_text : (ch == 0) ≡ false
  pub no_space : isspace ch ≡ false
  pub no_pad : (ch == pad64) ≡ false
  pub found : strchr base64 ch ≡ some v

abbrev is_some : Option ℕ → ℕ → Bool
is_some none v = false
is_some (some w) v = w == v

is_digit_char : ℕ → ℕ → Bool
is_digit_char v ch =
    (not (ch == 0) && not (isspace ch)) && (not (ch == pad64) && is_some (strchr base64 ch) v)

unfoldable pub all_below : ℕ → (ℕ → Bool) → Bool
all_below zero p = true
all_below (suc n) p = p n && all_below n p

both : (a b : Bool) → (a && b) ≡ true → (a ≡ true) × (b ≡ true)
both true true h = (refl, refl)
both true false h = cc h
both false b h = cc h

negated : (a : Bool) → not a ≡ true → a ≡ false
negated true h = cc h
negated false h = refl

pub all_below-lt : (n : ℕ) (p : ℕ → Bool) (i : ℕ) → all_below n p ≡ true → i < n → p i ≡ true
unfolding all_below
all_below-lt zero p i h lt = absurd (omega arith)
all_below-lt (suc n) p i h lt =
    let (here, rest) = both (p n) (all_below n p) h in
    elim (Bool-cases (ltb i n)) [
      | inl less ↦ all_below-lt n p i rest (ltb→lt i n less)
      | inr not_less ↦
          let same : n ≡ i = omega (arith, ltb-false→le i n not_less) in
          subst (λ (t : ℕ). p t ≡ true) same here
    ]

every_digit : all_below 64 (λ v. is_digit_char v (digit v)) ≡ true
unfolding all_below is_digit_char
every_digit = refl

is_some_lem : (o : Option ℕ) (v : ℕ) → is_some o v ≡ true → o ≡ some v
is_some_lem none v h = cc h
is_some_lem (some w) v h = ap some ((==_iff w v).0 h)

digit_char : (v ch : ℕ) → is_digit_char v ch ≡ true → IsDigitChar v ch
unfolding is_digit_char
digit_char v ch h =
    let (text, rest) = both _ _ h in
    let (a, b) = both _ _ text in
    let (c, d) = both _ _ rest in
    record {
      is_text = negated (ch == 0) a;
      no_space = negated (isspace ch) b;
      no_pad = negated (ch == pad64) c;
      found = is_some_lem (strchr base64 ch) v d;
    }

pub digit-IsDigitChar : (v : ℕ) → v < 64 → IsDigitChar v (digit v)
digit-IsDigitChar v h =
    digit_char v (digit v) (all_below-lt 64 (λ w. is_digit_char w (digit w)) v every_digit h)

-- The digits of bytes, as arithmetic.
pub output1_lem : (a b : ℕ) → b < 256 → output1 a b ≡ a % 4 * 16 + b / 16
output1_lem a b h = omega (arith, bit_and-mask 2 a)

pub output2_lem : (b c : ℕ) → c < 256 → output2 b c ≡ b % 16 * 4 + c / 64
output2_lem b c h = omega (arith, bit_and-mask 4 b)

pub output3_lem : (c : ℕ) → output3 c ≡ c % 64
output3_lem c = bit_and-mask 6 c
