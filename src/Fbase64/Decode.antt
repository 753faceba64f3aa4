-- ===== src/Fbase64/Decode.antt =====
-- f_b64_pton one digit at a time: what it stores, and what four digits make.
pub mod Groups
pub mod RoundTrip
use mathlib.Core.Path.{ap₂}
use logoguess.Common.{
  ℕ, zero, suc, ◌+◌, ◌-◌, ◌*◌, ◌/◌, ◌%◌, ◌^◌, ◌<◌, ◌≤◌, ◌≡◌, refl, sym, ap, ◌∙◌, arith, ltb, ◌==◌,
  if◌then◌else◌, lt→ltb, bit_and, bit_or,
}
use logoguess.Common.{Bool, true, false, Option, none, some, List, [], ◌∷◌, ◌++◌, length}
use logoguess.Common.Bits.{bit_and-mask, bit_or-shifted, bit_or_comm}
use logoguess.Fbase64.{base64, digit, output0, output1, output2, output3}
use logoguess.Fbase64.Scan.{
  strchr, change, Pton, Step, next, put_digit, take_digit, split_byte, pton_loop, go_on,
}
use logoguess.Fbase64.Digits.{IsDigitChar, digit-IsDigitChar, output1_lem, output2_lem, output3_lem}

-- The locals over a buffer.
abbrev pub at : ℕ → ℕ → List ℕ → Pton
at state i target = record { state = state; tarindex = i; target = some target }

change_here :
    (f : ℕ → ℕ) (front : List ℕ) (x : ℕ) (rest : List ℕ)
    → change f (length front) (front ++ x ∷ rest) ≡ some (front ++ (f x % 256) ∷ rest)
unfolding change
change_here f [] x rest = refl
change_here f (y ∷ front) x rest = rw (change_here f front x rest)

change_next :
    (f : ℕ → ℕ) (front : List ℕ) (x y : ℕ) (rest : List ℕ)
    → change f (suc (length front)) (front ++ x ∷ y ∷ rest) ≡ some (front ++ x ∷ (f y % 256) ∷ rest)
unfolding change
change_next f [] x y rest = refl
change_next f (z ∷ front) x y rest = rw (change_next f front x y rest)

next_index : (i : ℕ) → i + 1 < 2 ^ 32 → (i + 1) % 2 ^ 32 ≡ suc i
next_index i h = omega arith

landed :
    (state i : ℕ) (target : List ℕ)
    → i + 1 < 2 ^ 32
    → next (at state ((i + 1) % 2 ^ 32) target) ≡ next (at state (suc i) target)
landed state i target h = ap (λ t. next (at state t target)) (next_index i h)

split_byte_lem :
    (low high : ℕ) (front : List ℕ) (x y : ℕ) (rest : List ℕ)
    → length front + 1 < 2 ^ 32
    → split_byte (length front) low high (front ++ x ∷ y ∷ rest)
      ≡ some (front ++ (bit_or x low % 256) ∷ (high % 256) ∷ rest)
split_byte_lem low high front x y rest h =
    rw
      (
        split_byte,
        change_here (λ t. bit_or t low) front x (y ∷ rest),
        next_index (length front) h,
        change_next (λ _. high) front (bit_or x low % 256) y rest,
      )
      refl

module _ (targsize v : ℕ) (front : List ℕ) where
  pub digit0 :
      (x : ℕ) (rest : List ℕ)
      → length front < targsize
      → take_digit targsize v (at 0 (length front) (front ++ x ∷ rest))
        ≡ next (at 1 (length front) (front ++ (v * 4 % 256) ∷ rest))
  unfolding take_digit
  digit0 x rest h =
      rw (take_digit, lt→ltb (length front) targsize h, change_here (λ _. v * 4) front x rest) refl

  pub digit1 :
      (x y : ℕ) (rest : List ℕ)
      → length front + 1 < targsize
      → length front + 1 < 2 ^ 32
      → take_digit targsize v (at 1 (length front) (front ++ x ∷ y ∷ rest))
        ≡ next (
            at 2
              (suc (length front))
              (front ++ (bit_or x (v / 16) % 256) ∷ (bit_and v 0x0f * 16 % 256) ∷ rest))
  unfolding take_digit
  digit1 x y rest h small =
      rw
        (
          take_digit,
          next_index (length front) small,
          lt→ltb (suc (length front)) targsize (omega arith),
          split_byte_lem (v / 16) (bit_and v 0x0f * 16) front x y rest small,
        )
        (landed 2 (length front) _ small)

  pub digit2 :
      (x y : ℕ) (rest : List ℕ)
      → length front + 1 < targsize
      → length front + 1 < 2 ^ 32
      → take_digit targsize v (at 2 (length front) (front ++ x ∷ y ∷ rest))
        ≡ next (
            at 3
              (suc (length front))
              (front ++ (bit_or x (v / 4) % 256) ∷ (bit_and v 0x03 * 64 % 256) ∷ rest))
  unfolding take_digit
  digit2 x y rest h small =
      rw
        (
          take_digit,
          next_index (length front) small,
          lt→ltb (suc (length front)) targsize (omega arith),
          split_byte_lem (v / 4) (bit_and v 0x03 * 64) front x y rest small,
        )
        (landed 3 (length front) _ small)

  pub digit3 :
      (x : ℕ) (rest : List ℕ)
      → length front < targsize
      → length front + 1 < 2 ^ 32
      → take_digit targsize v (at 3 (length front) (front ++ x ∷ rest))
        ≡ next (at 0 (suc (length front)) (front ++ (bit_or x v % 256) ∷ rest))
  unfolding take_digit
  digit3 x rest h small =
      rw (take_digit, lt→ltb (length front) targsize h, change_here (λ t. bit_or t v) front x rest)
        (landed 0 (length front) _ small)

-- The bytes that the digits make.
pub high_six :
    (a b : ℕ) → a < 256 → b < 256 → bit_or (output0 a * 4 % 256) (output1 a b / 16) % 256 ≡ a
high_six a b ha hb = omega (
  arith,
  output1_lem a b hb,
  ap₂ bit_or (shifted a ha) (low_two a b hb),
  bit_or_comm (a / 4 * 2 ^ 2) (a % 4),
  bit_or-shifted 2 (a % 4) (a / 4) (omega arith),
)
  where
    shifted : (a : ℕ) → a < 256 → output0 a * 4 % 256 ≡ a / 4 * 2 ^ 2
    shifted a h = omega arith

    low_two : (a b : ℕ) → b < 256 → output1 a b / 16 ≡ a % 4
    low_two a b h = omega (arith, output1_lem a b h)

pub high_four :
    (a b c : ℕ)
    → b < 256
    → c < 256
    → bit_or (bit_and (output1 a b) 0x0f * 16 % 256) (output2 b c / 4) % 256 ≡ b
high_four a b c hb hc = omega (
  arith,
  ap₂ bit_or (shifted a b hb) (low_four b c hc),
  bit_or_comm (b / 16 * 2 ^ 4) (b % 16),
  bit_or-shifted 4 (b % 16) (b / 16) (omega arith),
)
  where
    shifted : (a b : ℕ) → b < 256 → bit_and (output1 a b) 0x0f * 16 % 256 ≡ b / 16 * 2 ^ 4
    shifted a b h = omega (arith, bit_and-mask 4 (output1 a b), output1_lem a b h)

    low_four : (b c : ℕ) → c < 256 → output2 b c / 4 ≡ b % 16
    low_four b c h = omega (arith, output2_lem b c h)

pub high_two :
    (b c : ℕ) → c < 256 → bit_or (bit_and (output2 b c) 0x03 * 64 % 256) (output3 c) % 256 ≡ c
high_two b c hc = omega (
  arith,
  ap₂ bit_or (shifted b c hc) (output3_lem c),
  bit_or_comm (c / 64 * 2 ^ 6) (c % 64),
  bit_or-shifted 6 (c % 64) (c / 64) (omega arith),
)
  where
    shifted : (b c : ℕ) → c < 256 → bit_and (output2 b c) 0x03 * 64 % 256 ≡ c / 64 * 2 ^ 6
    shifted b c h = omega (arith, bit_and-mask 2 (output2 b c), output2_lem b c h)

-- A digit of the text is a round of the loop.
pub loop_digit :
    (targsize v : ℕ) (src : List ℕ) (st st' : Pton)
    → v < 64
    → take_digit targsize v st ≡ next st'
    → pton_loop targsize (digit v ∷ src) st ≡ pton_loop targsize src st'
unfolding pton_loop
loop_digit targsize v src st st' h e =
    let d = digit-IsDigitChar v h in rw (d.is_text, d.no_space, d.no_pad, d.found, e)
