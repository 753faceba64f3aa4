-- ===== src/Fbase64/Decode/Groups.antt =====
-- The four characters of a group in f_b64_pton: each is a round of its loop.
use mathlib.Core.Path.{ap₂}
use logoguess.Common.{ℕ, suc, ◌+◌, ◌*◌, ◌%◌, ◌^◌, ◌<◌, ◌≡◌, sym, ap, ◌∙◌, arith, bit_and}
use logoguess.Common.{List, [], ◌∷◌, ◌++◌, length, length-append, append_assoc}
use logoguess.Fbase64.{digit, output0, output1, output2, output3}
use logoguess.Fbase64.Scan.{Pton, pton_loop}
use logoguess.Fbase64.Digits.{output1_lem, output2_lem, output3_lem}
use logoguess.Fbase64.Decode.{
  at, digit0, digit1, digit2, digit3, high_six, high_four, high_two, loop_digit,
}

abbrev pub IsByte : ℕ → Type 0
IsByte b = b < 256

-- The locals when `front` is stored and the buffer goes on with `tail`.
abbrev pub over : ℕ → List ℕ → List ℕ → Pton
over state front tail = at state (length front) (front ++ tail)

pushed :
    (state : ℕ) (front : List ℕ) (b : ℕ) (tail : List ℕ)
    → at state (suc (length front)) (front ++ b ∷ tail) ≡ over state (front ++ b ∷ []) tail
pushed state front b tail =
    ap₂ (at state) (omega (arith, length-append front (b ∷ [])))
      (sym (append_assoc front (b ∷ []) tail))

module _ (targsize : ℕ) (src front : List ℕ) where
  pub first :
      (a b x : ℕ) (rest : List ℕ)
      → a < 256
      → length front < targsize
      → pton_loop targsize (digit (output0 a) ∷ src) (over 0 front (x ∷ rest))
        ≡ pton_loop targsize src (over 1 front ((output0 a * 4 % 256) ∷ rest))
  first a b x rest ha h =
      loop_digit targsize (output0 a) src _ _ (omega arith)
        (digit0 targsize (output0 a) front x rest h)

  pub second :
      (a b y : ℕ) (rest : List ℕ)
      → a < 256
      → b < 256
      → length front + 1 < targsize
      → length front + 1 < 2 ^ 32
      → pton_loop targsize
          (digit (output1 a b) ∷ src)
          (over 1 front ((output0 a * 4 % 256) ∷ y ∷ rest))
        ≡ pton_loop targsize src
            (over 2 (front ++ a ∷ []) ((bit_and (output1 a b) 0x0f * 16 % 256) ∷ rest))
  second a b y rest ha hb h small =
      loop_digit targsize (output1 a b) src _ _ (omega (arith, output1_lem a b hb))
        (digit1 targsize (output1 a b) front (output0 a * 4 % 256) y rest h small)
      ∙ ap
          (λ t. pton_loop targsize src (
            at 2 (suc (length front))
              (front ++ t ∷ (bit_and (output1 a b) 0x0f * 16 % 256) ∷ rest)))
          (high_six a b ha hb)
      ∙ ap (pton_loop targsize src) (pushed 2 front a _)

  pub third :
      (a b c y : ℕ) (rest : List ℕ)
      → b < 256
      → c < 256
      → length front + 1 < targsize
      → length front + 1 < 2 ^ 32
      → pton_loop targsize
          (digit (output2 b c) ∷ src)
          (over 2 front ((bit_and (output1 a b) 0x0f * 16 % 256) ∷ y ∷ rest))
        ≡ pton_loop targsize src
            (over 3 (front ++ b ∷ []) ((bit_and (output2 b c) 0x03 * 64 % 256) ∷ rest))
  third a b c y rest hb hc h small =
      loop_digit targsize (output2 b c) src _ _ (omega (arith, output2_lem b c hc))
        (digit2 targsize (output2 b c) front _ y rest h small)
      ∙ ap
          (λ t. pton_loop targsize src (
            at 3 (suc (length front))
              (front ++ t ∷ (bit_and (output2 b c) 0x03 * 64 % 256) ∷ rest)))
          (high_four a b c hb hc)
      ∙ ap (pton_loop targsize src) (pushed 3 front b _)

  pub fourth :
      (b c : ℕ) (rest : List ℕ)
      → c < 256
      → length front < targsize
      → length front + 1 < 2 ^ 32
      → pton_loop targsize
          (digit (output3 c) ∷ src)
          (over 3 front ((bit_and (output2 b c) 0x03 * 64 % 256) ∷ rest))
        ≡ pton_loop targsize src (over 0 (front ++ c ∷ []) rest)
  fourth b c rest hc h small =
      loop_digit targsize (output3 c) src _ _ (omega (arith, output3_lem c))
        (digit3 targsize (output3 c) front _ rest h small)
      ∙ ap (λ t. pton_loop targsize src (at 0 (suc (length front)) (front ++ t ∷ rest)))
          (high_two b c hc)
      ∙ ap (pton_loop targsize src) (pushed 0 front c rest)
