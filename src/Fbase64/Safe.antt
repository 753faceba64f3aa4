-- ===== src/Fbase64/Safe.antt =====
-- f_b64_pton on any string that ends: it stays inside the string and the buffer.
use logoguess.Common.{
  ℕ, zero, suc, ◌+◌, ◌*◌, ◌/◌, ◌%◌, ◌^◌, ◌<◌, ◌≤◌, ◌≡◌, refl, ap, ◌∙◌, arith, ltb, ltb→lt, bit_and,
  bit_or,
}
use logoguess.Common.{true, Bool-cases, inl, inr, some, List, [], ◌∷◌, length}
use logoguess.Fbase64.Scan.{change, split_byte, Step, next, refused, take_digit}
use logoguess.Fbase64.Decode.{at}

change_kept :
    (f : ℕ → ℕ) (i : ℕ) (t : List ℕ)
    → i < length t
    → (t' : List ℕ) × (change f i t ≡ some t') × (length t' ≡ length t)
unfolding change
change_kept f i [] h = absurd (omega arith)
change_kept f zero (x ∷ t) h = (_, refl, refl)
change_kept f (suc i) (x ∷ t) h =
    let (t', e, wide) = change_kept f i t (omega arith) in (x ∷ t', rw e, ap suc wide)

split_byte_kept :
    (i low high : ℕ) (t : List ℕ)
    → (i + 1) % 2 ^ 32 < length t
    → i < length t
    → (t' : List ℕ) × (split_byte i low high t ≡ some t') × (length t' ≡ length t)
split_byte_kept i low high t h h' =
    let (t', e, wide) = change_kept (λ x. bit_or x low) i t h' in
    let (t'', e', wide') = change_kept (λ _. high) ((i + 1) % 2 ^ 32) t' (omega arith) in
    (t'', rw (e, split_byte) e', wide' ∙ wide)

-- A digit leaves the buffer as wide as it was, and the byte that is being filled inside it.
pub data Kept (targsize : ℕ) : Step → Type 0 where
  kept :
      {state i : ℕ} {t : List ℕ}
      → length t ≡ targsize
      → state < 4
      → i < 2 ^ 32
      → (1 ≤ state → i < targsize)
      → Kept targsize (next (at state i t))
  refuses : Kept targsize refused

module _ (targsize v i : ℕ) (t : List ℕ) (wide : length t ≡ targsize) (hi : i < 2 ^ 32)
    (hs : targsize < 2 ^ 32) where
  take0 : Kept targsize (take_digit targsize v (at 0 i t))
  unfolding take_digit
  take0 = elim (Bool-cases (ltb i targsize)) [
    | inl fits ↦
        let (t', e, w) = change_kept (λ _. v * 4) i t (omega (arith, ltb→lt i targsize fits)) in
        rw (take_digit, fits, e) (kept (w ∙ wide) (omega arith) hi (λ h. ltb→lt i targsize fits))
    | inr full ↦ rw (take_digit, full) refuses
  ]

  split :
      i < targsize
      → ltb ((i + 1) % 2 ^ 32) targsize ≡ true
      → (low high : ℕ)
      → (t' : List ℕ) × (split_byte i low high t ≡ some t') × (length t' ≡ length t)
  split h fits low high =
      split_byte_kept i low high t (omega (arith, ltb→lt _ targsize fits)) (omega arith)

  on : i < targsize → ltb ((i + 1) % 2 ^ 32) targsize ≡ true → (i + 1) % 2 ^ 32 < targsize
  on h fits = ltb→lt _ targsize fits

  take1 : i < targsize → Kept targsize (take_digit targsize v (at 1 i t))
  unfolding take_digit
  take1 h = elim (Bool-cases (ltb ((i + 1) % 2 ^ 32) targsize)) [
    | inl fits ↦
        let (t', e, w) = split h fits (v / 16) (bit_and v 0x0f * 16) in
        rw (take_digit, fits, e) (kept (w ∙ wide) (omega arith) (omega arith) (λ _. on h fits))
    | inr full ↦ rw (take_digit, full) refuses
  ]

  take2 : i < targsize → Kept targsize (take_digit targsize v (at 2 i t))
  unfolding take_digit
  take2 h = elim (Bool-cases (ltb ((i + 1) % 2 ^ 32) targsize)) [
    | inl fits ↦
        let (t', e, w) = split h fits (v / 4) (bit_and v 0x03 * 64) in
        rw (take_digit, fits, e) (kept (w ∙ wide) (omega arith) (omega arith) (λ _. on h fits))
    | inr full ↦ rw (take_digit, full) refuses
  ]

  take3 : Kept targsize (take_digit targsize v (at 3 i t))
  unfolding take_digit
  take3 = elim (Bool-cases (ltb i targsize)) [
    | inl fits ↦
        let (t', e, w) =
          change_kept (λ x. bit_or x v) i t (omega (arith, ltb→lt i targsize fits)) in
        rw (take_digit, fits, e)
          (kept (w ∙ wide) (omega arith) (omega arith) (λ h. absurd (omega arith)))
    | inr full ↦ rw (take_digit, full) refuses
  ]

pub take_digit-Kept :
    (targsize v state i : ℕ) (t : List ℕ)
    → length t ≡ targsize
    → targsize < 2 ^ 32
    → state < 4
    → i < 2 ^ 32
    → (1 ≤ state → i < targsize)
    → Kept targsize (take_digit targsize v (at state i t))
take_digit-Kept targsize v zero i t wide hs small hi h = take0 targsize v i t wide hi hs
take_digit-Kept targsize v (suc zero) i t wide hs small hi h =
    take1 targsize v i t wide hi hs (h (omega arith))
take_digit-Kept targsize v (suc (suc zero)) i t wide hs small hi h =
    take2 targsize v i t wide hi hs (h (omega arith))
take_digit-Kept targsize v (suc (suc (suc zero))) i t wide hs small hi h =
    take3 targsize v i t wide hi hs
take_digit-Kept targsize v (suc (suc (suc (suc state)))) i t wide hs small hi h =
    absurd (omega arith)
