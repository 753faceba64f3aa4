-- ===== src/Fbase64/SafeLoop.antt =====
-- f_b64_pton on any string that ends: it stays inside the string and the buffer.
use logoguess.Common.{
  ℕ, zero, suc, ◌^◌, ◌<◌, ◌≤◌, ◌≡◌, refl, arith, leb, ◌==◌, if◌then◌else◌, leb-false→lt,
}
use logoguess.Common.{Bool, true, false, Option, none, some, List, [], ◌∷◌, length, get_elem?}
use logoguess.Common.Int.{ℤ}
use logoguess.Fbase64.{base64, pad64, Converted, returned}
use logoguess.Fbase64.Scan.{isspace, strchr, Pton, Step}
use logoguess.Fbase64.Scan.{
  skip_spaces, only_spaces, check_extra, after_pad, second_pad, pton_pad, go_on, pton_loop,
  f_b64_pton,
}
use logoguess.Fbase64.Decode.{at}
use logoguess.Fbase64.Safe.{Kept, kept, refuses, take_digit-Kept}

-- The call returns, and the buffer is as wide as before.
data Returns (targsize : ℕ) : Converted (Option (List ℕ)) → Type 0 where
  returns : {n : ℤ} {t : List ℕ} → length t ≡ targsize → Returns targsize (returned n (some t))

-- The string ends: a NUL stands in it.
pub data Ends : List ℕ → Type 0 where
  here : {src : List ℕ} → Ends (0 ∷ src)
  later : {ch : ℕ} {src : List ℕ} → Ends src → Ends (ch ∷ src)

if-holds :
    {A : Type 0} (P : A → Type 0) (b : Bool) {x y : A}
    → (b ≡ true → P x)
    → (b ≡ false → P y)
    → P (if b then x else y)
if-holds P true p q = p refl
if-holds P false p q = q refl

option-holds :
    {A : Type 0} (P : A → Type 0) (o : Option ℕ) {x : A} (g : ℕ → A)
    → P x
    → ((v : ℕ) → P (g v))
    → P (elim o [ none ↦ x | some v ↦ g v ])
option-holds P none g p q = p
option-holds P (some v) g p q = q v

Ends-tail : {ch : ℕ} {src : List ℕ} → (ch == 0) ≡ false → Ends (ch ∷ src) → Ends src
Ends-tail z here = cc z
Ends-tail z (later e) = e

only_spaces-some : (src : List ℕ) → Ends src → (b : Bool) × (only_spaces src ≡ some b)
unfolding only_spaces
only_spaces-some [] e = elim e [ ]
only_spaces-some (ch ∷ src) e =
    if-holds (λ o. (b : Bool) × (o ≡ some b)) (ch == 0) (λ _. (true, refl))
      (λ text.
        if-holds (λ o. (b : Bool) × (o ≡ some b)) (isspace ch)
          (λ _. only_spaces-some src (Ends-tail text e)) (λ _. (false, refl)))

skip_spaces-Ends : (src : List ℕ) → Ends src → (t : List ℕ) × (skip_spaces src ≡ some t) × Ends t
unfolding skip_spaces
skip_spaces-Ends [] e = elim e [ ]
skip_spaces-Ends (ch ∷ src) e =
    if-holds (λ o. (t : List ℕ) × (o ≡ some t) × Ends t) (ch == 0) (λ _. (ch ∷ src, refl, e))
      (λ text.
        if-holds (λ o. (t : List ℕ) × (o ≡ some t) × Ends t) (isspace ch)
          (λ _. skip_spaces-Ends src (Ends-tail text e)) (λ _. (ch ∷ src, refl, e)))

get_elem?-some : (t : List ℕ) (i : ℕ) → i < length t → (x : ℕ) × (get_elem? t i ≡ some x)
get_elem?-some [] i h = absurd (omega arith)
get_elem?-some (x ∷ t) zero h = (x, refl)
get_elem?-some (x ∷ t) (suc i) h = get_elem?-some t i (omega arith)

module _ (targsize state i : ℕ) (t : List ℕ) (wide : length t ≡ targsize) where
  check_extra-Returns : i < targsize → Returns targsize (check_extra (at state i t))
  unfolding check_extra
  check_extra-Returns h =
      let (x, e) = get_elem?-some t i (omega arith) in
      rw (e, check_extra)
        (if-holds (Returns targsize) (x == 0) (λ _. returns wide) (λ _. returns wide))

  after_pad-Returns :
      (src : List ℕ) → Ends src → i < targsize → Returns targsize (after_pad src (at state i t))
  unfolding after_pad
  after_pad-Returns src e h =
      let (b, found) = only_spaces-some src e in
      rw (found, after_pad)
        (if-holds (Returns targsize) b (λ _. check_extra-Returns h) (λ _. returns wide))

  second_pad-Returns :
      (src : List ℕ)
      → Ends src
      → i < targsize
      → Returns targsize (second_pad (some src) (at state i t))
  unfolding second_pad
  second_pad-Returns [] e h = elim e [ ]
  second_pad-Returns (ch ∷ src) e h =
      if-holds (Returns targsize) (ch == pad64)
        (λ pad. after_pad-Returns src (Ends-tail (text ch pad) e) h) (λ _. returns wide)
    where
      text : (ch : ℕ) → (ch == pad64) ≡ true → (ch == 0) ≡ false
      text ch h = ground arith

  pton_pad-Returns :
      (src : List ℕ)
      → Ends src
      → (1 ≤ state → i < targsize)
      → Returns targsize (pton_pad src (at state i t))
  unfolding pton_pad
  pton_pad-Returns [] e h = elim e [ ]
  pton_pad-Returns (ch ∷ src) e h =
      if-holds (Returns targsize) (leb state 1) (λ _. returns wide)
        (λ late.
          let inside = h (omega (arith, leb-false→lt state 1 late)) in
          if-holds (Returns targsize) (state == 2)
            (λ _.
              let (s, skipped, e') = skip_spaces-Ends (ch ∷ src) e in
              rw skipped (second_pad-Returns s e' inside))
            (λ _. after_pad-Returns (ch ∷ src) e inside))

go_on-Returns :
    (targsize state i : ℕ) (t : List ℕ) {r : Step} (k : Pton → Converted (Option (List ℕ)))
    → length t ≡ targsize
    → Kept targsize r
    → ((state' i' : ℕ) (t' : List ℕ)
        → length t' ≡ targsize
        → state' < 4
        → i' < 2 ^ 32
        → (1 ≤ state' → i' < targsize)
        → Returns targsize (k (at state' i' t')))
    → Returns targsize (go_on r (at state i t) k)
go_on-Returns targsize state i t k wide (kept w a b c) f = f _ _ _ w a b c
go_on-Returns targsize state i t k wide refuses f = returns wide

pton_loop-Returns :
    (targsize : ℕ) (src : List ℕ) (state i : ℕ) (t : List ℕ)
    → Ends src
    → targsize < 2 ^ 32
    → length t ≡ targsize
    → state < 4
    → i < 2 ^ 32
    → (1 ≤ state → i < targsize)
    → Returns targsize (pton_loop targsize src (at state i t))
unfolding pton_loop
pton_loop-Returns targsize [] state i t e hs wide small hi h = elim e [ ]
pton_loop-Returns targsize (ch ∷ src) state i t e hs wide small hi h =
    if-holds (Returns targsize) (ch == 0)
      (λ _. if-holds (Returns targsize) (state == 0) (λ _. returns wide) (λ _. returns wide))
      (λ text.
        let e' = Ends-tail text e in
        if-holds (Returns targsize) (isspace ch)
          (λ _. pton_loop-Returns targsize src state i t e' hs wide small hi h)
          (λ _.
            if-holds (Returns targsize) (ch == pad64)
              (λ _. pton_pad-Returns targsize state i t wide src e' h)
              (λ _. option-holds (Returns targsize) (strchr base64 ch) _ (returns wide) (λ v.
                go_on-Returns targsize state i t (pton_loop targsize src) wide
                  (take_digit-Kept targsize v state i t wide hs small hi h)
                  (λ state' i' t' w a b c.
                    pton_loop-Returns targsize src state' i' t' e' hs w a b c)))))

-- On any string that ends with a NUL and any buffer of less than 2^32 bytes, f_b64_pton returns, it
-- reads and writes nothing outside of them, and the buffer keeps its width.
pub f_b64_pton-Returns :
    (src old : List ℕ)
    → Ends src
    → length old < 2 ^ 32
    → (n : ℤ) × (t : List ℕ) × (f_b64_pton src (some old) (length old) ≡ returned n (some t))
      × (length t ≡ length old)
unfolding f_b64_pton
f_b64_pton-Returns src old e h = as_pair (
    pton_loop-Returns (length old) src 0 0 old e h refl (omega arith) (omega arith)
      (λ h. absurd (omega arith)))
  where
    as_pair :
        {r : Converted (Option (List ℕ))}
        → Returns (length old) r
        → (n : ℤ) × (t : List ℕ) × (r ≡ returned n (some t)) × (length t ≡ length old)
    as_pair (returns {n} {t} wide) = (n, t, refl, wide)
