-- ===== src/Fbase64/Decode/RoundTrip.antt =====
-- f_b64_pton gets back the bytes that f_b64_ntop wrote.
use mathlib.Core.Path.{ap₂}
use logoguess.Common.{
  ℕ, suc, ◌+◌, ◌*◌, ◌/◌, ◌%◌, ◌^◌, ◌<◌, ◌≡◌, refl, sym, ap, ◌∙◌, arith, ◌==◌, bit_and,
}
use logoguess.Common.{
  true, Option, some, List, [], ◌∷◌, ◌++◌, length, length-append, append-nil, append_assoc, All,
  get_elem?,
}
use logoguess.Common.Bits.{bit_and-mask}
use logoguess.Common.Int.{pos}
use logoguess.Fbase64.{
  pad64, digit, output0, output1, output2, output3, Converted, returned, f_b64_ntop,
}
use logoguess.Fbase64.Scan.{pton_loop, pton_pad, after_pad, check_extra, f_b64_pton}
use logoguess.Fbase64.Digits.{output1_lem, output2_lem}
use logoguess.Fbase64.Encode.{
  to_signed_small, ntop_text, length-ntop_text, Encoded, fits, too_small, f_b64_ntop_lem,
}
use logoguess.Fbase64.Decode.Groups.{IsByte, over, first, second, third, fourth}

get_elem?-length_append :
    (front : List ℕ) (x : ℕ) (rest : List ℕ) → get_elem? (front ++ x ∷ rest) (length front) ≡ some x
get_elem?-length_append [] x rest = refl
get_elem?-length_append (y ∷ front) x rest = get_elem?-length_append front x rest

no_extra :
    (state x : ℕ) (front rest : List ℕ)
    → x ≡ 0
    → length front < 2 ^ 31
    → check_extra (over state front (x ∷ rest))
      ≡ returned (pos (length front)) (some (front ++ x ∷ rest))
unfolding check_extra
no_extra state x front rest e h =
    rw (get_elem?-length_append front x rest, check_extra)
      (rw (is_zero x e, to_signed_small (length front) h))
  where
    is_zero : (x : ℕ) → x ≡ 0 → (x == 0) ≡ true
    is_zero x e = ground arith

-- The string ends behind the last pad, and no extra bit is set.
one_pad :
    (targsize x : ℕ) (behind front rest : List ℕ)
    → x ≡ 0
    → length front < 2 ^ 31
    → pton_loop targsize (pad64 ∷ 0 ∷ behind) (over 3 front (x ∷ rest))
      ≡ returned (pos (length front)) (some (front ++ x ∷ rest))
unfolding pton_loop pton_pad after_pad
one_pad targsize x behind front rest e h = no_extra 3 x front rest e h

two_pads :
    (targsize x : ℕ) (behind front rest : List ℕ)
    → x ≡ 0
    → length front < 2 ^ 31
    → pton_loop targsize (pad64 ∷ pad64 ∷ 0 ∷ behind) (over 2 front (x ∷ rest))
      ≡ returned (pos (length front)) (some (front ++ x ∷ rest))
unfolding pton_loop pton_pad
two_pads targsize x behind front rest e h = no_extra 2 x front rest e h

-- The buffer afterwards: `front`, the bytes `src`, and what else stands there.
Decoded : List ℕ → List ℕ → Converted (Option (List ℕ)) → Type 0
Decoded front src result =
    (rest : List ℕ) × (result
      ≡ returned (pos (length front + length src)) (some (front ++ (src ++ rest))))

length_snoc : (front : List ℕ) (b : ℕ) → length (front ++ b ∷ []) ≡ suc (length front)
length_snoc front b = omega (arith, length-append front (b ∷ []))

module _ (targsize a b : ℕ) (front : List ℕ) (ha : a < 256) (hb : b < 256) where
  -- Two digits make a byte.
  two_digits :
      (src : List ℕ) (x y : ℕ) (rest : List ℕ)
      → length front + 1 < targsize
      → length front + 1 < 2 ^ 32
      → pton_loop targsize
          (digit (output0 a) ∷ digit (output1 a b) ∷ src)
          (over 0 front (x ∷ y ∷ rest))
        ≡ pton_loop targsize src
            (over 2 (front ++ a ∷ []) ((bit_and (output1 a b) 0x0f * 16 % 256) ∷ rest))
  two_digits src x y rest h small =
      first targsize (digit (output1 a b) ∷ src) front a b x (y ∷ rest) ha (omega arith)
      ∙ second targsize src front a b y rest ha hb h small

  -- Three digits make two bytes.
  three_digits :
      (c : ℕ) (src : List ℕ) (x y z : ℕ) (rest : List ℕ)
      → c < 256
      → length front + 2 < targsize
      → length front + 2 < 2 ^ 32
      → pton_loop targsize
          (digit (output0 a) ∷ digit (output1 a b) ∷ digit (output2 b c) ∷ src)
          (over 0 front (x ∷ y ∷ z ∷ rest))
        ≡ pton_loop targsize src
            (over 3 ((front ++ a ∷ []) ++ b ∷ []) ((bit_and (output2 b c) 0x03 * 64 % 256) ∷ rest))
  three_digits c src x y z rest hc h small =
      two_digits (digit (output2 b c) ∷ src) x y (z ∷ rest) (omega arith) (omega arith)
      ∙ third targsize src (front ++ a ∷ []) a b c z rest hb hc (omega (arith, length_snoc front a))
          (omega (arith, length_snoc front a))

  -- Four digits make three bytes.
  four_digits :
      (c : ℕ) (src : List ℕ) (x y z : ℕ) (rest : List ℕ)
      → c < 256
      → length front + 2 < targsize
      → length front + 3 < 2 ^ 32
      → pton_loop targsize
          (digit (output0 a) ∷ digit (output1 a b) ∷ digit (output2 b c) ∷ digit (output3 c) ∷ src)
          (over 0 front (x ∷ y ∷ z ∷ rest))
        ≡ pton_loop targsize src (over 0 (front ++ a ∷ b ∷ c ∷ []) rest)
  four_digits c src x y z rest hc h small =
      three_digits c (digit (output3 c) ∷ src) x y z rest hc h (omega arith)
      ∙ fourth targsize src ((front ++ a ∷ []) ++ b ∷ []) b c rest hc
          (omega (arith, length_snoc (front ++ a ∷ []) b, length_snoc front a))
          (omega (arith, length_snoc (front ++ a ∷ []) b, length_snoc front a))
      ∙ ap (λ t. pton_loop targsize src (over 0 t rest)) (grouped (a ∷ []) (b ∷ []))
    where
      grouped : (xs ys : List ℕ) → ((front ++ xs) ++ ys) ++ c ∷ [] ≡ front ++ (xs ++ (ys ++ c ∷ []))
      grouped xs ys = append_assoc (front ++ xs) ys (c ∷ []) ∙ append_assoc front xs (ys ++ c ∷ [])

-- What was decoded behind `front ++ xs` was decoded behind `front`.
Decoded-shift :
    (front xs src : List ℕ) (r : Converted (Option (List ℕ)))
    → Decoded (front ++ xs) src r
    → Decoded front (xs ++ src) r
unfolding Decoded
Decoded-shift front xs src r (rest, e) = (
  rest,
  e
      ∙ ap₂ (λ (n : ℕ) t. returned (pos n) (some t))
          (omega (arith, length-append front xs, length-append xs src))
          (append_assoc front xs (src ++ rest)
            ∙ ap (λ t. front ++ t) (sym (append_assoc xs src rest))),
)

-- The end of the string, behind `xs`.
ends :
    (front xs rest : List ℕ) {r : Converted (Option (List ℕ))}
    → r ≡ returned (pos (length (front ++ xs))) (some ((front ++ xs) ++ rest))
    → Decoded front xs r
unfolding Decoded
ends front xs rest e = (
  rest,
  e
      ∙ ap₂ (λ (n : ℕ) t. returned (pos n) (some t)) (length-append front xs)
          (append_assoc front xs rest),
)

finished_lem :
    (targsize : ℕ) (behind front old : List ℕ)
    → length front < 2 ^ 31
    → pton_loop targsize (0 ∷ behind) (over 0 front old)
      ≡ returned (pos (length front)) (some (front ++ old))
unfolding pton_loop
finished_lem targsize behind front old h =
    ap (λ i. returned i (some (front ++ old))) (to_signed_small (length front) h)

pton_loop-Decoded :
    (targsize : ℕ) (src behind front old : List ℕ)
    → All IsByte src
    → length src < length old
    → length front + length src < targsize
    → length front + length src < 2 ^ 31
    → Decoded front src (pton_loop targsize (ntop_text src ++ 0 ∷ behind) (over 0 front old))
unfolding ntop_text
pton_loop-Decoded targsize [] behind front old hb ho ht hs = ends front [] old (
    finished_lem targsize behind front old (omega arith)
    ∙ ap (λ t. returned (pos (length t)) (some (t ++ old))) (sym (append-nil front)))
pton_loop-Decoded targsize (a ∷ src) behind front [] hb ho ht hs = absurd (omega arith)
pton_loop-Decoded targsize (a ∷ src) behind front (x ∷ []) hb ho ht hs = absurd (omega arith)
pton_loop-Decoded targsize (a ∷ []) behind front (x ∷ y ∷ rest) hb ho ht hs =
    ends front (a ∷ []) _ (
      two_digits targsize a 0 front hb.0 (omega arith) _ x y rest (omega arith) (omega arith)
      ∙ two_pads targsize _ behind (front ++ a ∷ []) rest (no_bits a)
          (omega (arith, length_snoc front a)))
  where
    no_bits : (a : ℕ) → bit_and (output1 a 0) 0x0f * 16 % 256 ≡ 0
    no_bits a = omega (arith, bit_and-mask 4 (output1 a 0), output1_lem a 0 (omega arith))
pton_loop-Decoded targsize (a ∷ b ∷ src) behind front (x ∷ y ∷ []) hb ho ht hs =
    absurd (omega arith)
pton_loop-Decoded targsize (a ∷ b ∷ []) behind front (x ∷ y ∷ z ∷ rest) hb ho ht hs =
    Decoded-shift front (a ∷ []) (b ∷ []) _ (
      ends (front ++ a ∷ []) (b ∷ []) _ (
        three_digits targsize a b front hb.0 hb.1.0 0 _ x y z rest (omega arith) (omega arith)
          (omega arith)
        ∙ one_pad targsize _ behind _ rest (no_bits b)
            (omega (arith, length_snoc (front ++ a ∷ []) b, length_snoc front a))))
  where
    no_bits : (b : ℕ) → bit_and (output2 b 0) 0x03 * 64 % 256 ≡ 0
    no_bits b = omega (arith, bit_and-mask 2 (output2 b 0), output2_lem b 0 (omega arith))
pton_loop-Decoded targsize (a ∷ b ∷ c ∷ src) behind front (x ∷ y ∷ z ∷ old) hb ho ht hs =
    Decoded-shift front (a ∷ b ∷ c ∷ []) src _ (
      rw
        (four_digits targsize a b front hb.0 hb.1.0 c (ntop_text src ++ 0 ∷ behind) x y z old
          hb.1.1.0 (omega arith) (omega arith))
        (pton_loop-Decoded targsize src behind (front ++ a ∷ b ∷ c ∷ []) old hb.1.1.1 (omega arith)
          (omega (arith, length-append front (a ∷ b ∷ c ∷ [])))
          (omega (arith, length-append front (a ∷ b ∷ c ∷ [])))))

-- On the text of bytes, f_b64_pton returns their number and stores them, in a buffer with one byte
-- of room more.
f_b64_pton-ntop_text :
    (src behind old : List ℕ)
    → All IsByte src
    → length src < length old
    → length src < 2 ^ 31
    → (rest : List ℕ) × (f_b64_pton (ntop_text src ++ 0 ∷ behind) (some old) (length old)
        ≡ returned (pos (length src)) (some (src ++ rest)))
unfolding f_b64_pton Decoded
f_b64_pton-ntop_text src behind old hb ho hs =
    let (rest, e) =
      pton_loop-Decoded (length old) src behind [] old hb ho (omega arith) (omega arith) in
    (rest, e ∙ ap (λ (n : ℕ). returned (pos n) (some (src ++ rest))) (omega arith))

stored_text :
    (src behind : List ℕ) (targsize : ℕ) {r : Converted (List ℕ)}
    → length (ntop_text src) < targsize
    → Encoded targsize [] (ntop_text src) r
    → r ≡ returned (pos (length (ntop_text src))) (ntop_text src ++ 0 ∷ [])
stored_text src behind targsize h (fits e lt out) =
    ap₂ (λ (n : ℕ) t. returned (pos n) t) (omega (arith, e)) out
stored_text src behind targsize h (too_small le inside) = absurd (omega arith)

-- f_b64_ntop stores the text of less than 2^29 bytes in a buffer with room for it and the NUL, and
-- f_b64_pton gets the bytes back from it, in a buffer with room for one byte more.
pub f_b64_pton-f_b64_ntop :
    (src behind old : List ℕ) (targsize : ℕ)
    → All IsByte src
    → length src < 2 ^ 29
    → (length src + 2) / 3 * 4 < targsize
    → length src < length old
    → (text rest : List ℕ) × (f_b64_ntop (src ++ behind) (length src) targsize
        ≡ returned (pos ((length src + 2) / 3 * 4)) text)
      × (f_b64_pton text (some old) (length old) ≡ returned (pos (length src)) (some (src ++ rest)))
f_b64_pton-f_b64_ntop src behind old targsize hb hs ht ho =
    let wide = length-ntop_text src in
    let (rest, e) = f_b64_pton-ntop_text src [] old hb ho (omega arith) in
    (
      ntop_text src ++ 0 ∷ [],
      rest,
      stored_text src behind targsize (omega (arith, wide))
            (f_b64_ntop_lem src behind targsize (omega (arith, wide)))
          ∙ ap (λ (n : ℕ). returned (pos n) (ntop_text src ++ 0 ∷ [])) wide,
      e,
    )
