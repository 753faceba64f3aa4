-- ===== src/Fbase64/Encode/Text.antt =====
-- f_b64_ntop against the encoding of RFC 4648.
use mathlib.Core.Path.{subst}
use logoguess.Common.{
  ℕ, ◌+◌, ◌-◌, ◌*◌, ◌/◌, ◌%◌, ◌^◌, ◌<◌, ◌≡◌, refl, sym, ap, ◌∙◌, arith, ltb, ◌==◌, ==_iff,
  if◌then◌else◌, true, List, [], ◌∷◌, ◌++◌, length, All,
}
use logoguess.Fbase64.{pad64, digit, output0, output1, output2, output3, f_b64_ntop}
use logoguess.Fbase64.Digits.{all_below, all_below-lt, output1_lem, output2_lem, output3_lem}
use logoguess.Fbase64.Decode.Groups.{IsByte}
use logoguess.Fbase64.Encode.{ntop_text, Encoded, f_b64_ntop_lem}

-- The character of a value below 64: 'A' to 'Z', 'a' to 'z', '0' to '9', '+' and '/'.
abbrev base64_char : ℕ → ℕ
base64_char v =
    if ltb v 26
    then 65 + v
    else if ltb v 52
    then 97 + (v - 26)
    else if ltb v 62
    then 48 + (v - 52)
    else if v == 62
    then 43
    else 47

-- The characters of a 24-bit number, of its highest six bits to its lowest.
abbrev char0 : ℕ → ℕ
char0 n = base64_char (n / 2 ^ 18 % 64)

abbrev char1 : ℕ → ℕ
char1 n = base64_char (n / 2 ^ 12 % 64)

abbrev char2 : ℕ → ℕ
char2 n = base64_char (n / 2 ^ 6 % 64)

abbrev char3 : ℕ → ℕ
char3 n = base64_char (n % 64)

-- The base64 text of bytes: three make a number of 24 bits, which has four characters. Where one or
-- two are left, zero bits fill the number, and pads stand for the characters that have none of
-- their bits.
unfoldable pub base64_text : List ℕ → List ℕ
base64_text [] = []
base64_text (a ∷ []) = let n = a * 2 ^ 16 in char0 n ∷ char1 n ∷ pad64 ∷ pad64 ∷ []
base64_text (a ∷ b ∷ []) =
    let n = a * 2 ^ 16 + b * 2 ^ 8 in char0 n ∷ char1 n ∷ char2 n ∷ pad64 ∷ []
base64_text (a ∷ b ∷ c ∷ src) =
    let n = a * 2 ^ 16 + b * 2 ^ 8 + c in char0 n ∷ char1 n ∷ char2 n ∷ char3 n ∷ base64_text src

every_char : all_below 64 (λ v. digit v == base64_char v) ≡ true
unfolding all_below
every_char = refl

digit_lem : (v w : ℕ) → v ≡ w → v < 64 → digit v ≡ base64_char w
digit_lem v w e h =
    (==_iff (digit v) (base64_char v)).0
      (all_below-lt 64 (λ u. digit u == base64_char u) v every_char h)
    ∙ ap base64_char e

module _ (a b c n : ℕ) (ha : a < 256) (hb : b < 256) (hc : c < 256)
    (e : n ≡ a * 2 ^ 16 + b * 2 ^ 8 + c) where
  digit0 : digit (output0 a) ≡ char0 n
  digit0 = digit_lem (output0 a) (n / 2 ^ 18 % 64) (omega arith) (omega arith)

  digit1 : digit (output1 a b) ≡ char1 n
  digit1 =
      digit_lem (output1 a b) (n / 2 ^ 12 % 64) (omega (arith, output1_lem a b hb))
        (omega (arith, output1_lem a b hb))

  digit2 : digit (output2 b c) ≡ char2 n
  digit2 =
      digit_lem (output2 b c) (n / 2 ^ 6 % 64) (omega (arith, output2_lem b c hc))
        (omega (arith, output2_lem b c hc))

  digit3 : digit (output3 c) ≡ char3 n
  digit3 =
      digit_lem (output3 c) (n % 64) (omega (arith, output3_lem c)) (omega (arith, output3_lem c))

two_more :
    {x x' y y' : ℕ} {rest rest' : List ℕ}
    → x ≡ x'
    → y ≡ y'
    → rest ≡ rest'
    → x ∷ y ∷ rest ≡ x' ∷ y' ∷ rest'
two_more p q r = rw (p, q, r)

ntop_text_lem : (src : List ℕ) → All IsByte src → ntop_text src ≡ base64_text src
unfolding ntop_text base64_text
ntop_text_lem [] h = refl
ntop_text_lem (a ∷ []) h =
    two_more (digit0 a 0 0 (a * 2 ^ 16) h.0 (omega arith) (omega arith) (omega arith))
      (digit1 a 0 0 (a * 2 ^ 16) h.0 (omega arith) (omega arith) (omega arith)) refl
ntop_text_lem (a ∷ b ∷ []) h =
    two_more (digit0 a b 0 (a * 2 ^ 16 + b * 2 ^ 8) h.0 h.1.0 (omega arith) (omega arith))
      (digit1 a b 0 (a * 2 ^ 16 + b * 2 ^ 8) h.0 h.1.0 (omega arith) (omega arith))
      (two_more (digit2 a b 0 (a * 2 ^ 16 + b * 2 ^ 8) h.0 h.1.0 (omega arith) (omega arith)) refl
        refl)
ntop_text_lem (a ∷ b ∷ c ∷ src) h =
    two_more (digit0 a b c _ h.0 h.1.0 h.1.1.0 refl) (digit1 a b c _ h.0 h.1.0 h.1.1.0 refl) (
      two_more (digit2 a b c _ h.0 h.1.0 h.1.1.0 refl) (digit3 a b c _ h.0 h.1.0 h.1.1.0 refl)
        (ntop_text_lem src h.1.1.1))

-- f_b64_ntop of bytes whose base64 text has less than 2^31 characters, into a buffer of any size:
-- it stores the text and a NUL, and returns the length of the text, if the buffer has room for them,
-- and returns -1 if not. In neither case does it store more bytes than the buffer has.
pub f_b64_ntop-Encoded :
    (src behind : List ℕ) (targsize : ℕ)
    → All IsByte src
    → length (base64_text src) < 2 ^ 31
    → Encoded targsize [] (base64_text src) (f_b64_ntop (src ++ behind) (length src) targsize)
f_b64_ntop-Encoded src behind targsize hb h =
    let e = ntop_text_lem src hb in
    subst (λ t. Encoded targsize [] t (f_b64_ntop (src ++ behind) (length src) targsize)) e
      (f_b64_ntop_lem src behind targsize (subst (λ t. length t < 2 ^ 31) (sym e) h))
