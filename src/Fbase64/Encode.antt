-- ===== src/Fbase64/Encode.antt =====
-- The text that f_b64_ntop stores, and the room that it needs.
pub mod Text
use mathlib.Core.Path.{subst}
use logoguess.Common.{
  ℕ, suc, ◌+◌, ◌-◌, ◌*◌, ◌/◌, ◌%◌, ◌^◌, ◌<◌, ◌≤◌, ◌≡◌, refl, sym, ap, ◌∙◌, arith, leb→le,
  leb-false→lt, ltb, leb, if◌then◌else◌, ge→ltb, lt→ltb, ltb→lt, ltb-false→le, Bool-cases, inl, inr,
}
use logoguess.Common.{List, [], ◌∷◌, ◌++◌, length, length-append, append_assoc, append-nil}
use logoguess.Common.Int.{pos, to_signed}
use logoguess.Fbase64.{
  pad64, digit, output0, output1, output2, output3, Converted, returned, failed, ntop_close,
  ntop_pad, ntop_loop, f_b64_ntop,
}

-- The characters that f_b64_ntop makes of bytes.
unfoldable pub ntop_text : List ℕ → List ℕ
ntop_text [] = []
ntop_text (a ∷ []) = digit (output0 a) ∷ digit (output1 a 0) ∷ pad64 ∷ pad64 ∷ []
ntop_text (a ∷ b ∷ []) = digit (output0 a) ∷ digit (output1 a b) ∷ digit (output2 b 0) ∷ pad64 ∷ []
ntop_text (a ∷ b ∷ c ∷ src) =
    digit (output0 a)
    ∷ digit (output1 a b)
    ∷ digit (output2 b c)
    ∷ digit (output3 c)
    ∷ ntop_text src

pub length-ntop_text : (src : List ℕ) → length (ntop_text src) ≡ (length src + 2) / 3 * 4
unfolding ntop_text
length-ntop_text [] = refl
length-ntop_text (a ∷ []) = refl
length-ntop_text (a ∷ b ∷ []) = refl
length-ntop_text (a ∷ b ∷ c ∷ src) = omega (arith, length-ntop_text src)

-- What f_b64_ntop leaves when it has stored `target` and has `text` to add, none of it outside of
-- the buffer: all of it and a NUL if the buffer has room for them, -1 otherwise.
pub data Encoded (targsize : ℕ) (target text : List ℕ) : Converted (List ℕ) → Type 0 where
  fits :
      {n : ℕ} {out : List ℕ}
      → n ≡ length target + length text
      → n < targsize
      → out ≡ target ++ (text ++ 0 ∷ [])
      → Encoded targsize target text (returned (pos n) out)
  too_small :
      {partial : List ℕ}
      → targsize ≤ length target + length text
      → length partial ≤ targsize
      → Encoded targsize target text (failed partial)

pub to_signed_small : (n : ℕ) → n < 2 ^ 31 → to_signed 32 n ≡ pos n
to_signed_small n h = ground arith

close-Encoded :
    (targsize n : ℕ) (target : List ℕ)
    → n ≡ length target
    → n < 2 ^ 31
    → length target ≤ targsize
    → Encoded targsize target [] (ntop_close targsize n target)
unfolding ntop_close
close-Encoded targsize n target e h inside = elim (Bool-cases (leb targsize n)) [
  | inl full ↦ rw full (too_small (omega (arith, leb→le targsize n full)) inside)
  | inr room ↦
      rw (room, to_signed_small n h) (fits (omega arith) (leb-false→lt targsize n room) refl)
]

-- Text that was stored counts as text still to be added.
Encoded-shift :
    {targsize : ℕ} (target four text : List ℕ) {r : Converted (List ℕ)}
    → Encoded targsize (target ++ four) text r
    → Encoded targsize target (four ++ text) r
Encoded-shift target four text (fits e lt out) =
    fits (omega (arith, e, length-append target four, length-append four text)) lt (
      out
      ∙ append_assoc target four (text ++ 0 ∷ [])
      ∙ ap (λ t. target ++ t) (sym (append_assoc four text (0 ∷ []))))
Encoded-shift target four text (too_small le inside) =
    too_small (omega (arith, le, length-append target four, length-append four text)) inside

-- The end of the data when four characters are stored.
room_for_four :
    (targsize : ℕ) (target four text : List ℕ) (more : Converted (List ℕ))
    → length four ≡ 4
    → length target + 4 < 2 ^ 31
    → length target ≤ targsize
    → (length (target ++ four) ≤ targsize → Encoded targsize (target ++ four) text more)
    → Encoded targsize target
        (four ++ text)
        (if ltb targsize ((length target + 4) % 2 ^ 64) then failed target else more)
room_for_four targsize target four text more wide h inside rest =
    elim (Bool-cases (ltb targsize ((length target + 4) % 2 ^ 64))) [
      | inl full ↦
          rw full
            (too_small (omega (arith, ltb→lt targsize _ full, length-append four text)) inside)
      | inr room ↦ rw room (
          Encoded-shift target four text
            (rest (omega (arith, ltb-false→le targsize _ room, length-append target four))))
    ]

loop_short :
    (targsize : ℕ) (src : List ℕ) (srclength n : ℕ) (target : List ℕ)
    → srclength ≤ 2
    → ntop_loop targsize src srclength n target ≡ ntop_pad targsize src srclength n target
unfolding ntop_loop
loop_short targsize [] srclength n target h = rw (ge→ltb 2 srclength h)
loop_short targsize (a ∷ []) srclength n target h = rw (ge→ltb 2 srclength h)
loop_short targsize (a ∷ b ∷ []) srclength n target h = rw (ge→ltb 2 srclength h)
loop_short targsize (a ∷ b ∷ c ∷ src) srclength n target h = rw (ge→ltb 2 srclength h)

pad-Encoded :
    (targsize : ℕ) (target four : List ℕ)
    → length four ≡ 4
    → length target + 4 < 2 ^ 31
    → length target ≤ targsize
    → Encoded targsize target four (
        if ltb targsize ((length target + 4) % 2 ^ 64)
        then failed target
        else ntop_close targsize (length target + 4) (target ++ four))
pad-Encoded targsize target four wide h inside =
    subst
      (λ t. Encoded targsize target t (
        if ltb targsize ((length target + 4) % 2 ^ 64)
        then failed target
        else ntop_close targsize (length target + 4) (target ++ four)))
      (append-nil four)
      (room_for_four targsize target four [] _ wide h inside λ inside'.
        close-Encoded targsize (length target + 4) (target ++ four)
          (omega (arith, length-append target four)) h inside')

abbrev quad : ℕ → ℕ → ℕ → List ℕ
quad a b c = digit (output0 a) ∷ digit (output1 a b) ∷ digit (output2 b c) ∷ digit (output3 c) ∷ []

loop_four :
    (targsize a b c : ℕ) (src : List ℕ) (n d : ℕ) (target : List ℕ)
    → ntop_loop targsize (a ∷ b ∷ c ∷ src) (suc (suc (suc n))) d target ≡ (
        if ltb targsize ((d + 4) % 2 ^ 64)
        then failed target
        else ntop_loop targsize src n (d + 4) (target ++ quad a b c))
unfolding ntop_loop
loop_four targsize a b c src n d target =
    rw (lt→ltb 2 (suc (suc (suc n))) (omega arith), minus_three n)
  where
    minus_three : (n : ℕ) → suc (suc (suc n)) - 3 ≡ n
    minus_three n = omega arith

ntop_loop-Encoded :
    (targsize : ℕ) (src behind target : List ℕ)
    → length target + length (ntop_text src) < 2 ^ 31
    → length target ≤ targsize
    → Encoded targsize target
        (ntop_text src)
        (ntop_loop targsize (src ++ behind) (length src) (length target) target)
unfolding ntop_text ntop_pad
ntop_loop-Encoded targsize [] behind target h inside =
    rw (loop_short targsize behind 0 (length target) target (omega arith))
      (close-Encoded targsize (length target) target refl (omega arith) inside)
ntop_loop-Encoded targsize (a ∷ []) behind target h inside =
    rw
      (
        loop_short targsize (a ∷ behind) 1 (length target) target (omega arith),
        ge→ltb (suc (length behind)) 1 (omega arith),
      )
      (pad-Encoded targsize target _ refl (omega arith) inside)
ntop_loop-Encoded targsize (a ∷ b ∷ []) behind target h inside =
    rw
      (
        loop_short targsize (a ∷ b ∷ behind) 2 (length target) target (omega arith),
        ge→ltb (suc (suc (length behind))) 2 (omega arith),
      )
      (pad-Encoded targsize target _ refl (omega arith) inside)
ntop_loop-Encoded targsize (a ∷ b ∷ c ∷ src) behind target h inside =
    rw (loop_four targsize a b c (src ++ behind) (length src) (length target) target) (
      room_for_four targsize target (quad a b c) (ntop_text src) _ refl (omega arith) inside
        λ inside'.
          subst
            (λ (d : ℕ).
              Encoded targsize (target ++ quad a b c) (ntop_text src)
                (ntop_loop targsize (src ++ behind) (length src) d (target ++ quad a b c)))
            (length-append target (quad a b c))
            (ntop_loop-Encoded targsize src behind (target ++ quad a b c)
              (omega (arith, length-append target (quad a b c))) inside'))

-- f_b64_ntop, by the characters that it makes.
pub f_b64_ntop_lem :
    (src behind : List ℕ) (targsize : ℕ)
    → length (ntop_text src) < 2 ^ 31
    → Encoded targsize [] (ntop_text src) (f_b64_ntop (src ++ behind) (length src) targsize)
unfolding f_b64_ntop
f_b64_ntop_lem src behind targsize h =
    ntop_loop-Encoded targsize src behind [] (omega arith) (omega arith)
