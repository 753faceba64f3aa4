-- ===== src/Nanopb/DecodeMessage/Required/Seen.antt =====
-- The check of `fields_seen` as a question about a set.
use logoguess.Common.{
  ℕ, zero, suc, ◌+◌, ◌-◌, ◌/◌, ◌%◌, ◌^◌, ◌≤◌, ◌<◌, ◌≡◌, refl, sym, ap, ◌∙◌, arith,
}
use logoguess.Common.{
  ltb, ◌==◌, ==_iff, if◌then◌else◌, Bool, true, false, ◌&&◌, ◌||◌, Bool-cases, inl, inr,
}
use logoguess.Common.{Option, some, List, [], ◌∷◌, All, ltb→lt, ltb-false→le}
use logoguess.Nanopb.Memory.{◌>>=◌}
use logoguess.Nanopb.DecodeMessage.Required.{at_most_max, allbits, words_seen, all_seen}
use logoguess.Nanopb.DecodeMessage.Required.Words.{
  word_of, all_below, word_of-all_below, word_of_short, ones_shifted, all_below_same, all_below_add,
}
use logoguess.Nanopb.DecodeMessage.Required.Bitmap.{
  bitmap, Found, is_required, mark_all, was_found, mark_all-bitmap,
}

remaining_seen :
    (r : ℕ) (g : ℕ → Bool) (words : List ℕ)
    → r < 32
    → ((i : ℕ) → r ≤ i → i < 32 → g i ≡ false)
    → words_seen 0 r (word_of 32 g ∷ words) ≡ some (all_below r g)
unfolding words_seen all_below
remaining_seen zero g words h missing = refl
remaining_seen (suc r) g words h missing = rw (positive r) (
    ap (λ (b : Bool). some b)
      (ap (λ (w : ℕ). w == allbits / 2 ^ (32 - suc r)) low
        ∙ (ap (λ (m : ℕ). word_of (suc r) g == m) ones ∙ word_of-all_below (suc r) g)))
  where
    positive : (r : ℕ) → (suc r == 0) ≡ false
    positive r = ground arith

    whole : suc r + (32 - suc r) ≡ 32
    whole = omega arith

    low : word_of 32 g ≡ word_of (suc r) g
    low =
        ap (λ (n : ℕ). word_of n g) (sym whole)
        ∙ word_of_short (suc r) (32 - suc r) g λ i h h'. missing i h (omega arith)

    ones : allbits / 2 ^ (32 - suc r) ≡ 2 ^ suc r - 1
    ones =
        ap (λ (n : ℕ). (2 ^ n - 1) / 2 ^ (32 - suc r)) (sym whole)
        ∙ ones_shifted (suc r) (32 - suc r)

-- The words before the last one.
whole_seen :
    (b : Bool) (n : ℕ) (f : ℕ → Bool) (m : ℕ) {rest : Option Bool}
    → b ≡ all_below n f
    → rest ≡ some (all_below m (λ i. f (n + i)))
    → (if b then rest else some false) ≡ some (all_below (n + m) f)
whole_seen true n f m e e' =
    e'
    ∙ ap (λ (b : Bool). some b)
        (ap (λ (b : Bool). b && all_below m (λ i. f (n + i))) e ∙ sym (all_below_add n m f))
whole_seen false n f m e e' =
    ap (λ (b : Bool). some b)
      (ap (λ (b : Bool). b && all_below m (λ i. f (n + i))) e ∙ sym (all_below_add n m f))

all_seen-bitmap :
    (count : ℕ) (f : ℕ → Bool)
    → count ≤ 64
    → ((i : ℕ) → count ≤ i → i < 64 → f i ≡ false)
    → all_seen count (bitmap f) ≡ some (all_below count f)
unfolding all_seen words_seen all_below
all_seen-bitmap count f h missing = elim (Bool-cases (count == 0)) [
  | inl none_required ↦
      rw none_required
        (ap (λ (n : ℕ). some (all_below n f)) (sym ((==_iff count 0).0 none_required)))
  | inr some_required ↦ rw some_required (elim (Bool-cases (ltb count 32)) [
    | inl low ↦
        let lt = ltb→lt count 32 low in
        rw (low_word count lt, low_rest count lt)
          (remaining_seen count f (word_of 32 (λ i. f (32 + i)) ∷ []) lt
            λ i h h'. missing i h (omega arith))
    | inr high ↦
        let le = ltb-false→le count 32 high in
        elim (Bool-cases (ltb count 64)) [
          | inl mid ↦
              let lt = ltb→lt count 64 mid in
              rw (mid_word count lt le, mid_rest count lt le)
                (whole_seen (word_of 32 f == allbits) 32 f (count - 32) (word_of-all_below 32 f) (
                    remaining_seen (count - 32) (λ i. f (32 + i)) [] (omega arith)
                      λ i g g'. missing (32 + i) (omega arith) (omega arith))
                  ∙ ap (λ (n : ℕ). some (all_below n f)) (rejoin count le))
          | inr all ↦
              let top : count ≡ 64 = omega (arith, ltb-false→le count 64 all) in
              rw top (
                whole_seen (word_of 32 f == allbits) 32 f 32 (word_of-all_below 32 f) (
                  ap (λ (b : Bool). if b then some true else some false)
                    (word_of-all_below 32 (λ i. f (32 + i)))
                  ∙ same_bool (all_below 32 (λ i. f (32 + i)))))
        ]
  ])
]
  where
    low_word : (i : ℕ) → i < 32 → i / 32 ≡ 0
    low_word i h = omega arith

    low_rest : (i : ℕ) → i < 32 → i % 32 ≡ i
    low_rest i h = omega arith

    mid_word : (i : ℕ) → i < 64 → 32 ≤ i → i / 32 ≡ 1
    mid_word i h h' = omega arith

    mid_rest : (i : ℕ) → i < 64 → 32 ≤ i → i % 32 ≡ i - 32
    mid_rest i h h' = omega arith

    rejoin : (i : ℕ) → 32 ≤ i → 32 + (i - 32) ≡ i
    rejoin i h = omega arith

    same_bool : (b : Bool) → (if b then some true else some false) ≡ some b
    same_bool true = refl
    same_bool false = refl

abbrev IsBelow : ℕ → List Found → Type 0
IsBelow count = All λ p. is_required p.0 ≡ true → p.1.required_field_index < count

was_found_below :
    (found : List Found) (count i : ℕ) → IsBelow count found → count ≤ i → was_found found i ≡ false
unfolding was_found
was_found_below [] count i known h = refl
was_found_below ((field, iter) ∷ found) count i known h =
    rw (was_found_below found count i known.1 h) (elim (Bool-cases (is_required field)) [
      | inr optional ↦ rw optional refl
      | inl required ↦ rw required (distinct iter.required_field_index i count (known.0 required) h)
    ])
  where
    distinct : (i j count : ℕ) → i < count → count ≤ j → ((i == j) || false) ≡ false
    distinct i j count h h' = ground arith

-- `fields_seen` is a set of required fields: if each required field that was found is one of the
-- `count` required fields of the message, then the check behind the loop, on the bits of the fields
-- that were found, tells whether all required fields with an index below PB_MAX_REQUIRED_FIELDS
-- were among them.
pub all_seen-mark_all :
    (found : List Found) (count : ℕ)
    → IsBelow count found
    → (mark_all found (0 ∷ 0 ∷ []) >>= all_seen (at_most_max count))
      ≡ some (all_below (at_most_max count) (was_found found))
unfolding word_of
all_seen-mark_all found count known = rw (mark_all-bitmap found (λ _. false)) (
    all_seen-bitmap (at_most_max count) (λ i. was_found found i || false) (at_most count)
      (λ i h h'.
        ap (λ (b : Bool). b || false) (was_found_below found count i known (below count i h h')))
    ∙ ap (λ (b : Bool). some b)
        (all_below_same (at_most_max count) (λ i. was_found found i || false) (was_found found)
          λ i. or_false (was_found found i)))
  where
    below : (count i : ℕ) → at_most_max count ≤ i → i < 64 → count ≤ i
    below count i h h' = ground arith

    at_most : (count : ℕ) → at_most_max count ≤ 64
    at_most count = ground arith

    or_false : (b : Bool) → (b || false) ≡ b
    or_false true = refl
    or_false false = refl
