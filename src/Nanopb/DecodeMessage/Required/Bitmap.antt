-- ===== src/Nanopb/DecodeMessage/Required/Bitmap.antt =====
-- The array `fields_seen` as a set of required fields.
use logoguess.Common.{ℕ, ◌+◌, ◌-◌, ◌/◌, ◌%◌, ◌^◌, ◌≤◌, ◌<◌, ◌≡◌, refl, sym, ap, ◌∙◌, arith}
use logoguess.Common.{ltb, ◌==◌, Bool, true, false, ◌&&◌, ◌||◌, Bool-cases, inl, inr}
use logoguess.Common.{Option, some, List, [], ◌∷◌, ltb→lt, ltb-false→le}
use logoguess.Nanopb.Field.{PbField, htype, htype_required}
use logoguess.Nanopb.FieldIter.{FieldIter}
use logoguess.Nanopb.Memory.{◌>>=◌}
use logoguess.Nanopb.DecodeMessage.Required.{max_required_fields, set_word, mark_seen}
use logoguess.Nanopb.DecodeMessage.Required.Words.{word_of, add, word_of_same, bit_or-word_of}

abbrev pub bitmap : (ℕ → Bool) → List ℕ
bitmap f = word_of 32 f ∷ word_of 32 (λ i. f (32 + i)) ∷ []

bitmap_same : (f g : ℕ → Bool) → ((i : ℕ) → i < 64 → f i ≡ g i) → bitmap f ≡ bitmap g
bitmap_same f g same = rw (
  word_of_same 32 f g λ i h. same i (omega arith),
  word_of_same 32 (λ i. f (32 + i)) (λ i. g (32 + i)) λ i h. same (32 + i) (omega arith),
)

add_other : (i j : ℕ) (f : ℕ → Bool) → (i == j) ≡ false → add i f j ≡ f j
add_other i j f h = rw h

-- The low or the high word gets the bit.
set_word-add :
    (i : ℕ) (f : ℕ → Bool)
    → i < 64
    → set_word (i / 32) (2 ^ (i % 32)) (bitmap f) ≡ some (bitmap (add i f))
unfolding set_word
set_word-add i f h = elim (Bool-cases (ltb i 32)) [
  | inl low ↦
      let lt = ltb→lt i 32 low in
      rw (low_word i lt, low_bit i lt, bit_or-word_of 32 i f lt)
        (ap (λ (w : ℕ). some (word_of 32 (add i f) ∷ w ∷ []))
          (word_of_same 32 (λ j. f (32 + j)) (λ j. add i f (32 + j)) λ j _. sym (above i j f lt)))
  | inr high ↦
      let le = ltb-false→le i 32 high in
      rw
        (
          high_word i h le,
          high_bit i h le,
          bit_or-word_of 32 (i - 32) (λ j. f (32 + j)) (omega arith),
        )
        (ap (λ ((v, w) : ℕ × ℕ). some (v ∷ w ∷ []))
          (pair (word_of_same 32 f (add i f) λ j hj. sym (below i j f le hj)) (
            word_of_same 32 (add (i - 32) (λ j. f (32 + j))) (λ j. add i f (32 + j))
              λ j _. moved i j f le)))
]
  where
    low_word : (i : ℕ) → i < 32 → i / 32 ≡ 0
    low_word i h = omega arith

    low_bit : (i : ℕ) → i < 32 → i % 32 ≡ i
    low_bit i h = omega arith

    high_word : (i : ℕ) → i < 64 → 32 ≤ i → i / 32 ≡ 1
    high_word i h h' = omega arith

    high_bit : (i : ℕ) → i < 64 → 32 ≤ i → i % 32 ≡ i - 32
    high_bit i h h' = omega arith

    above : (i j : ℕ) (f : ℕ → Bool) → i < 32 → add i f (32 + j) ≡ f (32 + j)
    above i j f h = ground arith

    below : (i j : ℕ) (f : ℕ → Bool) → 32 ≤ i → j < 32 → add i f j ≡ f j
    below i j f h h' = ground arith

    moved : (i j : ℕ) (f : ℕ → Bool) → 32 ≤ i → add (i - 32) (λ j. f (32 + j)) j ≡ add i f (32 + j)
    moved i j f h = ground arith

    pair : {a b c d : ℕ} → a ≡ b → c ≡ d → ◌≡◌ {A = ℕ × ℕ} (a, c) (b, d)
    pair e e' = cc (e, e')

-- A field that decode found, with the iterator at it.
abbrev pub Found : Type 0
Found = PbField × FieldIter

abbrev pub is_required : PbField → Bool
is_required field = htype field.type == htype_required

-- The bits of all fields that were found, one after the other.
unfoldable pub mark_all : List Found → List ℕ → Option (List ℕ)
mark_all [] fields_seen = some fields_seen
mark_all ((field, iter) ∷ found) fields_seen = mark_seen field iter fields_seen >>= mark_all found

-- Whether the required field with that index was found.
unfoldable pub was_found : List Found → ℕ → Bool
was_found [] i = false
was_found ((field, iter) ∷ found) i =
    (is_required field && (iter.required_field_index == i)) || was_found found i

mark_seen-bitmap :
    (field : PbField) (iter : FieldIter) (f : ℕ → Bool)
    → mark_seen field iter (bitmap f)
      ≡ some (bitmap (λ i. (is_required field && (iter.required_field_index == i)) || f i))
unfolding mark_seen
mark_seen-bitmap field iter f = elim (Bool-cases (is_required field)) [
  | inr optional ↦ rw optional refl
  | inl required ↦ elim (Bool-cases (ltb iter.required_field_index max_required_fields)) [
    | inl small ↦ rw (required, small) (set_word-add iter.required_field_index f (ltb→lt _ _ small))
    | inr large ↦
        rw (required, large)
          (ap (λ (w : List ℕ). some w)
            (bitmap_same f (add iter.required_field_index f) λ i h. sym (
              add_other iter.required_field_index i f
                (other iter.required_field_index i (ltb-false→le _ _ large) h))))
  ]
]
  where
    other : (i j : ℕ) → 64 ≤ i → j < 64 → (i == j) ≡ false
    other i j h h' = ground arith

pub mark_all-bitmap :
    (found : List Found) (f : ℕ → Bool)
    → mark_all found (bitmap f) ≡ some (bitmap (λ i. was_found found i || f i))
unfolding mark_all was_found
mark_all-bitmap [] f = refl
mark_all-bitmap ((field, iter) ∷ found) f = rw (mark_seen-bitmap field iter f) (
    mark_all-bitmap found (λ i. (is_required field && (iter.required_field_index == i)) || f i)
    ∙ ap (λ (w : List ℕ). some w)
        (bitmap_same _ _ λ i h.
          swap (was_found found i) (is_required field && (iter.required_field_index == i)) (f i)))
  where
    or_false : (b c : Bool) → (b || c) ≡ ((b || false) || c)
    or_false true c = refl
    or_false false c = refl

    swap : (a b c : Bool) → (a || (b || c)) ≡ ((b || a) || c)
    swap true true c = refl
    swap true false c = refl
    swap false b c = or_false b c
