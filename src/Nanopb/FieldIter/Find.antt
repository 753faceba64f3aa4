-- ===== src/Nanopb/FieldIter/Find.antt =====
-- pb_field_iter_find visits every field once, from any place, and ends.
use mathlib.Core.Path.{ap₂, subst}
use logoguess.Common.{
  ℕ, zero, suc, ◌+◌, ◌-◌, ◌<◌, ◌≤◌, ◌≡◌, sym, ◌∙◌, arith, leb, ◌==◌, if◌then◌else◌, Bool, true,
  false, not, Bool-cases, inl, inr,
}
use logoguess.Common.{
  Option, none, some, List, [], ◌∷◌, get_elem?, length, ==_iff, ltb, ltb→lt, ltb-false→le,
}
use logoguess.Nanopb.Field.{PbField}
use logoguess.Nanopb.FieldIter.{
  FieldIter, pb_field_iter_next, is_wanted, find_loop, pb_field_iter_find,
}
use logoguess.Nanopb.FieldIter.Step.{IsTable, IsAt, after, pb_field_iter_next-IsAt}

-- Whether field `i` is the one that is looked for.
abbrev wanted_at : List PbField → ℕ → ℕ → Bool
wanted_at fields tag i = elim (get_elem? fields i) [
  | none ↦ false
  | some field ↦ is_wanted tag field
]

-- How many fields come before field `i` on a round that begins at field `p` of `n`.
abbrev rank : ℕ → ℕ → ℕ → ℕ
rank n p i = if leb p i then i - p else i + n - p

-- The outcome of a search of a table of `n` fields from field `p` on: the first field that matches,
-- in the order of the round, or the iterator back at `p` if none does.
pub data Found (fields : List PbField) (dest n p tag : ℕ) : Option (FieldIter × Bool) → Type 0 where
  found :
      {iter : FieldIter} (i : ℕ)
      → i < n
      → IsAt fields dest i iter
      → wanted_at fields tag i ≡ true
      → ((j : ℕ) → j < n → rank n p j < rank n p i → wanted_at fields tag j ≡ false)
      → Found fields dest n p tag (some (iter, true))
  absent :
      {iter : FieldIter}
      → IsAt fields dest p iter
      → ((j : ℕ) → j < n → wanted_at fields tag j ≡ false)
      → Found fields dest n p tag (some (iter, false))

loop_round :
    (fuel p tag : ℕ) (iter iter' : FieldIter) (more : Bool) (f : PbField)
    → get_elem? iter.start iter.pos ≡ some f
    → pb_field_iter_next iter ≡ some (iter', more)
    → find_loop (suc fuel) p tag iter ≡ (
        if is_wanted tag f
        then some (iter, true)
        else if iter'.pos == p
        then some (iter', false)
        else find_loop fuel p tag iter')
unfolding find_loop
loop_round fuel p tag iter iter' more f e next = rw (e, find_loop) (rw next)

wanted_field :
    (fields : List PbField) (tag i : ℕ) (f : PbField)
    → get_elem? fields i ≡ some f
    → wanted_at fields tag i ≡ is_wanted tag f
wanted_field fields tag i f e = rw (e, wanted_at)

after_inner : (n i : ℕ) → suc i < n → after n i ≡ suc i
after_inner n i h = ground arith

after_last : (n i : ℕ) → suc i ≡ n → after n i ≡ 0
after_last n i h = ground arith

module _ (fields : List PbField) (dest n tag : ℕ) (table : IsTable fields n) where
  -- A round of the loop at field `i`.
  round-IsAt :
      (fuel p i : ℕ) (iter : FieldIter)
      → i < n
      → IsAt fields dest i iter
      → (iter' : FieldIter) × (find_loop (suc fuel) p tag iter ≡ (
          if wanted_at fields tag i
          then some (iter, true)
          else if after n i == p
          then some (iter', false)
          else find_loop fuel p tag iter'))
        × IsAt fields dest (after n i) iter'
  round-IsAt fuel p i iter h at =
      let (f, e, t) = table.field_at i h in
      let (iter', next, at') = pb_field_iter_next-IsAt fields dest n i iter table h at in
      let e' : get_elem? iter.start iter.pos ≡ some f = rw (at.same_start, at.same_pos) e in
      let first = loop_round fuel p tag iter iter' (not (suc i == n)) f e' next in
      (
        iter',
        first
            ∙ ap₂
                (λ (b : Bool) (q : ℕ).
                  if b
                  then some (iter, true)
                  else if q == p
                  then some (iter', false)
                  else find_loop fuel p tag iter')
                (sym (wanted_field fields tag i f e)) at'.same_pos,
        at',
      )

  -- Where a round goes on, by its next field `q`.
  abbrev GoesOn : ℕ → ℕ → ℕ → FieldIter → ℕ → Type 0
  GoesOn fuel p i iter q =
      (iter' : FieldIter) × (find_loop (suc fuel) p tag iter ≡ (
        if wanted_at fields tag i
        then some (iter, true)
        else if q == p
        then some (iter', false)
        else find_loop fuel p tag iter'))
      × IsAt fields dest q iter'

  inner-GoesOn :
      (fuel p i : ℕ) (iter : FieldIter)
      → suc i < n
      → IsAt fields dest i iter
      → GoesOn fuel p i iter (suc i)
  inner-GoesOn fuel p i iter h at =
      subst (GoesOn fuel p i iter) (after_inner n i h) (round-IsAt fuel p i iter (omega arith) at)

  last-GoesOn :
      (fuel p i : ℕ) (iter : FieldIter)
      → suc i ≡ n
      → IsAt fields dest i iter
      → GoesOn fuel p i iter 0
  last-GoesOn fuel p i iter h at =
      subst (GoesOn fuel p i iter) (after_last n i h) (round-IsAt fuel p i iter (omega arith) at)

  one_more :
      (a i : ℕ)
      → ((j : ℕ) → a ≤ j → j < i → wanted_at fields tag j ≡ false)
      → wanted_at fields tag i ≡ false
      → (j : ℕ) → a ≤ j
      → j < suc i
      → wanted_at fields tag j ≡ false
  one_more a i below miss j ha h = elim (Bool-cases (ltb j i)) [
    | inl less ↦ below j ha (ltb→lt j i less)
    | inr not_less ↦
        let same : i ≡ j = omega (arith, ltb-false→le j i not_less) in
        subst (λ (t : ℕ). wanted_at fields tag t ≡ false) same miss
  ]

  -- After the wrap: everything from `p` on, and everything below `i`, was visited.
  wrapped-Found :
      (fuel p i : ℕ) (iter : FieldIter)
      → i < p
      → p < n
      → p ≤ i + fuel
      → IsAt fields dest i iter
      → ((j : ℕ) → p ≤ j → j < n → wanted_at fields tag j ≡ false)
      → ((j : ℕ) → 0 ≤ j → j < i → wanted_at fields tag j ≡ false)
      → Found fields dest n p tag (find_loop fuel p tag iter)
  wrapped-Found zero p i iter h hp hf at high low = absurd (omega arith)
  wrapped-Found (suc fuel) p i iter h hp hf at high low =
      let (iter', round, at') = inner-GoesOn fuel p i iter (omega arith) at in
      elim (Bool-cases (wanted_at fields tag i)) [
        | inl hit ↦
            rw (round, hit)
              (found i (omega arith) at hit (λ j hj less. ground (arith, high j, low j)))
        | inr miss ↦ elim (Bool-cases (suc i == p)) [
          | inl back ↦
              let e = (==_iff (suc i) p).0 back in
              rw (round, miss, back)
                (absent (subst (λ q. IsAt fields dest q iter') e at')
                  (λ j hj. ground (arith, high j, one_more 0 i low miss j)))
          | inr on ↦
              rw (round, miss, on)
                (wrapped-Found fuel p (suc i) iter' (later i p h on) hp (omega arith) at' high
                  (one_more 0 i low miss))
        ]
      ]
    where
      later : (i p : ℕ) → i < p → (suc i == p) ≡ false → suc i < p
      later i p h e = ground arith

  -- Before the wrap: everything from `p` to `i` was visited.
  find_loop-Found :
      (more fuel p i : ℕ) (iter : FieldIter)
      → p ≤ i
      → i < n
      → i + suc more ≡ n
      → more + p < fuel
      → IsAt fields dest i iter
      → ((j : ℕ) → p ≤ j → j < i → wanted_at fields tag j ≡ false)
      → Found fields dest n p tag (find_loop fuel p tag iter)
  find_loop-Found more zero p i iter h hi hm hf at seen = absurd (omega arith)
  find_loop-Found zero (suc fuel) p i iter h hi hm hf at seen =
      let (iter', round, at') = last-GoesOn fuel p i iter (omega arith) at in
      let all = one_more p i seen in
      elim (Bool-cases (wanted_at fields tag i)) [
        | inl hit ↦ rw (round, hit) (found i hi at hit (λ j hj less. ground (arith, seen j)))
        | inr miss ↦ elim (Bool-cases (0 == p)) [
          | inl back ↦
              let e = (==_iff 0 p).0 back in
              rw (round, miss, back)
                (absent (subst (λ q. IsAt fields dest q iter') e at')
                  (λ j hj. all miss j (omega arith) (omega arith)))
          | inr on ↦
              rw (round, miss, on)
                (wrapped-Found fuel p 0 iter' (positive p on) (omega arith) (omega arith) at'
                  (λ j hp hj. all miss j hp (omega arith)) (λ j h₀ hj. absurd (omega arith)))
        ]
      ]
    where
      positive : (p : ℕ) → (0 == p) ≡ false → 0 < p
      positive p e = ground arith
  find_loop-Found (suc more) (suc fuel) p i iter h hi hm hf at seen =
      let (iter', round, at') = inner-GoesOn fuel p i iter (omega arith) at in
      elim (Bool-cases (wanted_at fields tag i)) [
        | inl hit ↦ rw (round, hit) (found i hi at hit (λ j hj less. ground (arith, seen j)))
        | inr miss ↦
            rw (round, miss, apart i p h)
              (find_loop-Found more fuel p (suc i) iter' (omega arith) (omega arith) (omega arith)
                (omega arith) at' (one_more p i seen miss))
      ]
    where
      apart : (i p : ℕ) → p ≤ i → (suc i == p) ≡ false
      apart i p h = ground arith

get_elem?-lt :
    (fields : List PbField) (i : ℕ) (f : PbField) → get_elem? fields i ≡ some f → i < length fields
get_elem?-lt [] i f e = cc e
get_elem?-lt (x ∷ fields) zero f e = omega arith
get_elem?-lt (x ∷ fields) (suc i) f e = omega (arith, get_elem?-lt fields i f e)

-- pb_field_iter_find, from any field of a table: it ends, at the first field in the order of the
-- round that has the tag and is no extension, in the state that a walk from the first field would
-- reach there, or, if there is none, back at the field where it began, with false.
pub pb_field_iter_find-Found :
    (fields : List PbField) (dest n p tag : ℕ) (iter : FieldIter)
    → IsTable fields n
    → p < n
    → IsAt fields dest p iter
    → Found fields dest n p tag (pb_field_iter_find tag iter)
unfolding pb_field_iter_find
pb_field_iter_find-Found fields dest n p tag iter table h at =
    let (last, e, z) = table.terminator in
    subst (λ q. Found fields dest n p tag (find_loop (length iter.start) q tag iter))
      (sym at.same_pos)
      (subst (λ q. Found fields dest n p tag (find_loop (length q) p tag iter)) (sym at.same_start)
        (find_loop-Found fields dest n tag table (n - suc p) (length fields) p p iter (omega arith)
          h (omega arith) (omega (arith, get_elem?-lt fields n last e)) at
          (λ j hp hj. absurd (omega arith))))
