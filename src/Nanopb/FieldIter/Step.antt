-- ===== src/Nanopb/FieldIter/Step.antt =====
-- pb_field_iter_begin and pb_field_iter_next on a table of fields.
use mathlib.Core.Path.{subst}
use mathlib.Core.Option.{some-injective}
use logoguess.Common.{
  sym, ℕ, zero, suc, ◌<◌, ◌≡◌, refl, ap, ◌∙◌, arith, ◌==◌, if◌then◌else◌, Bool, true, false, not,
  Bool-cases, inl, inr,
}
use logoguess.Common.{Option, none, some, List, [], ◌∷◌, get_elem?, ==_iff}
use logoguess.Nanopb.Field.{PbField}
use logoguess.Nanopb.FieldIter.Layout.{IsPlaced, first-IsPlaced, step_to-IsPlaced}
use logoguess.Nanopb.FieldIter.{
  FieldIter, first_iter, same_union, rewound, pb_field_iter_begin, step_to, pb_field_iter_next,
}

-- `n` fields with tags, and the terminator.
pub record IsTable (fields : List PbField) (n : ℕ) : Type 0 where
  pub field_at : (i : ℕ) → i < n → (f : PbField) × (get_elem? fields i ≡ some f) × (0 < f.tag)
  pub terminator : (f : PbField) × (get_elem? fields n ≡ some f) × (f.tag ≡ 0)

abbrev and_next : Option (FieldIter × Bool) → Option (FieldIter × Bool)
and_next none = none
and_next (some (iter, more)) = pb_field_iter_next iter

-- pb_field_iter_begin and `i` calls of pb_field_iter_next.
unfoldable pub walk : List PbField → ℕ → ℕ → Option (FieldIter × Bool)
walk fields dest zero = pb_field_iter_begin fields dest
walk fields dest (suc i) = and_next (walk fields dest i)

-- The iterator stands at field `i`: at its place in the struct, as after a walk from the first field.
pub record IsAt (fields : List PbField) (dest i : ℕ) (iter : FieldIter) : Type 0 where
  pub walked : walk fields dest i ≡ some (iter, true)
  pub placed : IsPlaced fields dest i iter
  pub same_start : iter.start ≡ fields
  pub same_dest : iter.dest_struct ≡ dest
  pub same_pos : iter.pos ≡ i

nonzero : (a : ℕ) → 0 < a → (a == 0) ≡ false
nonzero a h = ground arith

begin_first :
    (fields : List PbField) (dest : ℕ) (f : PbField)
    → get_elem? fields 0 ≡ some f
    → 0 < f.tag
    → (iter : FieldIter) × (pb_field_iter_begin fields dest ≡ some (iter, true))
      × (iter.start ≡ fields)
      × (iter.dest_struct ≡ dest)
      × (iter.pos ≡ 0)
      × IsPlaced fields dest 0 iter
unfolding pb_field_iter_begin
begin_first [] dest f e h = cc e
begin_first (field ∷ fields) dest f e h =
    let tagged =
      nonzero field.tag (subst (λ (t : PbField). 0 < t.tag) (sym (some-injective field f e)) h) in
    (
      first_iter field fields dest,
      ap (λ b. some (first_iter field fields dest, not b)) tagged,
      refl,
      refl,
      refl,
      first-IsPlaced field fields dest,
    )

begin-IsAt :
    (fields : List PbField) (dest n : ℕ)
    → IsTable fields n
    → 0 < n
    → (iter : FieldIter) × (pb_field_iter_begin fields dest ≡ some (iter, true))
      × IsAt fields dest 0 iter
unfolding walk
begin-IsAt fields dest n table h =
    let (f, e, pos) = table.field_at 0 h in
    let (iter, begun, a, b, c, d) = begin_first fields dest f e pos in
    (
      iter,
      begun,
      record { walked = begun; placed = d; same_start = a; same_dest = b; same_pos = c },
    )

pub step_to_places :
    (prev field : PbField) (iter : FieldIter)
    → ((step_to prev field iter).start ≡ iter.start)
      × ((step_to prev field iter).dest_struct ≡ iter.dest_struct)
      × ((step_to prev field iter).pos ≡ suc iter.pos)
unfolding step_to
step_to_places prev field iter = elim (Bool-cases (same_union prev field)) [
  | inl e ↦ rw e (refl, refl, refl)
  | inr e ↦ rw e (refl, refl, refl)
]

next_from :
    (iter : FieldIter) (prev field : PbField)
    → get_elem? iter.start iter.pos ≡ some prev
    → 0 < prev.tag
    → get_elem? iter.start (suc iter.pos) ≡ some field
    → pb_field_iter_next iter ≡ (
        if field.tag == 0
        then rewound (pb_field_iter_begin iter.start iter.dest_struct)
        else some (step_to prev field iter, true))
unfolding pb_field_iter_next
next_from iter prev field e h e' = rw (e, pb_field_iter_next) (rw (nonzero prev.tag h, e'))

next_within :
    (fields : List PbField) (dest n i : ℕ) (iter : FieldIter)
    → IsTable fields n
    → suc i < n
    → IsAt fields dest i iter
    → (iter' : FieldIter) × (pb_field_iter_next iter ≡ some (iter', true))
      × IsAt fields dest (suc i) iter'
unfolding walk
next_within fields dest n i iter table h at =
    let (prev, e, p) = table.field_at i (omega arith) in
    let (field, e', p') = table.field_at (suc i) h in
    let stepped : pb_field_iter_next iter ≡ some (step_to prev field iter, true) =
      next_from iter prev field (rw (at.same_start, at.same_pos) e) p
        (rw (at.same_start, at.same_pos) e')
      ∙ rw (nonzero field.tag p') in
    let (a, b, c) = step_to_places prev field iter in
    (
      _,
      stepped,
      record {
        walked = rw at.walked stepped;
        placed = step_to-IsPlaced fields dest i iter prev field e e' at.placed;
        same_start = a ∙ at.same_start;
        same_dest = b ∙ at.same_dest;
        same_pos = c ∙ ap suc at.same_pos;
      },
    )

next_wraps :
    (fields : List PbField) (dest n i : ℕ) (iter : FieldIter)
    → IsTable fields n
    → suc i ≡ n
    → IsAt fields dest i iter
    → (iter' : FieldIter) × (pb_field_iter_next iter ≡ some (iter', false))
      × IsAt fields dest 0 iter'
next_wraps fields dest n i iter table h at =
    let (prev, e, p) = table.field_at i (omega arith) in
    let (last, e', z) = table.terminator in
    let (iter', begun, first) = begin-IsAt fields dest n table (omega arith) in
    let e'' : get_elem? fields (suc i) ≡ some last = ap (get_elem? fields) h ∙ e' in
    (
      iter',
      next_from iter prev last (rw (at.same_start, at.same_pos) e) p
            (rw (at.same_start, at.same_pos) e'')
          ∙ rw (z, at.same_start, at.same_dest, begun),
      first,
    )

-- Where the iterator goes from field `i`.
abbrev pub after : ℕ → ℕ → ℕ
after n i = if suc i == n then 0 else suc i

-- pb_field_iter_next at any field of a table, reached as by a walk from the first, where the iterator
-- has the addresses of the field's data and size that follow from the descriptors, and the number of
-- required fields before it, up to multiples of 2^64 and 2^32: it goes on to the next field, and to
-- those of the next field, and returns true, or after the last wraps to the first, with those of the
-- first, and returns false.
pub pb_field_iter_next-IsAt :
    (fields : List PbField) (dest n i : ℕ) (iter : FieldIter)
    → IsTable fields n
    → i < n
    → IsAt fields dest i iter
    → (iter' : FieldIter) × (pb_field_iter_next iter ≡ some (iter', not (suc i == n)))
      × IsAt fields dest (after n i) iter'
pb_field_iter_next-IsAt fields dest n i iter table h at = elim (Bool-cases (suc i == n)) [
  | inl last ↦ rw last (next_wraps fields dest n i iter table ((==_iff (suc i) n).0 last) at)
  | inr inner ↦ rw inner (next_within fields dest n i iter table (more inner) at)
]
  where
    more : (suc i == n) ≡ false → suc i < n
    more e = ground arith
