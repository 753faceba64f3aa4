-- ===== src/Nanopb/EncodeMessage/Depth.antt =====
-- Descriptor tables whose submessages are nested to a bounded depth.
pub mod Enough
use native.Mathlib.Nat.{suc-add}
use mathlib.Core.Path.{subst}
use mathlib.Core.Option.{some-injective}
use logoguess.Common.{
  ℕ, zero, suc, ◌+◌, ◌-◌, ◌^◌, ◌≡◌, refl, sym, ap, ◌∙◌, arith, ltb, ◌==◌, ==_iff, if◌then◌else◌,
  not, Bool, true, false, ◌&&◌, ◌||◌, Option, none, some, List, [], ◌∷◌, length, All, Bool-cases,
  inl, inr, get_elem?,
}
use logoguess.Nanopb.Field.{PbField, ltype, htype, atype, ltype_submessage, ltype_extension}
use logoguess.Nanopb.FieldIter.{
  FieldIter, first_iter, rewound, step_to, same_union, pb_field_iter_begin, pb_field_iter_next,
}
use logoguess.Nanopb.FieldIter.Step.{step_to_places}
use logoguess.Nanopb.OStream.{OStream, Encoder, sent, ◌>>◌}
use logoguess.Nanopb.Memory.{Memory, null, ◌>>=◌}
use logoguess.Nanopb.Program.{EncodeProgram}
use logoguess.Nanopb.EncodeMessage.{
  find_size, encode_basic_field, encode_field, encode_one, fields_loop, encode_fields, pb_encode,
}
use logoguess.Nanopb.EncodeMessage.Values.{
  EncodesMessage, loaded, pb_enc_submessage, call_encoder, pb_encode_submessage,
}
use logoguess.Nanopb.EncodeMessage.Default.{
  ChecksDefault, default_loop, default_fields, singular_default, check_default,
  pb_check_proto3_default_value,
}

-- Submessages are nested less than `depth` deep, and there are no extensions.
abbrev pub IsNested : EncodeProgram → ℕ → List PbField → Type 0
IsNested program zero fields = ⊥
IsNested program (suc depth) fields =
    All
      (λ field.
        ((ltype field.type == ltype_extension) ≡ false)
        × ((sub : List PbField)
            → program.fields_at field.ptr ≡ some sub
            → (ltype field.type == ltype_submessage) ≡ true
            → IsNested program depth sub))
      fields

-- A field of a table that is nested less than `depth + 1` deep.
abbrev pub IsNestedField : EncodeProgram → ℕ → PbField → Type 0
IsNestedField program depth field =
    ((ltype field.type == ltype_extension) ≡ false)
    × ((sub : List PbField)
        → program.fields_at field.ptr ≡ some sub
        → (ltype field.type == ltype_submessage) ≡ true
        → IsNested program depth sub)

module _ {A : Type 0} where
  pub loaded_same :
      (o : Option A) {k k' : A → Encoder}
      → ((a : A) → o ≡ some a → k a ≡ k' a)
      → loaded o k ≡ loaded o k'
  loaded_same none h = refl
  loaded_same (some a) h = h a refl

  pub bind_same :
      {B : Type 0} (o : Option A) {k k' : A → Option B}
      → ((a : A) → o ≡ some a → k a ≡ k' a)
      → (o >>= k) ≡ (o >>= k')
  bind_same none h = refl
  bind_same (some a) h = h a refl

-- A field of a table has what all fields of it have.
pub All-get :
    (P : PbField → Type 0) (fields : List PbField) (i : ℕ) (f : PbField)
    → All P fields
    → get_elem? fields i ≡ some f
    → P f
All-get P [] i f h e = absurd (no e)
  where
    no : {a : PbField} → none ≡ some a → ⊥
    no e = cc e
All-get P (x ∷ fields) zero f h e = subst P (some-injective x f e) h.0
All-get P (x ∷ fields) (suc i) f h e = All-get P fields i f h.1 e

pub begin_start :
    (fields : List PbField) (dest : ℕ) (r : FieldIter × Bool)
    → pb_field_iter_begin fields dest ≡ some r
    → r.0.start ≡ fields
unfolding pb_field_iter_begin
begin_start [] dest r e = cc e
begin_start (field ∷ fields) dest r e = cc e

rewound_start :
    (o : Option (FieldIter × Bool)) (r : FieldIter × Bool) (fields : List PbField)
    → ((q : FieldIter × Bool) → o ≡ some q → q.0.start ≡ fields)
    → rewound o ≡ some r
    → r.0.start ≡ fields
rewound_start none r fields h e = cc e
rewound_start (some (iter, more)) r fields h e =
    ap (λ (q : FieldIter × Bool). q.0.start) (sym (some-injective _ _ e)) ∙ h (iter, more) refl

pub next_start :
    (iter : FieldIter) (r : FieldIter × Bool)
    → pb_field_iter_next iter ≡ some r
    → r.0.start ≡ iter.start
unfolding pb_field_iter_next step_to
next_start iter r e = by_prev (get_elem? iter.start iter.pos) refl
  where
    by_field :
        (prev : PbField) (o : Option PbField)
        → get_elem? iter.start iter.pos ≡ some prev
        → (prev.tag == 0) ≡ false
        → get_elem? iter.start (suc iter.pos) ≡ o
        → r.0.start ≡ iter.start
    by_field prev none at tagged at' =
        let e' = rw (pb_field_iter_next, at, tagged, at') at e in cc e'
    by_field prev (some field) at tagged at' = elim (Bool-cases (field.tag == 0)) [
      | inl last ↦
          let e' = rw (pb_field_iter_next, at, tagged, at', last) at e in
          rewound_start (pb_field_iter_begin iter.start iter.dest_struct) r iter.start
            (begin_start iter.start iter.dest_struct) e'
      | inr inside ↦
          let e' = rw (pb_field_iter_next, at, tagged, at', inside) at e in
          ap (λ (q : FieldIter × Bool). q.0.start) (sym (some-injective _ _ e'))
          ∙ (step_to_places prev field iter).0
    ]

    by_prev : (o : Option PbField) → get_elem? iter.start iter.pos ≡ o → r.0.start ≡ iter.start
    by_prev none at = let e' = rw (pb_field_iter_next, at) at e in cc e'
    by_prev (some prev) at = elim (Bool-cases (prev.tag == 0)) [
      | inl last ↦ let e' = rw (pb_field_iter_next, at, last) at e in cc e'
      | inr tagged ↦ by_field prev (get_elem? iter.start (suc iter.pos)) at tagged refl
    ]
