-- ===== src/Nanopb/EncodeMessage/Depth/Enough.antt =====
-- The nesting depth of descriptor tables bounds the recursion of pb_encode.
use native.Mathlib.Nat.{suc-add}
use mathlib.Core.Path.{subst, fun_ext}
use logoguess.Common.{
  ℕ, zero, suc, ◌+◌, ◌≡◌, refl, sym, ap, ◌==◌, if◌then◌else◌, not, Bool, true, false, ◌&&◌, Option,
  some, List, length, All, Bool-cases, inl, inr, get_elem?,
}
use logoguess.Nanopb.Field.{PbField, ltype, atype, atype_static, ltype_submessage, ltype_extension}
use logoguess.Nanopb.FieldIter.{FieldIter, pb_field_iter_begin, pb_field_iter_next}
use logoguess.Nanopb.OStream.{Encoder, sent, return_error, ◌>>◌}
use logoguess.Nanopb.Errors.{invalid_field_descriptor}
use logoguess.Nanopb.Memory.{Memory, null}
use logoguess.Nanopb.Program.{EncodeProgram}
use logoguess.Nanopb.EncodeMessage.{
  find_size, encode_basic_field, encode_field, encode_one, fields_loop, encode_fields, pb_encode,
}
use logoguess.Nanopb.EncodeMessage.Values.{
  EncodesMessage, pb_enc_submessage, call_encoder, pb_encode_submessage,
}
use logoguess.Nanopb.EncodeMessage.Default.{
  ChecksDefault, default_loop, default_fields, singular_default, check_default,
  pb_check_proto3_default_value,
}
use logoguess.Nanopb.EncodeMessage.Depth.{
  IsNestedField, IsNested, loaded_same, bind_same, All-get, begin_start, next_start,
}

default_loop_same :
    (P : PbField → Type 0) (c c' : ChecksDefault) (fuel : ℕ) (iter : FieldIter)
    → ((field : PbField) (p : ℕ) → P field → c field p ≡ c' field p)
    → All P iter.start
    → default_loop fuel c iter ≡ default_loop fuel c' iter
unfolding default_loop
default_loop_same P c c' zero iter same h = refl
default_loop_same P c c' (suc fuel) iter same h =
    bind_same (get_elem? iter.start iter.pos) λ field at.
      rw (same field iter.p_data (All-get P iter.start iter.pos field h at)) (
        bind_same (c' field iter.p_data) λ empty _.
          ap (λ (r : Option Bool). if not empty then some false else r)
            (bind_same (pb_field_iter_next iter) λ next at'.
              ap (λ (r : Option Bool). if next.1 then r else some true)
                (default_loop_same P c c' fuel (next.0) same (
                  subst (λ (fields : List PbField). All P fields) (sym (next_start iter next at'))
                    h))))

default_fields_same :
    (P : PbField → Type 0) (c c' : ChecksDefault) (fields : List PbField) (p : ℕ)
    → ((field : PbField) (p : ℕ) → P field → c field p ≡ c' field p)
    → All P fields
    → default_fields c fields p ≡ default_fields c' fields p
default_fields_same P c c' fields p same h = bind_same (pb_field_iter_begin fields p) λ first at.
    ap (λ (r : Option Bool). if first.1 then r else some true)
      (default_loop_same P c c' (length fields) (first.0) same
        (subst (λ (fs : List PbField). All P fs) (sym (begin_start fields p first at)) h))

module _ (program : EncodeProgram) (mem : Memory) where
  -- The two checks agree on the submessages of a field.
  Agree : ChecksDefault → ChecksDefault → PbField → Type 0
  Agree c c' field =
      (sub : List PbField) (p : ℕ)
      → program.fields_at field.ptr ≡ some sub
      → (ltype field.type == ltype_submessage) ≡ true
      → default_fields c sub p ≡ default_fields c' sub p

  check_default_same :
      (c c' : ChecksDefault) (field : PbField) (p : ℕ)
      → Agree c c' field
      → check_default program mem c field p ≡ check_default program mem c' field p
  unfolding check_default singular_default Agree
  check_default_same c c' field p agree = elim (Bool-cases (ltype field.type == ltype_submessage)) [
    | inr other ↦
        rw (check_default, singular_default, other, and_false (atype field.type == atype_static))
    | inl is ↦ rw (
      check_default,
      singular_default,
      bind_same (program.fields_at field.ptr) {k = λ fields. default_fields c fields p}
          {k' = λ fields. default_fields c' fields p} (λ sub at. agree sub p at is),
    )
  ]
    where
      and_false : (b : Bool) → (b && false) ≡ false
      and_false true = refl
      and_false false = refl

  -- pb_check_proto3_default_value with `depth` levels of recursion, and with `base` in its place for
  -- what is nested deeper.
  unfoldable pub check_over : ChecksDefault → ℕ → ChecksDefault
  check_over base zero field p = base field p
  check_over base (suc depth) field p = check_default program mem (check_over base depth) field p

  check_over_lem :
      (base : ChecksDefault) (depth more : ℕ) (field : PbField) (p : ℕ)
      → IsNestedField program depth field
      → pb_check_proto3_default_value program mem (suc depth + more) field p
        ≡ check_over base (suc depth) field p
  unfolding pb_check_proto3_default_value check_over Agree
  check_over_lem base zero more field p h =
      rw (suc-add zero more) (check_default_same _ _ field p λ sub q at is. absurd (h.1 sub at is))
  check_over_lem base (suc depth) more field p h = rw (suc-add (suc depth) more) (
      check_default_same _ _ field p λ sub q at is.
        default_fields_same (IsNestedField program depth) _ _ sub q
          (λ g r nested. check_over_lem base depth more g r nested) (h.1 sub at is))

  -- Two encoders of submessages agree on those of a field.
  Alike : EncodesMessage → EncodesMessage → PbField → Type 0
  Alike e e' field =
      (sub : List PbField) (p : ℕ)
      → program.fields_at field.ptr ≡ some sub
      → (ltype field.type == ltype_submessage) ≡ true
      → e sub p ≡ e' sub p

  enc_submessage_same :
      (e e' : EncodesMessage) (field : PbField) (p : ℕ)
      → (ltype field.type == ltype_submessage) ≡ true
      → Alike e e' field
      → pb_enc_submessage program mem e field p ≡ pb_enc_submessage program mem e' field p
  unfolding pb_enc_submessage pb_encode_submessage Alike
  enc_submessage_same e e' field p is alike =
      ap (λ (m : Encoder). if field.ptr == null then return_error invalid_field_descriptor else m)
        (loaded_same (program.fields_at field.ptr)
          λ sub at. ap (λ (m : Encoder). pb_encode_submessage (λ _ _. m) sub p) (alike sub p at is))

  call_encoder_same :
      (e e' : EncodesMessage) (field : PbField)
      → Alike e e' field
      → call_encoder program mem e field ≡ call_encoder program mem e' field
  unfolding call_encoder
  call_encoder_same e e' field alike = fun_ext λ p.
      elim (Bool-cases (ltype field.type == ltype_submessage)) [
        | inr other ↦ rw (call_encoder, other)
        | inl is ↦ rw (call_encoder, enc_submessage_same e e' field p is alike)
      ]

  encode_field_same :
      (check check' : ChecksDefault) (func func' : PbField → ℕ → Encoder) (field : PbField) (p : ℕ)
      → check field p ≡ check' field p
      → func field ≡ func' field
      → encode_field program mem check func field p ≡ encode_field program mem check' func' field p
  unfolding encode_field encode_basic_field find_size
  encode_field_same check check' func func' field p checks same =
      rw (encode_field, encode_basic_field, find_size, same, checks)

  fields_loop_same :
      (P : PbField → Type 0) (check check' : ChecksDefault) (func func' : PbField → ℕ → Encoder)
      (fuel : ℕ) (iter : FieldIter)
      → ((field : PbField) → P field → (ltype field.type == ltype_extension) ≡ false)
      → ((field : PbField) (p : ℕ) → P field → check field p ≡ check' field p)
      → ((field : PbField) → P field → func field ≡ func' field)
      → All P iter.start
      → fields_loop program mem fuel check func iter
        ≡ fields_loop program mem fuel check' func' iter
  unfolding fields_loop encode_one
  fields_loop_same P check check' func func' zero iter plain checks same h = refl
  fields_loop_same P check check' func func' (suc fuel) iter plain checks same h =
      loaded_same (get_elem? iter.start iter.pos) λ field at.
        let holds = All-get P iter.start iter.pos field h at in
        rw
          (
            plain field holds,
            encode_field_same check check' func func' field iter.p_data
                (checks field iter.p_data holds) (same field holds),
          )
          (ap (λ (m : Encoder). encode_field program mem check' func' field iter.p_data >> m)
            (loaded_same (pb_field_iter_next iter) λ next at'.
              ap (λ (m : Encoder). if next.1 then m else sent)
                (fields_loop_same P check check' func func' fuel (next.0) plain checks same (
                  subst (λ (fields : List PbField). All P fields) (sym (next_start iter next at'))
                    h))))

  -- pb_encode with `depth` levels of recursion, and with `base` in its place for what is nested
  -- deeper; likewise for pb_check_proto3_default_value.
  unfoldable pub encode_over : EncodesMessage → ChecksDefault → ℕ → EncodesMessage
  unfolding check_over
  encode_over base check zero fields src = base fields src
  encode_over base check (suc depth) fields src =
      encode_fields program mem (check_over check (suc depth))
        (call_encoder program mem (encode_over base check depth)) fields src

  -- On tables whose submessages are nested less than `depth` deep, and without extensions, pb_encode
  -- with fuel for `depth` levels or more is `depth` levels of its recursion, whatever functions stand
  -- in the place of pb_encode and of pb_check_proto3_default_value for what is nested deeper: these
  -- are never reached, so the recursion ends and the fuel for it does not run out.
  pub pb_encode-IsNested :
      (base : EncodesMessage) (check : ChecksDefault) (depth more : ℕ) (fields : List PbField)
      (src : ℕ)
      → IsNested program depth fields
      → pb_encode program mem (depth + more) fields src ≡ encode_over base check depth fields src
  unfolding pb_encode encode_over Alike
  pb_encode-IsNested base check zero more fields src h = absurd h
  pb_encode-IsNested base check (suc depth) more fields src h = rw (suc-add depth more) (
      loaded_same (pb_field_iter_begin fields src) λ first at.
        ap (λ (m : Encoder). if first.1 then m else sent)
          (fields_loop_same (IsNestedField program depth) _ _ _ _ (length fields) (first.0)
            (λ field nested. nested.0)
            (λ field p nested.
              subst
                (λ (d : ℕ).
                  pb_check_proto3_default_value program mem d field p
                  ≡ check_over check (suc depth) field p)
                (suc-add depth more) (check_over_lem check depth more field p nested))
            (λ field nested.
              call_encoder_same _ _ field λ sub q at' is.
                pb_encode-IsNested base check depth more sub q (nested.1 sub at' is))
            (subst (λ (fs : List PbField). All (IsNestedField program depth) fs)
              (sym (begin_start fields src first at)) h)))
