-- ===== src/Nanopb/FieldIter/Layout.antt =====
-- The places of fields in a message struct, and the steps of the iterator from one to the next.
use mathlib.Core.Option.{some-injective}
use logoguess.Common.{
  ℕ, zero, suc, ◌+◌, ◌*◌, ◌%◌, ◌^◌, ◌≡◌, refl, sym, ap, ◌∙◌, arith, ◌==◌, if◌then◌else◌, Bool, true,
  false, ◌&&◌, Bool-cases, inl, inr,
}
use logoguess.Common.{some, List, [], ◌∷◌, get_elem?}
use logoguess.Common.Int.{to_unsigned}
use logoguess.Nanopb.Field.{
  PbField, htype, atype, htype_oneof, htype_repeated, htype_required, atype_static, atype_pointer,
}
use logoguess.Nanopb.FieldIter.{FieldIter, first_iter, step_size, same_union, step_to}

-- The place of a field: how many bytes behind the start of the struct its data begin, how many bytes
-- behind the data its size or `has_` or `which_` field is, as a number of 64 bits, and how many
-- required fields come before it.
pub record Place : Type 0 where
  pub offset : ℕ
  pub size_offset : ℕ
  pub required : ℕ

-- The bytes that a field takes in the struct: those of a pointer, of an array, or of a value.
abbrev width : PbField → ℕ
width field =
    if atype field.type == atype_pointer
    then 8
    else if atype field.type == atype_static && htype field.type == htype_repeated
    then field.data_size * field.array_size
    else field.data_size

-- Whether a field shares the data and the `which_` field of the one before it in a union.
abbrev shares : PbField → PbField → Bool
shares prev field =
    htype prev.type == htype_oneof
    && (htype field.type == htype_oneof && field.data_offset == 4294967295)

-- The place of a field by that of the field before it.
abbrev next_place : Place → PbField → PbField → Place
next_place place prev field = record {
  offset =
      if shares prev field then place.offset else place.offset + width prev + field.data_offset;
  size_offset = if shares prev field then place.size_offset else to_unsigned 64 field.size_offset;
  required = (if htype prev.type == htype_required then 1 else 0) + place.required;
}

abbrev first_place : PbField → Place
first_place field = record {
  offset = field.data_offset;
  size_offset = to_unsigned 64 field.size_offset;
  required = 0;
}

-- The places of the fields behind `prev`.
places : Place → PbField → List PbField → List Place
places place prev [] = []
places place prev (field ∷ fields) =
    next_place place prev field ∷ places (next_place place prev field) field fields

-- The places of the fields of a table.
unfoldable pub layout : List PbField → List Place
unfolding places
layout [] = []
layout (field ∷ fields) = first_place field ∷ places (first_place field) field fields

-- The iterator has the addresses of field `i` in the struct at `dest`, and the number of required
-- fields before it.
pub record IsPlaced (fields : List PbField) (dest i : ℕ) (iter : FieldIter) : Type 0 where
  pub place : Place
  pub listed : get_elem? (layout fields) i ≡ some place
  pub at_data : iter.p_data ≡ (dest + place.offset) % 2 ^ 64
  pub at_size : iter.p_size ≡ (dest + place.offset + place.size_offset) % 2 ^ 64
  pub counted : iter.required_field_index ≡ place.required % 2 ^ 32

same_next :
    {place q : Place} {prev field f g : PbField}
    → some place ≡ some q
    → some prev ≡ some f
    → some field ≡ some g
    → some (next_place place prev field) ≡ some (next_place q f g)
same_next {place} {q} {prev} {field} {f} {g} here at at' =
    ap (λ (p : Place). some (next_place p prev field)) (some-injective _ _ here)
    ∙ ap (λ (x : PbField). some (next_place q x field)) (some-injective _ _ at)
    ∙ ap (λ (x : PbField). some (next_place q f x)) (some-injective _ _ at')

places_next :
    (i : ℕ) (place : Place) (prev : PbField) (fields : List PbField) (q : Place) (f g : PbField)
    → get_elem? (place ∷ places place prev fields) i ≡ some q
    → get_elem? (prev ∷ fields) i ≡ some f
    → get_elem? (prev ∷ fields) (suc i) ≡ some g
    → get_elem? (place ∷ places place prev fields) (suc i) ≡ some (next_place q f g)
unfolding places
places_next i place prev [] q f g here at at' = cc at'
places_next zero place prev (field ∷ fields) q f g here at at' = same_next here at at'
places_next (suc i) place prev (field ∷ fields) q f g here at at' =
    places_next i (next_place place prev field) field fields q f g here at at'

layout_next :
    (fields : List PbField) (i : ℕ) (q : Place) (f g : PbField)
    → get_elem? (layout fields) i ≡ some q
    → get_elem? fields i ≡ some f
    → get_elem? fields (suc i) ≡ some g
    → get_elem? (layout fields) (suc i) ≡ some (next_place q f g)
unfolding layout
layout_next [] i q f g here at at' = cc at
layout_next (field ∷ fields) i q f g here at at' =
    places_next i (first_place field) field fields q f g here at at'

pub first-IsPlaced :
    (field : PbField) (fields : List PbField) (dest : ℕ)
    → IsPlaced (field ∷ fields) dest 0 (first_iter field fields dest)
unfolding layout
first-IsPlaced field fields dest = record {
  place = first_place field;
  listed = refl;
  at_data = refl;
  at_size = omega arith;
  counted = refl;
}

shares_lem : (prev field : PbField) → shares prev field ≡ same_union prev field
shares_lem prev field =
    regrouped (htype prev.type == htype_oneof) (htype field.type == htype_oneof)
      (field.data_offset == 4294967295)
  where
    regrouped : (a b c : Bool) → (a && (b && c)) ≡ ((a && b) && c)
    regrouped true b c = refl
    regrouped false b c = refl

-- A member of a union is no required field.
shares-optional :
    (prev field : PbField) → shares prev field ≡ true → (htype prev.type == htype_required) ≡ false
shares-optional prev field e = ground arith

-- The iterator adds the width of a field, up to a multiple of 2^64.
step_size_lem :
    (prev : PbField) (x y : ℕ) → (x + step_size prev + y) % 2 ^ 64 ≡ (x + width prev + y) % 2 ^ 64
step_size_lem prev x y =
    same (atype prev.type) prev.data_size (prev.data_size * prev.array_size) x y
      (htype prev.type == htype_repeated)
  where
    same :
        (a size whole x y : ℕ) (repeated : Bool)
        → (x
              + (if a == atype_static && repeated
                  then whole % 2 ^ 64
                  else if a == atype_pointer
                  then 8
                  else size)
              + y)
            % 2 ^ 64
          ≡ (x
              + (if a == atype_pointer
                  then 8
                  else if a == atype_static && repeated
                  then whole
                  else size)
              + y)
            % 2 ^ 64
    same a size whole x y true = ground arith
    same a size whole x y false = ground arith

data_sum :
    (p_data dest offset step width behind : ℕ)
    → p_data ≡ (dest + offset) % 2 ^ 64
    → (dest + offset + step + behind) % 2 ^ 64 ≡ (dest + offset + width + behind) % 2 ^ 64
    → ((p_data + step) % 2 ^ 64 + behind) % 2 ^ 64 ≡ (dest + (offset + width + behind)) % 2 ^ 64
data_sum p_data dest offset step width behind h same = omega arith

size_sum :
    (p_data place size : ℕ)
    → p_data ≡ place % 2 ^ 64
    → (p_data + size) % 2 ^ 64 ≡ (place + size) % 2 ^ 64
size_sum p_data place size h = omega arith

required_sum :
    (b : Bool) (index required : ℕ)
    → index ≡ required % 2 ^ 32
    → (if b then (index + 1) % 2 ^ 32 else index) ≡ ((if b then 1 else 0) + required) % 2 ^ 32
required_sum true index required h = omega arith
required_sum false index required h = omega arith

-- pb_field_iter_next within a table, by the descriptors of the field that it leaves and of the next.
pub step_to-IsPlaced :
    (fields : List PbField) (dest i : ℕ) (iter : FieldIter) (prev field : PbField)
    → get_elem? fields i ≡ some prev
    → get_elem? fields (suc i) ≡ some field
    → IsPlaced fields dest i iter
    → IsPlaced fields dest (suc i) (step_to prev field iter)
unfolding step_to
step_to-IsPlaced fields dest i iter prev field at at' placed =
    elim (Bool-cases (shares prev field)) [
      | inl union ↦ record {
        place = next_place place prev field;
        listed = layout_next fields i place prev field placed.listed at at';
        at_data = rw (sym (shares_lem prev field) ∙ union, union) placed.at_data;
        at_size = rw (sym (shares_lem prev field) ∙ union, union) placed.at_size;
        counted =
            rw (sym (shares_lem prev field) ∙ union, shares-optional prev field union)
              (omega (arith, placed.counted));
      }
      | inr apart ↦
          let moved =
            data_sum iter.p_data dest place.offset (step_size prev) (width prev) field.data_offset
              placed.at_data (step_size_lem prev (dest + place.offset) field.data_offset) in
          record {
            place = next_place place prev field;
            listed = layout_next fields i place prev field placed.listed at at';
            at_data = rw (sym (shares_lem prev field) ∙ apart, apart) moved;
            at_size =
                rw (sym (shares_lem prev field) ∙ apart, apart)
                  (size_sum _ _ (to_unsigned 64 field.size_offset) moved);
            counted = rw (sym (shares_lem prev field) ∙ apart) (
                required_sum (htype prev.type == htype_required) iter.required_field_index
                  place.required placed.counted);
          }
    ]
  where
    open placed use {place}
