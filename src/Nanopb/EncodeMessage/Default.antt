-- ===== src/Nanopb/EncodeMessage/Default.antt =====
-- pb_check_proto3_default_value.
use logoguess.Common.{ℕ, zero, suc, ltb, ◌==◌, if◌then◌else◌, not, ◌&&◌, Bool, true, false}
use logoguess.Common.{Option, none, some, List, [], ◌∷◌, length, get_elem?}
use logoguess.Common.Int.{pos, to_unsigned, int_eq}
use logoguess.Nanopb.Field.{
  PbField, ltype, htype, atype, ltype_fixed64, ltype_bytes, ltype_string, ltype_submessage,
  ltype_fixed_length_bytes, htype_required, htype_optional, htype_repeated, htype_oneof,
  atype_static, atype_pointer,
}
use logoguess.Nanopb.FieldIter.{FieldIter, pb_field_iter_begin, pb_field_iter_next}
use logoguess.Nanopb.EncodeScalar.{safe_read_bool}
use logoguess.Nanopb.Memory.{Memory, null, plus, ◌>>=◌, load, load_from, load_pointer, load_size}
use logoguess.Nanopb.Program.{EncodeProgram}

-- PB_LTYPE_LAST_PACKABLE.
abbrev pub ltype_last_packable : ℕ
ltype_last_packable = ltype_fixed64

-- `(char*)pData + field->size_offset`, and whether the offset is not zero.
abbrev pub size_at : PbField → ℕ → ℕ
size_at field p_data = plus p_data (to_unsigned 64 field.size_offset)

abbrev pub has_size : PbField → Bool
has_size field = not (int_eq field.size_offset (pos 0))

-- The loop of the catch-all branch.
unfoldable pub zero_bytes : ℕ → List ℕ → Option Bool
zero_bytes zero bytes = some true
zero_bytes (suc count) [] = none
zero_bytes (suc count) (b ∷ bytes) =
    let rest = zero_bytes count bytes in if b == 0 then rest else some false

-- pb_check_proto3_default_value for fields one level of nesting below.
abbrev pub ChecksDefault : Type 0
ChecksDefault = PbField → ℕ → Option Bool

-- The loop over the fields of a submessage.
unfoldable pub default_loop : ℕ → ChecksDefault → FieldIter → Option Bool
default_loop zero check iter = none
default_loop (suc fuel) check iter = get_elem? iter.start iter.pos >>= λ field.
    check field iter.p_data >>= λ empty.
    if not empty
    then some false
    else pb_field_iter_next iter >>= λ next.
        let rest = default_loop fuel check (next.0) in if next.1 then rest else some true

abbrev pub default_fields : ChecksDefault → List PbField → ℕ → Option Bool
default_fields check fields p_data = pb_field_iter_begin fields p_data >>= λ first.
    if first.1 then default_loop (length fields) check (first.0) else some true

module _ (program : EncodeProgram) (mem : Memory) where
  -- The last branch.
  unfoldable pub all_zero : PbField → ℕ → Option Bool
  unfolding zero_bytes
  all_zero field p_data = load_from p_data mem >>= zero_bytes field.data_size

  -- "Rest is proto3 singular fields".
  unfoldable pub singular_default : ChecksDefault → PbField → ℕ → Option Bool
  unfolding default_loop all_zero
  singular_default check field p_data =
      let t = ltype field.type in
      if atype field.type == atype_static && t == ltype_bytes
      then (load_size p_data mem >>= λ size. some (size == 0))
      else if atype field.type == atype_static && t == ltype_string
      then (load 1 p_data mem >>= λ c. some (not (safe_read_bool c)))
      else if atype field.type == atype_static && t == ltype_fixed_length_bytes
      then some (field.data_size == 0)
      else if atype field.type == atype_static && t == ltype_submessage
      then (program.fields_at field.ptr >>= λ fields. default_fields check fields p_data)
      else if atype field.type == atype_pointer && ltb ltype_last_packable t
      then (load_pointer p_data mem >>= λ p. some (p == null))
      else all_zero field p_data

  unfoldable pub check_default : ChecksDefault → PbField → ℕ → Option Bool
  unfolding singular_default
  check_default check field p_data =
      let h = htype field.type in
      let empty_size = load_size (size_at field p_data) mem >>= λ size. some (size == 0) in
      if h == htype_required
      then some false
      else if h == htype_repeated && has_size field
      then empty_size
      else if h == htype_repeated && atype field.type == atype_static
      then some false
      else if h == htype_oneof
      then empty_size
      else if h == htype_optional && has_size field
      then (load 1 (size_at field p_data) mem >>= λ has. some (not (safe_read_bool has)))
      else singular_default check field p_data

  -- pb_check_proto3_default_value, for submessages nested less than `depth` deep.
  unfoldable pub pb_check_proto3_default_value : ℕ → PbField → ℕ → Option Bool
  unfolding check_default
  pb_check_proto3_default_value zero field p_data = none
  pb_check_proto3_default_value (suc depth) field p_data =
      check_default (pb_check_proto3_default_value depth) field p_data
