-- ===== src/Nanopb/DecodeMessage/Defaults.antt =====
-- pb_field_set_to_default and pb_message_set_to_defaults.
use logoguess.Common.{ℕ, zero, suc, ◌==◌, if◌then◌else◌, not, ◌&&◌, ◌||◌}
use logoguess.Common.{Option, none, some, List, [], ◌∷◌, length, replicate}
use logoguess.Nanopb.Field.{
  PbField, ltype, htype, atype, ltype_submessage, ltype_extension, htype_optional, htype_repeated,
  htype_oneof, atype_static, atype_pointer,
}
use logoguess.Nanopb.FieldIter.{FieldIter, pb_field_iter_begin, pb_field_iter_next}
use logoguess.Nanopb.Memory.{
  Memory, null, plus, ◌>>=◌, load, load_pointer, store, store_number, memory_size,
}
use logoguess.Nanopb.DecodeMessage.Actions.{DecodeProgram, field_of}

-- `memset(p, 0, count)`.
abbrev pub clear : ℕ → ℕ → Memory → Option Memory
clear count p mem = store (replicate count 0) p mem

-- iter_from_extension, for the extension's address.
unfoldable pub iter_from_extension : DecodeProgram → ℕ → Memory → Option FieldIter
iter_from_extension program extension mem = load_pointer extension mem >>= λ type.
    load_pointer (plus type 16) mem >>= λ arg. program.fields_at arg >>= λ fields.
    load_pointer (plus extension 8) mem >>= λ dest. pb_field_iter_begin fields dest >>= λ first.
    field_of (first.0) >>= λ field. some (record (first.0) {
      p_data = if atype field.type == atype_pointer then plus extension 8 else dest;
      p_size = plus extension 24;
    })

-- pb_field_set_to_default for fields one level of nesting below.
abbrev pub SetsField : Type 0
SetsField = FieldIter → Memory → Option Memory

-- The loop of pb_message_set_to_defaults.
unfoldable pub defaults_loop : ℕ → SetsField → FieldIter → Memory → Option Memory
defaults_loop zero set_field iter mem = none
defaults_loop (suc fuel) set_field iter mem = set_field iter mem >>= λ mem'.
    pb_field_iter_next iter >>= λ next.
    let rest = defaults_loop fuel set_field (next.0) mem' in if next.1 then rest else some mem'

-- pb_message_set_to_defaults.
unfoldable pub message_defaults : SetsField → List PbField → ℕ → Memory → Option Memory
unfolding defaults_loop
message_defaults set_field fields dest_struct mem =
    pb_field_iter_begin fields dest_struct >>= λ first.
    if first.1 then defaults_loop (length fields) set_field (first.0) mem else some mem

module _ (program : DecodeProgram) where
  -- The loop over the extensions of a list.
  unfoldable pub extension_defaults : ℕ → SetsField → ℕ → Memory → Option Memory
  unfolding iter_from_extension
  extension_defaults zero set_field extension mem = none
  extension_defaults (suc links) set_field extension mem =
      if extension == null
      then some mem
      else store (0 ∷ []) (plus extension 24) mem >>= λ mem'.
          iter_from_extension program extension mem' >>= λ iter. set_field iter mem' >>= λ mem''.
          load_pointer (plus extension 16) mem'' >>= λ next.
          extension_defaults links set_field next mem''

  -- The branch for a static field whose data is initialized.
  unfoldable pub initial_data : SetsField → PbField → ℕ → Memory → Option Memory
  unfolding message_defaults
  initial_data set_field field p_data mem =
      if ltype field.type == ltype_submessage
      then (program.fields_at field.ptr >>= λ fields. message_defaults set_field fields p_data mem)
      else if not (field.ptr == null)
      then (load field.data_size field.ptr mem >>= λ value. store value p_data mem)
      else clear field.data_size p_data mem

  unfoldable pub static_default : SetsField → PbField → FieldIter → Memory → Option Memory
  unfolding initial_data
  static_default set_field field iter mem =
      let h = htype field.type in
      if h == htype_optional && not (iter.p_size == iter.p_data)
      then (store (0 ∷ []) iter.p_size mem >>= initial_data set_field field iter.p_data)
      else if h == htype_repeated || h == htype_oneof
      then store_number 4 0 iter.p_size mem
      else initial_data set_field field iter.p_data mem

  unfoldable pub pointer_default : PbField → FieldIter → Memory → Option Memory
  pointer_default field iter mem = store_number 8 null iter.p_data mem >>= λ mem'.
      if htype field.type == htype_repeated || htype field.type == htype_oneof
      then store_number 4 0 iter.p_size mem'
      else some mem'

  unfoldable pub field_default : SetsField → PbField → FieldIter → Memory → Option Memory
  unfolding extension_defaults static_default pointer_default
  field_default set_field field iter mem =
      if ltype field.type == ltype_extension
      then (load_pointer iter.p_data mem >>= λ extension.
          extension_defaults (suc (memory_size mem)) set_field extension mem)
      else if atype field.type == atype_static
      then static_default set_field field iter mem
      else if atype field.type == atype_pointer
      then pointer_default field iter mem
      else some mem

  -- pb_field_set_to_default, for fields nested less than `depth` deep.
  unfoldable pub pb_field_set_to_default : ℕ → SetsField
  unfolding field_default
  pb_field_set_to_default zero iter mem = none
  pb_field_set_to_default (suc depth) iter mem =
      field_of iter >>= λ field. field_default (pb_field_set_to_default depth) field iter mem

  unfoldable pub pb_message_set_to_defaults : ℕ → List PbField → ℕ → Memory → Option Memory
  unfolding message_defaults pb_field_set_to_default
  pb_message_set_to_defaults depth = message_defaults (pb_field_set_to_default depth)
