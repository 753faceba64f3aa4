-- ===== src/Nanopb/DecodeMessage/Release.antt =====
-- pb_release_single_field and pb_release.
pub mod Twice
use logoguess.Common.{ℕ, zero, suc, ltb, ◌==◌, if◌then◌else◌, not, ◌&&◌, ◌||◌, Bool, false}
use logoguess.Common.{Option, none, some, List, length}
use logoguess.Nanopb.Field.{
  PbField, ltype, htype, atype, ltype_submessage, ltype_extension, ltype_string, ltype_bytes,
  htype_repeated, htype_oneof, atype_static, atype_pointer, atype_callback,
}
use logoguess.Nanopb.FieldIter.{FieldIter, pb_field_iter_begin, pb_field_iter_next}
use logoguess.Nanopb.Memory.{
  Memory, null, plus, ◌>>=◌, load_pointer, load_size, store_number, memory_size,
}
use logoguess.Nanopb.DecodeMessage.Actions.{DecodeProgram, field_of}
use logoguess.Nanopb.DecodeMessage.Defaults.{iter_from_extension}

-- pb_release_single_field for fields one level of nesting below.
abbrev pub ReleasesField : Type 0
ReleasesField = FieldIter → Memory → Option Memory

-- The loop of pb_release.
unfoldable pub release_loop : ℕ → ReleasesField → FieldIter → Memory → Option Memory
release_loop zero release iter mem = none
release_loop (suc fuel) release iter mem = release iter mem >>= λ mem'.
    pb_field_iter_next iter >>= λ next.
    let rest = release_loop fuel release (next.0) mem' in if next.1 then rest else some mem'

-- pb_release.
unfoldable pub release_message : ReleasesField → List PbField → ℕ → Memory → Option Memory
unfolding release_loop
release_message release fields dest_struct mem =
    if dest_struct == null
    then some mem
    else pb_field_iter_begin fields dest_struct >>= λ first.
        if first.1 then release_loop (length fields) release (first.0) mem else some mem

-- "Release fields in submessage or submsg array": the loop over `count` messages of `data_size`
-- bytes from `p` on.
unfoldable pub release_items : ReleasesField → List PbField → ℕ → ℕ → ℕ → Memory → Option Memory
unfolding release_message
release_items release fields data_size zero p mem = some mem
release_items release fields data_size (suc count) p mem =
    release_message release fields p mem
    >>= release_items release fields data_size count (plus p data_size)

module _ (program : DecodeProgram) where
  -- The loop over the extensions of a list.
  unfoldable pub release_extensions : ℕ → ReleasesField → ℕ → Memory → Option Memory
  release_extensions zero release extension mem = none
  release_extensions (suc links) release extension mem =
      if extension == null
      then some mem
      else iter_from_extension program extension mem >>= λ iter. release iter mem >>= λ mem'.
          load_pointer (plus extension 16) mem' >>= λ next.
          release_extensions links release next mem'

  -- `count` of a submessage field.
  unfoldable pub submessage_count : PbField → FieldIter → Memory → Option ℕ
  submessage_count field iter mem =
      if not (htype field.type == htype_repeated)
      then some 1
      else if atype field.type == atype_static && iter.p_size == iter.p_data
      then some field.array_size
      else load_size iter.p_size mem >>= λ count. some (
          if atype field.type == atype_static && ltb field.array_size count
          then field.array_size
          else count)

  unfoldable pub release_submessages : ReleasesField → PbField → FieldIter → Memory → Option Memory
  unfolding submessage_count release_items
  release_submessages release field iter mem =
      (if atype field.type == atype_pointer then load_pointer iter.p_data mem else some iter.p_data)
      >>= λ p_item. submessage_count field iter mem >>= λ count.
          if p_item == null
          then some mem
          else program.fields_at field.ptr >>= λ fields.
              release_items release fields field.data_size count p_item mem

  -- "Release anything contained inside an extension or submsg".
  unfoldable pub release_contents : ReleasesField → PbField → FieldIter → Memory → Option Memory
  unfolding release_extensions release_submessages
  release_contents release field iter mem =
      if ltype field.type == ltype_extension
      then (load_pointer iter.p_data mem >>= λ extension.
          release_extensions (suc (memory_size mem)) release extension mem)
      else if ltype field.type == ltype_submessage && not (atype field.type == atype_callback)
      then release_submessages release field iter mem
      else some mem

  -- "Release entries in repeated string or bytes array".
  unfoldable pub free_entries : ℕ → ℕ → Memory → Option Memory
  free_entries zero p_item mem = some mem
  free_entries (suc count) p_item mem = load_pointer p_item mem >>= λ entry.
      program.allocator.pb_free entry mem >>= λ mem'.
      store_number 8 null p_item mem' >>= free_entries count (plus p_item 8)

  -- "Release main item", of a field behind a pointer.
  unfoldable pub free_main : FieldIter → Memory → Option Memory
  free_main iter mem = load_pointer iter.p_data mem >>= λ main.
      program.allocator.pb_free main mem >>= store_number 8 null iter.p_data

  unfoldable pub release_pointer : PbField → FieldIter → Memory → Option Memory
  unfolding free_entries free_main
  release_pointer field iter mem =
      let is_array = htype field.type == htype_repeated in
      let of_pointers = ltype field.type == ltype_string || ltype field.type == ltype_bytes in
      (if is_array && of_pointers
        then (load_pointer iter.p_data mem >>= λ p_item.
            load_size iter.p_size mem >>= λ count. free_entries count p_item mem)
        else some mem)
      >>= λ mem'.
          (if is_array then store_number 4 0 iter.p_size mem' else some mem') >>= free_main iter

  -- Whether the field is not the current one of its union.
  unfoldable pub is_other : PbField → FieldIter → Memory → Option Bool
  is_other field iter mem =
      if htype field.type == htype_oneof
      then (load_size iter.p_size mem >>= λ which. some (not (which == field.tag)))
      else some false

  unfoldable pub release_field : ReleasesField → PbField → FieldIter → Memory → Option Memory
  unfolding release_contents release_pointer is_other
  release_field release field iter mem = is_other field iter mem >>= λ other.
      if other
      then some mem
      else release_contents release field iter mem >>= λ mem'.
          if atype field.type == atype_pointer then release_pointer field iter mem' else some mem'

  -- pb_release_single_field, for fields nested less than `depth` deep.
  unfoldable pub pb_release_single_field : ℕ → ReleasesField
  unfolding release_field
  pb_release_single_field zero iter mem = none
  pb_release_single_field (suc depth) iter mem =
      field_of iter >>= λ field. release_field (pb_release_single_field depth) field iter mem

  unfoldable pub pb_release : ℕ → List PbField → ℕ → Memory → Option Memory
  unfolding release_message pb_release_single_field
  pb_release depth = release_message (pb_release_single_field depth)
