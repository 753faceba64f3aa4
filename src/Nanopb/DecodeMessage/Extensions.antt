-- ===== src/Nanopb/DecodeMessage/Extensions.antt =====
-- decode_field with pb_release_union_field, and the extensions of a message.
use logoguess.Common.{ℕ, zero, suc, ◌==◌, if◌then◌else◌, not, ◌&&◌, ◌||◌, Bool, true, false}
use logoguess.Common.{Option, none, some, [], ◌∷◌, length}
use logoguess.Nanopb.Errors.{invalid_field_type, invalid_union_tag, iterator_error}
use logoguess.Nanopb.Field.{
  PbField, ltype, htype, atype, ltype_extension, htype_oneof, atype_static, atype_pointer,
  atype_callback,
}
use logoguess.Nanopb.FieldIter.{FieldIter, pb_field_iter_next, pb_field_iter_find}
use logoguess.Nanopb.IStream.{IStream}
use logoguess.Nanopb.Memory.{Memory, null, plus, ◌>>=◌, load_pointer, load_size, store, memory_size}
use logoguess.Nanopb.DecodeMessage.Actions.{
  Result, Action, returned, fault, and_then, ◌>>◌, return_error, with_some, loaded, stored,
  DecodeProgram, field_of,
}
use logoguess.Nanopb.DecodeMessage.Defaults.{SetsField, iter_from_extension}
use logoguess.Nanopb.DecodeMessage.Release.{ReleasesField, release_field}
use logoguess.Nanopb.DecodeMessage.Fields.{decode_static_field, decode_callback_field}
use logoguess.Nanopb.DecodeMessage.Pointers.{decode_pointer_field}

-- What a function returns that moves the iterator.
abbrev pub Moved : Type 0
Moved = Result × FieldIter

abbrev pub with_moved : {A : Type 0} → FieldIter → Option A → (A → Moved) → Moved
with_moved iter none k = (fault, iter)
with_moved iter (some a) k = k a

module _ (program : DecodeProgram) (set_field : SetsField) (release : ReleasesField)
    (func : PbField → ℕ → Action) where
  -- The rest of pb_release_union_field, when the union holds data of another field.
  unfoldable pub release_old : ℕ → ℕ → FieldIter → IStream → Memory → Moved
  release_old old_tag new_tag iter s mem = with_moved iter (pb_field_iter_find old_tag iter) λ old.
      if not (old.1)
      then (return_error invalid_union_tag s mem, old.0)
      else with_moved (old.0)
          (field_of (old.0) >>= λ field. release_field program release field (old.0) mem)
          λ mem'. with_moved (old.0) (pb_field_iter_find new_tag (old.0)) λ new.
            (if new.1 then returned true s mem' else return_error iterator_error s mem', new.0)

  unfoldable pub pb_release_union_field : PbField → FieldIter → IStream → Memory → Moved
  unfolding release_old
  pb_release_union_field field iter s mem = with_moved iter (load_size iter.p_size mem) λ old_tag.
      if old_tag == 0 || old_tag == field.tag
      then (returned true s mem, iter)
      else release_old old_tag field.tag iter s mem

  -- The switch of decode_field.
  unfoldable pub decode_by_atype : ℕ → FieldIter → PbField → Action
  decode_by_atype wire_type iter field =
      let a = atype field.type in
      if a == atype_static
      then decode_static_field program set_field (func field) field wire_type iter
      else if a == atype_pointer
      then decode_pointer_field program set_field release (func field) field wire_type iter
      else if a == atype_callback
      then decode_callback_field program field wire_type iter
      else return_error invalid_field_type

  abbrev pub after_union : ℕ → Moved → Moved
  after_union wire_type (r, iter) =
      (and_then r (with_some (field_of iter) (decode_by_atype wire_type iter)), iter)

  unfoldable pub decode_field : ℕ → FieldIter → IStream → Memory → Moved
  unfolding pb_release_union_field decode_by_atype
  decode_field wire_type iter s mem = with_moved iter (field_of iter) λ field.
      after_union wire_type (
        if htype field.type == htype_oneof
        then pb_release_union_field field iter s mem
        else (returned true s mem, iter))

  -- default_extension_decoder.
  unfoldable pub default_extension_decoder : ℕ → ℕ → ℕ → Action
  unfolding decode_field
  default_extension_decoder extension tag wire_type =
      loaded (iter_from_extension program extension) λ iter. with_some (field_of iter) λ field.
        if not (field.tag == tag)
        then returned true
        else stored (store (1 ∷ []) (plus extension 24)) >> λ s mem.
            (decode_field wire_type iter s mem).0

  -- An extension decodes, by the function of its type or by the default one.
  unfoldable pub try_extension : ℕ → ℕ → ℕ → Action
  unfolding default_extension_decoder
  try_extension extension tag wire_type =
      loaded (λ mem. load_pointer extension mem >>= λ type. load_pointer type mem)
        λ decode.
          if decode == null
          then default_extension_decoder extension tag wire_type
          else with_some (program.extension_decode_at decode) λ f. f extension tag wire_type

  -- The loop of decode_extension, over the list from `extension` on, while `pos` bytes are left.
  unfoldable pub decode_extensions : ℕ → ℕ → ℕ → ℕ → ℕ → Action
  unfolding try_extension
  decode_extensions zero pos tag wire_type extension s mem = fault
  decode_extensions (suc links) pos tag wire_type extension s mem =
      let round =
        (try_extension extension tag wire_type
            >> loaded (load_pointer (plus extension 16))
                (decode_extensions links pos tag wire_type))
          s mem in
      if not (extension == null) && pos == s.bytes_left then round else returned true s mem

  unfoldable pub decode_extension : ℕ → ℕ → FieldIter → Action
  unfolding decode_extensions
  decode_extension tag wire_type iter = loaded (load_pointer iter.p_data) λ extension s mem.
      decode_extensions (suc (memory_size mem)) s.bytes_left tag wire_type extension s mem

-- The do-while loop of find_extension_field, which began at `start`.
unfoldable pub extension_field_loop : ℕ → ℕ → FieldIter → Option (FieldIter × Bool)
extension_field_loop zero start iter = none
extension_field_loop (suc fuel) start iter = field_of iter >>= λ field.
    if ltype field.type == ltype_extension
    then some (iter, true)
    else pb_field_iter_next iter >>= λ next.
        let rest = extension_field_loop fuel start (next.0) in
        if (next.0).pos == start then some (next.0, false) else rest

unfoldable pub find_extension_field : FieldIter → Option (FieldIter × Bool)
unfolding extension_field_loop
find_extension_field iter = extension_field_loop (length iter.start) iter.pos iter
