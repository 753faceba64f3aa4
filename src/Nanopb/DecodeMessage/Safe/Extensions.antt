-- ===== src/Nanopb/DecodeMessage/Safe/Extensions.antt =====
-- decode_field and decode_extension on a stream over a buffer.
use logoguess.Common.{
  ℕ, zero, suc, ◌<◌, arith, ◌==◌, if◌then◌else◌, not, ◌&&◌, ◌||◌, Bool, true, false,
}
use logoguess.Common.{Option, some, none, [], ◌∷◌}
use logoguess.Nanopb.Errors.{invalid_union_tag, iterator_error, invalid_field_type}
use logoguess.Nanopb.Field.{
  PbField, htype, htype_oneof, atype, atype_static, atype_pointer, atype_callback,
}
use logoguess.Nanopb.FieldIter.{FieldIter, pb_field_iter_find}
use logoguess.Nanopb.IStream.{IStream}
use logoguess.Nanopb.IStream.Safe.{IsBuffer}
use logoguess.Nanopb.Memory.{Memory, null, plus, ◌>>=◌, load_pointer, load_size, store, memory_size}
use logoguess.Nanopb.DecodeMessage.Actions.{Action, returned, DecodeProgram, field_of}
use logoguess.Nanopb.DecodeMessage.Defaults.{SetsField, iter_from_extension}
use logoguess.Nanopb.DecodeMessage.Release.{ReleasesField, release_field}
use logoguess.Nanopb.DecodeMessage.Extensions.{
  Moved, with_moved, release_old, pb_release_union_field, decode_by_atype, after_union,
  decode_field, default_extension_decoder, try_extension, decode_extensions, decode_extension,
}
use logoguess.Nanopb.DecodeMessage.Safe.{
  Fine, faults, Fine-true, Fine-error, Fine-then, Fine-if, Fine-with_some,
}
use logoguess.Nanopb.DecodeMessage.Safe.Actions.{
  IsFine, IsFine->>, IsFine-loaded, IsFine-with_some, IsFine-stored, IsFine-error, IsFine-if,
}
use logoguess.Nanopb.DecodeMessage.Safe.Fields.{
  CallbacksRead, decode_static_field-IsFine, decode_callback_field-IsFine,
}
use logoguess.Nanopb.DecodeMessage.Safe.Pointers.{decode_pointer_field-IsFine}

Fine-with_moved :
    {A : Type 0} {n : ℕ} {s : IStream} (iter : FieldIter) (o : Option A) (k : A → Moved)
    → ((a : A) → Fine n s ((k a).0))
    → Fine n s ((with_moved iter o k).0)
Fine-with_moved iter none k p = faults
Fine-with_moved iter (some a) k p = p a

Fine-if_moved :
    {n : ℕ} {s : IStream} (b : Bool) (x y : Moved)
    → Fine n s x.0
    → Fine n s y.0
    → Fine n s ((if b then x else y).0)
Fine-if_moved true x y p q = p
Fine-if_moved false x y p q = q

module _ (program : DecodeProgram) (callbacks : CallbacksRead program) (set_field : SetsField)
    (release : ReleasesField) {bound : ℕ} (func : PbField → ℕ → Action)
    (func-IsFine : (field : PbField) (p : ℕ) → IsFine bound 1 (func field p)) where
  release_old-Fine :
      (old_tag new_tag : ℕ) (iter : FieldIter) (s : IStream) (mem : Memory)
      → IsBuffer s
      → Fine 0 s ((release_old program set_field release func old_tag new_tag iter s mem).0)
  unfolding release_old
  release_old-Fine old_tag new_tag iter s mem h =
      Fine-with_moved iter (pb_field_iter_find old_tag iter) _ λ old.
        Fine-if_moved (not (old.1)) _ _ (Fine-error invalid_union_tag h) (
          Fine-with_moved (old.0)
            (field_of (old.0) >>= λ field. release_field program release field (old.0) mem) _
            λ mem'.
              Fine-with_moved (old.0) (pb_field_iter_find new_tag (old.0)) _
                λ new. Fine-if (new.1) (λ _. Fine-true h) (λ _. Fine-error iterator_error h))

  pb_release_union_field-Fine :
      (field : PbField) (iter : FieldIter) (s : IStream) (mem : Memory)
      → IsBuffer s
      → Fine 0 s ((pb_release_union_field program set_field release func field iter s mem).0)
  unfolding pb_release_union_field
  pb_release_union_field-Fine field iter s mem h =
      Fine-with_moved iter (load_size iter.p_size mem) _ λ old_tag.
        Fine-if_moved (old_tag == 0 || old_tag == field.tag) _ _ (Fine-true h)
          (release_old-Fine old_tag field.tag iter s mem h)

  decode_by_atype-IsFine :
      (wire_type : ℕ) (iter : FieldIter) (field : PbField)
      → IsFine bound 0 (decode_by_atype program set_field release func wire_type iter field)
  unfolding decode_by_atype
  decode_by_atype-IsFine wire_type iter field =
      IsFine-if {n = 0} (atype field.type == atype_static)
        (decode_static_field-IsFine (func field) (func-IsFine field) field iter program set_field
          wire_type)
        (IsFine-if {n = 0} (atype field.type == atype_pointer)
          (decode_pointer_field-IsFine program set_field (func field) (func-IsFine field) field iter
            release wire_type)
          (IsFine-if {n = 0} (atype field.type == atype_callback)
            (decode_callback_field-IsFine program field wire_type iter callbacks)
            (IsFine-error invalid_field_type)))

  after_union-Fine :
      (wire_type : ℕ) (s : IStream) (r : Moved)
      → s.bytes_left < bound
      → Fine 0 s r.0
      → Fine 0 s ((after_union program set_field release func wire_type r).0)
  after_union-Fine wire_type s (r, iter) hb p = Fine-then p λ t mem ht less.
      Fine-with_some (field_of iter) _
        λ field _. decode_by_atype-IsFine wire_type iter field t mem ht (omega arith)

  pub decode_field-Fine :
      (wire_type : ℕ) (iter : FieldIter) (s : IStream) (mem : Memory)
      → IsBuffer s
      → s.bytes_left < bound
      → Fine 0 s ((decode_field program set_field release func wire_type iter s mem).0)
  unfolding decode_field
  decode_field-Fine wire_type iter s mem h hb =
      let moves : PbField → Moved = λ field.
        if htype field.type == htype_oneof
        then pb_release_union_field program set_field release func field iter s mem
        else (returned true s mem, iter) in
      Fine-with_moved iter (field_of iter)
        (λ field. after_union program set_field release func wire_type (moves field))
        λ field. after_union-Fine wire_type s (moves field) hb (
          Fine-if_moved (htype field.type == htype_oneof) _ _
            (pb_release_union_field-Fine field iter s mem h) (Fine-true h))

  default_extension_decoder-IsFine :
      (extension tag wire_type : ℕ)
      → IsFine bound 0
          (default_extension_decoder program set_field release func extension tag wire_type)
  unfolding default_extension_decoder
  default_extension_decoder-IsFine extension tag wire_type =
      IsFine-loaded (iter_from_extension program extension) _ λ iter.
        IsFine-with_some (field_of iter) _ λ field _.
          IsFine-if {n = 0} (not (field.tag == tag)) (λ s mem h _. Fine-true h)
            (IsFine->> _ _ (IsFine-stored (store (1 ∷ []) (plus extension 24)))
              (λ s mem h hb. decode_field-Fine wire_type iter s mem h hb))

  try_extension-IsFine :
      (extension tag wire_type : ℕ)
      → IsFine bound 0 (try_extension program set_field release func extension tag wire_type)
  unfolding try_extension
  try_extension-IsFine extension tag wire_type =
      IsFine-loaded (λ mem. load_pointer extension mem >>= λ type. load_pointer type mem) _
        λ decode.
          IsFine-if {n = 0} (decode == null)
            (default_extension_decoder-IsFine extension tag wire_type)
            (IsFine-with_some (program.extension_decode_at decode) _ λ f at s mem h _.
              callbacks.extension_decode decode f at extension tag wire_type s mem h)

  decode_extensions-IsFine :
      (links pos tag wire_type extension : ℕ)
      → IsFine bound 0
          (decode_extensions program set_field release func links pos tag wire_type extension)
  unfolding decode_extensions
  decode_extensions-IsFine zero pos tag wire_type extension s mem h hb = faults
  decode_extensions-IsFine (suc links) pos tag wire_type extension s mem h hb =
      Fine-if (not (extension == null) && pos == s.bytes_left)
        (λ _.
          IsFine->> (try_extension program set_field release func extension tag wire_type) _
            (try_extension-IsFine extension tag wire_type)
            (IsFine-loaded (load_pointer (plus extension 16)) _
              λ next. decode_extensions-IsFine links pos tag wire_type next)
            s mem h hb)
        (λ _. Fine-true h)

  pub decode_extension-IsFine :
      (tag wire_type : ℕ) (iter : FieldIter)
      → IsFine bound 0 (decode_extension program set_field release func tag wire_type iter)
  unfolding decode_extension
  decode_extension-IsFine tag wire_type iter =
      IsFine-loaded (load_pointer iter.p_data) _ λ extension s mem h hb.
        decode_extensions-IsFine (suc (memory_size mem)) s.bytes_left tag wire_type extension s mem
          h hb
