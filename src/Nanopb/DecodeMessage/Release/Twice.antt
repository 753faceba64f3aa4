-- ===== src/Nanopb/DecodeMessage/Release/Twice.antt =====
-- What pb_release_single_field leaves behind a pointer.
use logoguess.Common.{
  ℕ, suc, ◌≡◌, refl, sym, ◌∙◌, ◌==◌, if◌then◌else◌, not, ◌&&◌, Bool, true, false,
}
use logoguess.Common.{Option, none, some}
use logoguess.Nanopb.Field.{
  PbField, ltype, htype, atype, ltype_submessage, ltype_extension, htype_repeated, htype_oneof,
  atype_pointer, atype_callback,
}
use logoguess.Nanopb.FieldIter.{FieldIter}
use logoguess.Nanopb.Memory.{Memory, null, ◌>>=◌, load, load_pointer, to_bytes, little_endian}
use logoguess.Nanopb.Memory.Stored.{bind_some, load-store, store-load}
use logoguess.Nanopb.DecodeMessage.Actions.{DecodeProgram, field_of}
use logoguess.Nanopb.DecodeMessage.Release.{
  ReleasesField, release_extensions, submessage_count, release_submessages, release_contents,
  free_main, release_pointer, is_other, release_field, pb_release_single_field,
}

-- The eight bytes of a null pointer.
abbrev Cleared : FieldIter → Memory → Type 0
Cleared iter mem = load 8 iter.p_data mem ≡ some (to_bytes 8 null)

module _ (program : DecodeProgram) where
  free_main_clears :
      (iter : FieldIter) (mem mem' : Memory)
      → free_main program iter mem ≡ some mem'
      → Cleared iter mem'
  unfolding free_main to_bytes
  free_main_clears iter mem mem' e =
      let (main, (_, freed)) = bind_some (load_pointer iter.p_data mem) _ mem' e in
      let (_, (_, stored)) = bind_some (program.allocator.pb_free main mem) _ mem' freed in
      load-store (to_bytes 8 null) iter.p_data _ mem' stored

  -- A field that holds a null pointer has no contents.
  no_contents :
      (release : ReleasesField) (field : PbField) (iter : FieldIter) (mem : Memory)
      → (atype field.type == atype_pointer) ≡ true
      → (htype field.type == htype_repeated) ≡ false
      → Cleared iter mem
      → release_contents program release field iter mem ≡ some mem
  unfolding release_contents release_extensions release_submessages submessage_count to_bytes
      little_endian
  no_contents release field iter mem pointer single e =
      rw (release_contents, release_submessages, submessage_count, e, pointer, single)
        (same_if (ltype field.type == ltype_extension) refl (
          same_if (ltype field.type == ltype_submessage && not (atype field.type == atype_callback))
            refl refl))
    where
      same_if :
          (b : Bool) {x y : Option Memory}
          → x ≡ some mem
          → y ≡ some mem
          → (if b then x else y) ≡ some mem
      same_if true p q = p
      same_if false p q = q

  release_pointer_single :
      (field : PbField) (iter : FieldIter) (mem : Memory)
      → (htype field.type == htype_repeated) ≡ false
      → release_pointer program field iter mem ≡ free_main program iter mem
  unfolding release_pointer
  release_pointer_single field iter mem single = rw (release_pointer, single) refl

  release_field_single :
      (release : ReleasesField) (field : PbField) (iter : FieldIter) (mem : Memory)
      → (atype field.type == atype_pointer) ≡ true
      → (htype field.type == htype_repeated) ≡ false
      → (htype field.type == htype_oneof) ≡ false
      → release_field program release field iter mem
        ≡ (release_contents program release field iter mem >>= free_main program iter)
  unfolding release_field is_other
  release_field_single release field iter mem pointer single alone =
      rw (release_field, is_other, alone) (behind (release_contents program release field iter mem))
    where
      behind :
          (o : Option Memory)
          → (o >>= λ m.
              if atype field.type == atype_pointer
              then release_pointer program field iter m
              else some m)
            ≡ (o >>= free_main program iter)
      behind none = refl
      behind (some m) = rw pointer (release_pointer_single field iter m single)

  -- A null pointer is freed, if free of NULL does nothing, without a change.
  free_main-Cleared :
      (iter : FieldIter) (mem : Memory)
      → program.allocator.pb_free null mem ≡ some mem
      → Cleared iter mem
      → free_main program iter mem ≡ some mem
  unfolding free_main to_bytes little_endian
  free_main-Cleared iter mem free_null e =
      rw (free_main, e, free_null) (store-load (to_bytes 8 null) iter.p_data mem e)

-- pb_release_single_field of a field behind a pointer, neither repeated nor in a union, with
-- whatever it holds, where pb_free of NULL does nothing: if it succeeds, the pointer is NULL, and
-- a second call succeeds and leaves the memory as it is.
pub pb_release_single_field_twice :
    (program : DecodeProgram) (depth : ℕ) (field : PbField) (iter : FieldIter) (mem mem' : Memory)
    → ((m : Memory) → program.allocator.pb_free null m ≡ some m)
    → field_of iter ≡ some field
    → (atype field.type == atype_pointer) ≡ true
    → (htype field.type == htype_repeated) ≡ false
    → (htype field.type == htype_oneof) ≡ false
    → pb_release_single_field program (suc depth) iter mem ≡ some mem'
    → (load_pointer iter.p_data mem' ≡ some null)
      × (pb_release_single_field program (suc depth) iter mem' ≡ some mem')
unfolding pb_release_single_field to_bytes little_endian
pb_release_single_field_twice program depth field iter mem mem' free_null at pointer single alone
      e =
    let release = pb_release_single_field program depth in
    let first = released mem e in
    let (_, (_, freed)) =
      bind_some (release_contents program release field iter mem) _ mem' first in
    let null_now = free_main_clears program iter _ mem' freed in
    (
      rw null_now refl,
      rw
          (
            at,
            release_field_single program release field iter mem' pointer single alone,
            no_contents program release field iter mem' pointer single null_now,
          )
          (free_main-Cleared program iter mem' (free_null mem') null_now),
    )
  where
    released :
        (m : Memory)
        → pb_release_single_field program (suc depth) iter m ≡ some mem'
        → (release_contents program (pb_release_single_field program depth) field iter m
            >>= free_main program iter)
          ≡ some mem'
    released m e =
        sym (
          rw at (
            release_field_single program (pb_release_single_field program depth) field iter m
              pointer single alone))
        ∙ e
