-- ===== src/Nanopb/DecodeMessage/Safe/Pointers.antt =====
-- decode_pointer_field on a stream over a buffer.
use mathlib.Core.Path.{subst}
use logoguess.Common.{
  ℕ, zero, suc, ◌+◌, ◌*◌, ◌-◌, ◌%◌, ◌^◌, ◌<◌, ◌≤◌, ◌≡◌, refl, arith, ltb, leb, ◌==◌, if◌then◌else◌,
  ◌&&◌, ◌||◌, Bool, true, false,
}
use logoguess.Common.{Option, some, none, List}
use logoguess.Nanopb.Errors.{
  invalid_size, size_too_large, realloc_failed, too_many_array_entries, invalid_field_type,
}
use logoguess.Nanopb.Field.{
  PbField, ltype, htype, htype_required, htype_optional, htype_repeated, htype_oneof,
}
use logoguess.Nanopb.FieldIter.{FieldIter}
use logoguess.Nanopb.IStream.{IStream, Outcome}
use logoguess.Nanopb.IStream.Safe.{
  IsBuffer, Advance, Advance-IsBuffer, Advance-refl, Advance-trans, Runs, returns, Runs-error,
  Runs-if, Runs-option,
}
use logoguess.Nanopb.Wire.{wt_string}
use logoguess.Nanopb.Wire.Consumes.{Cut, Cut-IsBuffer, pb_make_string_substream-Opens}
use logoguess.Nanopb.Wire.SafeSubstream.{closed_lem}
use logoguess.Nanopb.EncodeMessage.Default.{ltype_last_packable}
use logoguess.Nanopb.Allocate.{Realloc, reallocate, allocate_field}
use logoguess.Nanopb.Allocate.Overflow.{allocate_field_lem}
use logoguess.Nanopb.Memory.{Memory, load_pointer, load_size, store_number}
use logoguess.Nanopb.DecodeMessage.Actions.{Result, Action, returned, fault, decoded, DecodeProgram}
use logoguess.Nanopb.DecodeMessage.Defaults.{SetsField}
use logoguess.Nanopb.DecodeMessage.Release.{ReleasesField}
use logoguess.Nanopb.DecodeMessage.Values.{block_realloc, commit_block, allocate_at}
use logoguess.Nanopb.DecodeMessage.Fields.{item_at, increment}
use logoguess.Nanopb.DecodeMessage.Pointers.{
  size_max, allocates, PackedEnd, ended, too_many, next_round, packed_end, initialize_pointer_field,
  decode_entry, needed_size, packed_entry, pointer_loop, decode_pointer_packed, decode_pointer_item,
  decode_pointer_value, enter_pointer, decode_pointer_field,
}
use logoguess.Nanopb.DecodeMessage.Safe.{
  Fine, succeeds, fails, faults, Advance-Slack, Fine-after, Fine-true, Fine-with_some,
  Fine-decoded-Runs, Fine-opened, Fine-closed,
}
use logoguess.Nanopb.DecodeMessage.Safe.Actions.{
  IsFine, IsFine->>, IsFine-loaded, IsFine-stored, IsFine-error, IsFine-if, IsFine-weaken,
}

allocate_field-Runs_any :
    (pb_realloc : Realloc) (ptr : Option (List ℕ)) (data_size array_size : ℕ) (s : IStream)
    → IsBuffer s
    → Runs (λ _. Unit {0}) s (allocate_field pb_realloc ptr data_size array_size s)
unfolding reallocate
allocate_field-Runs_any pb_realloc ptr data_size array_size s h =
    rw (allocate_field_lem pb_realloc ptr data_size array_size s) (
      Runs-if (data_size == 0 || array_size == 0) (λ _. Runs-error invalid_size h)
        (λ _.
          Runs-if (ltb (array_size * data_size) (2 ^ 64))
            (λ _.
              Runs-option (pb_realloc ptr (array_size * data_size)) _
                (λ _. Runs-error realloc_failed h) (λ block _. returns tt (Advance-refl h)))
            (λ _. Runs-error size_too_large h)))

-- The end of the loop over a packed array, on a substream.
data FineEnd (s : IStream) : PackedEnd → Type 0 where
  ended_fine : {r : Result} → Fine 0 s r → FineEnd s (ended r)
  too_many_fine : {t : IStream} {mem : Memory} → Advance s t → FineEnd s (too_many t mem)

FineEnd-after : {s t : IStream} {e : PackedEnd} → Advance s t → FineEnd t e → FineEnd s e
FineEnd-after a (ended_fine r) = ended_fine (Fine-after 0 a (omega (arith, a.shrinks)) r)
FineEnd-after a (too_many_fine b) = too_many_fine (Advance-trans a b)

FineEnd-next :
    {n : ℕ} {s : IStream} {r : Result} (k : IStream → Memory → PackedEnd)
    → Fine n s r
    → ((t : IStream) (mem : Memory)
        → IsBuffer t
        → t.bytes_left + n ≤ s.bytes_left
        → FineEnd t (k t mem))
    → FineEnd s (next_round r k)
FineEnd-next k (succeeds {t} {mem} a less) rest =
    FineEnd-after a (rest t mem (Advance-IsBuffer a) less)
FineEnd-next k (fails a) rest = ended_fine (fails a)
FineEnd-next k faults rest = ended_fine faults

FineEnd-if :
    {s : IStream} (b : Bool) {x y : PackedEnd}
    → (b ≡ true → FineEnd s x)
    → (b ≡ false → FineEnd s y)
    → FineEnd s (if b then x else y)
FineEnd-if true p q = p refl
FineEnd-if false p q = q refl

FineEnd-option :
    {A : Type 0} {s : IStream} (o : Option A) (g : A → PackedEnd)
    → ((a : A) → FineEnd s (g a))
    → FineEnd s (elim o [ none ↦ ended fault | some a ↦ g a ])
FineEnd-option none g p = ended_fine faults
FineEnd-option (some a) g p = p a

packed_end-Fine :
    {s before : IStream} {size : ℕ} {e : PackedEnd}
    → Cut s before size
    → FineEnd (record before { bytes_left = size }) e
    → Fine 1 s (packed_end (record before { bytes_left = before.bytes_left - size }) e)
packed_end-Fine c (ended_fine r) = Fine-closed c r
packed_end-Fine {s} {before} {size} c (too_many_fine {t} {mem} a) =
    let rest = record before { bytes_left = before.bytes_left - size } in
    rw (closed_lem t (record rest { errmsg = some too_many_array_entries }) (Advance-IsBuffer a)) (
      subst (λ (o : Outcome (Unit {0})). Fine 1 s (decoded o mem λ _ s'. returned false s'))
        (closed_lem t rest (Advance-IsBuffer a)) (Fine-closed {n = 0} c (fails (Advance-Slack a))))

module _ (program : DecodeProgram) (set_field : SetsField) {bound : ℕ} where
  allocate_at-IsFine :
      (p_data data_size array_size : ℕ)
      → IsFine bound 0 (allocate_at program p_data data_size array_size)
  unfolding allocate_at
  allocate_at-IsFine p_data data_size array_size =
      IsFine-loaded (load_pointer p_data) _ λ p s mem h hb.
        Fine-decoded-Runs _
          (allocate_field-Runs_any (block_realloc program p mem) none data_size array_size s h)
          λ block t _ ht _.
            Fine-with_some (commit_block program p_data p block mem) _ λ mem' _. Fine-true ht

  module _ (func : ℕ → Action) (func-IsFine : (p : ℕ) → IsFine bound 1 (func p)) (field : PbField)
      (iter : FieldIter) where
    decode_entry-IsFine :
        (size : ℕ) → IsFine bound 1 (decode_entry program set_field func field iter size)
    unfolding decode_entry
    decode_entry-IsFine size = IsFine-loaded (load_pointer iter.p_data) _ λ p.
        IsFine->> _ _
          (IsFine-stored (initialize_pointer_field program set_field field (item_at field p size)))
          (func-IsFine (item_at field p size))

    packed_entry-IsFine :
        (size allocated_size needed : ℕ)
        → IsFine bound 1 (packed_entry program set_field func field iter size allocated_size needed)
    unfolding packed_entry
    packed_entry-IsFine size allocated_size needed =
        IsFine->> _ _
          (IsFine->> _ _
            (IsFine-if {n = 0} (ltb allocated_size (size + 1))
              (allocate_at-IsFine iter.p_data field.data_size needed) (λ s mem h _. Fine-true h))
            (decode_entry-IsFine size))
          (IsFine-stored _)

    pointer_loop-Fine :
        (fuel allocated_size : ℕ) (s : IStream) (mem : Memory)
        → IsBuffer s
        → s.bytes_left < fuel
        → s.bytes_left < bound
        → FineEnd s (pointer_loop program set_field fuel func field iter allocated_size s mem)
    unfolding pointer_loop
    pointer_loop-Fine zero allocated_size s mem h hf hb = absurd (omega arith)
    pointer_loop-Fine (suc fuel) allocated_size s mem h hf hb =
        FineEnd-if (s.bytes_left == 0) (λ _. ended_fine (Fine-true h))
          (λ _. FineEnd-option (load_size iter.p_size mem) _ λ size.
            FineEnd-if (size == size_max) (λ _. too_many_fine (Advance-refl h))
              (λ _.
                FineEnd-option
                  (needed_size program set_field field size allocated_size s.bytes_left) _
                  λ needed.
                    FineEnd-next _ (packed_entry-IsFine size allocated_size needed s mem h hb)
                      λ t mem' ht less.
                        pointer_loop-Fine fuel needed t mem' ht (omega arith) (omega arith)))

    decode_pointer_packed-IsFine :
        IsFine bound 1 (decode_pointer_packed program set_field func field iter)
    unfolding decode_pointer_packed
    decode_pointer_packed-IsFine s mem h hb =
        Fine-opened _ (pb_make_string_substream-Opens s h) λ before size c.
          Fine-with_some (load_size iter.p_size mem) _ λ count _. packed_end-Fine c (
            pointer_loop-Fine (suc size) count _ mem (Cut-IsBuffer c) (omega arith)
              (omega (arith, c.less, c.fits)))

    decode_pointer_item-IsFine :
        IsFine bound 1 (decode_pointer_item program set_field func field iter)
    unfolding decode_pointer_item
    decode_pointer_item-IsFine = IsFine-loaded (load_size iter.p_size) _ λ size.
        IsFine-if {n = 1} (size == size_max) (IsFine-error too_many_array_entries) (
          IsFine->> _ _ (allocate_at-IsFine iter.p_data field.data_size ((size + 1) % 2 ^ 32)) (
            IsFine-loaded (load_pointer iter.p_data) _ λ p.
              IsFine->> _ _
                (IsFine->> (increment size iter.p_size) _
                  (IsFine-stored (store_number 4 ((size + 1) % 2 ^ 32) iter.p_size))
                  (IsFine-stored
                    (initialize_pointer_field program set_field field (item_at field p size))))
                (func-IsFine (item_at field p size))))

    decode_pointer_value-IsFine :
        IsFine bound 1 (decode_pointer_value program set_field func field iter)
    unfolding decode_pointer_value
    decode_pointer_value-IsFine = IsFine-if (allocates field) (func-IsFine iter.p_data) (
        IsFine->> _ _ (allocate_at-IsFine iter.p_data field.data_size 1) (
          IsFine-loaded (load_pointer iter.p_data) _
            λ p. IsFine->> _ _ (IsFine-stored _) (func-IsFine p)))

    pub decode_pointer_field-IsFine :
        (release : ReleasesField) (wire_type : ℕ)
        → IsFine bound 0 (decode_pointer_field program set_field release func field wire_type iter)
    unfolding decode_pointer_field
    decode_pointer_field-IsFine release wire_type =
        let h = htype field.type in
        IsFine-if (h == htype_required || h == htype_optional || h == htype_oneof)
          (IsFine->> {n = 0} _ _
            (IsFine-stored (enter_pointer program set_field release field iter))
            (IsFine-weaken (omega arith) decode_pointer_value-IsFine))
          (IsFine-if {n = 0} (h == htype_repeated)
            (IsFine-if {n = 0}
              (wire_type == wt_string && leb (ltype field.type) ltype_last_packable)
              (IsFine-weaken (omega arith) decode_pointer_packed-IsFine)
              (IsFine-weaken (omega arith) decode_pointer_item-IsFine))
            (IsFine-error invalid_field_type))
