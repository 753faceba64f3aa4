-- ===== src/Nanopb/DecodeMessage/Safe/Fields.antt =====
-- decode_static_field and decode_callback_field on a stream over a buffer.
use logoguess.Common.{
  ℕ, zero, suc, ◌-◌, ◌<◌, ◌≤◌, ◌≡◌, refl, arith, ltb, leb, ◌==◌, ==_iff, not, ◌&&◌, false,
}
use logoguess.Common.{Bool-cases, inl, inr, some, [], ◌∷◌}
use logoguess.Nanopb.Errors.{array_overflow, callback_failed, invalid_field_type}
use logoguess.Nanopb.Field.{
  PbField, ltype, htype, htype_required, htype_optional, htype_repeated, htype_oneof,
}
use logoguess.Nanopb.FieldIter.{FieldIter}
use logoguess.Nanopb.IStream.{IStream, pb_istream_from_buffer}
use logoguess.Nanopb.IStream.Safe.{IsBuffer, Advance, Advance-IsBuffer, Advance-refl, Advance-trans}
use logoguess.Nanopb.Wire.{wt_string}
use logoguess.Nanopb.Wire.Safe.{pb_skip_field-Runs, read_raw_value-Runs}
use logoguess.Nanopb.Wire.Consumes.{Cut, Cut-IsBuffer, pb_make_string_substream-Opens}
use logoguess.Nanopb.EncodeMessage.Default.{ltype_last_packable}
use logoguess.Nanopb.Memory.{Memory, null, plus, load_pointer, load_size, store}
use logoguess.Nanopb.DecodeMessage.Actions.{Result, Action, DecodeProgram}
use logoguess.Nanopb.DecodeMessage.Defaults.{SetsField}
use logoguess.Nanopb.DecodeMessage.Fields.{
  item_at, increment, packed_loop, packed_end, decode_packed, decode_item, enter_union,
  decode_static_field, called, callback_loop, called_once, skip_field, call_callback,
  decode_callback_field,
}
use logoguess.Nanopb.DecodeMessage.Safe.{
  Fine, succeeds, fails, faults, Advance-Slack, Fine-weaken, Fine-true, Fine-then, Fine-if,
  Fine-with_some, Fine-decoded-Runs, Fine-opened, Fine-closed, Cut-Slack, Slack-set_error,
}
use logoguess.Nanopb.DecodeMessage.Safe.Actions.{
  IsFine, IsFine->>, IsFine-loaded, IsFine-with_some, IsFine-stored, IsFine-error, IsFine-if,
  IsFine-weaken,
}

-- What the user's functions do on a stream over a buffer: they read nothing outside of it, keep it in
-- step, and read a byte at least if there is one.
pub record CallbacksRead (program : DecodeProgram) : Type 0 where
  pub decode :
      (p : ℕ) (f : PbField → ℕ → Action)
      → program.decode_at p ≡ some f
      → (field : PbField) (arg : ℕ) (s : IStream) (mem : Memory) → IsBuffer s
      → (n : ℕ) → n ≤ 1
      → n ≤ s.bytes_left
      → Fine n s (f field arg s mem)
  pub extension_decode :
      (p : ℕ) (f : ℕ → ℕ → ℕ → Action)
      → program.extension_decode_at p ≡ some f
      → (extension tag wire_type : ℕ) (s : IStream) (mem : Memory) → IsBuffer s
      → Fine 0 s (f extension tag wire_type s mem)

module _ {bound : ℕ} (func : ℕ → Action) (func-IsFine : (p : ℕ) → IsFine bound 1 (func p))
    (field : PbField) (iter : FieldIter) where
  packed_loop-Fine :
      (fuel : ℕ) (s : IStream) (mem : Memory)
      → IsBuffer s
      → s.bytes_left < fuel
      → s.bytes_left < bound
      → Fine 0 s (packed_loop fuel func field iter s mem)
  unfolding packed_loop
  packed_loop-Fine zero s mem h hf hb = absurd (omega arith)
  packed_loop-Fine (suc fuel) s mem h hf hb = Fine-with_some (load_size iter.p_size mem) _ λ size _.
      Fine-if (not (s.bytes_left == 0) && ltb size field.array_size)
        (λ _. Fine-weaken (omega arith) (
          Fine-then
            (IsFine->> (func (item_at field iter.p_data size)) (increment size iter.p_size)
              (func-IsFine (item_at field iter.p_data size)) (IsFine-stored _) s mem h hb)
            λ t mem' ht less. packed_loop-Fine fuel t mem' ht (omega arith) (omega arith)))
        (λ _. Fine-true h)

  packed_end-Fine :
      {s before : IStream} {size n : ℕ} {r : Result}
      → Cut s before size
      → Fine n (record before { bytes_left = size }) r
      → Fine 1 s (packed_end (record before { bytes_left = before.bytes_left - size }) r)
  packed_end-Fine c (succeeds {t} a less) =
      Fine-if (not (t.bytes_left == 0)) (λ _. fails (Slack-set_error array_overflow (Cut-Slack c)))
        (λ _. Fine-closed c (succeeds a less))
  packed_end-Fine c (fails {t} a) =
      Fine-if (not (t.bytes_left == 0)) (λ _. fails (Slack-set_error array_overflow (Cut-Slack c)))
        (λ _. Fine-closed {n = 0} c (fails a))
  packed_end-Fine c faults = faults

  decode_packed-IsFine : IsFine bound 1 (decode_packed func field iter)
  unfolding decode_packed
  decode_packed-IsFine s mem h hb =
      Fine-opened _ (pb_make_string_substream-Opens s h) λ before size c. packed_end-Fine c (
        packed_loop-Fine (suc size) _ mem (Cut-IsBuffer c) (omega arith)
          (omega (arith, c.less, c.fits)))

  decode_item-IsFine : IsFine bound 0 (decode_item func field iter)
  unfolding decode_item
  decode_item-IsFine = IsFine-loaded (load_size iter.p_size) _ λ size.
      IsFine->> _ _ (IsFine-stored _) (
        IsFine-if {n = 0} (leb field.array_size size) (IsFine-error array_overflow)
          (IsFine-weaken (omega arith) (func-IsFine (item_at field iter.p_data size))))

  pub decode_static_field-IsFine :
      (program : DecodeProgram) (set_field : SetsField) (wire_type : ℕ)
      → IsFine bound 0 (decode_static_field program set_field func field wire_type iter)
  unfolding decode_static_field
  decode_static_field-IsFine program set_field wire_type =
      IsFine-if (htype field.type == htype_required) value (
        IsFine-if (htype field.type == htype_optional)
          (IsFine-if (iter.p_size == iter.p_data) value
            (IsFine->> _ _ (IsFine-stored (store (1 ∷ []) iter.p_size)) value))
          (IsFine-if (htype field.type == htype_repeated)
            (IsFine-if (wire_type == wt_string && leb (ltype field.type) ltype_last_packable)
              (IsFine-weaken (omega arith) decode_packed-IsFine) decode_item-IsFine)
            (IsFine-if (htype field.type == htype_oneof)
              (IsFine->> _ _ (IsFine-stored (enter_union program set_field field iter)) value)
              (IsFine-error invalid_field_type))))
    where
      value : IsFine bound 0 (func iter.p_data)
      value = IsFine-weaken (omega arith) (func-IsFine iter.p_data)

pub skip_field-IsFine : {bound : ℕ} (wire_type : ℕ) → IsFine bound 0 (skip_field wire_type)
skip_field-IsFine wire_type s mem h hb =
    Fine-decoded-Runs _ (pb_skip_field-Runs wire_type s h) λ _ t _ ht _. Fine-true ht

-- A user's function, of a field and of `arg`.
module _ (f : Action)
    (reads : (s : IStream) (mem : Memory)
      → IsBuffer s
      → (n : ℕ) → n ≤ 1
      → n ≤ s.bytes_left
      → Fine n s (f s mem)) where
  callback_loop-Fine :
      {s before : IStream} {size : ℕ} (fuel : ℕ) (used : IStream) (mem : Memory)
      → Cut s before size
      → Advance (record before { bytes_left = size }) used
      → used.bytes_left < fuel
      → Fine 1 s
          (callback_loop fuel f (record before { bytes_left = before.bytes_left - size }) used mem)
  unfolding callback_loop
  callback_loop-Fine zero used mem c a hf = absurd (omega arith)
  callback_loop-Fine {s} {before} {size} (suc fuel) used mem c a hf =
      elim (Bool-cases (used.bytes_left == 0)) [
        | inl empty ↦
            let none_left = (==_iff used.bytes_left 0).0 empty in
            call 0 (λ h. omega arith)
              (reads used mem (Advance-IsBuffer a) 0 (omega arith) (omega arith))
              λ t mem'. callback_loop-Fine fuel t mem' c
        | inr more ↦
            call 1 (λ h. omega arith)
              (reads used mem (Advance-IsBuffer a) 1 (omega arith) (nonzero used.bytes_left more))
              λ t mem'. callback_loop-Fine fuel t mem' c
      ]
    where
      nonzero : (n : ℕ) → (n == 0) ≡ false → 1 ≤ n
      nonzero n h = ground arith

      rest : IStream
      rest = record before { bytes_left = before.bytes_left - size }

      call :
          (n : ℕ)
          → (0 < used.bytes_left → 1 ≤ n)
          → {r : Result} → Fine n used r
          → ((t : IStream) (mem' : Memory)
              → Advance (record before { bytes_left = size }) t
              → t.bytes_left < fuel
              → Fine 1 s (callback_loop fuel f rest t mem'))
          → Fine 1 s (called rest r (callback_loop fuel f rest))
      call n hn (succeeds {t} {mem = mem'} b less) again =
          Fine-if (t.bytes_left == 0)
            (λ _.
              Fine-closed {n = 0} c
                (succeeds (Advance-trans a b) (omega (arith, a.shrinks, b.shrinks))))
            (λ left.
              let some_left = nonzero t.bytes_left left in
              again t mem' (Advance-trans a b) (omega (arith, hn (omega arith))))
      call n hn (fails b) again = fails (Slack-set_error callback_failed (Cut-Slack c))
      call n hn faults again = faults

  called_once-Fine :
      {n : ℕ} {buf s : IStream} {r : Result}
      → IsBuffer s
      → Fine n buf r
      → Fine 0 s (called_once s r)
  called_once-Fine h (succeeds a less) = Fine-true h
  called_once-Fine h (fails a) = fails (Advance-Slack (Advance-refl h))
  called_once-Fine h faults = faults

  call_callback-IsFine : {bound : ℕ} (wire_type : ℕ) → IsFine bound 0 (call_callback f wire_type)
  unfolding call_callback pb_istream_from_buffer
  call_callback-IsFine wire_type s mem h hb =
      Fine-if (wire_type == wt_string)
        (λ _. Fine-opened _ (pb_make_string_substream-Opens s h) λ before size c.
          Fine-weaken (omega arith)
            (callback_loop-Fine (suc size) _ mem c (Advance-refl (Cut-IsBuffer c)) (omega arith)))
        (λ _.
          Fine-decoded-Runs _ (read_raw_value-Runs wire_type 10 s (omega arith) h)
            λ value t fits ht _. called_once-Fine ht (
              reads _ mem (record { from_buffer = refl; covered = omega arith; octets = fits.1 }) 0
                (omega arith) (omega arith)))

pub decode_callback_field-IsFine :
    {bound : ℕ} (program : DecodeProgram) (field : PbField) (wire_type : ℕ) (iter : FieldIter)
    → CallbacksRead program
    → IsFine bound 0 (decode_callback_field program field wire_type iter)
unfolding decode_callback_field
decode_callback_field-IsFine program field wire_type iter callbacks =
    IsFine-if (iter.p_data == null) (skip_field-IsFine wire_type) (
      IsFine-loaded (load_pointer iter.p_data) _ λ funcs.
        IsFine-if (funcs == null) (skip_field-IsFine wire_type) (
          IsFine-with_some (program.decode_at funcs) _ λ f at.
            call_callback-IsFine (f field (plus iter.p_data 8))
              (callbacks.decode funcs f at field (plus iter.p_data 8)) wire_type))
