-- ===== src/Nanopb/DecodeMessage/Safe/Message.antt =====
-- pb_decode on a stream over a buffer.
use logoguess.Common.{
  ℕ, zero, suc, ◌-◌, ◌^◌, ◌<◌, ◌≤◌, ◌≡◌, refl, arith, leb, ◌==◌, if◌then◌else◌, not, ◌&&◌, Bool,
  true, false,
}
use logoguess.Common.{Option, some, none, List, [], ◌∷◌}
use logoguess.Nanopb.Errors.{wrong_fixed_count, missing_required_field}
use logoguess.Nanopb.Field.{PbField, htype, htype_repeated}
use logoguess.Nanopb.FieldIter.{FieldIter, pb_field_iter_begin, pb_field_iter_find}
use logoguess.Nanopb.IStream.{IStream, Outcome}
use logoguess.Nanopb.IStream.Safe.{IsBuffer, Advance-IsBuffer}
use logoguess.Nanopb.Wire.{pb_decode_tag}
use logoguess.Nanopb.Wire.Consumes.{Consumes, takes, ends, pb_decode_tag-Consumes}
use logoguess.Nanopb.Memory.{Memory, ◌>>=◌}
use logoguess.Nanopb.DecodeMessage.Actions.{Action, DecodeProgram, field_of}
use logoguess.Nanopb.DecodeMessage.Defaults.{SetsField}
use logoguess.Nanopb.DecodeMessage.Release.{ReleasesField}
use logoguess.Nanopb.DecodeMessage.Extensions.{Moved, decode_field, find_extension_field}
use logoguess.Nanopb.DecodeMessage.Required.{mark_seen, required_count, all_seen}
use logoguess.Nanopb.DecodeMessage.Rounds.{
  Locals, Round, with_round, fixed_complete, is_pos, enter_fixed, moved, if_true, decode_seen,
  decode_known, skip_unhandled, decode_unknown, decode_tagged, on_tag, message_loop, finish_message,
  finish_round, decode_body,
}
use logoguess.Nanopb.DecodeMessage.Safe.{
  Fine, succeeds, fails, faults, Advance-Slack, Fine-after, Fine-true, Fine-error, Fine-then,
  Fine-changed, Fine-if, Fine-with_some,
}
use logoguess.Nanopb.DecodeMessage.Safe.Actions.{
  IsFine, IsFine->>, IsFine-with_some, IsFine-error, IsFine-if,
}
use logoguess.Nanopb.DecodeMessage.Safe.Fields.{CallbacksRead, skip_field-IsFine}
use logoguess.Nanopb.DecodeMessage.Safe.Extensions.{decode_field-Fine, decode_extension-IsFine}

Fine-with_round :
    {A : Type 0} {n : ℕ} {s : IStream} (st : Locals) (o : Option A) (k : A → Round)
    → ((a : A) → Fine n s ((k a).0))
    → Fine n s ((with_round st o k).0)
Fine-with_round st none k p = faults
Fine-with_round st (some a) k p = p a

Fine-if_round :
    {n : ℕ} {s : IStream} (b : Bool) (x y : Round)
    → Fine n s x.0
    → (b ≡ false → Fine n s y.0)
    → Fine n s ((if b then x else y).0)
Fine-if_round true x y p q = p
Fine-if_round false x y p q = q refl

module _ (program : DecodeProgram) (callbacks : CallbacksRead program) (set_field : SetsField)
    (release : ReleasesField) {bound : ℕ} (func : PbField → ℕ → Action)
    (func-IsFine : (field : PbField) (p : ℕ) → IsFine bound 1 (func field p)) (slot : ℕ) where
  Fine-moved :
      {n : ℕ} {s : IStream} (st : Locals) (m : Moved)
      → Fine n s m.0
      → Fine n s ((moved program set_field release func slot st m).0)
  Fine-moved st (r, iter) p = p

  Fine-if_true :
      {s : IStream} (r : Round) (k : Locals → IStream → Memory → Round)
      → Fine 0 s r.0
      → ((st : Locals) (t : IStream) (mem : Memory)
          → IsBuffer t
          → t.bytes_left ≤ s.bytes_left
          → Fine 0 t ((k st t mem).0))
      → Fine 0 s ((if_true program set_field release func slot r k).0)
  Fine-if_true (_, st) k (succeeds {t} {mem} a less) rest =
      Fine-after 0 a (omega (arith, less))
        (rest st t mem (Advance-IsBuffer a) (omega (arith, less)))
  Fine-if_true (_, st) k (fails a) rest = fails a
  Fine-if_true (_, st) k faults rest = faults

  enter_fixed-Fine :
      (st : Locals) (s : IStream) (mem : Memory)
      → IsBuffer s
      → Fine 0 s ((enter_fixed slot st s mem).0)
  unfolding enter_fixed
  enter_fixed-Fine st s mem h =
      Fine-if_round (is_pos st.fixed_count_field st.iter.pos) _ _ (Fine-true h) λ _.
        Fine-with_round st (fixed_complete slot st mem) _ λ complete.
          Fine-if_round (not complete) _ _ (Fine-error wrong_fixed_count h) λ _. Fine-changed _ h

  decode_seen-Fine :
      (wire_type : ℕ) (field : PbField) (st : Locals) (s : IStream) (mem : Memory)
      → IsBuffer s
      → s.bytes_left < bound
      → Fine 0 s ((decode_seen program set_field release func slot wire_type field st s mem).0)
  unfolding decode_seen
  decode_seen-Fine wire_type field st s mem h hb =
      Fine-with_round st (mark_seen field st.iter st.fields_seen) _ λ seen.
        Fine-moved (record st { fields_seen = seen })
          (decode_field program set_field release func wire_type st.iter s mem)
          (decode_field-Fine program callbacks set_field release func func-IsFine wire_type st.iter
            s mem h hb)

  decode_known-Fine :
      (wire_type : ℕ) (st : Locals) (s : IStream) (mem : Memory)
      → IsBuffer s
      → s.bytes_left < bound
      → Fine 0 s ((decode_known program set_field release func slot wire_type st s mem).0)
  unfolding decode_known
  decode_known-Fine wire_type st s mem h hb = Fine-with_round st (field_of st.iter) _ λ field.
      Fine-if_true _ _
        (Fine-if_round (htype field.type == htype_repeated && st.iter.p_size == st.iter.p_data) _ _
          (enter_fixed-Fine st s mem h) λ _. Fine-true h)
        λ st' t mem' ht less. decode_seen-Fine wire_type field st' t mem' ht (omega arith)

  skip_unhandled-IsFine :
      (pos wire_type : ℕ)
      → IsFine bound 0 (skip_unhandled program set_field release func slot pos wire_type)
  skip_unhandled-IsFine pos wire_type s mem h hb =
      Fine-if (pos == s.bytes_left) (λ _. skip_field-IsFine wire_type s mem h hb) (λ _. Fine-true h)

  decode_unknown-Fine :
      (tag wire_type : ℕ) (st : Locals) (s : IStream) (mem : Memory)
      → IsBuffer s
      → s.bytes_left < bound
      → Fine 0 s ((decode_unknown program set_field release func slot tag wire_type st s mem).0)
  unfolding decode_unknown
  decode_unknown-Fine tag wire_type st s mem h hb =
      Fine-if_round (not (leb st.extension_range_start tag)) _ _
        (skip_field-IsFine wire_type s mem h hb)
        λ _. Fine-with_round st (find_extension_field st.iter) _ λ found.
          Fine-with_round st (field_of (found.0)) _ λ field.
            IsFine-if {n = 0} (leb (if found.1 then field.tag else 2 ^ 32 - 1) tag)
              (IsFine->> _ _
                (decode_extension-IsFine program callbacks set_field release func func-IsFine tag
                  wire_type (found.0))
                (skip_unhandled-IsFine s.bytes_left wire_type))
              (skip_field-IsFine wire_type) s mem h hb

  decode_tagged-Fine :
      (wire_type tag : ℕ) (st : Locals) (s : IStream) (mem : Memory)
      → IsBuffer s
      → s.bytes_left < bound
      → Fine 0 s ((decode_tagged program set_field release func slot wire_type tag st s mem).0)
  unfolding decode_tagged
  decode_tagged-Fine wire_type tag st s mem h hb =
      let known : FieldIter → Round = λ iter.
        decode_known program set_field release func slot wire_type (record st { iter = iter }) s
          mem in
      let unknown : FieldIter → Round = λ iter.
        decode_unknown program set_field release func slot tag wire_type (record st { iter = iter })
          s mem in
      Fine-with_round st (pb_field_iter_find tag st.iter)
        (λ found. if found.1 then known (found.0) else unknown (found.0))
        λ found.
          Fine-if_round (found.1) (known (found.0)) (unknown (found.0))
            (decode_known-Fine wire_type (record st { iter = found.0 }) s mem h hb)
            λ _. decode_unknown-Fine tag wire_type (record st { iter = found.0 }) s mem h hb

  on_tag-Fine :
      {s : IStream} (r : Outcome (ℕ × ℕ) × Bool) (st : Locals) (mem : Memory)
      (more : ℕ → ℕ → IStream → Round)
      → Consumes (λ _. Unit {0}) s r.0
      → ((wire_type tag : ℕ) (t : IStream)
          → IsBuffer t
          → t.bytes_left < s.bytes_left
          → Fine 0 t ((more wire_type tag t).0))
      → Fine 0 s ((on_tag program set_field release func slot r st mem more).0)
  on_tag-Fine (_, eof) st mem more (takes {a = (wire_type, tag)} {t} _ a less) rest =
      Fine-after 0 a (omega (arith, less)) (rest wire_type tag t (Advance-IsBuffer a) less)
  on_tag-Fine (_, true) st mem more (ends a) rest = succeeds a (omega (arith, a.shrinks))
  on_tag-Fine (_, false) st mem more (ends a) rest = fails (Advance-Slack a)

  message_loop-Fine :
      (fuel : ℕ) (st : Locals) (s : IStream) (mem : Memory)
      → IsBuffer s
      → s.bytes_left < fuel
      → s.bytes_left < bound
      → Fine 0 s ((message_loop program set_field release func slot fuel st s mem).0)
  unfolding message_loop
  message_loop-Fine zero st s mem h hf hb = absurd (omega arith)
  message_loop-Fine (suc fuel) st s mem h hf hb =
      Fine-if_round (s.bytes_left == 0) _ _ (Fine-true h) λ _.
        on_tag-Fine (pb_decode_tag s) st mem _ (pb_decode_tag-Consumes s h)
          λ wire_type tag t ht less.
            Fine-if_true _ _ (decode_tagged-Fine wire_type tag st t mem ht (omega arith))
              λ st' u mem' hu less'.
                message_loop-Fine fuel st' u mem' hu (omega arith) (omega arith)

  finish_message-IsFine :
      (st : Locals) → IsFine bound 0 (finish_message program set_field release func slot st)
  unfolding finish_message
  finish_message-IsFine st s mem h hb = Fine-with_some (fixed_complete slot st mem) _ λ complete _.
      IsFine-if {bound = bound} {n = 0} (not complete) (IsFine-error wrong_fixed_count)
        (IsFine-with_some (required_count st.iter >>= λ count. all_seen count st.fields_seen) _
          λ seen _.
            IsFine-if {n = 0} seen (λ t mem' ht _. Fine-true ht)
              (IsFine-error missing_required_field))
        s mem h hb

  finish_round-Fine :
      {s : IStream} (r : Round)
      → s.bytes_left < bound
      → Fine 0 s r.0
      → Fine 0 s (finish_round program set_field release func slot r)
  finish_round-Fine (r, st) hb p =
      Fine-then p λ t mem ht less. finish_message-IsFine st t mem ht (omega arith)

  pub decode_body-IsFine :
      (fields : List PbField) (dest_struct : ℕ)
      → IsFine bound 0 (decode_body program set_field release func slot fields dest_struct)
  unfolding decode_body
  decode_body-IsFine fields dest_struct s mem h hb =
      Fine-with_some (pb_field_iter_begin fields dest_struct) _ λ first _.
        let st : Locals = record {
          iter = first.0;
          fields_seen = 0 ∷ 0 ∷ [];
          extension_range_start = 0;
          fixed_count_field = none;
        } in
        finish_round-Fine
          (message_loop program set_field release func slot (suc s.bytes_left) st s mem) hb
          (message_loop-Fine (suc s.bytes_left) st s mem h (omega arith) hb)
