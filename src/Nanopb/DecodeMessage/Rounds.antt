-- ===== src/Nanopb/DecodeMessage/Rounds.antt =====
-- The loop of pb_decode_noinit in pb_decode.c, and the checks behind it.
use logoguess.Common.{
  ℕ, zero, suc, ◌-◌, ◌^◌, leb, ◌==◌, if◌then◌else◌, not, ◌&&◌, Bool, true, false,
}
use logoguess.Common.{Option, none, some, List, [], ◌∷◌, get_elem?}
use logoguess.Nanopb.Errors.{wrong_fixed_count, missing_required_field}
use logoguess.Nanopb.Field.{PbField, htype, htype_repeated}
use logoguess.Nanopb.FieldIter.{FieldIter, pb_field_iter_begin, pb_field_iter_find}
use logoguess.Nanopb.IStream.{IStream, Outcome, done, failed}
use logoguess.Nanopb.IStream as I
use logoguess.Nanopb.Wire.{pb_decode_tag}
use logoguess.Nanopb.Memory.{Memory, ◌>>=◌, load_size, store_number}
use logoguess.Nanopb.DecodeMessage.Actions.{
  Result, Action, returned, fault, overrun, and_then, ◌>>◌, return_error, with_some, stored,
  DecodeProgram, DecodesMessage, field_of,
}
use logoguess.Nanopb.DecodeMessage.Defaults.{SetsField}
use logoguess.Nanopb.DecodeMessage.Release.{ReleasesField}
use logoguess.Nanopb.DecodeMessage.Fields.{skip_field}
use logoguess.Nanopb.DecodeMessage.Extensions.{
  Moved, decode_field, decode_extension, find_extension_field,
}
use logoguess.Nanopb.DecodeMessage.Required.{mark_seen, required_count, all_seen}

-- The locals of pb_decode_noinit. `fixed_count_field` is an index into the descriptors, none for
-- NULL; `fixed_count_size`, which has an address, is in the memory.
pub record Locals : Type 0 where
  pub iter : FieldIter
  pub fields_seen : List ℕ
  pub extension_range_start : ℕ
  pub fixed_count_field : Option ℕ

-- How a round leaves the function or its loop.
abbrev pub Round : Type 0
Round = Result × Locals

abbrev pub with_round : {A : Type 0} → Locals → Option A → (A → Round) → Round
with_round st none k = (fault, st)
with_round st (some a) k = k a

-- Whether the last fixed count field is complete.
unfoldable pub fixed_complete : ℕ → Locals → Memory → Option Bool
fixed_complete slot st mem = elim (st.fixed_count_field) [
  | none ↦ some true
  | some pos ↦ get_elem? st.iter.start pos >>= λ field.
      load_size slot mem >>= λ size. some (size == field.array_size)
]

abbrev pub is_pos : Option ℕ → ℕ → Bool
is_pos none pos = false
is_pos (some p) pos = p == pos

-- The branch for a repeated fixed count field, whose count is the local at `slot`.
unfoldable pub enter_fixed : ℕ → Locals → IStream → Memory → Round
unfolding fixed_complete
enter_fixed slot st s mem =
    if is_pos st.fixed_count_field st.iter.pos
    then (returned true s mem, record st { iter = record (st.iter) { p_size = slot } })
    else with_round st (fixed_complete slot st mem) λ complete.
      if not complete then (return_error wrong_fixed_count s mem, st) else (
        stored (store_number 4 0 slot) s mem,
        record st {
          iter = record (st.iter) { p_size = slot };
          fixed_count_field = some st.iter.pos;
        },
      )

module _ (program : DecodeProgram) (set_field : SetsField) (release : ReleasesField)
    (func : PbField → ℕ → Action) (slot : ℕ) where
  abbrev pub moved : Locals → Moved → Round
  moved st (r, iter) = (r, record st { iter = iter })

  abbrev pub if_true : Round → (Locals → IStream → Memory → Round) → Round
  if_true (returned true s mem, st) k = k st s mem
  if_true (returned false s mem, st) k = (returned false s mem, st)
  if_true (fault, st) k = (fault, st)
  if_true (overrun, st) k = (overrun, st)

  -- The bit of a required field, and decode_field.
  unfoldable pub decode_seen : ℕ → PbField → Locals → IStream → Memory → Round
  decode_seen wire_type field st s mem =
      with_round st (mark_seen field st.iter st.fields_seen) λ seen.
        moved (record st { fields_seen = seen })
          (decode_field program set_field release func wire_type st.iter s mem)

  -- A field that was found.
  unfoldable pub decode_known : ℕ → Locals → IStream → Memory → Round
  unfolding enter_fixed decode_seen
  decode_known wire_type st s mem = with_round st (field_of st.iter) λ field.
      if_true
        (if htype field.type == htype_repeated && st.iter.p_size == st.iter.p_data
          then enter_fixed slot st s mem
          else (returned true s mem, st))
        (decode_seen wire_type field)

  -- "No match found, skip data", if `pos` bytes are left: else an extension has handled the field.
  abbrev pub skip_unhandled : ℕ → ℕ → Action
  skip_unhandled pos wire_type s mem =
      if pos == s.bytes_left then skip_field wire_type s mem else returned true s mem

  -- A field that was not found, when extensions may have its tag.
  unfoldable pub decode_unknown : ℕ → ℕ → Locals → IStream → Memory → Round
  decode_unknown tag wire_type st s mem =
      if not (leb st.extension_range_start tag)
      then (skip_field wire_type s mem, st)
      else with_round st (find_extension_field st.iter) λ found.
        with_round st (field_of (found.0)) λ field.
          let range_start : ℕ = if found.1 then field.tag else 2 ^ 32 - 1 in
          (
            (if leb range_start tag
                  then (decode_extension program set_field release func tag wire_type (found.0)
                      >> skip_unhandled s.bytes_left wire_type)
                  else skip_field wire_type)
                s mem,
            record st { iter = found.0; extension_range_start = range_start },
          )

  -- A round, with the tag and the wire type that were read.
  unfoldable pub decode_tagged : ℕ → ℕ → Locals → IStream → Memory → Round
  unfolding decode_known decode_unknown
  decode_tagged wire_type tag st s mem = with_round st (pb_field_iter_find tag st.iter) λ found.
      let st' = record st { iter = found.0 } in
      if found.1 then decode_known wire_type st' s mem else decode_unknown tag wire_type st' s mem

  -- The results of pb_decode_tag: `more` is the round, and the rounds behind it.
  abbrev pub on_tag : Outcome (ℕ × ℕ) × Bool → Locals → Memory → (ℕ → ℕ → IStream → Round) → Round
  on_tag (done (wire_type, tag) s, eof) st mem more = more wire_type tag s
  on_tag (failed s, eof) st mem more = (returned eof s mem, st)
  on_tag (I.fault, eof) st mem more = (overrun, st)

  -- The while loop. A round for each byte is enough.
  unfoldable pub message_loop : ℕ → Locals → IStream → Memory → Round
  unfolding decode_tagged
  message_loop zero st s mem = (overrun, st)
  message_loop (suc fuel) st s mem =
      let round : Round =
        on_tag (pb_decode_tag s) st mem
          λ wire_type tag s'. if_true (decode_tagged wire_type tag st s' mem) (message_loop fuel) in
      if s.bytes_left == 0 then (returned true s mem, st) else round

  -- The checks behind the loop.
  unfoldable pub finish_message : Locals → Action
  unfolding fixed_complete
  finish_message st s mem =
      with_some (fixed_complete slot st mem)
        (λ complete.
          if not complete
          then return_error wrong_fixed_count
          else with_some (required_count st.iter >>= λ count. all_seen count st.fields_seen)
              λ seen. if seen then returned true else return_error missing_required_field)
        s mem

  abbrev pub finish_round : Round → Result
  finish_round (r, st) = and_then r (finish_message st)

  -- pb_decode_noinit, with `fixed_count_size` in the memory.
  unfoldable pub decode_body : DecodesMessage
  unfolding message_loop finish_message
  decode_body fields dest_struct s mem =
      with_some (pb_field_iter_begin fields dest_struct)
        (λ first s' mem'. finish_round (
          message_loop (suc s'.bytes_left)
            (record {
              iter = first.0;
              fields_seen = 0 ∷ 0 ∷ [];
              extension_range_start = 0;
              fixed_count_field = none;
            })
            s' mem'))
        s mem
