-- ===== src/Nanopb/DecodeMessage/Required.antt =====
-- The check of pb_decode_noinit that all required fields were present.
pub mod Words
pub mod Bitmap
pub mod Seen
use logoguess.Common.{
  ℕ, zero, suc, ◌+◌, ◌-◌, ◌/◌, ◌%◌, ◌^◌, bit_or, ltb, ◌==◌, if◌then◌else◌, not, ◌&&◌, Bool, true,
  false,
}
use logoguess.Common.{Option, none, some, List, [], ◌∷◌, length, get_elem?}
use logoguess.Nanopb.Field.{PbField, htype, htype_required}
use logoguess.Nanopb.FieldIter.{FieldIter, pb_field_iter_next}
use logoguess.Nanopb.Memory.{◌>>=◌}
use logoguess.Nanopb.DecodeMessage.Actions.{field_of}

-- PB_MAX_REQUIRED_FIELDS.
abbrev max_required_fields : ℕ
max_required_fields = 64

-- `fields_seen[i] |= bit`. None outside of the array.
unfoldable pub set_word : ℕ → ℕ → List ℕ → Option (List ℕ)
set_word i bit [] = none
set_word zero bit (w ∷ words) = some (bit_or w bit ∷ words)
set_word (suc i) bit (w ∷ words) = set_word i bit words >>= λ rest. some (w ∷ rest)

-- The bit of a field that was found.
unfoldable pub mark_seen : PbField → FieldIter → List ℕ → Option (List ℕ)
unfolding set_word
mark_seen field iter fields_seen =
    let i = iter.required_field_index in
    if htype field.type == htype_required && ltb i max_required_fields
    then set_word (i / 32) (2 ^ (i % 32)) fields_seen
    else some fields_seen

-- The do-while loop that seeks the end of the fields: `req_field_count`, `last_type` and the iterator.
unfoldable pub count_loop : ℕ → FieldIter → Option (ℕ × ℕ × FieldIter)
count_loop zero iter = none
count_loop (suc fuel) iter = field_of iter >>= λ last. pb_field_iter_next iter >>= λ next.
    let rest = count_loop fuel (next.0) in
    if next.1 then rest else some (iter.required_field_index, last.type, next.0)

abbrev pub at_most_max : ℕ → ℕ
at_most_max count = if ltb max_required_fields count then max_required_fields else count

-- `req_field_count`, with the last field if it is required, too.
unfoldable pub required_count : FieldIter → Option ℕ
unfolding count_loop
required_count iter = count_loop (length iter.start) iter >>= λ (count, last_type, end).
    field_of end >>= λ first. some (
      at_most_max (
        if htype last_type == htype_required && not (first.tag == 0)
        then (count + 1) % 2 ^ 32
        else count))

-- `allbits`.
abbrev allbits : ℕ
allbits = 2 ^ 32 - 1

-- "Check the whole words", of which `count` are left, and "the remaining bits": whether no field is
-- missing. None outside of the array.
unfoldable pub words_seen : ℕ → ℕ → List ℕ → Option Bool
words_seen zero remaining fields_seen =
    if remaining == 0
    then some true
    else get_elem? fields_seen 0 >>= λ w. some (w == allbits / 2 ^ (32 - remaining))
words_seen (suc count) remaining [] = none
words_seen (suc count) remaining (w ∷ fields_seen) =
    let rest = words_seen count remaining fields_seen in if w == allbits then rest else some false

unfoldable pub all_seen : ℕ → List ℕ → Option Bool
unfolding words_seen
all_seen req_field_count fields_seen =
    if req_field_count == 0
    then some true
    else words_seen (req_field_count / 32) (req_field_count % 32) fields_seen
