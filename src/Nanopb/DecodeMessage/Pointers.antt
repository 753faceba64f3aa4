-- ===== src/Nanopb/DecodeMessage/Pointers.antt =====
-- initialize_pointer_field and decode_pointer_field.
use logoguess.Common.{
  ℕ, zero, suc, ◌+◌, ◌-◌, ◌/◌, ◌%◌, ◌^◌, ltb, leb, ◌==◌, if◌then◌else◌, not, ◌&&◌, ◌||◌, Bool, true,
  false,
}
use logoguess.Common.{Option, none, some}
use logoguess.Nanopb.Errors.{too_many_array_entries, invalid_field_type}
use logoguess.Nanopb.Field.{
  PbField, ltype, htype, ltype_submessage, ltype_string, ltype_bytes, htype_required,
  htype_optional, htype_repeated, htype_oneof,
}
use logoguess.Nanopb.FieldIter.{FieldIter}
use logoguess.Nanopb.IStream.{IStream}
use logoguess.Nanopb.Wire.{wt_string, pb_make_string_substream}
use logoguess.Nanopb.EncodeMessage.Default.{ltype_last_packable}
use logoguess.Nanopb.Memory.{Memory, null, ◌>>=◌, load_pointer, load_size, store_number}
use logoguess.Nanopb.DecodeMessage.Actions.{
  Result, Action, returned, fault, overrun, ◌>>◌, return_error, loaded, stored, decoded,
  DecodeProgram,
}
use logoguess.Nanopb.DecodeMessage.Defaults.{SetsField}
use logoguess.Nanopb.DecodeMessage.Release.{ReleasesField, release_field}
use logoguess.Nanopb.DecodeMessage.Values.{closed, allocate_at}
use logoguess.Nanopb.DecodeMessage.Fields.{item_at, increment, clear_submessage}

-- PB_SIZE_MAX.
abbrev pub size_max : ℕ
size_max = 2 ^ 32 - 1

-- `allocated_size` after the guess of how many entries remain in `bytes_left` bytes.
unfoldable pub grown : ℕ → ℕ → ℕ → ℕ
grown data_size bytes_left allocated_size =
    let remain : ℕ = (bytes_left - 1) / data_size + 1 in
    if ltb remain ((size_max + 2 ^ 64 - allocated_size) % 2 ^ 64)
    then (allocated_size + remain) % 2 ^ 64
    else (allocated_size + 1) % 2 ^ 64

-- Whether a field's values are strings or bytes, whose functions allocate by themselves.
abbrev pub allocates : PbField → Bool
allocates field = ltype field.type == ltype_string || ltype field.type == ltype_bytes

-- How the loop over a packed array ends.
pub data PackedEnd : Type 0 where
  ended : Result → PackedEnd
  too_many : IStream → Memory → PackedEnd

abbrev pub next_round : Result → (IStream → Memory → PackedEnd) → PackedEnd
next_round (returned true sub mem) k = k sub mem
next_round (returned false sub mem) k = ended (returned false sub mem)
next_round fault k = ended fault
next_round overrun k = ended overrun

-- What follows the loop. The message is that of the substream in the end, if it can be closed.
abbrev pub packed_end : IStream → PackedEnd → Result
packed_end s (ended r) = closed s r
packed_end s (too_many sub mem) =
    closed (record s { errmsg = some too_many_array_entries }) (returned false sub mem)

module _ (program : DecodeProgram) (set_field : SetsField) where
  unfoldable pub initialize_pointer_field : PbField → ℕ → Memory → Option Memory
  initialize_pointer_field field p_item mem =
      if allocates field
      then store_number 8 null p_item mem
      else if ltype field.type == ltype_submessage
      then clear_submessage program set_field field p_item mem
      else some mem

  -- "Decode the array entry", behind the pointer of the field.
  unfoldable pub decode_entry : (ℕ → Action) → PbField → FieldIter → ℕ → Action
  unfolding initialize_pointer_field
  decode_entry func field iter size = loaded (load_pointer iter.p_data) λ p.
      stored (initialize_pointer_field field (item_at field p size)) >> func (item_at field p size)

  -- `allocated_size` for the entry `size`: it grows if it is too small. None for a division by zero.
  unfoldable pub needed_size : PbField → ℕ → ℕ → ℕ → Option ℕ
  unfolding grown
  needed_size field size allocated_size bytes_left =
      if not (ltb allocated_size (size + 1))
      then some allocated_size
      else if field.data_size == 0
      then none
      else some (grown field.data_size bytes_left allocated_size)

  -- A round for the entry `size`, when `needed` entries are to be allocated.
  unfoldable pub packed_entry : (ℕ → Action) → PbField → FieldIter → ℕ → ℕ → ℕ → Action
  unfolding decode_entry
  packed_entry func field iter size allocated_size needed =
      (if ltb allocated_size (size + 1)
        then allocate_at program iter.p_data field.data_size needed
        else returned true)
      >> decode_entry func field iter size
      >> increment size iter.p_size

  -- The loop over a packed array, on its substream. A round for each byte is enough.
  unfoldable pub pointer_loop :
      ℕ → (ℕ → Action) → PbField → FieldIter → ℕ → IStream → Memory → PackedEnd
  unfolding needed_size packed_entry
  pointer_loop zero func field iter allocated_size sub mem = ended overrun
  pointer_loop (suc fuel) func field iter allocated_size sub mem =
      let round : PackedEnd = elim (load_size iter.p_size mem) [
        | none ↦ ended fault
        | some size ↦
            if size == size_max
            then too_many sub mem
            else elim (needed_size field size allocated_size sub.bytes_left) [
              | none ↦ ended fault
              | some needed ↦
                  next_round (packed_entry func field iter size allocated_size needed sub mem)
                    (pointer_loop fuel func field iter needed)
            ]
      ] in
      if sub.bytes_left == 0 then ended (returned true sub mem) else round

  unfoldable pub decode_pointer_packed : (ℕ → Action) → PbField → FieldIter → Action
  unfolding pointer_loop
  decode_pointer_packed func field iter s mem =
      decoded (pb_make_string_substream s) mem λ sub s' mem'.
        loaded (load_size iter.p_size)
          (λ size t _.
            packed_end t (pointer_loop (suc sub.bytes_left) func field iter size sub mem'))
          s' mem'

  -- "Normal repeated field, i.e. only one item at a time".
  unfoldable pub decode_pointer_item : (ℕ → Action) → PbField → FieldIter → Action
  unfolding initialize_pointer_field
  decode_pointer_item func field iter = loaded (load_size iter.p_size) λ size.
      if size == size_max
      then return_error too_many_array_entries
      else allocate_at program iter.p_data field.data_size ((size + 1) % 2 ^ 32)
        >> loaded (load_pointer iter.p_data) λ p.
          increment size iter.p_size
          >> stored (initialize_pointer_field field (item_at field p size))
          >> func (item_at field p size)

  -- A single value behind a pointer.
  unfoldable pub decode_pointer_value : (ℕ → Action) → PbField → FieldIter → Action
  unfolding initialize_pointer_field
  decode_pointer_value func field iter =
      if allocates field
      then func iter.p_data
      else allocate_at program iter.p_data field.data_size 1
        >> loaded (load_pointer iter.p_data)
            λ p. stored (initialize_pointer_field field p) >> func p

  -- What precedes it: an old submessage is released, and the union's tag is set.
  unfoldable pub enter_pointer : ReleasesField → PbField → FieldIter → Memory → Option Memory
  enter_pointer release field iter mem = load_pointer iter.p_data mem >>= λ p.
      (if ltype field.type == ltype_submessage && not (p == null)
        then release_field program release field iter mem
        else some mem)
      >>= λ mem'.
          if htype field.type == htype_oneof
          then store_number 4 field.tag iter.p_size mem'
          else some mem'

  unfoldable pub decode_pointer_field :
      ReleasesField → (ℕ → Action) → PbField → ℕ → FieldIter → Action
  unfolding enter_pointer decode_pointer_value decode_pointer_packed decode_pointer_item
  decode_pointer_field release func field wire_type iter =
      let h = htype field.type in
      if h == htype_required || h == htype_optional || h == htype_oneof
      then stored (enter_pointer release field iter) >> decode_pointer_value func field iter
      else if h == htype_repeated
      then (if wire_type == wt_string && leb (ltype field.type) ltype_last_packable
          then decode_pointer_packed func field iter
          else decode_pointer_item func field iter)
      else return_error invalid_field_type
