-- ===== src/Nanopb/DecodeMessage/Fields.antt =====
-- decode_static_field, decode_pointer_field and decode_callback_field.
use logoguess.Common.{
  ℕ, zero, suc, ◌+◌, ◌*◌, ◌%◌, ◌^◌, ltb, leb, ◌==◌, if◌then◌else◌, not, ◌&&◌, true, false,
}
use logoguess.Common.{Option, some, [], ◌∷◌, length}
use logoguess.Nanopb.Errors.{array_overflow, callback_failed, invalid_field_type}
use logoguess.Nanopb.Field.{
  PbField, ltype, htype, ltype_submessage, htype_required, htype_optional, htype_repeated,
  htype_oneof,
}
use logoguess.Nanopb.FieldIter.{FieldIter}
use logoguess.Nanopb.IStream.{IStream, pb_istream_from_buffer}
use logoguess.Nanopb.Wire.{wt_string, pb_skip_field, read_raw_value, pb_make_string_substream}
use logoguess.Nanopb.EncodeMessage.Default.{ltype_last_packable}
use logoguess.Nanopb.Memory.{
  Memory, null, plus, ◌>>=◌, load_pointer, load_size, store, store_number,
}
use logoguess.Nanopb.DecodeMessage.Actions.{
  Result, Action, returned, fault, overrun, ◌>>◌, return_error, with_some, loaded, stored, decoded,
  DecodeProgram,
}
use logoguess.Nanopb.DecodeMessage.Defaults.{clear, SetsField, message_defaults}
use logoguess.Nanopb.DecodeMessage.Values.{closed}

-- `(char*)p + data_size * index`.
abbrev pub item_at : PbField → ℕ → ℕ → ℕ
item_at field p index = plus p (field.data_size * index % 2 ^ 32)

-- `(*size)++`.
abbrev pub increment : ℕ → ℕ → Action
increment size p_size = stored (store_number 4 ((size + 1) % 2 ^ 32) p_size)

-- The loop over a packed array, on its substream. A round for each byte is enough.
unfoldable pub packed_loop : ℕ → (ℕ → Action) → PbField → FieldIter → Action
packed_loop zero func field iter = λ s mem. overrun
packed_loop (suc fuel) func field iter = loaded (load_size iter.p_size) λ size s mem.
    let round =
      (func (item_at field iter.p_data size)
          >> increment size iter.p_size
          >> packed_loop fuel func field iter)
        s mem in
    if not (s.bytes_left == 0) && ltb size field.array_size then round else returned true s mem

-- What follows the loop: data that is left is an error of the outer stream.
abbrev pub packed_end : IStream → Result → Result
packed_end s fault = fault
packed_end s overrun = overrun
packed_end s (returned status sub mem) =
    if not (sub.bytes_left == 0)
    then return_error array_overflow s mem
    else closed s (returned status sub mem)

unfoldable pub decode_packed : (ℕ → Action) → PbField → FieldIter → Action
unfolding packed_loop
decode_packed func field iter s mem =
    decoded (pb_make_string_substream s) mem
      λ sub s' mem'. packed_end s' (packed_loop (suc sub.bytes_left) func field iter sub mem')

-- An entry of an array that is not packed: the count is raised even if there is no room.
unfoldable pub decode_item : (ℕ → Action) → PbField → FieldIter → Action
decode_item func field iter = loaded (load_size iter.p_size) λ size.
    increment size iter.p_size
    >> (if leb field.array_size size
        then return_error array_overflow
        else func (item_at field iter.p_data size))

module _ (program : DecodeProgram) (set_field : SetsField) where
  -- "We memset to zero so that any callbacks are set to NULL", and the default values.
  unfoldable pub clear_submessage : PbField → ℕ → Memory → Option Memory
  clear_submessage field p mem = clear field.data_size p mem >>= λ mem'.
      program.fields_at field.ptr >>= λ fields. message_defaults set_field fields p mem'

  unfoldable pub enter_union : PbField → FieldIter → Memory → Option Memory
  unfolding clear_submessage
  enter_union field iter mem = load_size iter.p_size mem >>= λ which.
      (if ltype field.type == ltype_submessage && not (which == field.tag)
        then clear_submessage field iter.p_data mem
        else some mem)
      >>= store_number 4 field.tag iter.p_size

  unfoldable pub decode_static_field : (ℕ → Action) → PbField → ℕ → FieldIter → Action
  unfolding decode_packed decode_item enter_union
  decode_static_field func field wire_type iter =
      let h = htype field.type in
      if h == htype_required
      then func iter.p_data
      else if h == htype_optional
      then (if iter.p_size == iter.p_data
          then func iter.p_data
          else stored (store (1 ∷ []) iter.p_size) >> func iter.p_data)
      else if h == htype_repeated
      then (if wire_type == wt_string && leb (ltype field.type) ltype_last_packable
          then decode_packed func field iter
          else decode_item func field iter)
      else if h == htype_oneof
      then stored (enter_union field iter) >> func iter.p_data
      else return_error invalid_field_type

-- What follows a call of a user's function with a substream.
abbrev pub called : IStream → Result → Action → Result
called s fault more = fault
called s overrun more = overrun
called s (returned false sub mem) more = return_error callback_failed s mem
called s (returned true sub mem) more =
    if sub.bytes_left == 0 then closed s (returned true sub mem) else more sub mem

-- The loop over the data of a string for a user's function. A round for each byte is enough if
-- each call reads something.
unfoldable pub callback_loop : ℕ → Action → IStream → Action
callback_loop zero f s sub mem = overrun
callback_loop (suc fuel) f s sub mem = called s (f sub mem) (callback_loop fuel f s)

-- The stream behind a call with a copy of a single value.
abbrev pub called_once : IStream → Result → Result
called_once s fault = fault
called_once s overrun = overrun
called_once s (returned status sub mem) = returned status s mem

abbrev pub skip_field : ℕ → Action
skip_field wire_type s mem = decoded (pb_skip_field wire_type s) mem λ _ s'. returned true s'

unfoldable pub call_callback : Action → ℕ → Action
unfolding callback_loop
call_callback f wire_type s mem =
    if wire_type == wt_string
    then (decoded (pb_make_string_substream s) mem
        λ sub s'. callback_loop (suc sub.bytes_left) f s' sub)
    else decoded (read_raw_value wire_type 10 s) mem
        λ value s' mem'. called_once s' (f (pb_istream_from_buffer value (length value)) mem')

unfoldable pub decode_callback_field : DecodeProgram → PbField → ℕ → FieldIter → Action
unfolding call_callback
decode_callback_field program field wire_type iter =
    if iter.p_data == null
    then skip_field wire_type
    else loaded (load_pointer iter.p_data) λ funcs.
      if funcs == null
      then skip_field wire_type
      else with_some (program.decode_at funcs)
          λ f. call_callback (f field (plus iter.p_data 8)) wire_type
