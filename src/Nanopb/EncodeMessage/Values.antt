-- ===== src/Nanopb/EncodeMessage/Values.antt =====
-- The function pointers of PB_ENCODERS, with the values that the pb_enc_ functions load, and
-- pb_encode_submessage.
use logoguess.Common.{
  ℕ, ◌+◌, ◌%◌, ◌^◌, ltb, ◌==◌, if◌then◌else◌, not, Bool, true, false, Option, none, some, List, [],
}
use logoguess.Common.Int.{ℤ, pos, to_signed}
use logoguess.Nanopb.Errors.{stream_full, invalid_field_descriptor, submsg_size_changed}
use logoguess.Nanopb.Field.{
  PbField, ltype, ltype_bool, ltype_varint, ltype_uvarint, ltype_svarint, ltype_fixed32,
  ltype_fixed64, ltype_bytes, ltype_string, ltype_submessage, ltype_fixed_length_bytes,
  bytes_offset,
}
use logoguess.Nanopb.OStream.{
  OStream, Emitted, Encoder, sent, failed, fault, and_then, has_callback, return_error, pb_write,
  pb_ostream_sizing,
}
use logoguess.Nanopb.Encode.{pb_encode_varint}
use logoguess.Nanopb.EncodeScalar.{
  PbBytesArray, pb_enc_bool, pb_enc_varint, pb_enc_uvarint, pb_enc_svarint, pb_enc_fixed32,
  pb_enc_fixed64, pb_enc_bytes, pb_enc_string, pb_enc_fixed_length_bytes,
}
use logoguess.Nanopb.DecodeScalar.{int_width}
use logoguess.Nanopb.Memory.{Memory, null, plus, ◌>>=◌, load, load_from, load_number, load_size}
use logoguess.Nanopb.Program.{EncodeProgram}

-- Go on with what was loaded. A fault if it lies outside of the memory.
abbrev pub loaded : {A : Type 0} → Option A → (A → Encoder) → Encoder
loaded none k s = fault
loaded (some a) k s = k a s

-- pb_encode for the messages of one nesting depth.
abbrev pub EncodesMessage : Type 0
EncodesMessage = List PbField → ℕ → Encoder

-- pb_encode_submessage behind the second run of pb_encode, which returned `status` and left `sub`.
unfoldable pub close_submessage : ℕ → Bool → OStream → Encoder
close_submessage size status sub s =
    let stream = record s {
      bytes_written = (s.bytes_written + sub.bytes_written) % 2 ^ 64;
      state = sub.state;
      room = sub.room;
      errmsg = sub.errmsg;
    } in
    if not (sub.bytes_written == size)
    then return_error submsg_size_changed stream
    else if status
    then sent stream
    else failed stream

abbrev pub closed : ℕ → Emitted → Encoder
closed size (sent sub) s = close_submessage size true sub s
closed size (failed sub) s = close_submessage size false sub s
closed size fault s = fault

-- pb_encode_submessage behind the length, which was written to `s`.
unfoldable pub write_submessage : EncodesMessage → List PbField → ℕ → ℕ → Encoder
unfolding close_submessage
write_submessage pb_encode fields src_struct size s =
    if not (has_callback s.callback)
    then pb_write [] size s
    else if ltb s.max_size ((s.bytes_written + size) % 2 ^ 64)
    then return_error stream_full s
    else closed size
        (pb_encode fields src_struct
          (record s { max_size = size; bytes_written = 0; errmsg = none }))
        s

abbrev pub sized : Emitted → (ℕ → Encoder) → Encoder
sized (sent sub) k s = k sub.bytes_written s
sized (failed sub) k s = failed (record s { errmsg = sub.errmsg })
sized fault k s = fault

unfoldable pub pb_encode_submessage : EncodesMessage → List PbField → ℕ → Encoder
unfolding write_submessage
pb_encode_submessage pb_encode fields src_struct =
    sized (pb_encode fields src_struct pb_ostream_sizing) λ size s.
      and_then (pb_encode_varint size s) (write_submessage pb_encode fields src_struct size)

module _ (program : EncodeProgram) (mem : Memory) where
  unfoldable pub pb_enc_submessage : EncodesMessage → PbField → ℕ → Encoder
  unfolding pb_encode_submessage
  pb_enc_submessage pb_encode field src =
      if field.ptr == null
      then return_error invalid_field_descriptor
      else loaded (program.fields_at field.ptr) λ fields. pb_encode_submessage pb_encode fields src

  -- `value` of pb_enc_varint and its neighbours: zero, if `data_size` is no width.
  unfoldable pub read_signed : PbField → ℕ → Option ℤ
  read_signed field src = elim (int_width field.data_size) [
    | none ↦ some (pos 0)
    | some w ↦ load_number field.data_size src mem >>= λ v. some (to_signed w v)
  ]

  unfoldable pub read_unsigned : PbField → ℕ → Option ℕ
  read_unsigned field src = elim (int_width field.data_size) [
    | none ↦ some 0
    | some w ↦ load_number field.data_size src mem
  ]

  -- The pb_bytes_array_t at `src`, none for NULL.
  unfoldable pub read_bytes : ℕ → Option (Option PbBytesArray)
  read_bytes src =
      if src == null
      then some none
      else load_size src mem >>= λ size. load_from (plus src bytes_offset) mem >>= λ bytes.
          some (some (record { size = size; bytes = bytes }))

  unfoldable pub read_string : ℕ → Option (Option (List ℕ))
  read_string src =
      if src == null then some none else load_from src mem >>= λ bytes. some (some bytes)

  -- `PB_ENCODERS[PB_LTYPE(type)](stream, field, src)`. A fault for NULL, and behind the table.
  unfoldable pub call_encoder : EncodesMessage → PbField → ℕ → Encoder
  unfolding pb_enc_submessage read_signed read_unsigned read_bytes read_string
  call_encoder pb_encode field src =
      let t = ltype field.type in
      if t == ltype_bool
      then loaded (load 1 src mem) pb_enc_bool
      else if t == ltype_varint
      then loaded (read_signed field src) (pb_enc_varint field)
      else if t == ltype_uvarint
      then loaded (read_unsigned field src) (pb_enc_uvarint field)
      else if t == ltype_svarint
      then loaded (read_signed field src) (pb_enc_svarint field)
      else if t == ltype_fixed32
      then loaded (load_number 4 src mem) pb_enc_fixed32
      else if t == ltype_fixed64
      then loaded (load_number 8 src mem) pb_enc_fixed64
      else if t == ltype_bytes
      then loaded (read_bytes src) (pb_enc_bytes field)
      else if t == ltype_string
      then loaded (read_string src) (pb_enc_string field)
      else if t == ltype_submessage
      then pb_enc_submessage pb_encode field src
      else if t == ltype_fixed_length_bytes
      then loaded (load_from src mem) (pb_enc_fixed_length_bytes field)
      else λ s. fault
