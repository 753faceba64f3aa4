-- ===== src/Nanopb/MessageExamples.antt =====
-- Examples of the theorems about messages.
use logoguess.Common.{
  ℕ, ◌+◌, ◌≡◌, refl, true, false, Option, some, none, List, [], ◌∷◌, ◌==◌, if◌then◌else◌,
}
use logoguess.Common.Int.{pos, negsuc}
use logoguess.Nanopb.Field.{PbField}
use logoguess.Nanopb.Memory.{Memory}
use logoguess.Nanopb.IStream.Reads.{over}
use logoguess.Nanopb.Errors.{missing_required_field}
use logoguess.Nanopb.OStream.{
  OStream, Encoder, buf_write, sent, pb_ostream_from_buffer, pb_ostream_sizing,
}
use logoguess.Nanopb.Encode.{pb_encode_varint}
use logoguess.Nanopb.Program.{EncodeProgram}
use logoguess.Nanopb.EncodeMessage.{pb_encode}
use logoguess.Nanopb.DecodeMessage.{pb_decode}
use logoguess.Nanopb.DecodeMessage.Actions.{returned, DecodeProgram}
use logoguess.Nanopb.IStream.{pb_readbyte}
use logoguess.Nanopb.Wire.{
  varint32_rest, pb_decode_varint32_eof, pb_decode_varint32, varint_loop, pb_decode_varint,
  split_tag, pb_decode_tag, pb_make_string_substream, skip_left, pb_close_string_substream,
}
use logoguess.Nanopb.DecodeScalar.{
  int_width, clamp_signed, clamp_unsigned, signed_value, pb_dec_varint, pb_dec_uvarint,
}
use logoguess.Nanopb.FieldIter.{step_to, pb_field_iter_next, find_loop, pb_field_iter_find}
use logoguess.Nanopb.Memory.{store, to_bytes, load, little_endian}
use logoguess.Nanopb.DecodeMessage.Required.{mark_seen, required_count, all_seen}
use logoguess.Nanopb.DecodeMessage.Defaults.{pb_message_set_to_defaults}
use logoguess.Nanopb.DecodeMessage.Extensions.{decode_field}
use logoguess.Nanopb.DecodeMessage.Fields.{decode_static_field}
use logoguess.Nanopb.DecodeMessage.Values.{call_decoder}
use logoguess.Nanopb.DecodeMessage.Release.{pb_release}
use logoguess.Nanopb.OStream.{pb_write}
use logoguess.Nanopb.Encode.{varint_groups, clear_last, pb_encode_tag_for_field}
use logoguess.Nanopb.EncodeScalar.{pb_enc_bool, pb_enc_varint, pb_enc_uvarint}
use logoguess.Nanopb.EncodeMessage.Values.{call_encoder}

-- struct { uint32_t id; bool has_x; int32_t x; }, with a required and an optional field.
abbrev pub point_fields : List PbField
point_fields =
    record {
      tag = 1;
      type = 0x02;
      data_offset = 0;
      size_offset = pos 0;
      data_size = 4;
      array_size = 0;
      ptr = 0;
    }
    ∷ record {
      tag = 2;
      type = 0x11;
      data_offset = 4;
      size_offset = negsuc 3;
      data_size = 4;
      array_size = 0;
      ptr = 0;
    }
    ∷ record {
      tag = 0;
      type = 0;
      data_offset = 0;
      size_offset = pos 0;
      data_size = 0;
      array_size = 0;
      ptr = 0;
    }
    ∷ []

-- struct { Point p; bool has_q; Point q; }, of two submessages.
abbrev pub pair_fields : List PbField
pair_fields =
    record {
      tag = 1;
      type = 0x08;
      data_offset = 0;
      size_offset = pos 0;
      data_size = 12;
      array_size = 0;
      ptr = 1024;
    }
    ∷ record {
      tag = 2;
      type = 0x18;
      data_offset = 4;
      size_offset = negsuc 3;
      data_size = 12;
      array_size = 0;
      ptr = 1024;
    }
    ∷ record {
      tag = 0;
      type = 0;
      data_offset = 0;
      size_offset = pos 0;
      data_size = 0;
      array_size = 0;
      ptr = 0;
    }
    ∷ []

abbrev tables : ℕ → Option (List PbField)
tables p = if p == 1024 then some point_fields else if p == 2048 then some pair_fields else none

abbrev pub decode_program : DecodeProgram
decode_program = record {
  fields_at = tables;
  decode_at = λ p. none;
  extension_decode_at = λ p. none;
  allocator = record { pb_realloc = λ p size mem. none; pb_free = λ p mem. some mem };
  fixed_count_size_at = λ depth. 65536 + depth;
}

-- A function for callback fields: it writes a 7.
abbrev pub write_seven : PbField → ℕ → Encoder
write_seven field arg = pb_encode_varint 7

abbrev pub encode_program : EncodeProgram
encode_program = record {
  fields_at = tables;
  encode_at = λ p. if p == 3000 then some write_seven else none;
  extension_encode_at = λ p. none;
}

abbrev pub empty_pair : Memory
empty_pair =
    record {
      base = 4096;
      bytes =
          1 ∷ 1 ∷ 1 ∷ 1 ∷ 1 ∷ 1 ∷ 1 ∷ 1 ∷ 1 ∷ 1 ∷ 1 ∷ 1 ∷ 1 ∷ 1 ∷ 1 ∷ 1 ∷ 1 ∷ 1 ∷ 1 ∷ 1 ∷ 1 ∷ 1 ∷ 1
          ∷ 1 ∷ 1 ∷ 1 ∷ 1 ∷ 1 ∷ [];
    }
    ∷ []

abbrev pub input : List ℕ
input = 10 ∷ 5 ∷ 8 ∷ 150 ∷ 1 ∷ 16 ∷ 5 ∷ 18 ∷ 2 ∷ 8 ∷ 7 ∷ []

abbrev pub full_pair : Memory
full_pair =
    record {
      base = 4096;
      bytes =
          150 ∷ 0 ∷ 0 ∷ 0 ∷ 1 ∷ 1 ∷ 1 ∷ 1 ∷ 5 ∷ 0 ∷ 0 ∷ 0 ∷ 1 ∷ 1 ∷ 1 ∷ 1 ∷ 7 ∷ 0 ∷ 0 ∷ 0 ∷ 0 ∷ 1
          ∷ 1 ∷ 1 ∷ 0 ∷ 0 ∷ 0 ∷ 0 ∷ [];
    }
    ∷ []

abbrev pub small_buffer : ℕ → OStream
small_buffer size = pb_ostream_from_buffer size

-- Its two submessages are 5 and 2 bytes long.
abbrev pub written_pair : OStream
written_pair = record {
  callback = buf_write;
  state = input;
  room = 9;
  max_size = 20;
  bytes_written = 11;
  errmsg = none;
}

-- Both submessages are decoded, and the optional field that is missing is set to 0. In the second
-- input a required field is missing.
pair_decoded :
    (pb_decode decode_program 3 pair_fields 4096 (over input 11 none) empty_pair
      ≡ returned true (over [] 0 none) full_pair)
    × (pb_decode decode_program 3 pair_fields 4096 (over (10 ∷ 2 ∷ 16 ∷ 5 ∷ []) 4 none) empty_pair
        ≡ returned false (over [] 0 (some missing_required_field)) (
            record {
              base = 4096;
              bytes =
                  0 ∷ 0 ∷ 0 ∷ 0 ∷ 1 ∷ 1 ∷ 1 ∷ 1 ∷ 5 ∷ 0 ∷ 0 ∷ 0 ∷ 0 ∷ 1 ∷ 1 ∷ 1 ∷ 0 ∷ 0 ∷ 0 ∷ 0 ∷ 0
                  ∷ 1 ∷ 1 ∷ 1 ∷ 0 ∷ 0 ∷ 0 ∷ 0 ∷ [];
            }
            ∷ []))
unfolding pb_readbyte varint32_rest pb_decode_varint32_eof pb_decode_varint32 varint_loop
    pb_decode_varint split_tag pb_decode_tag pb_make_string_substream skip_left
    pb_close_string_substream int_width clamp_signed clamp_unsigned signed_value pb_dec_varint
    pb_dec_uvarint step_to pb_field_iter_next find_loop pb_field_iter_find store to_bytes mark_seen
    required_count all_seen pb_decode pb_message_set_to_defaults decode_field decode_static_field
    call_decoder pb_release
pair_decoded = (refl, refl)

-- The stream after the length of the first submessage.
abbrev pub after_length : OStream
after_length = record {
  callback = buf_write;
  state = 5 ∷ [];
  room = 19;
  max_size = 20;
  bytes_written = 1;
  errmsg = none;
}

abbrev pub sized_point : OStream
sized_point = record pb_ostream_sizing { bytes_written = 5 }

-- The stream of the second run, behind the first submessage.
abbrev pub written_point : OStream
written_point = record {
  callback = buf_write;
  state = 5 ∷ 8 ∷ 150 ∷ 1 ∷ 16 ∷ 5 ∷ [];
  room = 14;
  max_size = 5;
  bytes_written = 5;
  errmsg = none;
}

-- The pair, its first submessage without and with its length before it.
pub pair_encoded :
    (pb_encode encode_program full_pair 3 pair_fields 4096 (small_buffer 20) ≡ sent written_pair)
    × ((pb_encode encode_program full_pair 2 point_fields 4096 pb_ostream_sizing ≡ sent sized_point)
        × ((pb_encode_varint 5 (small_buffer 20) ≡ sent after_length)
            × (pb_encode encode_program full_pair 2 point_fields 4096
                  (record after_length { max_size = 5; bytes_written = 0; errmsg = none })
                ≡ sent written_point)))
unfolding pb_write pb_ostream_from_buffer pb_ostream_sizing varint_groups clear_last
    pb_encode_varint pb_encode_tag_for_field pb_enc_bool pb_enc_varint pb_enc_uvarint step_to
    pb_field_iter_next load little_endian int_width pb_encode call_encoder
pair_encoded = (refl, (refl, (refl, refl)))
