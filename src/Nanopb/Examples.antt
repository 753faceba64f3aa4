-- ===== src/Nanopb/Examples.antt =====
-- Examples of the theorems about nanopb's encoders and round trips, on concrete streams.
use logoguess.Common.{ℕ, ◌+◌, ◌≤◌, ◌≡◌, refl, arith, none, false, [], ◌∷◌, ◌++◌, length}
use logoguess.Common.Int.{pos, negsuc}
use logoguess.Nanopb.Field.{PbField}
use logoguess.Nanopb.IStream.{done}
use logoguess.Nanopb.IStream.Reads.{over}
use logoguess.Nanopb.OStream.{OStream, sent, pb_write, buf_write}
use logoguess.Nanopb.OStream.Room.{HasRoom, pushed}
use logoguess.Nanopb.OStream.Safe.{IsBuffer, wrote, pb_write_lem}
use logoguess.Nanopb.Encode.{pb_encode_varint, pb_encode_svarint, pb_encode_tag, pb_encode_string}
use logoguess.Nanopb.Encode.Varint.{varint, varint64, length-varint}
use logoguess.Nanopb.Wire.{
  pb_decode_varint, pb_decode_tag, pb_skip_field, read_raw_value, pb_make_string_substream,
  pb_close_string_substream,
}
use logoguess.Nanopb.DecodeScalar.{pb_decode_svarint}
use logoguess.Nanopb.RoundTrip.{Undoes}
use logoguess.Nanopb.RoundTrip.Values.{
  varint-Undoes, svarint-Undoes, as_string, as_varint, pb_skip_field-Undoes, read_raw_value-Undoes,
  encode, wire_bytes,
}
use logoguess.Nanopb.RoundTrip.Tags.{pb_encode_tag-pb_decode_tag}
use logoguess.Nanopb.RoundTrip.Substream.{delimited, pb_encode_string-substream}

-- A stream over a buffer of sixteen bytes.
abbrev pub output : OStream
output = record {
  callback = buf_write;
  state = [];
  room = 16;
  max_size = 16;
  bytes_written = 0;
  errmsg = none;
}

pub room_for : (count : ℕ) → count ≤ 16 → HasRoom count output
room_for count h = record { counts = omega arith; takes_in = (omega arith, omega arith) }

pub room_for_varint : (v : ℕ) → HasRoom (length (varint64 v)) output
room_for_varint v = room_for (length (varint64 v)) (omega (arith, length-varint 9 v))

output-IsBuffer : IsBuffer output
output-IsBuffer = record {
  to_buffer = refl;
  within = omega arith;
  covered = omega arith;
  counts = omega arith;
}

-- A static field of `size` bytes: an integer, a string, or a bytes array.
abbrev pub field_of : ℕ → ℕ → PbField
field_of type size = record {
  tag = 3;
  type = type;
  data_offset = 0;
  size_offset = pos 0;
  data_size = size;
  array_size = 0;
  ptr = 0;
}

varint-Undoes_example :
    Undoes (pb_encode_varint 300) pb_decode_varint (varint64 300) 300 output (7 ∷ []) 1 none
varint-Undoes_example = varint-Undoes 300 output (7 ∷ []) 1 none (omega arith) (room_for_varint 300)

svarint-Undoes_example :
    Undoes
      (pb_encode_svarint (negsuc 149))
      pb_decode_svarint
      (varint64 299)
      (negsuc 149)
      output
      []
      0
      none
svarint-Undoes_example =
    svarint-Undoes (negsuc 149) output [] 0 none (omega arith) (room_for_varint 299)

pb_encode_tag-pb_decode_tag_example :
    (pb_encode_tag 2 5 output ≡ sent (pushed (varint64 42) output))
    × (pb_decode_tag (over (varint64 42 ++ 1 ∷ []) (length (varint64 42) + 1) none)
        ≡ (done (2, 5) (over (1 ∷ []) 1 none), false))
pb_encode_tag-pb_decode_tag_example =
    pb_encode_tag-pb_decode_tag 2 5 output (1 ∷ []) 1 none (omega arith) (omega arith) (omega arith)
      (room_for_varint 42)

pb_skip_field-Undoes_example :
    Undoes
      (encode (as_string (104 ∷ 105 ∷ [])))
      (pb_skip_field 2)
      (wire_bytes (as_string (104 ∷ 105 ∷ [])))
      tt
      output
      (8 ∷ [])
      1
      none
unfolding varint
pb_skip_field-Undoes_example =
    pb_skip_field-Undoes (as_string (104 ∷ 105 ∷ [])) output (8 ∷ []) 1 none (omega arith)
      (room_for 3 (omega arith))

read_raw_value-Undoes_example :
    Undoes
      (encode (as_varint 300))
      (read_raw_value 0 10)
      (varint64 300)
      (varint64 300)
      output
      (8 ∷ [])
      1
      none
read_raw_value-Undoes_example =
    read_raw_value-Undoes (as_varint 300) 10 output (8 ∷ []) 1 none (omega arith) (omega arith)
      (λ e. absurd (omega (arith, e))) (room_for_varint 300)

pb_encode_string-substream_example :
    (pb_encode_string (104 ∷ 105 ∷ []) 2 output ≡ sent (pushed (delimited (104 ∷ 105 ∷ [])) output))
    × (pb_make_string_substream (
          over
            (delimited (104 ∷ 105 ∷ []) ++ 8 ∷ [])
            (length (delimited (104 ∷ 105 ∷ [])) + 1)
            none)
        ≡ done (over (104 ∷ 105 ∷ 8 ∷ []) 2 none) (over (104 ∷ 105 ∷ 8 ∷ []) 1 none))
    × (pb_close_string_substream (over (105 ∷ 8 ∷ []) 1 none) (over (104 ∷ 105 ∷ 8 ∷ []) 1 none)
        ≡ done tt (over (8 ∷ []) 1 none))
unfolding varint
pb_encode_string-substream_example =
    pb_encode_string-substream (104 ∷ []) (105 ∷ []) output (8 ∷ []) 1 none none (omega arith)
      (room_for 3 (omega arith))

pb_write_lem_example : pb_write (1 ∷ 2 ∷ 3 ∷ []) 2 output ≡ sent (wrote (1 ∷ 2 ∷ 3 ∷ []) 2 output)
pb_write_lem_example =
    pb_write_lem (1 ∷ 2 ∷ 3 ∷ []) 2 output (omega arith) (omega arith) output-IsBuffer
