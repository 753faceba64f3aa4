-- ===== src/Nanopb/SafeExamples.antt =====
-- Examples of the theorems about nanopb's decoders on any buffer, and about its field iterator.
use logoguess.Common.{
  ℕ, zero, suc, ◌^◌, ◌<◌, ◌≡◌, refl, arith, some, none, true, List, [], ◌∷◌, get_elem?,
}
use logoguess.Common.Int.{pos, IsInt}
use logoguess.Nanopb.Field.{PbField}
use logoguess.Nanopb.FieldIter.{
  FieldIter, first_iter, pb_field_iter_begin, pb_field_iter_next, pb_field_iter_find,
}
use logoguess.Nanopb.FieldIter.Layout.{first-IsPlaced}
use logoguess.Nanopb.FieldIter.Step.{IsTable, IsAt, walk, pb_field_iter_next-IsAt}
use logoguess.Nanopb.FieldIter.Find.{Found, pb_field_iter_find-Found}
use logoguess.Nanopb.IStream.{IStream, done, buffer, pb_read, pb_readbyte}
use logoguess.Nanopb.IStream.Reads.{over}
use logoguess.Nanopb.IStream.Safe.{IsBuffer, Runs, Advance, Advance-refl}
use logoguess.Nanopb.IStream.SafeReads.{IsRead, pb_read-Runs}
use logoguess.Nanopb.Wire.{
  varint32_rest, pb_decode_varint, pb_decode_varint32, pb_decode_varint32_eof, pb_skip_field,
  read_raw_value, pb_make_string_substream, pb_close_string_substream,
}
use logoguess.Nanopb.Wire.Safe.{
  pb_decode_varint-Runs, pb_decode_varint32-Runs, pb_skip_field-Runs, read_raw_value-Runs, FitsIn,
}
use logoguess.Nanopb.Wire.SafeSubstream.{pb_close_string_substream-Advance}
use logoguess.Nanopb.DecodeScalar.{
  int_width, pb_dec_varint, pb_dec_uvarint, pb_dec_svarint, pb_dec_fixed_length_bytes,
}
use logoguess.Nanopb.DecodeScalar.SafeFields.{
  Stores, IsArray, integer_fields-Stores, pb_dec_fixed_length_bytes-Stores,
}

-- A length of two, two bytes, and one more byte.
abbrev input : IStream
input = over (2 ∷ 104 ∷ 255 ∷ 8 ∷ []) 4 none

input-IsBuffer : IsBuffer input
input-IsBuffer = record {
  from_buffer = refl;
  covered = omega arith;
  octets = (omega arith, (omega arith, (omega arith, (omega arith, tt))));
}

pb_read-Runs_example : Runs (IsRead buffer 3) input (pb_read buffer 3 input)
pb_read-Runs_example = pb_read-Runs buffer 3 input input-IsBuffer

pb_decode_varint-Runs_example : Runs (λ v. v < 2 ^ 64) input (pb_decode_varint input)
pb_decode_varint-Runs_example = pb_decode_varint-Runs input input-IsBuffer

pb_decode_varint32-Runs_example : Runs (λ v. v < 2 ^ 32) input (pb_decode_varint32 input)
pb_decode_varint32-Runs_example = pb_decode_varint32-Runs input input-IsBuffer

pb_skip_field-Runs_example : Runs (λ _. Unit {0}) input (pb_skip_field 2 input)
pb_skip_field-Runs_example = pb_skip_field-Runs 2 input input-IsBuffer

read_raw_value-Runs_example : Runs (FitsIn 10) input (read_raw_value 0 10 input)
read_raw_value-Runs_example = read_raw_value-Runs 0 10 input (omega arith) input-IsBuffer

abbrev substream : IStream
substream = over (104 ∷ 255 ∷ 8 ∷ []) 2 none

substream-IsBuffer : IsBuffer substream
substream-IsBuffer = record {
  from_buffer = refl;
  covered = omega arith;
  octets = (omega arith, (omega arith, (omega arith, tt)));
}

input-substream : pb_make_string_substream input ≡ done substream (over (104 ∷ 255 ∷ 8 ∷ []) 1 none)
unfolding pb_make_string_substream pb_decode_varint32 pb_decode_varint32_eof pb_readbyte
    varint32_rest
input-substream = refl

pb_close_string_substream-Advance_example :
    IsBuffer substream
    × ((u : IStream) × (pb_close_string_substream substream (over (104 ∷ 255 ∷ 8 ∷ []) 1 none)
          ≡ done tt u)
        × Advance input u
        × (u.bytes_left ≡ 1))
pb_close_string_substream-Advance_example =
    pb_close_string_substream-Advance input substream (over (104 ∷ 255 ∷ 8 ∷ []) 1 none) substream
      input-IsBuffer input-substream (Advance-refl substream-IsBuffer)

abbrev field_of : ℕ → ℕ → ℕ → PbField
field_of tag type size = record {
  tag = tag;
  type = type;
  data_offset = 0;
  size_offset = pos 0;
  data_size = size;
  array_size = 0;
  ptr = 0;
}

integer_fields-Stores_example :
    Stores (IsInt 32) input (pb_dec_varint (field_of 3 1 4) input)
    × Stores (λ v. v < 2 ^ 32) input (pb_dec_uvarint (field_of 3 1 4) input)
    × Stores (IsInt 32) input (pb_dec_svarint (field_of 3 1 4) input)
unfolding int_width
integer_fields-Stores_example = integer_fields-Stores (field_of 3 1 4) 32 input input-IsBuffer refl

pb_dec_fixed_length_bytes-Stores_example :
    Stores (IsArray 2) input (pb_dec_fixed_length_bytes (field_of 3 10 2) input)
pb_dec_fixed_length_bytes-Stores_example =
    pb_dec_fixed_length_bytes-Stores (field_of 3 10 2) input input-IsBuffer

-- A message of two fields.
abbrev fields : List PbField
fields = field_of 1 1 4 ∷ field_of 4 1 8 ∷ field_of 0 0 0 ∷ []

fields-IsTable : IsTable fields 2
fields-IsTable = record { field_at = at; terminator = (field_of 0 0 0, refl, refl) }
  where
    at : (i : ℕ) → i < 2 → (f : PbField) × (get_elem? fields i ≡ some f) × (0 < f.tag)
    at zero h = (field_of 1 1 4, refl, omega arith)
    at (suc zero) h = (field_of 4 1 8, refl, omega arith)
    at (suc (suc i)) h = absurd (omega arith)

abbrev first : FieldIter
first = first_iter (field_of 1 1 4) (field_of 4 1 8 ∷ field_of 0 0 0 ∷ []) 4096

first-IsAt : IsAt fields 4096 0 first
unfolding walk pb_field_iter_begin
first-IsAt = record {
  walked = refl;
  placed = first-IsPlaced (field_of 1 1 4) (field_of 4 1 8 ∷ field_of 0 0 0 ∷ []) 4096;
  same_start = refl;
  same_dest = refl;
  same_pos = refl;
}

pb_field_iter_next-IsAt_example :
    (iter : FieldIter) × (pb_field_iter_next first ≡ some (iter, true)) × IsAt fields 4096 1 iter
pb_field_iter_next-IsAt_example =
    pb_field_iter_next-IsAt fields 4096 2 0 first fields-IsTable (omega arith) first-IsAt

pb_field_iter_find-Found_example : Found fields 4096 2 0 4 (pb_field_iter_find 4 first)
pb_field_iter_find-Found_example =
    pb_field_iter_find-Found fields 4096 2 0 4 first fields-IsTable (omega arith) first-IsAt
