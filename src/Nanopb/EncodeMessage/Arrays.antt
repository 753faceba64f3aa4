-- ===== src/Nanopb/EncodeMessage/Arrays.antt =====
-- encode_array of pb_encode.c, packed and unpacked.
use logoguess.Common.{ℕ, zero, suc, ◌*◌, ◌%◌, ◌^◌, ltb, leb, ◌==◌, if◌then◌else◌, not, ◌&&◌, ◌||◌}
use logoguess.Common.{[]}
use logoguess.Nanopb.Errors.{array_max_size_exceeded}
use logoguess.Nanopb.Field.{
  PbField, ltype, atype, ltype_fixed32, ltype_fixed64, ltype_bytes, ltype_string, atype_pointer,
}
use logoguess.Nanopb.OStream.{
  Emitted, Encoder, sent, failed, fault, ◌>>◌, has_callback, return_error, pb_write,
  pb_ostream_sizing,
}
use logoguess.Nanopb.Wire.{wt_string}
use logoguess.Nanopb.Encode.{pb_encode_varint, pb_encode_tag, pb_encode_tag_for_field}
use logoguess.Nanopb.Memory.{Memory, plus, load_pointer}
use logoguess.Nanopb.EncodeMessage.Values.{loaded}
use logoguess.Nanopb.EncodeMessage.Default.{ltype_last_packable}

-- A loop over the entries of an array, the next at `p`.
unfoldable pub array_loop : (ℕ → Encoder) → ℕ → ℕ → ℕ → Encoder
array_loop item data_size zero p = sent
array_loop item data_size (suc count) p =
    item p >> array_loop item data_size count (plus p data_size)

-- What a sizing stream counted. It fails without a message.
abbrev pub measured : Emitted → (ℕ → Encoder) → Encoder
measured (sent sizestream) k s = k sizestream.bytes_written s
measured (failed sizestream) k s = failed s
measured fault k s = fault

-- "Determine the total size of packed array", and go on with it.
unfoldable pub packed_size : PbField → ℕ → ℕ → (ℕ → Encoder) → (ℕ → Encoder) → Encoder
unfolding array_loop
packed_size field p_data count func k =
    if ltype field.type == ltype_fixed32
    then k (4 * count % 2 ^ 64)
    else if ltype field.type == ltype_fixed64
    then k (8 * count % 2 ^ 64)
    else measured (array_loop func field.data_size count p_data pb_ostream_sizing) k

-- The data of a packed array of `size` bytes.
unfoldable pub packed_data : PbField → ℕ → ℕ → (ℕ → Encoder) → ℕ → Encoder
unfolding array_loop
packed_data field p_data count func size s =
    if not (has_callback s.callback)
    then pb_write [] size s
    else array_loop func field.data_size count p_data s

unfoldable pub packed_array : PbField → ℕ → ℕ → (ℕ → Encoder) → Encoder
unfolding packed_size packed_data
packed_array field p_data count func =
    pb_encode_tag wt_string field.tag
    >> packed_size field p_data count func
        λ size. pb_encode_varint size >> packed_data field p_data count func size

module _ (mem : Memory) where
  -- An entry of an array that is not packed. Entries for strings and bytes behind a pointer are
  -- pointers themselves.
  unfoldable pub array_item : PbField → (ℕ → Encoder) → ℕ → Encoder
  array_item field func p =
      pb_encode_tag_for_field field
      >> (if atype field.type == atype_pointer
            && (ltype field.type == ltype_string || ltype field.type == ltype_bytes)
          then loaded (load_pointer p mem) func
          else func p)

  unfoldable pub encode_array : PbField → ℕ → ℕ → (ℕ → Encoder) → Encoder
  unfolding packed_array array_loop array_item
  encode_array field p_data count func =
      if count == 0
      then sent
      else if not (atype field.type == atype_pointer) && ltb field.array_size count
      then return_error array_max_size_exceeded
      else if leb (ltype field.type) ltype_last_packable
      then packed_array field p_data count func
      else array_loop (array_item field func) field.data_size count p_data
