-- ===== src/Nanopb/EncodeMessage.antt =====
-- The message level of pb_encode.c: the encoders of fields, extensions, and pb_encode.
pub mod Counts
pub mod Default
pub mod Depth
pub mod Values
pub mod Arrays
use logoguess.Common.{
  ℕ, zero, suc, ◌+◌, ◌*◌, ◌%◌, ◌^◌, ltb, leb, ◌==◌, if◌then◌else◌, not, ◌&&◌, ◌||◌, Bool, true,
  false,
}
use logoguess.Common.{Option, none, some, List, [], ◌∷◌, length, get_elem?}
use logoguess.Nanopb.Errors.{
  invalid_field_type, array_max_size_exceeded, missing_required_field, callback_error,
}
use logoguess.Nanopb.Field.{
  PbField, ltype, htype, atype, ltype_fixed32, ltype_fixed64, ltype_bytes, ltype_string,
  ltype_extension, htype_required, htype_optional, htype_repeated, htype_oneof, atype_static,
  atype_pointer, atype_callback,
}
use logoguess.Nanopb.FieldIter.{FieldIter, pb_field_iter_begin, pb_field_iter_next}
use logoguess.Nanopb.OStream.{
  OStream, Emitted, Encoder, sent, failed, fault, and_then, ◌>>◌, has_callback, return_error,
  pb_write, pb_ostream_sizing,
}
use logoguess.Nanopb.Wire.{wt_string}
use logoguess.Nanopb.Encode.{pb_encode_varint, pb_encode_tag, pb_encode_tag_for_field}
use logoguess.Nanopb.EncodeScalar.{safe_read_bool}
use logoguess.Nanopb.Memory.{Memory, null, plus, ◌>>=◌, load, load_pointer, load_size, memory_size}
use logoguess.Nanopb.Program.{EncodeProgram}
use Values.{EncodesMessage, loaded, call_encoder, pb_encode_submessage}
use Default.{ltype_last_packable, ChecksDefault, has_size, size_at, pb_check_proto3_default_value}
use logoguess.Nanopb.EncodeMessage.Arrays.{encode_array}

-- `pSize` of encode_basic_field: it points to `implicit_has`, or into the struct.
pub data SizePointer : Type 0 where
  implicit_has : Bool → SizePointer
  address : ℕ → SizePointer

abbrev pub counted : Emitted → Option (Option ℕ)
counted (sent stream) = some (some stream.bytes_written)
counted (failed stream) = some none
counted fault = none

-- `implicit_has = (pData != NULL)`.
abbrev pub set_has : Bool → SizePointer → SizePointer
set_has has (implicit_has old) = implicit_has has
set_has has (address p) = address p

unfoldable pub encode_present : PbField → (ℕ → Encoder) → ℕ → Encoder
encode_present field func p_data = pb_encode_tag_for_field field >> func p_data

-- PB_RETURN_ERROR behind a user's function that returned false.
abbrev pub or_error : Emitted → Emitted
or_error (sent s) = sent s
or_error (failed s) = return_error callback_error s
or_error fault = fault

module _ (mem : Memory) where
  abbrev pub read_has : SizePointer → Option Bool
  read_has (implicit_has has) = some has
  read_has (address p) = load 1 p mem >>= λ has. some (safe_read_bool has)

  -- A pb_size_t: `implicit_has` is too small for one.
  abbrev pub read_count : SizePointer → Option ℕ
  read_count (implicit_has has) = none
  read_count (address p) = load_size p mem

module _ (program : EncodeProgram) (mem : Memory) where
  -- `check` is pb_check_proto3_default_value, here and below.
  unfoldable pub find_size : ChecksDefault → PbField → ℕ → Option SizePointer
  find_size check field p_data =
      if has_size field
      then some (address (size_at field p_data))
      else if htype field.type == htype_optional
      then (check field p_data >>= λ empty. some (implicit_has (not empty)))
      else some (implicit_has true)

  -- The switch of encode_basic_field.
  unfoldable pub encode_by_htype : PbField → (ℕ → Encoder) → SizePointer → ℕ → Encoder
  unfolding encode_present encode_array
  encode_by_htype field func p_size p_data =
      let h = htype field.type in
      if h == htype_required
      then (if p_data == null
          then return_error missing_required_field
          else encode_present field func p_data)
      else if h == htype_optional
      then (loaded (read_has mem p_size)
          λ has. if has then encode_present field func p_data else sent)
      else if h == htype_repeated
      then (loaded (if has_size field then read_count mem p_size else some field.array_size)
          λ count. encode_array mem field p_data count func)
      else if h == htype_oneof
      then (loaded (read_count mem p_size)
          λ which. if which == field.tag then encode_present field func p_data else sent)
      else return_error invalid_field_type

  unfoldable pub encode_basic_field : ChecksDefault → PbField → (ℕ → Encoder) → ℕ → Encoder
  unfolding find_size encode_by_htype
  encode_basic_field check field func p_data = loaded (find_size check field p_data) λ p_size.
      if atype field.type == atype_pointer
      then (loaded (load_pointer p_data mem)
          λ p. encode_by_htype field func (set_has (not (p == null)) p_size) p)
      else encode_by_htype field func p_size p_data

  unfoldable pub encode_callback_field : PbField → ℕ → Encoder
  encode_callback_field field p_data = loaded (load_pointer p_data mem) λ funcs.
      if funcs == null
      then sent
      else loaded (program.encode_at funcs) λ encode s. or_error (encode field (plus p_data 8) s)

  unfoldable pub encode_field : ChecksDefault → (PbField → ℕ → Encoder) → PbField → ℕ → Encoder
  unfolding encode_basic_field encode_callback_field
  encode_field check func field p_data =
      let a = atype field.type in
      if a == atype_static || a == atype_pointer
      then encode_basic_field check field (func field) p_data
      else if a == atype_callback
      then encode_callback_field field p_data
      else return_error invalid_field_type

  -- default_extension_encoder: a pointer stands in the extension itself.
  unfoldable pub default_extension_encoder : ChecksDefault → (PbField → ℕ → Encoder) → ℕ → Encoder
  unfolding encode_field
  default_extension_encoder check func extension =
      loaded (load_pointer extension mem >>= λ type. load_pointer (plus type 16) mem) λ arg.
        loaded (program.fields_at arg >>= λ fields. get_elem? fields 0) λ field.
          if atype field.type == atype_pointer
          then encode_field check func field (plus extension 8)
          else loaded (load_pointer (plus extension 8) mem)
              λ dest. encode_field check func field dest

  -- An extension, by the function of its type or by the default one.
  unfoldable pub encode_extension : ChecksDefault → (PbField → ℕ → Encoder) → ℕ → Encoder
  unfolding default_extension_encoder
  encode_extension check func extension =
      loaded (load_pointer extension mem >>= λ type. load_pointer (plus type 8) mem) λ encode.
        if encode == null
        then default_extension_encoder check func extension
        else loaded (program.extension_encode_at encode) λ f. f extension

  -- The loop of encode_extension_field, over the list from `extension` on.
  unfoldable pub extension_loop : ℕ → ChecksDefault → (PbField → ℕ → Encoder) → ℕ → Encoder
  unfolding encode_extension
  extension_loop zero check func extension = λ s. fault
  extension_loop (suc links) check func extension =
      if extension == null
      then sent
      else encode_extension check func extension
        >> loaded (load_pointer (plus extension 16) mem) (extension_loop links check func)

  unfoldable pub encode_extension_field : ChecksDefault → (PbField → ℕ → Encoder) → ℕ → Encoder
  unfolding extension_loop
  encode_extension_field check func p_data =
      loaded (load_pointer p_data mem) (extension_loop (suc (memory_size mem)) check func)

  -- One round of pb_encode.
  unfoldable pub encode_one : ChecksDefault → (PbField → ℕ → Encoder) → PbField → ℕ → Encoder
  unfolding encode_extension_field encode_field
  encode_one check func field p_data =
      if ltype field.type == ltype_extension
      then encode_extension_field check func p_data
      else encode_field check func field p_data

  -- The loop of pb_encode.
  unfoldable pub fields_loop : ℕ → ChecksDefault → (PbField → ℕ → Encoder) → FieldIter → Encoder
  unfolding encode_one
  fields_loop zero check func iter = λ s. fault
  fields_loop (suc fuel) check func iter = loaded (get_elem? iter.start iter.pos) λ field.
      encode_one check func field iter.p_data
      >> loaded (pb_field_iter_next iter)
          λ next. let rest = fields_loop fuel check func (next.0) in if next.1 then rest else sent

  abbrev pub encode_fields : ChecksDefault → (PbField → ℕ → Encoder) → List PbField → ℕ → Encoder
  encode_fields check func fields src_struct =
      loaded (pb_field_iter_begin fields src_struct)
        λ first. if first.1 then fields_loop (length fields) check func (first.0) else sent

  -- pb_encode, for messages nested less than `depth` deep.
  unfoldable pub pb_encode : ℕ → EncodesMessage
  unfolding fields_loop
  pb_encode zero fields src_struct = λ s. fault
  pb_encode (suc depth) fields src_struct =
      encode_fields (pb_check_proto3_default_value program mem (suc depth))
        (call_encoder program mem (pb_encode depth)) fields src_struct

  unfoldable pub pb_encode_delimited : ℕ → EncodesMessage
  pb_encode_delimited depth = pb_encode_submessage (pb_encode depth)

  unfoldable pub pb_encode_nullterminated : ℕ → EncodesMessage
  unfolding pb_encode
  pb_encode_nullterminated depth fields src_struct =
      pb_encode depth fields src_struct >> pb_write (0 ∷ []) 1

  -- pb_get_encoded_size: `*size`, and what is returned. None for a fault.
  unfoldable pub pb_get_encoded_size : ℕ → List PbField → ℕ → Option (Option ℕ)
  unfolding pb_encode
  pb_get_encoded_size depth fields src_struct =
      counted (pb_encode depth fields src_struct pb_ostream_sizing)
