-- ===== src/Nanopb/Errors.antt =====
-- The message strings of PB_RETURN_ERROR in pb_encode.c and pb_decode.c.
pub data PbError : Type 0 where
  end_of_stream io_error varint_overflow invalid_wire_type parent_stream_too_short : PbError
  invalid_data_size integer_too_large bytes_overflow incorrect_fixed_length : PbError
  stream_full invalid_field_type bytes_size_exceeded : PbError
  invalid_size size_too_large realloc_failed string_overflow : PbError
  array_max_size_exceeded missing_required_field callback_error invalid_field_descriptor : PbError
  submsg_size_changed too_many_array_entries array_overflow callback_failed : PbError
  invalid_union_tag iterator_error wrong_fixed_count : PbError
