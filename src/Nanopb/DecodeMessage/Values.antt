-- ===== src/Nanopb/DecodeMessage/Values.antt =====
-- The function pointers of PB_DECODERS, with the places where the pb_dec_ functions store values,
-- pb_dec_submessage, and allocate_field on a pointer in the memory.
use logoguess.Common.{ℕ, ◌==◌, if◌then◌else◌, true, Option, none, some, List, [], ◌∷◌, length}
use logoguess.Common.Int.{to_unsigned}
use logoguess.Nanopb.Errors.{invalid_field_descriptor}
use logoguess.Nanopb.Field.{
  PbField, ltype, htype, atype, ltype_bool, ltype_varint, ltype_uvarint, ltype_svarint,
  ltype_fixed32, ltype_fixed64, ltype_bytes, ltype_string, ltype_submessage,
  ltype_fixed_length_bytes, htype_repeated, atype_pointer,
}
use logoguess.Nanopb.IStream.{IStream}
use logoguess.Nanopb.Wire.{pb_make_string_substream, pb_close_string_substream}
use logoguess.Nanopb.DecodeScalar.{
  Stored, pb_dec_bool, pb_dec_varint, pb_dec_uvarint, pb_dec_svarint, pb_dec_fixed32,
  pb_dec_fixed64, pb_dec_fixed_length_bytes,
}
use logoguess.Nanopb.DecodeString.{pb_dec_string}
use logoguess.Nanopb.DecodeBytes.{pb_dec_bytes}
use logoguess.Nanopb.Allocate.{Realloc, allocate_field}
use logoguess.Nanopb.Memory.{Memory, null, ◌>>=◌, load, load_pointer, store, store_number}
use logoguess.Nanopb.DecodeMessage.Actions.{
  Result, Action, returned, fault, overrun, return_error, with_some, loaded, decoded, stores,
  DecodeProgram, DecodesMessage,
}

-- The substream is closed, and `status` is returned.
abbrev pub closed : IStream → Result → Result
closed s fault = fault
closed s overrun = overrun
closed s (returned status sub mem) =
    decoded (pb_close_string_substream sub s) mem λ _ s'. returned status s'

module _ (program : DecodeProgram) where
  -- The block that pb_realloc gives for the pointer `p`.
  abbrev pub block_realloc : ℕ → Memory → Realloc
  block_realloc p mem old size =
      program.allocator.pb_realloc p size mem >>= λ new. load size (new.0) (new.1)

  -- The memory with that block, which holds `block` now, and with the pointer to it at `p_data`.
  unfoldable pub commit_block : ℕ → ℕ → List ℕ → Memory → Option Memory
  commit_block p_data p block mem = program.allocator.pb_realloc p (length block) mem >>= λ new.
      store_number 8 (new.0) p_data (new.1) >>= store block (new.0)

  -- allocate_field.
  unfoldable pub allocate_at : ℕ → ℕ → ℕ → Action
  unfolding commit_block
  allocate_at p_data data_size array_size = loaded (load_pointer p_data) λ p s mem.
      decoded (allocate_field (block_realloc p mem) none data_size array_size s) mem
        λ block s'. loaded (commit_block p_data p block) (λ mem' t _. returned true t mem') s'

  -- A pb_dec_ function of bytes or of a string: its memory is the field's, or the block behind its
  -- pointer.
  unfoldable pub call_with_block :
      (Realloc → PbField → Option (List ℕ) → IStream → Stored (List ℕ)) → PbField → ℕ → Action
  unfolding commit_block
  call_with_block dec field dest =
      if atype field.type == atype_pointer
      then (loaded (load_pointer dest)
          λ p s mem. stores (dec (block_realloc p mem) field none s) (commit_block dest p) mem)
      else (loaded (load field.data_size dest) λ block s mem.
          stores (dec (λ _ _. none) field (some block) s) (λ block'. store block' dest) mem)

  -- The rest of pb_dec_submessage, with the substream.
  unfoldable pub read_submessage : DecodesMessage → DecodesMessage → PbField → ℕ → IStream → Action
  read_submessage pb_decode pb_decode_noinit field dest sub s mem =
      if field.ptr == null
      then return_error invalid_field_descriptor s mem
      else with_some (program.fields_at field.ptr)
          (λ fields s' mem'. closed s' (
            (if htype field.type == htype_repeated
                then pb_decode fields dest
                else pb_decode_noinit fields dest)
              sub mem'))
          s mem

  unfoldable pub pb_dec_submessage : DecodesMessage → DecodesMessage → PbField → ℕ → Action
  unfolding read_submessage
  pb_dec_submessage pb_decode pb_decode_noinit field dest s mem =
      decoded (pb_make_string_substream s) mem
        (read_submessage pb_decode pb_decode_noinit field dest)

  -- `PB_DECODERS[PB_LTYPE(type)](stream, field, dest)`. A fault for NULL, and behind the table.
  unfoldable pub call_decoder : DecodesMessage → DecodesMessage → PbField → ℕ → Action
  unfolding call_with_block pb_dec_submessage
  call_decoder pb_decode pb_decode_noinit field dest =
      let t = ltype field.type in
      if t == ltype_bool
      then (λ s. stores (pb_dec_bool s) λ b. store ((if b then 1 else 0) ∷ []) dest)
      else if t == ltype_varint
      then (λ s.
          stores (pb_dec_varint field s) λ v. store_number field.data_size (to_unsigned 64 v) dest)
      else if t == ltype_uvarint
      then (λ s. stores (pb_dec_uvarint field s) λ v. store_number field.data_size v dest)
      else if t == ltype_svarint
      then (λ s.
          stores (pb_dec_svarint field s) λ v. store_number field.data_size (to_unsigned 64 v) dest)
      else if t == ltype_fixed32
      then (λ s. stores (pb_dec_fixed32 s) λ v. store_number 4 v dest)
      else if t == ltype_fixed64
      then (λ s. stores (pb_dec_fixed64 s) λ v. store_number 8 v dest)
      else if t == ltype_bytes
      then call_with_block pb_dec_bytes field dest
      else if t == ltype_string
      then call_with_block pb_dec_string field dest
      else if t == ltype_submessage
      then pb_dec_submessage pb_decode pb_decode_noinit field dest
      else if t == ltype_fixed_length_bytes
      then (λ s. stores (pb_dec_fixed_length_bytes field s) λ bytes. store bytes dest)
      else λ s mem. fault
