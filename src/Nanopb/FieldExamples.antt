-- ===== src/Nanopb/FieldExamples.antt =====
-- Examples of the theorems about nanopb's scalar fields and about overlong varints.
use logoguess.Common.{◌+◌, ◌*◌, replicate, ◌≡◌, refl, arith, some, none, [], ◌∷◌, ◌++◌, length}
use logoguess.Common.Int.{pos, negsuc, to_unsigned}
use logoguess.Nanopb.Errors.{integer_too_large}
use logoguess.Nanopb.IStream.{done, return_error}
use logoguess.Nanopb.IStream.Reads.{over}
use logoguess.Nanopb.Encode.{zigzag}
use logoguess.Nanopb.Encode.Varint.{varint, varint64}
use logoguess.Nanopb.EncodeScalar.{
  pb_enc_varint, pb_enc_uvarint, pb_enc_svarint, pb_enc_fixed_length_bytes,
}
use logoguess.Nanopb.Wire.{pb_decode_varint, pb_decode_varint32}
use logoguess.Nanopb.Wire.Wrapped.{pb_decode_varint32-wrapped}
use logoguess.Nanopb.Wire.Overlong.{padded, pb_decode_varint32-padded}
use logoguess.Nanopb.DecodeScalar.{
  int_width, pb_dec_varint, pb_dec_uvarint, pb_dec_svarint, pb_dec_fixed_length_bytes,
}
use logoguess.Nanopb.RoundTrip.{Refills}
use logoguess.Nanopb.RoundTrip.Substream.{delimited}
use logoguess.Nanopb.RoundTrip.Fields.{
  pb_enc_varint-Refills, pb_enc_svarint-Refills, pb_enc_uvarint-Refills, pb_dec_uvarint_lem,
  pb_dec_svarint_lem, pb_dec_varint-never_too_large,
}
use logoguess.Nanopb.RoundTrip.Bytes.{pb_enc_fixed_length_bytes-Refills}
use logoguess.Nanopb.Examples.{output, room_for, room_for_varint, field_of}

pb_enc_varint-Refills_example :
    Refills
      (pb_enc_varint (field_of 1 4) (negsuc 4))
      (pb_dec_varint (field_of 1 4))
      (varint64 (to_unsigned 64 (negsuc 4)))
      (negsuc 4)
      output
      []
      0
      none
unfolding int_width
pb_enc_varint-Refills_example =
    pb_enc_varint-Refills (field_of 1 4) 32 (negsuc 4) output [] 0 none refl (omega arith)
      (room_for_varint (to_unsigned 64 (negsuc 4)))

pb_enc_svarint-Refills_example :
    Refills
      (pb_enc_svarint (field_of 3 2) (negsuc 4))
      (pb_dec_svarint (field_of 3 2))
      (varint64 (zigzag (negsuc 4)))
      (negsuc 4)
      output
      []
      0
      none
unfolding int_width
pb_enc_svarint-Refills_example =
    pb_enc_svarint-Refills (field_of 3 2) 16 (negsuc 4) output [] 0 none refl (omega arith)
      (room_for_varint (zigzag (negsuc 4)))

pb_enc_uvarint-Refills_example :
    Refills
      (pb_enc_uvarint (field_of 2 1) 200)
      (pb_dec_uvarint (field_of 2 1))
      (varint64 200)
      200
      output
      []
      0
      none
unfolding int_width
pb_enc_uvarint-Refills_example =
    pb_enc_uvarint-Refills (field_of 2 1) 8 200 output [] 0 none refl (omega arith) (omega arith)
      (room_for_varint 200)

pb_dec_uvarint_lem_example :
    pb_dec_uvarint (field_of 2 1) (over (varint64 300 ++ []) (length (varint64 300) + 0) none)
    ≡ (return_error integer_too_large (over [] 0 none), some 44)
unfolding int_width
pb_dec_uvarint_lem_example = pb_dec_uvarint_lem (field_of 2 1) 8 300 [] 0 none refl (omega arith)

pb_dec_svarint_lem_example :
    pb_dec_svarint
      (field_of 3 1)
      (over (varint64 (zigzag (pos 300)) ++ []) (length (varint64 (zigzag (pos 300))) + 0) none)
    ≡ (return_error integer_too_large (over [] 0 none), some (pos 44))
unfolding int_width
pb_dec_svarint_lem_example =
    pb_dec_svarint_lem (field_of 3 1) 8 (pos 300) [] 0 none refl (omega arith)

pb_dec_varint-never_too_large_example :
    pb_dec_varint
      (field_of 1 4)
      (over (varint64 4294967301 ++ []) (length (varint64 4294967301) + 0) none)
    ≡ (done tt (over [] 0 none), some (pos 5))
pb_dec_varint-never_too_large_example =
    pb_dec_varint-never_too_large (field_of 1 4) 4294967301 [] 0 none refl (omega arith)

pb_decode_varint32-padded_example :
    (pb_decode_varint32 (over (padded 4294967301 ++ []) 6 none) ≡ done 5 (over [] 0 none))
    × (pb_decode_varint (over (padded 4294967301 ++ []) 6 none) ≡ done 4294967301 (over [] 0 none))
pb_decode_varint32-padded_example = pb_decode_varint32-padded 4294967301 [] 0 none (omega arith)

pb_enc_fixed_length_bytes-Refills_example :
    Refills
      (pb_enc_fixed_length_bytes (field_of 10 2) (0 ∷ 255 ∷ []))
      (pb_dec_fixed_length_bytes (field_of 10 2))
      (delimited (0 ∷ 255 ∷ []))
      (0 ∷ 255 ∷ [])
      output
      []
      0
      none
unfolding varint
pb_enc_fixed_length_bytes-Refills_example =
    pb_enc_fixed_length_bytes-Refills (field_of 10 2) (0 ∷ 255 ∷ []) output [] 0 none refl
      (omega arith) (room_for 3 (omega arith))

pb_decode_varint32-wrapped_example :
    pb_decode_varint32 (over (replicate 37 0x80 ++ 5 ∷ 7 ∷ []) (38 + 1) none)
    ≡ done (5 * 8) (over (7 ∷ []) 1 none)
pb_decode_varint32-wrapped_example = pb_decode_varint32-wrapped 5 (7 ∷ []) 1 none (omega arith)
