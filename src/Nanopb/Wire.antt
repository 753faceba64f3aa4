-- ===== src/Nanopb/Wire.antt =====
-- The wire format of pb_decode.c: varints, tags, skipping, raw values and substreams.
pub mod Overlong
pub mod Wrapped
pub mod Safe
pub mod Consumes
pub mod SafeSubstream
pub mod Varint
pub mod Varint32
use logoguess.Common.{ℕ, zero, suc, ◌+◌, ◌-◌, ◌*◌, ◌/◌, ◌%◌, ◌^◌, bit_and, bit_or, ltb, leb, ◌==◌}
use logoguess.Common.{if◌then◌else◌, Bool, true, false, not, ◌&&◌, ◌||◌, Option, none, some}
use logoguess.Common.{List, [], ◌∷◌, get_or, take, length}
use logoguess.Nanopb.Errors.{PbError, end_of_stream, varint_overflow, invalid_wire_type}
use logoguess.Nanopb.Errors.{parent_stream_too_short}
use logoguess.Nanopb.IStream.{IStream, Outcome, Decoder, done, failed, fault, pure, and_then}
use logoguess.Nanopb.IStream.{◌>>=◌, ◌>>◌, return_error, null, buffer, pb_read, pb_readbyte}

-- `(byte & 0x80) != 0`.
abbrev pub continues : ℕ → Bool
continues byte = not (bit_and byte 0x80 == 0)

-- One round of the loop of pb_decode_varint32_eof, on its byte: the new `result`, or none for
-- "varint overflow".
unfoldable pub varint32_round : ℕ → ℕ → ℕ → Option ℕ
varint32_round bitpos result byte =
    let sign_extension : ℕ = if ltb bitpos 63 then 0xff else 0x01 in
    if leb 32 bitpos
    then if not (bit_and byte 0x7f == 0) && (result / 2 ^ 31 == 0 || not (byte == sign_extension))
      then none
      else some result
    else some (bit_or result (bit_and byte 0x7f * 2 ^ bitpos % 2 ^ 32))

-- The check behind the loop: with the last byte at bit 28, only four of its bits fit.
unfoldable pub varint32_finish : ℕ → ℕ → ℕ → Decoder ℕ
varint32_finish bitpos result byte =
    if bitpos == 35 && not (bit_and byte 0x70 == 0)
    then return_error varint_overflow
    else pure result

-- The do-while loop. `bitpos` is a uint_fast8_t, eight bits wide. Each round reads a byte, so one
-- unit of fuel more than `bytes_left` is enough.
unfoldable pub varint32_loop : ℕ → ℕ → ℕ → Decoder ℕ
varint32_loop zero bitpos result s = fault
varint32_loop (suc fuel) bitpos result s = and_then (pb_readbyte s) λ byte s'.
    elim (varint32_round bitpos result byte) [
      | none ↦ return_error varint_overflow s'
      | some result' ↦
          let next : ℕ = (bitpos + 7) % 256 in
          let more = varint32_loop fuel next result' s' in
          if continues byte then more else varint32_finish next result' byte s'
    ]

-- pb_decode_varint32_eof after its first byte.
unfoldable pub varint32_rest : ℕ → Decoder ℕ
varint32_rest byte s =
    if continues byte then varint32_loop (suc s.bytes_left) 7 (bit_and byte 0x7f) s else done byte s

-- pb_decode_varint32_eof: what it returns, and whether it sets `*eof`.
unfoldable pub pb_decode_varint32_eof : IStream → Outcome ℕ × Bool
pb_decode_varint32_eof s = elim (pb_readbyte s) [
  | failed s' ↦ (failed s', s'.bytes_left == 0)
  | fault ↦ (fault, false)
  | done byte s' ↦ (varint32_rest byte s', false)
]

unfoldable pub pb_decode_varint32 : Decoder ℕ
pb_decode_varint32 s = (pb_decode_varint32_eof s).0

-- The do-while loop of pb_decode_varint. It stops when `bitpos`, 0, 7, 14, …, has passed 63.
unfoldable pub varint_loop : ℕ → ℕ → ℕ → Decoder ℕ
varint_loop zero bitpos result s = fault
varint_loop (suc fuel) bitpos result s =
    let round = and_then (pb_readbyte s) λ byte s'.
      let result' : ℕ = bit_or result (bit_and byte 0x7f * 2 ^ bitpos % 2 ^ 64) in
      let more = varint_loop fuel ((bitpos + 7) % 256) result' s' in
      if continues byte then more else done result' s' in
    if leb 64 bitpos then return_error varint_overflow s else round

-- Eleven rounds: ten bytes at most are read.
unfoldable pub pb_decode_varint : Decoder ℕ
pb_decode_varint = varint_loop 11 0 0

unfoldable pub skip_varint_loop : ℕ → Decoder (Unit {0})
skip_varint_loop zero s = fault
skip_varint_loop (suc fuel) s = and_then (pb_read buffer 1 s) λ bytes s'.
    let more = skip_varint_loop fuel s' in if continues (get_or bytes 0 0) then more else done tt s'

unfoldable pub pb_skip_varint : Decoder (Unit {0})
pb_skip_varint s = skip_varint_loop (suc s.bytes_left) s

unfoldable pub pb_skip_string : Decoder (Unit {0})
pb_skip_string = do length ← pb_decode_varint32; pb_read null length; pure tt

-- The values of pb_wire_type_t.
abbrev pub wt_varint : ℕ
wt_varint = 0

abbrev pub wt_64bit : ℕ
wt_64bit = 1

abbrev pub wt_string : ℕ
wt_string = 2

abbrev pub wt_32bit : ℕ
wt_32bit = 5

-- pb_decode_tag behind its first call, whose results it is given.
unfoldable pub split_tag : Outcome ℕ × Bool → Outcome (ℕ × ℕ) × Bool
split_tag (done temp s, eof) =
    if temp == 0 then (failed s, true) else (done (bit_and temp 7, temp / 8) s, eof)
split_tag (failed s, eof) = (failed s, eof)
split_tag (fault, eof) = (fault, eof)

-- pb_decode_tag: the wire type and the tag, and `*eof`.
unfoldable pub pb_decode_tag : IStream → Outcome (ℕ × ℕ) × Bool
pb_decode_tag s = split_tag (pb_decode_varint32_eof s)

unfoldable pub pb_skip_field : ℕ → Decoder (Unit {0})
pb_skip_field wire_type =
    if wire_type == wt_varint
    then pb_skip_varint
    else if wire_type == wt_64bit
    then pb_read null 8 >> pure tt
    else if wire_type == wt_string
    then pb_skip_string
    else if wire_type == wt_32bit
    then pb_read null 4 >> pure tt
    else return_error invalid_wire_type

-- The do-while loop of read_raw_value, from `*size` bytes on: the bytes that it stores. Each round
-- adds one to `*size`, and a round that passes `max_size` returns.
unfoldable pub raw_varint_loop : ℕ → ℕ → ℕ → Decoder (List ℕ)
raw_varint_loop zero size max_size s = fault
raw_varint_loop (suc fuel) size max_size s =
    let round = and_then (pb_read buffer 1 s) λ bytes s'.
      let byte = get_or bytes 0 0 in
      let more =
        and_then (raw_varint_loop fuel (size + 1) max_size s') λ rest. pure (byte ∷ rest) in
      if continues byte then more else done (byte ∷ []) s' in
    if ltb max_size (size + 1) then failed s else round

-- read_raw_value: what it stores in `buf`; `*size` on return is the length.
unfoldable pub read_raw_value : ℕ → ℕ → Decoder (List ℕ)
read_raw_value wire_type max_size =
    if wire_type == wt_varint
    then raw_varint_loop (suc max_size) 0 max_size
    else if wire_type == wt_64bit
    then pb_read buffer 8
    else if wire_type == wt_32bit
    then pb_read buffer 4
    else return_error invalid_wire_type

-- pb_make_string_substream: the substream, beside the stream that it was cut from.
unfoldable pub pb_make_string_substream : Decoder IStream
pb_make_string_substream s = and_then (pb_decode_varint32 s) λ size s'.
    if ltb s'.bytes_left size
    then return_error parent_stream_too_short s'
    else done (record s' { bytes_left = size }) (record s' { bytes_left = s'.bytes_left - size })

-- What pb_close_string_substream skips of the substream.
unfoldable pub skip_left : Decoder (List ℕ)
skip_left sub = if sub.bytes_left == 0 then done [] sub else pb_read null sub.bytes_left sub

-- pb_close_string_substream. If the substream cannot be read to its end, the stream stays as it was.
unfoldable pub pb_close_string_substream : IStream → Decoder (Unit {0})
pb_close_string_substream sub s = elim (skip_left sub) [
  | done _ sub' ↦ done tt (record s { state = sub'.state; errmsg = sub'.errmsg })
  | failed sub' ↦ failed s
  | fault ↦ fault
]
