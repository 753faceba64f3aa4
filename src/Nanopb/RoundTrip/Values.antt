-- ===== src/Nanopb/RoundTrip/Values.antt =====
-- The values of the wire format: what pb_encode.c writes for each, and what pb_decode.c makes of
-- it, read, skipped or copied raw.
use logoguess.Nanopb.Errors.{PbError}
use logoguess.Common.{Option, sym, ℕ, ◌^◌, ◌<◌, ◌≤◌, refl, arith, List, [], length, ◌≢◌}
use logoguess.Common.Int.{ℤ, IsInt}
use logoguess.Nanopb.IStream.{buffer, null, pb_read, pure, ◌>>◌}
use logoguess.Nanopb.IStream.Reads.{Reads, Reads-map, pb_read-Reads}
use logoguess.Nanopb.OStream.{OStream, Encoder}
use logoguess.Nanopb.OStream.Room.{HasRoom, Emits}
use logoguess.Nanopb.Encode.{
  pb_encode_varint, pb_encode_svarint, pb_encode_fixed32, pb_encode_fixed64, pb_encode_string,
}
use logoguess.Nanopb.Encode.Varint.{varint64, pb_encode_varint-Emits}
use logoguess.Nanopb.Wire.{
  pb_decode_varint, pb_decode_varint32, pb_skip_field, read_raw_value, wt_varint, wt_64bit,
  wt_string, wt_32bit,
}
use logoguess.Nanopb.Wire.Varint.{pb_decode_varint-varint}
use logoguess.Nanopb.Wire.Varint32.{pb_decode_varint32-Reads}
use logoguess.Nanopb.DecodeScalar.{pb_decode_svarint, pb_decode_fixed32, pb_decode_fixed64}
use logoguess.Nanopb.RoundTrip.{Undoes}
use logoguess.Nanopb.RoundTrip.Fixed.{
  bytes32, bytes64, pb_encode_fixed32-Emits, pb_encode_fixed64-Emits, pb_decode_fixed32-Reads,
  pb_decode_fixed64-Reads,
}
use logoguess.Nanopb.RoundTrip.Signed.{zigzag_number, zigzag_lem, zigzag-lt, unzigzag-number}
use logoguess.Nanopb.RoundTrip.Skip.{
  pb_skip_varint-Reads, pb_skip_string-Reads, read_raw_value-varint,
}
use logoguess.Nanopb.RoundTrip.Substream.{delimited, pb_encode_string-Emits}

-- pb_encode_varint writes a uint64_t to a stream with room for its varint, and pb_decode_varint
-- reads it back from there.
pub varint-Undoes :
    (v : ℕ) (s : OStream) (mem : List ℕ) (n : ℕ) (e : Option PbError)
    → v < 2 ^ 64
    → HasRoom (length (varint64 v)) s
    → Undoes (pb_encode_varint v) pb_decode_varint (varint64 v) v s mem n e
varint-Undoes v s mem n e h room =
    (pb_encode_varint-Emits v h s room, pb_decode_varint-varint v mem n e h)

-- pb_encode_varint writes a uint32_t to a stream with room for its varint, and pb_decode_varint32
-- reads it back from there.
varint32-Undoes :
    (v : ℕ) (s : OStream) (mem : List ℕ) (n : ℕ) (e : Option PbError)
    → v < 2 ^ 32
    → HasRoom (length (varint64 v)) s
    → Undoes (pb_encode_varint v) pb_decode_varint32 (varint64 v) v s mem n e
varint32-Undoes v s mem n e h room =
    (pb_encode_varint-Emits v (omega arith) s room, pb_decode_varint32-Reads v h mem n e)

-- pb_encode_svarint writes an int64_t as the varint of its zigzag number, to a stream with room for
-- it, and pb_decode_svarint reads it back from there.
pub svarint-Undoes :
    (i : ℤ) (s : OStream) (mem : List ℕ) (n : ℕ) (e : Option PbError)
    → IsInt 64 i
    → HasRoom (length (varint64 (zigzag_number i))) s
    → Undoes (pb_encode_svarint i) pb_decode_svarint (varint64 (zigzag_number i)) i s mem n e
unfolding pb_encode_svarint pb_decode_svarint
svarint-Undoes i s mem n e h room =
    let word : zigzag_number i < 2 ^ 64 = rw (sym (zigzag_lem i h)) (zigzag-lt i h) in
    (
      rw (zigzag_lem i h, pb_encode_svarint) (pb_encode_varint-Emits (zigzag_number i) word s room),
      rw (pb_decode_varint-varint (zigzag_number i) mem n e word, unzigzag-number i h),
    )

-- pb_encode_fixed32 writes a uint32_t in four bytes to a stream with room for them, and
-- pb_decode_fixed32 reads it back from there.
fixed32-Undoes :
    (v : ℕ) (s : OStream) (mem : List ℕ) (n : ℕ) (e : Option PbError)
    → v < 2 ^ 32
    → HasRoom 4 s
    → Undoes (pb_encode_fixed32 v) pb_decode_fixed32 (bytes32 v) v s mem n e
fixed32-Undoes v s mem n e h room =
    (pb_encode_fixed32-Emits v s room, pb_decode_fixed32-Reads v h mem n e)

-- pb_encode_fixed64 writes a uint64_t in eight bytes to a stream with room for them, and
-- pb_decode_fixed64 reads it back from there.
fixed64-Undoes :
    (v : ℕ) (s : OStream) (mem : List ℕ) (n : ℕ) (e : Option PbError)
    → v < 2 ^ 64
    → HasRoom 8 s
    → Undoes (pb_encode_fixed64 v) pb_decode_fixed64 (bytes64 v) v s mem n e
fixed64-Undoes v s mem n e h room =
    (pb_encode_fixed64-Emits v s room, pb_decode_fixed64-Reads v h mem n e)

-- A value of the wire format, behind its tag.
pub data WireValue : Type 0 where
  as_varint : ℕ → WireValue
  as_64bit : ℕ → WireValue
  as_string : List ℕ → WireValue
  as_32bit : ℕ → WireValue

abbrev IsValue : WireValue → Type 0
IsValue (as_varint v) = v < 2 ^ 64
IsValue (as_64bit v) = v < 2 ^ 64
IsValue (as_string body) = length body < 2 ^ 32
IsValue (as_32bit v) = v < 2 ^ 32

abbrev pub wire_type : WireValue → ℕ
wire_type (as_varint v) = wt_varint
wire_type (as_64bit v) = wt_64bit
wire_type (as_string body) = wt_string
wire_type (as_32bit v) = wt_32bit

-- The encoder of a wire value.
abbrev pub encode : WireValue → Encoder
encode (as_varint v) = pb_encode_varint v
encode (as_64bit v) = pb_encode_fixed64 v
encode (as_string body) = pb_encode_string body (length body)
encode (as_32bit v) = pb_encode_fixed32 v

abbrev pub wire_bytes : WireValue → List ℕ
wire_bytes (as_varint v) = varint64 v
wire_bytes (as_64bit v) = bytes64 v
wire_bytes (as_string body) = delimited body
wire_bytes (as_32bit v) = bytes32 v

encode-Emits : (value : WireValue) → IsValue value → Emits (encode value) (wire_bytes value)
encode-Emits (as_varint v) h = pb_encode_varint-Emits v h
encode-Emits (as_64bit v) h = pb_encode_fixed64-Emits v
encode-Emits (as_string body) h = pb_encode_string-Emits body (omega arith)
encode-Emits (as_32bit v) h = pb_encode_fixed32-Emits v

skip_bytes : (xs : List ℕ) → Reads (pb_read null (length xs) >> pure tt) xs tt
skip_bytes xs = Reads-map (pb_read null (length xs)) (λ _. tt) xs [] (pb_read-Reads null xs)

skip-Reads :
    (value : WireValue)
    → IsValue value
    → Reads (pb_skip_field (wire_type value)) (wire_bytes value) tt
unfolding pb_skip_field
skip-Reads (as_varint v) h = pb_skip_varint-Reads v h
skip-Reads (as_64bit v) h = skip_bytes (bytes64 v)
skip-Reads (as_string body) h = pb_skip_string-Reads body h
skip-Reads (as_32bit v) h = skip_bytes (bytes32 v)

-- Each encoder writes its value to a stream with room for it, and pb_skip_field, told the value's
-- wire type, skips exactly the bytes that it wrote.
pub pb_skip_field-Undoes :
    (value : WireValue) (s : OStream) (mem : List ℕ) (n : ℕ) (e : Option PbError)
    → IsValue value
    → HasRoom (length (wire_bytes value)) s
    → Undoes (encode value) (pb_skip_field (wire_type value)) (wire_bytes value) tt s mem n e
pb_skip_field-Undoes value s mem n e h room =
    (encode-Emits value h s room, skip-Reads value h mem n e)

-- Each encoder of a varint or a fixed-width value writes it to a stream with room for it, and
-- read_raw_value copies exactly the bytes that it wrote, into a buffer of ten bytes or more.
pub read_raw_value-Undoes :
    (value : WireValue) (max_size : ℕ) (s : OStream) (mem : List ℕ) (n : ℕ) (e : Option PbError)
    → IsValue value
    → 10 ≤ max_size
    → wire_type value ≢ wt_string
    → HasRoom (length (wire_bytes value)) s
    → Undoes
        (encode value)
        (read_raw_value (wire_type value) max_size)
        (wire_bytes value)
        (wire_bytes value)
        s
        mem
        n
        e
unfolding read_raw_value
read_raw_value-Undoes value max_size s mem n e h hm not_string room =
    (encode-Emits value h s room, raw value h not_string mem n e)
  where
    raw :
        (value : WireValue)
        → IsValue value
        → wire_type value ≢ wt_string
        → Reads (read_raw_value (wire_type value) max_size) (wire_bytes value) (wire_bytes value)
    raw (as_varint v) h n = read_raw_value-varint max_size v hm h
    raw (as_64bit v) h n = pb_read-Reads buffer (bytes64 v)
    raw (as_string body) h n = absurd (n refl)
    raw (as_32bit v) h n = pb_read-Reads buffer (bytes32 v)
