-- ===== src/Nanopb/IStream.antt =====
-- The input streams of pb_decode.c: buf_read, pb_read, pb_readbyte and pb_istream_from_buffer.
pub mod Reads
pub mod Safe
pub mod SafeReads
pub mod Shrinks
use logoguess.Common.{ℕ, zero, suc, ◌-◌, ◌<◌, ltb, leb, ◌==◌, if◌then◌else◌, arith}
use logoguess.Common.{Bool, true, false, not, ◌&&◌, Option, none, some}
use logoguess.Common.{List, [], ◌∷◌, length, take, drop, get_or}
use logoguess.Nanopb.Errors.{PbError, end_of_stream, io_error}

-- `bool (*callback)(stream, buf, count)`. A user's callback is a function of its private state,
-- which is coded as a list of numbers, and of `count`: whether it succeeds, what it leaves in
-- `buf`, and its next state.
pub data Callback : Type 0 where
  buf_read : Callback
  custom : (List ℕ → ℕ → Bool × List ℕ × List ℕ) → Callback

-- pb_istream_t. For `buf_read`, `state` points into memory: it is the list of the bytes that stand
-- there from the pointer on, up to the end of the caller's buffer.
pub record IStream : Type 0 where
  pub callback : Callback
  pub state : List ℕ
  pub bytes_left : ℕ
  pub errmsg : Option PbError

-- What a decoding function leaves: `done` for `true` with what it stored, `failed` for `false`.
-- `fault` is no result: a read outside the buffer, or a loop that outran its fuel.
pub data Outcome {ℓ} (A : Type ℓ) : Type ℓ where
  done : A → IStream → Outcome A
  failed : IStream → Outcome A
  fault : Outcome A

abbrev pub Decoder {ℓ} : Type ℓ → Type ℓ
Decoder A = IStream → Outcome A

abbrev pub pure {ℓ} : {A : Type ℓ} → A → Decoder A
pure a s = done a s

module _ {ℓ κ} {A : Type ℓ} {B : Type κ} where
  abbrev pub and_then : Outcome A → (A → Decoder B) → Outcome B
  and_then (done a s) f = f a s
  and_then (failed s) f = failed s
  and_then fault f = fault

  infixl 5 ◌>>=◌ ◌>>◌
  abbrev pub ◌>>=◌ : Decoder A → (A → Decoder B) → Decoder B
  m >>= f = λ s. and_then (m s) f

  abbrev pub ◌>>◌ : Decoder A → Decoder B → Decoder B
  m >> k = m >>= λ _. k

-- PB_SET_ERROR: the first message stays.
abbrev pub first_error : Option PbError → PbError → Option PbError
first_error none e = some e
first_error (some old) e = some old

-- PB_RETURN_ERROR.
abbrev pub return_error {ℓ} : {A : Type ℓ} → PbError → Decoder A
return_error e s = failed (record s { errmsg = first_error s.errmsg e })

-- Whether `buf` is NULL.
pub data Dest : Type 0 where
  null buffer : Dest

abbrev pub kept : Dest → List ℕ → List ℕ
kept null bytes = []
kept buffer bytes = bytes

-- Bytes `source[0]` to `source[count - 1]` have to lie in the buffer.
unfoldable pub buf_read_call : Dest → ℕ → Decoder (List ℕ)
buf_read_call dest count s =
    if leb count (length s.state)
    then done (kept dest (take count s.state)) (record s { state = drop count s.state })
    else fault

abbrev pub custom_reply : Dest → Bool × List ℕ × List ℕ → Decoder (List ℕ)
custom_reply dest (ok, bytes, next) s =
    if ok
    then done (kept dest bytes) (record s { state = next })
    else return_error io_error (record s { state = next })

-- `stream->callback(stream, buf, count)`, or "io error".
abbrev call_back : Callback → Dest → ℕ → Decoder (List ℕ)
call_back buf_read dest count s = buf_read_call dest count s
call_back (custom f) dest count s = custom_reply dest (f s.state count) s

abbrev take_off : ℕ → IStream → IStream
take_off count s = record s { bytes_left = s.bytes_left - count }

-- pb_read from the test of `bytes_left` on.
unfoldable pub read_block : Dest → ℕ → Decoder (List ℕ)
unfolding buf_read_call
read_block dest count s =
    if ltb s.bytes_left count
    then return_error end_of_stream s
    else and_then (call_back s.callback dest count s) λ bytes s'. done bytes (take_off count s')

-- pb_read into a buffer.
unfoldable pub read_buffer : ℕ → Decoder (List ℕ)
unfolding read_block
read_buffer count s = if count == 0 then done [] s else read_block buffer count s

-- The loop that skips through `tmp`, sixteen bytes at a time; a round for each byte is enough.
unfoldable pub skip_chunks : ℕ → ℕ → Decoder (List ℕ)
unfolding read_buffer
skip_chunks zero count s = fault
skip_chunks (suc fuel) count s =
    let more = and_then (read_buffer 16 s) λ _ s'. skip_chunks fuel (count - 16) s' in
    if ltb 16 count then more else and_then (read_buffer count s) λ _ s'. done [] s'

abbrev is_buf_read : Callback → Bool
is_buf_read buf_read = true
is_buf_read (custom f) = false

abbrev pub is_null : Dest → Bool
is_null null = true
is_null buffer = false

-- pb_read: the bytes that stand in `buf` afterwards, none for a null `buf`.
unfoldable pub pb_read : Dest → ℕ → Decoder (List ℕ)
unfolding read_block skip_chunks
pb_read dest count s =
    if count == 0
    then done [] s
    else if is_null dest && not (is_buf_read s.callback)
    then skip_chunks (suc count) count s
    else read_block dest count s

-- pb_readbyte.
unfoldable pub pb_readbyte : Decoder ℕ
unfolding buf_read_call
pb_readbyte s =
    if s.bytes_left == 0
    then return_error end_of_stream s
    else and_then (call_back s.callback buffer 1 s)
        λ bytes s'. done (get_or bytes 0 0) (take_off 1 s')

-- pb_istream_from_buffer, over the memory from `buf` on.
unfoldable pub pb_istream_from_buffer : List ℕ → ℕ → IStream
pb_istream_from_buffer buf bufsize = record {
  callback = buf_read;
  state = buf;
  bytes_left = bufsize;
  errmsg = none;
}
