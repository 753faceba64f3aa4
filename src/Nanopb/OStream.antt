-- ===== src/Nanopb/OStream.antt =====
-- The output streams of pb_encode.c: buf_write, pb_ostream_from_buffer, PB_OSTREAM_SIZING and
-- pb_write.
pub mod Room
pub mod Safe
use logoguess.Common.{ℕ, ◌+◌, ◌-◌, ◌%◌, ◌^◌, ltb, leb, if◌then◌else◌, Bool, true, false, ◌&&◌, ◌||◌}
use logoguess.Common.{Option, none, some, List, [], ◌++◌, length, take}
use logoguess.Nanopb.Errors.{PbError, io_error, stream_full}
use logoguess.Nanopb.IStream.{first_error}

-- `bool (*callback)(stream, buf, count)`: NULL marks a sizing stream. A user's callback is a
-- function of its private state, which is coded as a list of numbers, and of the bytes in `buf`.
pub data OCallback : Type 0 where
  sizing : OCallback
  buf_write : OCallback
  custom : (List ℕ → List ℕ → Bool × List ℕ) → OCallback

-- pb_ostream_t. For `buf_write`, `state` is the list of the bytes that were stored in front of the
-- pointer, and `room` counts the bytes of the caller's buffer from the pointer on.
pub record OStream : Type 0 where
  pub callback : OCallback
  pub state : List ℕ
  pub room : ℕ
  pub max_size : ℕ
  pub bytes_written : ℕ
  pub errmsg : Option PbError

-- What an encoding function leaves: `sent` for `true`, `failed` for `false`. `fault` is no result:
-- an access outside a buffer.
pub data Emitted : Type 0 where
  sent : OStream → Emitted
  failed : OStream → Emitted
  fault : Emitted

abbrev pub Encoder : Type 0
Encoder = OStream → Emitted

abbrev pub and_then : Emitted → Encoder → Emitted
and_then (sent s) k = k s
and_then (failed s) k = failed s
and_then fault k = fault

infixl 5 ◌>>◌
abbrev pub ◌>>◌ : Encoder → Encoder → Encoder
m >> k = λ s. and_then (m s) k

abbrev pub return_error : PbError → Encoder
return_error e s = failed (record s { errmsg = first_error s.errmsg e })

-- The copy reads `count` bytes of `buf` and writes as many.
unfoldable pub buf_write_call : List ℕ → ℕ → Encoder
buf_write_call buf count s =
    if leb count (length buf) && leb count s.room
    then sent (record s { state = s.state ++ take count buf; room = s.room - count })
    else fault

abbrev pub custom_reply : Bool × List ℕ → Encoder
custom_reply (ok, next) s =
    if ok
    then sent (record s { state = next })
    else return_error io_error (record s { state = next })

-- `stream->callback(stream, buf, count)`, or "io error"; a sizing stream has no callback.
abbrev pub call_back : OCallback → List ℕ → ℕ → Encoder
call_back sizing buf count s = sent s
call_back buf_write buf count s = buf_write_call buf count s
call_back (custom f) buf count s = custom_reply (f s.state (take count buf)) s

abbrev pub has_callback : OCallback → Bool
has_callback sizing = false
has_callback buf_write = true
has_callback (custom f) = true

-- `bytes_written + count`, as a size_t of 64 bits.
abbrev pub written_after : ℕ → OStream → ℕ
written_after count s = (s.bytes_written + count) % 2 ^ 64

abbrev pub count_up : ℕ → OStream → OStream
count_up count s = record s { bytes_written = written_after count s }

unfoldable pub pb_write : List ℕ → ℕ → Encoder
unfolding buf_write_call
pb_write buf count s =
    if ltb 0 count && has_callback s.callback
    then (if ltb (written_after count s) s.bytes_written || ltb s.max_size (written_after count s)
        then return_error stream_full s
        else and_then (call_back s.callback buf count s) (λ s'. sent (count_up count s')))
    else sent (count_up count s)

-- pb_ostream_from_buffer, over a buffer of `bufsize` bytes.
unfoldable pub pb_ostream_from_buffer : ℕ → OStream
pb_ostream_from_buffer bufsize = record {
  callback = buf_write;
  state = [];
  room = bufsize;
  max_size = bufsize;
  bytes_written = 0;
  errmsg = none;
}

-- PB_OSTREAM_SIZING.
unfoldable pub pb_ostream_sizing : OStream
pb_ostream_sizing = record {
  callback = sizing;
  state = [];
  room = 0;
  max_size = 0;
  bytes_written = 0;
  errmsg = none;
}
