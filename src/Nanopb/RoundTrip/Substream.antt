-- ===== src/Nanopb/RoundTrip/Substream.antt =====
-- pb_encode_string against pb_make_string_substream and pb_close_string_substream.
use native.Mathlib.Nat.{add_assoc}
use logoguess.Common.{ℕ, suc, ◌+◌, ◌^◌, ◌<◌, ◌≡◌, refl, ap, ◌∙◌, arith, ge→ltb, ◌==◌}
use logoguess.Common.{List, [], ◌∷◌, ◌++◌, length, length-append, append_assoc, Option, false}
use logoguess.Nanopb.Errors.{PbError}
use logoguess.Nanopb.IStream.{done, null, pb_read}
use logoguess.Nanopb.IStream.Reads.{over, pb_read-append}
use logoguess.Nanopb.OStream.{OStream, sent}
use logoguess.Nanopb.OStream.Room.{HasRoom, pushed, Emits, Emits-then, pb_write-Emits}
use logoguess.Nanopb.Encode.{pb_encode_string}
use logoguess.Nanopb.Encode.Varint.{varint64, pb_encode_varint-Emits}
use logoguess.Nanopb.Wire.{pb_make_string_substream, skip_left, pb_close_string_substream}
use logoguess.Nanopb.Wire.Varint32.{pb_decode_varint32-Reads}

-- A length and as many bytes.
abbrev pub delimited : List ℕ → List ℕ
delimited body = varint64 (length body) ++ body

pub pb_encode_string-Emits :
    (body : List ℕ)
    → length body < 2 ^ 64
    → Emits (pb_encode_string body (length body)) (delimited body)
unfolding pb_encode_string
pb_encode_string-Emits body h =
    Emits-then (varint64 (length body)) body (pb_encode_varint-Emits (length body) h)
      (pb_write-Emits body)

pb_make_string_substream-delimited :
    (body mem : List ℕ) (n : ℕ) (e : Option PbError)
    → length body < 2 ^ 32
    → pb_make_string_substream (over (delimited body ++ mem) (length (delimited body) + n) e)
      ≡ done (over (body ++ mem) (length body) e) (over (body ++ mem) n e)
unfolding pb_make_string_substream
pb_make_string_substream-delimited body mem n e h =
    rw
      (
        append_assoc,
        length-append,
        add_assoc,
        pb_decode_varint32-Reads (length body) h (body ++ mem) (length body + n) e,
        ge→ltb (length body + n) (length body) (omega arith),
      )
      (ap (λ (t : ℕ). done (over (body ++ mem) (length body) e) (over (body ++ mem) t e))
        (omega arith))

skip_left_lem :
    (rest mem : List ℕ) (e : Option PbError)
    → skip_left (over (rest ++ mem) (length rest) e) ≡ done [] (over mem 0 e)
unfolding skip_left
skip_left_lem [] mem e = refl
skip_left_lem (x ∷ rest) mem e =
    rw (skip_left, not_empty (length rest))
      (whole (length rest) ∙ pb_read-append null (x ∷ rest) mem 0 e)
  where
    not_empty : (n : ℕ) → (suc n == 0) ≡ false
    not_empty n = ground arith

    whole :
        (n : ℕ)
        → pb_read null (suc n) (over (x ∷ rest ++ mem) (suc n) e)
          ≡ pb_read null (suc n) (over (x ∷ rest ++ mem) (suc n + 0) e)
    whole n = ap (λ (t : ℕ). pb_read null (suc n) (over (x ∷ rest ++ mem) t e)) (omega arith)

-- Closing skips what is left of the substream.
pb_close_string_substream_lem :
    (rest mem behind : List ℕ) (n : ℕ) (e e' : Option PbError)
    → pb_close_string_substream (over (rest ++ mem) (length rest) e) (over behind n e')
      ≡ done tt (over mem n e)
unfolding pb_close_string_substream
pb_close_string_substream_lem rest mem behind n e e' =
    rw (pb_close_string_substream, skip_left_lem rest mem e)

-- pb_encode_string writes `used ++ left`, less than 2^32 bytes, to a stream with room for it. On what
-- it wrote, pb_make_string_substream cuts off a substream of just these bytes; and when the first
-- part of them was read, pb_close_string_substream skips the rest and leaves the stream behind them.
pub pb_encode_string-substream :
    (used left : List ℕ) (s : OStream) (mem : List ℕ) (n : ℕ) (e e' : Option PbError)
    → length (used ++ left) < 2 ^ 32
    → HasRoom (length (delimited (used ++ left))) s
    → let body = used ++ left in
      (pb_encode_string body (length body) s ≡ sent (pushed (delimited body) s))
      × (pb_make_string_substream (over (delimited body ++ mem) (length (delimited body) + n) e)
          ≡ done (over (body ++ mem) (length body) e) (over (body ++ mem) n e))
      × (pb_close_string_substream (over (left ++ mem) (length left) e') (over (body ++ mem) n e)
          ≡ done tt (over mem n e'))
pb_encode_string-substream used left s mem n e e' h room = (
  pb_encode_string-Emits (used ++ left) (omega arith) s room,
  pb_make_string_substream-delimited (used ++ left) mem n e h,
  pb_close_string_substream_lem left mem ((used ++ left) ++ mem) n e' e,
)
