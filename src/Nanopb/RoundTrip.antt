-- ===== src/Nanopb/RoundTrip.antt =====
-- Encoders of pb_encode.c and decoders of pb_decode.c undo one another.
pub mod Bytes
pub mod BytesArrays
pub mod Fields
pub mod Fixed
pub mod Signed
pub mod Skip
pub mod Strings
pub mod Substream
pub mod Tags
pub mod Values
use logoguess.Common.{ℕ, ◌+◌, ◌≡◌, Option, some, List, ◌++◌, length}
use logoguess.Nanopb.Errors.{PbError}
use logoguess.Nanopb.IStream.{IStream, Decoder, done}
use logoguess.Nanopb.IStream.Reads.{over}
use logoguess.Nanopb.OStream.{OStream, Encoder, sent}
use logoguess.Nanopb.OStream.Room.{pushed}
use logoguess.Nanopb.DecodeScalar.{Stored}

-- `m` adds `bytes` to the output `s`, and `d` takes them off the front of a stream, whatever follows
-- them, and returns `a`.
abbrev pub Undoes :
    {A : Type 0} → Encoder → Decoder A → List ℕ → A → OStream → List ℕ → ℕ → Option PbError → Type 0
Undoes m d bytes a s mem n e =
    (m s ≡ sent (pushed bytes s))
    × (d (over (bytes ++ mem) (length bytes + n) e) ≡ done a (over mem n e))

-- The same of a function that stores `a` at its destination and returns true.
abbrev pub Refills :
    {A : Type 0}
    → Encoder
    → (IStream → Stored A)
    → List ℕ
    → A
    → OStream
    → List ℕ
    → ℕ
    → Option PbError
    → Type 0
Refills m d bytes a s mem n e =
    (m s ≡ sent (pushed bytes s))
    × (d (over (bytes ++ mem) (length bytes + n) e) ≡ (done tt (over mem n e), some a))
