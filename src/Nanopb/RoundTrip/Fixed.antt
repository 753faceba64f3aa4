-- ===== src/Nanopb/RoundTrip/Fixed.antt =====
-- Fixed-width values: the bytes of a word, lowest first.
use logoguess.Common.{ℕ, ◌+◌, ◌*◌, ◌/◌, ◌%◌, ◌^◌, ◌<◌, ◌≡◌, ◌∙◌, arith}
use logoguess.Common.{List, [], ◌∷◌}
use logoguess.Common.Bits.{bit_and-mask, bit_or-shl}
use logoguess.Nanopb.IStream.{buffer}
use logoguess.Nanopb.IStream.Reads.{Reads, pb_read-Reads}
use logoguess.Nanopb.OStream.Room.{Emits, pb_write-Emits}
use logoguess.Nanopb.Encode.{byte_at, pb_encode_fixed32, pb_encode_fixed64}
use logoguess.Nanopb.DecodeScalar.{word32, word64, pb_decode_fixed32, pb_decode_fixed64}

byte_at_lem : (v k : ℕ) → byte_at v k ≡ v / 2 ^ k % 256
byte_at_lem v k = bit_and-mask 8 (v / 2 ^ k)

word32_lem :
    (a b c d : ℕ)
    → a < 256
    → b < 256
    → c < 256
    → d < 256
    → word32 (a ∷ b ∷ c ∷ d ∷ []) ≡ a + b * 2 ^ 8 + c * 2 ^ 16 + d * 2 ^ 24
unfolding word32
word32_lem a b c d ha hb hc hd = rw (
  low a ha,
  bit_or-shl (2 ^ 32) 8 a b ha (omega arith),
  bit_or-shl (2 ^ 32) 16 (a + b * 2 ^ 8) c (omega arith) (omega arith),
  bit_or-shl (2 ^ 32) 24 (a + b * 2 ^ 8 + c * 2 ^ 16) d (omega arith) (omega arith),
)
  where
    low : (a : ℕ) → a < 256 → a * 2 ^ 0 % 2 ^ 32 ≡ a
    low a h = omega arith

word64_lem :
    (a b c d p q r s : ℕ)
    → a < 256
    → b < 256
    → c < 256
    → d < 256
    → p < 256
    → q < 256
    → r < 256
    → s < 256
    → word64 (a ∷ b ∷ c ∷ d ∷ p ∷ q ∷ r ∷ s ∷ [])
      ≡ a + b * 2 ^ 8 + c * 2 ^ 16 + d * 2 ^ 24 + p * 2 ^ 32 + q * 2 ^ 40 + r * 2 ^ 48 + s * 2 ^ 56
unfolding word64
word64_lem a b c d p q r s ha hb hc hd hp hq hr hs =
    let lo = a + b * 2 ^ 8 + c * 2 ^ 16 + d * 2 ^ 24 in
    rw (
      low a ha,
      bit_or-shl (2 ^ 64) 8 a b ha (omega arith),
      bit_or-shl (2 ^ 64) 16 (a + b * 2 ^ 8) c (omega arith) (omega arith),
      bit_or-shl (2 ^ 64) 24 (a + b * 2 ^ 8 + c * 2 ^ 16) d (omega arith) (omega arith),
      bit_or-shl (2 ^ 64) 32 lo p (omega arith) (omega arith),
      bit_or-shl (2 ^ 64) 40 (lo + p * 2 ^ 32) q (omega arith) (omega arith),
      bit_or-shl (2 ^ 64) 48 (lo + p * 2 ^ 32 + q * 2 ^ 40) r (omega arith) (omega arith),
      bit_or-shl (2 ^ 64) 56 (lo + p * 2 ^ 32 + q * 2 ^ 40 + r * 2 ^ 48) s (omega arith)
          (omega arith),
    )
  where
    low : (a : ℕ) → a < 256 → a * 2 ^ 0 % 2 ^ 64 ≡ a
    low a h = omega arith

abbrev pub bytes32 : ℕ → List ℕ
bytes32 v = byte_at v 0 ∷ byte_at v 8 ∷ byte_at v 16 ∷ byte_at v 24 ∷ []

abbrev pub bytes64 : ℕ → List ℕ
bytes64 v =
    byte_at v 0
    ∷ byte_at v 8
    ∷ byte_at v 16
    ∷ byte_at v 24
    ∷ byte_at v 32
    ∷ byte_at v 40
    ∷ byte_at v 48
    ∷ byte_at v 56
    ∷ []

byte_at-lt : (v k : ℕ) → byte_at v k < 256
byte_at-lt v k = omega (arith, byte_at_lem v k)

word32-bytes32 : (v : ℕ) → v < 2 ^ 32 → word32 (bytes32 v) ≡ v
word32-bytes32 v h =
    word32_lem (byte_at v 0) (byte_at v 8) (byte_at v 16) (byte_at v 24) (byte_at-lt v 0)
      (byte_at-lt v 8) (byte_at-lt v 16) (byte_at-lt v 24)
    ∙ omega (arith, byte_at_lem v 0, byte_at_lem v 8, byte_at_lem v 16, byte_at_lem v 24)

word64-bytes64 : (v : ℕ) → v < 2 ^ 64 → word64 (bytes64 v) ≡ v
word64-bytes64 v h =
    word64_lem (byte_at v 0) (byte_at v 8) (byte_at v 16) (byte_at v 24) (byte_at v 32)
      (byte_at v 40) (byte_at v 48) (byte_at v 56) (byte_at-lt v 0) (byte_at-lt v 8)
      (byte_at-lt v 16) (byte_at-lt v 24) (byte_at-lt v 32) (byte_at-lt v 40) (byte_at-lt v 48)
      (byte_at-lt v 56)
    ∙ omega (
      arith,
      byte_at_lem v 0,
      byte_at_lem v 8,
      byte_at_lem v 16,
      byte_at_lem v 24,
      byte_at_lem v 32,
      byte_at_lem v 40,
      byte_at_lem v 48,
      byte_at_lem v 56,
    )

pub pb_encode_fixed32-Emits : (v : ℕ) → Emits (pb_encode_fixed32 v) (bytes32 v)
unfolding pb_encode_fixed32
pb_encode_fixed32-Emits v = pb_write-Emits (bytes32 v)

pub pb_encode_fixed64-Emits : (v : ℕ) → Emits (pb_encode_fixed64 v) (bytes64 v)
unfolding pb_encode_fixed64
pb_encode_fixed64-Emits v = pb_write-Emits (bytes64 v)

pub pb_decode_fixed32-Reads : (v : ℕ) → v < 2 ^ 32 → Reads pb_decode_fixed32 (bytes32 v) v
unfolding pb_decode_fixed32
pb_decode_fixed32-Reads v h mem n e =
    rw (pb_read-Reads buffer (bytes32 v) mem n e, word32-bytes32 v h)

pub pb_decode_fixed64-Reads : (v : ℕ) → v < 2 ^ 64 → Reads pb_decode_fixed64 (bytes64 v) v
unfolding pb_decode_fixed64
pb_decode_fixed64-Reads v h mem n e =
    rw (pb_read-Reads buffer (bytes64 v) mem n e, word64-bytes64 v h)
