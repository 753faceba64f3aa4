-- ===== src/Nanopb/DecodeScalar/Safe.antt =====
-- The scalar decoders on a stream over a buffer: they read nothing outside it, and what they store
-- is in the range of the field's type.
use native.Mathlib.Nat.{mod-lt, pow-suc, one-le-pow}
use logoguess.Common.{ℕ, zero, suc, ◌-◌, ◌*◌, ◌/◌, ◌%◌, ◌^◌, ◌<◌, ◌≡◌, ap, arith, bit_and, bit_or}
use logoguess.Common.{List, ltb, ◌==◌, get_or, Bool-cases, inl, inr, ltb→lt, ltb-false→le}
use logoguess.Common.Bits.{bit_or-lt}
use logoguess.Common.Int.{to_signed, IsInt}
use logoguess.Nanopb.IStream.{IStream, buffer}
use logoguess.Nanopb.IStream.Safe.{IsBuffer, Advance-refl, Runs, returns, Runs-bind}
use logoguess.Nanopb.IStream.SafeReads.{pb_read-Runs}
use logoguess.Nanopb.Wire.Safe.{pb_decode_varint-Runs}
use logoguess.Nanopb.DecodeScalar.{
  unzigzag, pb_decode_svarint, shifted32, word32, pb_decode_fixed32,
}
use logoguess.Nanopb.DecodeScalar.{shifted64, word64, pb_decode_fixed64}

word32-lt : (bytes : List ℕ) → word32 bytes < 2 ^ 32
unfolding word32
word32-lt bytes = or (or (or (cut 0 0) (cut 1 8)) (cut 2 16)) (cut 3 24)
  where
    or : {a b : ℕ} → a < 2 ^ 32 → b < 2 ^ 32 → bit_or a b < 2 ^ 32
    or {a} {b} = bit_or-lt 32 a b

    cut : (i k : ℕ) → shifted32 bytes i k < 2 ^ 32
    cut i k = mod-lt (get_or bytes i 0 * 2 ^ k) (omega arith)

word64-lt : (bytes : List ℕ) → word64 bytes < 2 ^ 64
unfolding word64
word64-lt bytes =
    or
      (or (or (or (or (or (or (cut 0 0) (cut 1 8)) (cut 2 16)) (cut 3 24)) (cut 4 32)) (cut 5 40))
        (cut 6 48))
      (cut 7 56)
  where
    or : {a b : ℕ} → a < 2 ^ 64 → b < 2 ^ 64 → bit_or a b < 2 ^ 64
    or {a} {b} = bit_or-lt 64 a b

    cut : (i k : ℕ) → shifted64 bytes i k < 2 ^ 64
    cut i k = mod-lt (get_or bytes i 0 * 2 ^ k) (omega arith)

pub pb_decode_fixed32-Runs :
    (s : IStream) → IsBuffer s → Runs (λ v. v < 2 ^ 32) s (pb_decode_fixed32 s)
unfolding pb_decode_fixed32
pb_decode_fixed32-Runs s h =
    Runs-bind (pb_read-Runs buffer 4 s h)
      λ bytes t hb ht. returns (word32-lt bytes) (Advance-refl ht)

pub pb_decode_fixed64-Runs :
    (s : IStream) → IsBuffer s → Runs (λ v. v < 2 ^ 64) s (pb_decode_fixed64 s)
unfolding pb_decode_fixed64
pb_decode_fixed64-Runs s h =
    Runs-bind (pb_read-Runs buffer 8 s h)
      λ bytes t hb ht. returns (word64-lt bytes) (Advance-refl ht)

to_signed-suc-IsInt : (k v : ℕ) → IsInt (suc k) (to_signed (suc k) v)
to_signed-suc-IsInt k v = elim (Bool-cases (ltb (v % 2 ^ suc k) (2 ^ (suc k - 1)))) [
  | inl low ↦ rw low (ltb→lt _ _ low)
  | inr high ↦ rw high (
      omega (
        arith,
        ltb-false→le (v % 2 ^ suc k) (2 ^ (suc k - 1)) high,
        pow-suc 2 k,
        one-le-pow k 2,
        half k,
      ))
]
  where
    half : (k : ℕ) → 2 ^ (suc k - 1) ≡ 2 ^ k
    half k = ap (λ (t : ℕ). 2 ^ t) (omega arith)

pub to_signed-IsInt : (w v : ℕ) → 0 < w → IsInt w (to_signed w v)
to_signed-IsInt zero v h = absurd (omega arith)
to_signed-IsInt (suc k) v h = to_signed-suc-IsInt k v

unzigzag-IsInt : (v : ℕ) → IsInt 64 (unzigzag v)
unfolding unzigzag
unzigzag-IsInt v = elim (Bool-cases (bit_and v 1 == 0)) [
  | inl even ↦ rw even (to_signed-IsInt 64 (v / 2) (omega arith))
  | inr odd ↦ rw odd (to_signed-IsInt 64 _ (omega arith))
]

pub pb_decode_svarint-Runs : (s : IStream) → IsBuffer s → Runs (IsInt 64) s (pb_decode_svarint s)
unfolding pb_decode_svarint
pb_decode_svarint-Runs s h =
    Runs-bind (pb_decode_varint-Runs s h) λ v t hv ht. returns (unzigzag-IsInt v) (Advance-refl ht)
