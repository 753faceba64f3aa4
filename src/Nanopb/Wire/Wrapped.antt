-- ===== src/Nanopb/Wire/Wrapped.antt =====
-- pb_decode_varint32 on a varint of so many bytes that `bitpos`, which has eight bits, wraps.
use native.Mathlib.Nat.{suc-add}
use logoguess.Common.{
  ℕ, zero, suc, ◌+◌, ◌*◌, ◌%◌, ◌^◌, ◌<◌, ◌≡◌, refl, ap, ◌∙◌, arith, bit_and, bit_or, leb, Option,
  some, Bool-cases, inl, inr,
}
use logoguess.Common.{List, ◌∷◌, ◌++◌, replicate}
use logoguess.Nanopb.Errors.{PbError}
use logoguess.Nanopb.IStream.{done}
use logoguess.Nanopb.IStream.Reads.{over, pb_readbyte-cons}
use logoguess.Nanopb.Wire.{varint32_round, varint32_loop, varint32_rest, pb_decode_varint32}
use logoguess.Nanopb.Wire.Varint32.{loop_last, pb_decode_varint32-cons}

zero_round : (k : ℕ) → varint32_round k 0 0x80 ≡ some 0
unfolding varint32_round
zero_round k = elim (Bool-cases (leb 32 k)) [
  | inl late ↦ rw late refl
  | inr early ↦ rw early (ap some (nothing (2 ^ k)))
]
  where
    nothing : (p : ℕ) → bit_or 0 (bit_and 0x80 0x7f * p % 2 ^ 32) ≡ 0
    nothing p = let z : bit_and 0x80 0x7f * p % 2 ^ 32 ≡ 0 = omega arith in ap (bit_or 0) z

zero_step :
    (fuel k : ℕ) (mem : List ℕ) (n : ℕ) (e : Option PbError)
    → varint32_loop (suc fuel) k 0 (over (0x80 ∷ mem) (suc n) e)
      ≡ varint32_loop fuel ((k + 7) % 256) 0 (over mem n e)
unfolding varint32_loop
zero_step fuel k mem n e = ground (arith, pb_readbyte-cons 0x80 mem n e, zero_round k)

zero_steps :
    (j fuel k : ℕ) (mem : List ℕ) (n : ℕ) (e : Option PbError)
    → k < 256
    → varint32_loop (j + fuel) k 0 (over (replicate j 0x80 ++ mem) (j + n) e)
      ≡ varint32_loop fuel ((k + 7 * j) % 256) 0 (over mem n e)
zero_steps zero fuel k mem n e h =
    rw (none_left fuel, none_left n)
      (ap (λ (t : ℕ). varint32_loop fuel t 0 (over mem n e)) (omega arith))
  where
    none_left : (m : ℕ) → 0 + m ≡ m
    none_left m = omega arith
zero_steps (suc j) fuel k mem n e h =
    rw (suc-add j fuel, suc-add j n)
      (zero_step (j + fuel) k _ (j + n) e
        ∙ zero_steps j fuel ((k + 7) % 256) mem n e (omega arith)
        ∙ ap (λ (t : ℕ). varint32_loop fuel t 0 (over mem n e)) (omega arith))

-- On 37 zero groups that are followed by a last group `g`, which would stand at bit 259,
-- pb_decode_varint32 takes `g` for the group at bit 3, and returns it without an error.
pub pb_decode_varint32-wrapped :
    (g : ℕ) (mem : List ℕ) (n : ℕ) (e : Option PbError)
    → g < 128
    → pb_decode_varint32 (over (replicate 37 0x80 ++ g ∷ mem) (38 + n) e)
      ≡ done (g * 8) (over mem n e)
unfolding pb_decode_varint32 varint32_rest
pb_decode_varint32-wrapped g mem n e h =
    rw (bytes n, pb_decode_varint32, pb_decode_varint32-cons 0x80 _ _ e) (in_loop n)
  where
    bytes : (n : ℕ) → 38 + n ≡ suc (36 + suc n)
    bytes n = omega arith

    in_loop :
        (n : ℕ)
        → varint32_rest 0x80 (over (replicate 36 0x80 ++ g ∷ mem) (36 + suc n) e)
          ≡ done (g * 8) (over mem n e)
    in_loop n =
        ap (λ (t : ℕ). varint32_loop t 7 0 (over (replicate 36 0x80 ++ g ∷ mem) (36 + suc n) e))
          (omega arith)
        ∙ zero_steps 36 (suc (suc n)) 7 (g ∷ mem) (suc n) e (omega arith)
        ∙ loop_last (suc n) 3 0 g mem n e (omega arith) h (omega arith) (omega arith)
        ∙ ap (λ (t : ℕ). done t (over mem n e)) (omega arith)
