-- ===== src/Nanopb/Wire/Varint32.antt =====
-- pb_decode_varint32 on varints of 32-bit values, and on varints that are too long.
use native.Mathlib.Nat.{suc-add}
use native.Mathlib.Numerals.{one-add}
use logoguess.Common.{ℕ, zero, suc, ◌+◌, ◌*◌, ◌/◌, ◌%◌, ◌^◌, ◌≤◌, ◌<◌, ◌≡◌, ap, ◌∙◌, arith}
use logoguess.Common.{
  bit_and, bit_or, ltb, ◌==◌, if◌then◌else◌, Option, some, Bool, false, Bool-cases,
}
use logoguess.Common.{List, ◌∷◌, ◌++◌, length, inl, inr, ltb→lt, lt→leb, ltb-false→le, ==_iff}
use logoguess.Common.Bits.{bit_or-shl, bit_and-mask, bit_and-shifted}
use logoguess.Nanopb.Errors.{PbError}
use logoguess.Nanopb.IStream.{IStream, Outcome, done}
use logoguess.Nanopb.IStream.Reads.{over, pb_readbyte-cons, Reads}
use logoguess.Nanopb.Wire.{
  continues, varint32_round, varint32_finish, varint32_loop, varint32_rest, pb_decode_varint32_eof,
  pb_decode_varint32,
}
use logoguess.Nanopb.Wire.Varint.{
  continues_last, continues_inner, low_inner, low_last, pow_seven, split_group, group_fits,
}
use logoguess.Nanopb.Encode.Varint.{
  varint, varint64, below_pow, varint_enough, varint_one, varint_cons, length-varint_pos,
}

pub low_round :
    (k r b : ℕ) → k < 32 → varint32_round k r b ≡ some (bit_or r (bit_and b 0x7f * 2 ^ k % 2 ^ 32))
unfolding varint32_round
low_round k r b h = rw (lt→leb k 32 h)

pub loop_next :
    (fuel k r b r' : ℕ) (mem : List ℕ) (n : ℕ) (e : Option PbError)
    → k < 64
    → varint32_round k r b ≡ some r'
    → varint32_loop (suc fuel) k r (over (b ∷ mem) (suc n) e) ≡ (
        if continues b
        then varint32_loop fuel (k + 7) r' (over mem n e)
        else varint32_finish (k + 7) r' b (over mem n e))
unfolding varint32_loop
loop_next fuel k r b r' mem n e h round = ground (arith, pb_readbyte-cons b mem n e)

mask_70 : (b : ℕ) → bit_and b 0x70 ≡ b / 16 % 8 * 16
mask_70 b = omega (arith, bit_and-shifted 4 b 7, bit_and-mask 3 (b / 2 ^ 4))

finish_fits : (k r b : ℕ) → b * 2 ^ k < 2 ^ 32 → (s : _) → varint32_finish (k + 7) r b s ≡ done r s
unfolding varint32_finish
finish_fits k r b h s = elim (Bool-cases (k + 7 == 35)) [
  | inl at_28 ↦ rw (four_bits k b h (omega (arith, (==_iff (k + 7) 35).0 at_28))) (ground arith)
  | inr early ↦ rw early
]
  where
    four_bits : (k b : ℕ) → b * 2 ^ k < 2 ^ 32 → k ≡ 28 → bit_and b 0x70 ≡ 0
    four_bits k b h e = let fits : b * 2 ^ 28 < 2 ^ 32 = rw e at h in omega (arith, mask_70 b)

pub loop_last :
    (fuel k r v : ℕ) (mem : List ℕ) (n : ℕ) (e : Option PbError)
    → k < 32
    → v < 128
    → r < 2 ^ k
    → v * 2 ^ k < 2 ^ 32
    → varint32_loop (suc fuel) k r (over (v ∷ mem) (suc n) e) ≡ done (r + v * 2 ^ k) (over mem n e)
loop_last fuel k r v mem n e hk hv hr fits =
    loop_next fuel k r v _ mem n e (omega arith) (low_round k r v hk)
    ∙ rw (continues_last v hv, low_last v hv, bit_or-shl (2 ^ 32) k r v hr fits)
        (finish_fits k (r + v * 2 ^ k) v fits (over mem n e))

pub loop_inner :
    (fuel k r v : ℕ) (mem : List ℕ) (n : ℕ) (e : Option PbError)
    → k < 32
    → r < 2 ^ k
    → v % 128 * 2 ^ k < 2 ^ 32
    → varint32_loop (suc fuel) k r (over ((v % 128 + 128) ∷ mem) (suc n) e)
      ≡ varint32_loop fuel (k + 7) (r + v % 128 * 2 ^ k) (over mem n e)
loop_inner fuel k r v mem n e hk hr fits =
    loop_next fuel k r _ _ mem n e (omega arith) (low_round k r _ hk)
    ∙ rw (continues_inner v, low_inner v, bit_or-shl (2 ^ 32) k r (v % 128) hr fits)

varint32_loop-varint :
    (more fuel k r v : ℕ) (mem : List ℕ) (n : ℕ) (e : Option PbError)
    → length (varint more v) ≤ fuel
    → k + 7 * more < 32
    → r < 2 ^ k
    → v < 128 ^ suc more
    → r + v * 2 ^ k < 2 ^ 32
    → varint32_loop fuel k r (over (varint more v ++ mem) (length (varint more v) + n) e)
      ≡ done (r + v * 2 ^ k) (over mem n e)
unfolding varint
varint32_loop-varint more zero k r v mem n e hf hk hr hv fits =
    absurd (omega (arith, length-varint_pos more v))
varint32_loop-varint zero (suc fuel) k r v mem n e hf hk hr hv fits =
    rw one-add (loop_last fuel k r v mem n e (omega arith) (omega arith) hr (omega arith))
varint32_loop-varint (suc more) (suc fuel) k r v mem n e hf hk hr hv fits =
    elim (Bool-cases (ltb v 128)) [
      | inl small ↦
          rw (small, one-add)
            (loop_last fuel k r v mem n e (omega arith) (ltb→lt v 128 small) hr (omega arith))
      | inr large ↦
          rw (large, suc-add)
            (loop_inner fuel k r v _ _ e (omega arith) hr (omega (arith, split_group v k))
              ∙ varint32_loop-varint more fuel (k + 7) (r + v % 128 * 2 ^ k) (v / 128) mem n e
                  (omega (arith, rw large at hf)) (omega arith)
                  (omega (arith, pow_seven k, group_fits v k)) (below_pow more v hv)
                  (omega (arith, split_group v k))
              ∙ ap (λ (t : ℕ). done t (over mem n e)) (omega (arith, split_group v k)))
    ]

-- pb_decode_varint32 is its first byte and the rest.
pub pb_decode_varint32-cons :
    (b : ℕ) (mem : List ℕ) (n : ℕ) (e : Option PbError)
    → pb_decode_varint32_eof (over (b ∷ mem) (suc n) e) ≡ (varint32_rest b (over mem n e), false)
unfolding pb_decode_varint32_eof
pb_decode_varint32-cons b mem n e = rw (pb_readbyte-cons b mem n e, pb_decode_varint32_eof)

rest_last :
    (v : ℕ) (s : IStream)
    → v < 128
    → ◌≡◌ {A = Outcome ℕ × Bool} (varint32_rest v s, false) (done v s, false)
unfolding varint32_rest
rest_last v s h = rw (continues_last v h)

varint32_rest_inner :
    (v : ℕ) (mem : List ℕ) (n : ℕ) (e : Option PbError)
    → 128 ≤ v
    → v < 2 ^ 32
    → varint32_rest
        (v % 128 + 128)
        (over (varint 3 (v / 128) ++ mem) (length (varint 3 (v / 128)) + n) e)
      ≡ done v (over mem n e)
unfolding varint32_rest
varint32_rest_inner v mem n e big h =
    rw (continues_inner v, low_inner v)
      (varint32_loop-varint 3 _ 7 (v % 128) (v / 128) mem n e (omega arith) (omega arith)
          (omega arith) (omega arith) (omega arith)
        ∙ ap (λ (t : ℕ). done t (over mem n e)) (omega arith))

-- pb_decode_varint32_eof reads back a uint32_t that pb_encode_varint wrote, and leaves `*eof`.
pub pb_decode_varint32_eof-varint :
    (v : ℕ) (mem : List ℕ) (n : ℕ) (e : Option PbError)
    → v < 2 ^ 32
    → pb_decode_varint32_eof (over (varint64 v ++ mem) (length (varint64 v) + n) e)
      ≡ (done v (over mem n e), false)
pb_decode_varint32_eof-varint v mem n e h = elim (Bool-cases (ltb v 128)) [
  | inl small ↦
      rw (varint_one 9 v (ltb→lt v 128 small), one-add, pb_decode_varint32-cons)
        (rest_last v (over mem n e) (ltb→lt v 128 small))
  | inr large ↦
      let big = ltb-false→le v 128 large in
      rw (
        varint_cons 8 v big,
        varint_enough 3 8 (v / 128) (omega arith) (omega arith),
        suc-add,
        pb_decode_varint32-cons,
        varint32_rest_inner v mem n e big h,
      )
]

pub pb_decode_varint32-Reads : (v : ℕ) → v < 2 ^ 32 → Reads pb_decode_varint32 (varint64 v) v
unfolding pb_decode_varint32
pb_decode_varint32-Reads v h mem n e = ap (λ r. r.0) (pb_decode_varint32_eof-varint v mem n e h)
