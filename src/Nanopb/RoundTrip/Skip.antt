-- ===== src/Nanopb/RoundTrip/Skip.antt =====
-- pb_skip_field and read_raw_value on what the encoders write.
use native.Mathlib.Nat.{suc-add}
use native.Mathlib.Numerals.{one-add}
use logoguess.Common.{
  ℕ, zero, suc, ◌+◌, ◌/◌, ◌%◌, ◌^◌, ◌≤◌, ◌<◌, ◌≡◌, ap, ◌∙◌, arith, ltb, Bool-cases, inl, inr,
}
use logoguess.Common.{List, [], ◌∷◌, ◌++◌, length, Option, ltb→lt, ge→ltb}
use logoguess.Nanopb.Errors.{PbError}
use logoguess.Nanopb.IStream.{done, ◌>>◌, null, pb_read, pure, and_then}
use logoguess.Nanopb.IStream.Reads.{over, Reads, Reads-then, Reads-map, pb_read_one, pb_read-Reads}
use logoguess.Nanopb.Encode.Varint.{varint, varint64, length-varint, length-varint_pos, below_pow}
use logoguess.Nanopb.Wire.{
  pb_decode_varint32, skip_varint_loop, pb_skip_varint, pb_skip_string, raw_varint_loop,
  read_raw_value,
}
use logoguess.Nanopb.Wire.Varint.{continues_last, continues_inner}
use logoguess.Nanopb.Wire.Varint32.{pb_decode_varint32-Reads}

skip_last :
    (fuel b : ℕ) (mem : List ℕ) (n : ℕ) (e : Option PbError)
    → b < 128
    → skip_varint_loop (suc fuel) (over (b ∷ mem) (suc n) e) ≡ done tt (over mem n e)
unfolding skip_varint_loop
skip_last fuel b mem n e h = rw (pb_read_one b mem n e, continues_last b h)

skip_inner :
    (fuel v : ℕ) (mem : List ℕ) (n : ℕ) (e : Option PbError)
    → skip_varint_loop (suc fuel) (over ((v % 128 + 128) ∷ mem) (suc n) e)
      ≡ skip_varint_loop fuel (over mem n e)
unfolding skip_varint_loop
skip_inner fuel v mem n e = rw (pb_read_one (v % 128 + 128) mem n e, continues_inner v)

skip_varint_loop-varint :
    (more fuel v : ℕ) (mem : List ℕ) (n : ℕ) (e : Option PbError)
    → length (varint more v) ≤ fuel
    → v < 128 ^ suc more
    → skip_varint_loop fuel (over (varint more v ++ mem) (length (varint more v) + n) e)
      ≡ done tt (over mem n e)
unfolding varint
skip_varint_loop-varint more zero v mem n e hf hv = absurd (omega (arith, length-varint_pos more v))
skip_varint_loop-varint zero (suc fuel) v mem n e hf hv =
    rw one-add (skip_last fuel v mem n e (omega arith))
skip_varint_loop-varint (suc more) (suc fuel) v mem n e hf hv = elim (Bool-cases (ltb v 128)) [
  | inl small ↦ rw (small, one-add) (skip_last fuel v mem n e (ltb→lt v 128 small))
  | inr large ↦
      rw (large, suc-add)
        (skip_inner fuel v _ _ e
          ∙ skip_varint_loop-varint more fuel (v / 128) mem n e (omega (arith, rw large at hf))
              (below_pow more v hv))
]

pub pb_skip_varint-Reads : (v : ℕ) → v < 2 ^ 64 → Reads pb_skip_varint (varint64 v) tt
unfolding pb_skip_varint
pb_skip_varint-Reads v h mem n e = skip_varint_loop-varint 9 _ v mem n e (omega arith) (omega arith)

pub pb_skip_string-Reads :
    (body : List ℕ)
    → length body < 2 ^ 32
    → Reads pb_skip_string (varint64 (length body) ++ body) tt
unfolding pb_skip_string
pb_skip_string-Reads body h =
    Reads-then pb_decode_varint32 (λ size. pb_read null size >> pure tt) (varint64 (length body))
      body (length body) (pb_decode_varint32-Reads (length body) h)
      (Reads-map (pb_read null (length body)) (λ _. tt) body [] (pb_read-Reads null body))

raw_last :
    (fuel size max b : ℕ) (mem : List ℕ) (n : ℕ) (e : Option PbError)
    → size < max
    → b < 128
    → raw_varint_loop (suc fuel) size max (over (b ∷ mem) (suc n) e) ≡ done (b ∷ []) (over mem n e)
unfolding raw_varint_loop
raw_last fuel size max b mem n e hs h =
    rw (ge→ltb max (size + 1) (omega arith), pb_read_one b mem n e, continues_last b h)

raw_inner :
    (fuel size max v : ℕ) (mem : List ℕ) (n : ℕ) (e : Option PbError)
    → size < max
    → raw_varint_loop (suc fuel) size max (over ((v % 128 + 128) ∷ mem) (suc n) e)
      ≡ and_then
          (raw_varint_loop fuel (size + 1) max (over mem n e))
          (λ rest. pure ((v % 128 + 128) ∷ rest))
unfolding raw_varint_loop
raw_inner fuel size max v mem n e hs =
    rw (ge→ltb max (size + 1) (omega arith), pb_read_one (v % 128 + 128) mem n e, continues_inner v)

raw_varint_loop-varint :
    (more fuel size max v : ℕ) (mem : List ℕ) (n : ℕ) (e : Option PbError)
    → length (varint more v) ≤ fuel
    → size + length (varint more v) ≤ max
    → v < 128 ^ suc more
    → raw_varint_loop fuel size max (over (varint more v ++ mem) (length (varint more v) + n) e)
      ≡ done (varint more v) (over mem n e)
unfolding varint
raw_varint_loop-varint more zero size max v mem n e hf hs hv =
    absurd (omega (arith, length-varint_pos more v))
raw_varint_loop-varint zero (suc fuel) size max v mem n e hf hs hv =
    rw one-add (raw_last fuel size max v mem n e (omega arith) (omega arith))
raw_varint_loop-varint (suc more) (suc fuel) size max v mem n e hf hs hv =
    elim (Bool-cases (ltb v 128)) [
      | inl small ↦
          rw (small, one-add)
            (raw_last fuel size max v mem n e (omega (arith, rw small at hs)) (ltb→lt v 128 small))
      | inr large ↦
          rw (large, suc-add)
            (raw_inner fuel size max v _ _ e (omega (arith, rw large at hs))
              ∙ ap (λ r. and_then r (λ rest. pure ((v % 128 + 128) ∷ rest)))
                  (raw_varint_loop-varint more fuel (size + 1) max (v / 128) mem n e
                    (omega (arith, rw large at hf)) (omega (arith, rw large at hs))
                    (below_pow more v hv)))
    ]

pub read_raw_value-varint :
    (max v : ℕ) → 10 ≤ max → v < 2 ^ 64 → Reads (read_raw_value 0 max) (varint64 v) (varint64 v)
unfolding read_raw_value
read_raw_value-varint max v hm h mem n e =
    raw_varint_loop-varint 9 (suc max) 0 max v mem n e (omega (arith, length-varint 9 v))
      (omega (arith, length-varint 9 v)) (omega arith)
