-- ===== src/Nanopb/Wire/Safe.antt =====
-- The functions of Wire on a stream over a buffer: no read outside it, no loop without end, every
-- value in the range of its type.
use native.Mathlib.Nat.{mod-lt}
use logoguess.Common.{ℕ, zero, suc, ◌+◌, ◌-◌, ◌*◌, ◌%◌, ◌^◌, ◌≤◌, ◌<◌, ◌≡◌, refl, arith, bit_and}
use logoguess.Common.{List, length, All, some, ltb, leb, ◌==◌, ◌&&◌, not, Bool, false}
use logoguess.Common.{leb-false→lt, ltb-false→le}
use logoguess.Common.Bits.{bit_or-lt, low_seven}
use logoguess.Nanopb.Errors.{varint_overflow, invalid_wire_type}
use logoguess.Nanopb.IStream.{
  IStream, Outcome, done, failed, fault, pure, and_then, null, buffer, pb_read, pb_readbyte,
}
use logoguess.Nanopb.IStream.Safe.{IsByte, IsBuffer, Advance-refl}
use logoguess.Nanopb.IStream.Safe.{
  Runs, returns, stops, Runs-error, Runs-if, Runs-choose, Runs-option, Runs-bind, Runs-weaken,
}
use logoguess.Nanopb.IStream.SafeReads.{pb_read-Runs}
use logoguess.Nanopb.IStream.Shrinks.{pb_readbyte-bind, pb_read-bind_one}
use logoguess.Nanopb.Wire.{continues, varint32_round, varint32_finish, varint32_loop, varint32_rest}
use logoguess.Nanopb.Wire.{
  pb_decode_varint32_eof, pb_decode_varint32, varint_loop, pb_decode_varint,
}
use logoguess.Nanopb.Wire.{
  skip_varint_loop, pb_skip_varint, pb_skip_string, pb_skip_field, wt_varint, wt_64bit, wt_string,
  wt_32bit,
}
use logoguess.Nanopb.Wire.{raw_varint_loop, read_raw_value}

pub varint_loop-Runs :
    (fuel bitpos result : ℕ) (s : IStream)
    → bitpos < 71
    → 71 ≤ bitpos + 7 * fuel
    → result < 2 ^ 64
    → IsBuffer s
    → Runs (λ v. v < 2 ^ 64) s (varint_loop fuel bitpos result s)
unfolding varint_loop
varint_loop-Runs zero bitpos result s hb hf hr h = absurd (omega arith)
varint_loop-Runs (suc fuel) bitpos result s hb hf hr h =
    Runs-if (leb 64 bitpos) (λ late. Runs-error varint_overflow h)
      (λ early. pb_readbyte-bind _ s h λ b t hb' ht shorter.
        let k : bitpos < 64 = leb-false→lt 64 bitpos early in
        let r' = bit_or-lt 64 result _ hr (mod-lt (bit_and b 0x7f * 2 ^ bitpos) (omega arith)) in
        Runs-if (continues b)
          (λ more. varint_loop-Runs fuel ((bitpos + 7) % 256) _ t (omega arith) (omega arith) r' ht)
          (λ last. returns r' (Advance-refl ht)))

-- pb_decode_varint on any stream over a buffer: no access outside the buffer, no loop without end,
-- `state` and `bytes_left` in step, the first error message kept, and a uint64_t if it returns true.
pub pb_decode_varint-Runs :
    (s : IStream) → IsBuffer s → Runs (λ v. v < 2 ^ 64) s (pb_decode_varint s)
unfolding pb_decode_varint
pb_decode_varint-Runs s h = varint_loop-Runs 11 0 0 s (omega arith) (omega arith) (omega arith) h

round-IsWord32 :
    (bitpos result b r : ℕ) → result < 2 ^ 32 → varint32_round bitpos result b ≡ some r → r < 2 ^ 32
unfolding varint32_round
round-IsWord32 bitpos result b r h =
    ground (arith, bit_or-lt 32 result (bit_and b 0x7f * 2 ^ bitpos % 2 ^ 32))

finish-Runs :
    (bitpos result b : ℕ) (s : IStream)
    → result < 2 ^ 32
    → IsBuffer s
    → Runs (λ v. v < 2 ^ 32) s (varint32_finish bitpos result b s)
unfolding varint32_finish
finish-Runs bitpos result b s hr h =
    Runs-choose (bitpos == 35 && not (bit_and b 0x70 == 0)) _ _
      (λ bad. Runs-error varint_overflow h) (λ good. returns hr (Advance-refl h))

varint32_loop-Runs :
    (fuel bitpos result : ℕ) (s : IStream)
    → s.bytes_left < fuel
    → result < 2 ^ 32
    → IsBuffer s
    → Runs (λ v. v < 2 ^ 32) s (varint32_loop fuel bitpos result s)
unfolding varint32_loop
varint32_loop-Runs zero bitpos result s hf hr h = absurd (omega arith)
varint32_loop-Runs (suc fuel) bitpos result s hf hr h = pb_readbyte-bind _ s h λ b t hb ht shorter.
    Runs-option (varint32_round bitpos result b) _ (λ bad. Runs-error varint_overflow ht)
      (λ r e.
        let hr' = round-IsWord32 bitpos result b r hr e in
        Runs-if (continues b)
          (λ more. varint32_loop-Runs fuel ((bitpos + 7) % 256) r t (omega arith) hr' ht)
          (λ last. finish-Runs ((bitpos + 7) % 256) r b t hr' ht))

pub varint32_rest-Runs :
    (b : ℕ) (s : IStream) → IsByte b → IsBuffer s → Runs (λ v. v < 2 ^ 32) s (varint32_rest b s)
unfolding varint32_rest
varint32_rest-Runs b s hb h =
    Runs-if (continues b)
      (λ more.
        varint32_loop-Runs (suc s.bytes_left) 7 (bit_and b 0x7f) s (omega arith)
          (omega (arith, low_seven b)) h)
      (λ last. returns (omega arith) (Advance-refl h))

-- pb_decode_varint32 reads a byte, and the rest.
pub pb_decode_varint32_lem :
    (s : IStream) → pb_decode_varint32 s ≡ and_then (pb_readbyte s) varint32_rest
unfolding pb_decode_varint32 pb_decode_varint32_eof
pb_decode_varint32_lem s =
    elim (pb_readbyte s)
      as (λ (o : Outcome ℕ).
        (elim o as (λ _. Outcome ℕ × Bool) [
          | done byte s' ↦ (varint32_rest byte s', false)
          | failed s' ↦ (failed s', s'.bytes_left == 0)
          | fault ↦ (fault, false)
        ]).0
        ≡ and_then o varint32_rest) [ failed t ↦ refl | fault ↦ refl | done b t ↦ refl ]

-- pb_decode_varint32 on any stream over a buffer: no access outside the buffer, no loop without
-- end, `state` and `bytes_left` in step, the first error message kept, and a uint32_t if it returns
-- true.
pub pb_decode_varint32-Runs :
    (s : IStream) → IsBuffer s → Runs (λ v. v < 2 ^ 32) s (pb_decode_varint32 s)
pb_decode_varint32-Runs s h =
    rw (pb_decode_varint32_lem s)
      (pb_readbyte-bind _ s h λ b t hb ht shorter. varint32_rest-Runs b t hb ht)

skip_varint_loop-Runs :
    (fuel : ℕ) (s : IStream)
    → s.bytes_left < fuel
    → IsBuffer s
    → Runs (λ _. Unit {0}) s (skip_varint_loop fuel s)
unfolding skip_varint_loop
skip_varint_loop-Runs zero s hf h = absurd (omega arith)
skip_varint_loop-Runs (suc fuel) s hf h = pb_read-bind_one _ s h λ b t hb ht shorter.
    Runs-if (continues b) (λ more. skip_varint_loop-Runs fuel t (omega arith) ht)
      (λ last. returns tt (Advance-refl ht))

pb_skip_varint-Runs : (s : IStream) → IsBuffer s → Runs (λ _. Unit {0}) s (pb_skip_varint s)
unfolding pb_skip_varint
pb_skip_varint-Runs s h = skip_varint_loop-Runs (suc s.bytes_left) s (omega arith) h

skip_bytes-Runs :
    (count : ℕ) (s : IStream)
    → IsBuffer s
    → Runs (λ _. Unit {0}) s (and_then (pb_read null count s) λ _. pure tt)
skip_bytes-Runs count s h =
    Runs-bind (pb_read-Runs null count s h) λ bytes t hb ht. returns tt (Advance-refl ht)

pb_skip_string-Runs : (s : IStream) → IsBuffer s → Runs (λ _. Unit {0}) s (pb_skip_string s)
unfolding pb_skip_string
pb_skip_string-Runs s h =
    Runs-bind (pb_decode_varint32-Runs s h) λ size t hs ht. skip_bytes-Runs size t ht

-- pb_skip_field of any wire type on any stream over a buffer: no access outside the buffer, no loop
-- without end, `state` and `bytes_left` in step, and the first error message kept.
pub pb_skip_field-Runs :
    (wire_type : ℕ) (s : IStream) → IsBuffer s → Runs (λ _. Unit {0}) s (pb_skip_field wire_type s)
unfolding pb_skip_field
pb_skip_field-Runs wire_type s h =
    Runs-choose (wire_type == wt_varint) _ _ (λ _. pb_skip_varint-Runs s h)
      (λ _.
        Runs-choose (wire_type == wt_64bit) _ _ (λ _. skip_bytes-Runs 8 s h)
          (λ _.
            Runs-choose (wire_type == wt_string) _ _ (λ _. pb_skip_string-Runs s h)
              (λ _.
                Runs-choose (wire_type == wt_32bit) _ _ (λ _. skip_bytes-Runs 4 s h)
                  (λ _. Runs-error invalid_wire_type h))))

-- Bytes that fit a buffer of `max` bytes.
abbrev pub FitsIn : ℕ → List ℕ → Type 0
FitsIn max bytes = (length bytes ≤ max) × All IsByte bytes

raw_varint_loop-Runs :
    (fuel size max : ℕ) (s : IStream)
    → size ≤ max
    → max < size + fuel
    → IsBuffer s
    → Runs (λ bytes. FitsIn (max - size) bytes) s (raw_varint_loop fuel size max s)
unfolding raw_varint_loop
raw_varint_loop-Runs zero size max s hs hf h = absurd (omega arith)
raw_varint_loop-Runs (suc fuel) size max s hs hf h =
    Runs-if (ltb max (size + 1)) (λ full. stops (Advance-refl h))
      (λ fits. pb_read-bind_one _ s h λ b t hb ht shorter.
        let room = ltb-false→le max (size + 1) fits in
        Runs-if (continues b)
          (λ more.
            Runs-bind (raw_varint_loop-Runs fuel (size + 1) max t (omega arith) (omega arith) ht)
              λ rest u hr hu. returns (omega (arith, hr.0), (hb, hr.1)) (Advance-refl hu))
          (λ last. returns (omega arith, (hb, tt)) (Advance-refl ht)))

read_bytes-Runs :
    (count max : ℕ) (s : IStream)
    → count ≤ max
    → IsBuffer s
    → Runs (FitsIn max) s (pb_read buffer count s)
read_bytes-Runs count max s hc h =
    Runs-weaken (λ bytes r. (omega (arith, r.wide), r.octets)) (pb_read-Runs buffer count s h)

-- read_raw_value of any wire type, into a buffer of `max` bytes, eight or more, on any stream over a
-- buffer: no access outside the stream's buffer, no loop without end, `state` and `bytes_left` in
-- step, the first error message kept, and no more than `max` bytes stored if it returns true.
pub read_raw_value-Runs :
    (wire_type max : ℕ) (s : IStream)
    → 8 ≤ max
    → IsBuffer s
    → Runs (FitsIn max) s (read_raw_value wire_type max s)
unfolding read_raw_value
read_raw_value-Runs wire_type max s hm h =
    Runs-choose (wire_type == wt_varint) _ _
      (λ _.
        Runs-weaken (λ bytes r. (omega (arith, r.0), r.1))
          (raw_varint_loop-Runs (suc max) 0 max s (omega arith) (omega arith) h))
      (λ _.
        Runs-choose (wire_type == wt_64bit) _ _ (λ _. read_bytes-Runs 8 max s (omega arith) h)
          (λ _.
            Runs-choose (wire_type == wt_32bit) _ _ (λ _. read_bytes-Runs 4 max s (omega arith) h)
              (λ _. Runs-error invalid_wire_type h)))
