-- ===== src/Nanopb/Wire/Overlong.antt =====
-- pb_decode_varint32 on varints that are longer than a 32-bit value needs.
use logoguess.Common.{ℕ, suc, ◌+◌, ◌*◌, ◌/◌, ◌%◌, ◌^◌, ◌<◌, ◌≡◌, refl, ap, ◌∙◌, arith}
use logoguess.Common.{bit_or, Option, some}
use logoguess.Common.{List, [], ◌∷◌, ◌++◌}
use logoguess.Common.Bits.{bit_or-shifted}
use logoguess.Nanopb.Errors.{PbError}
use logoguess.Nanopb.IStream.{done}
use logoguess.Nanopb.IStream.Reads.{over}
use logoguess.Nanopb.Wire.{
  varint32_round, varint32_finish, varint32_loop, varint32_rest, pb_decode_varint32,
  pb_decode_varint,
}
use logoguess.Nanopb.Wire.Varint.{continues_inner, low_inner, varint_round_inner, varint_round_last}
use logoguess.Nanopb.Wire.Varint32.{low_round, loop_next, loop_inner, pb_decode_varint32-cons}

-- The first five groups of `v`, all marked as having a successor, and a last group of zero.
abbrev pub padded : ℕ → List ℕ
padded v =
    (v % 128 + 128)
    ∷ (v / 2 ^ 7 % 128 + 128)
    ∷ (v / 2 ^ 14 % 128 + 128)
    ∷ (v / 2 ^ 21 % 128 + 128)
    ∷ (v / 2 ^ 28 % 128 + 128)
    ∷ 0
    ∷ []

-- The byte at bit 28 is cut off without a check if another byte follows.
cut_group :
    (fuel r g : ℕ) (mem : List ℕ) (n : ℕ) (e : Option PbError)
    → r < 2 ^ 28
    → varint32_loop (suc fuel) 28 r (over ((g % 128 + 128) ∷ mem) (suc n) e)
      ≡ varint32_loop fuel 35 (r + g % 16 * 2 ^ 28) (over mem n e)
cut_group fuel r g mem n e h =
    loop_next fuel 28 r _ _ mem n e (omega arith) (low_round 28 r _ (omega arith))
    ∙ rw (continues_inner g, low_inner g)
        (ap (λ (t : ℕ). varint32_loop fuel 35 t (over mem n e))
          (ap (bit_or r) (four_bits g) ∙ bit_or-shifted 28 r (g % 16) h))
  where
    four_bits : (g : ℕ) → g % 128 * 2 ^ 28 % 2 ^ 32 ≡ g % 16 * 2 ^ 28
    four_bits g = omega arith

zero_group :
    (fuel r : ℕ) (mem : List ℕ) (n : ℕ) (e : Option PbError)
    → varint32_loop (suc fuel) 35 r (over (0 ∷ mem) (suc n) e) ≡ done r (over mem n e)
zero_group fuel r mem n e = loop_next fuel 35 r 0 r mem n e (omega arith) passes ∙ ends
  where
    passes : varint32_round 35 r 0 ≡ some r
    passes = unfold varint32_round in refl

    ends : varint32_finish 42 r 0 (over mem n e) ≡ done r (over mem n e)
    ends = unfold varint32_finish in refl

padded_rest :
    (v : ℕ) (mem : List ℕ) (n : ℕ) (e : Option PbError)
    → varint32_rest (v % 128 + 128) (
        over
          ((v / 2 ^ 7 % 128 + 128)
            ∷ (v / 2 ^ 14 % 128 + 128)
            ∷ (v / 2 ^ 21 % 128 + 128)
            ∷ (v / 2 ^ 28 % 128 + 128)
            ∷ 0
            ∷ mem)
          (suc (suc (suc (suc (suc n)))))
          e)
      ≡ done (v % 2 ^ 32) (over mem n e)
unfolding varint32_rest
padded_rest v mem n e =
    rw (continues_inner v, low_inner v)
      (loop_inner _ 7 (v % 128) (v / 2 ^ 7) _ _ e (omega arith) (omega arith) (omega arith)
        ∙ loop_inner _ 14 _ (v / 2 ^ 14) _ _ e (omega arith) (omega arith) (omega arith)
        ∙ loop_inner _ 21 _ (v / 2 ^ 21) _ _ e (omega arith) (omega arith) (omega arith)
        ∙ cut_group _ _ (v / 2 ^ 28) _ _ e (omega arith)
        ∙ zero_group _ _ mem n e
        ∙ ap (λ (t : ℕ). done t (over mem n e)) (omega arith))

-- On the six bytes that code a value of up to 35 bits with a zero group behind it,
-- pb_decode_varint32 returns the value's low 32 bits and no error, and pb_decode_varint the value.
pub pb_decode_varint32-padded :
    (v : ℕ) (mem : List ℕ) (n : ℕ) (e : Option PbError)
    → v < 2 ^ 35
    → (pb_decode_varint32 (over (padded v ++ mem) (6 + n) e) ≡ done (v % 2 ^ 32) (over mem n e))
      × (pb_decode_varint (over (padded v ++ mem) (6 + n) e) ≡ done v (over mem n e))
unfolding pb_decode_varint32 pb_decode_varint
pb_decode_varint32-padded v mem n e h = (
  rw (six n, pb_decode_varint32, pb_decode_varint32-cons (v % 128 + 128) _ _ e)
      (padded_rest v mem n e),
  rw (six n, pb_decode_varint)
      (varint_round_inner _ 0 0 v _ _ e (omega arith) (omega arith) (omega arith)
        ∙ varint_round_inner _ 7 _ (v / 2 ^ 7) _ _ e (omega arith) (omega arith) (omega arith)
        ∙ varint_round_inner _ 14 _ (v / 2 ^ 14) _ _ e (omega arith) (omega arith) (omega arith)
        ∙ varint_round_inner _ 21 _ (v / 2 ^ 21) _ _ e (omega arith) (omega arith) (omega arith)
        ∙ varint_round_inner _ 28 _ (v / 2 ^ 28) _ _ e (omega arith) (omega arith) (omega arith)
        ∙ varint_round_last _ 35 _ 0 mem n e (omega arith) (omega arith) (omega arith) (omega arith)
        ∙ ap (λ (t : ℕ). done t (over mem n e)) (omega arith)),
)
  where
    six : (n : ℕ) → 6 + n ≡ suc (suc (suc (suc (suc (suc n)))))
    six n = omega arith
