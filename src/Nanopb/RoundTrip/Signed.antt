-- ===== src/Nanopb/RoundTrip/Signed.antt =====
-- Signed values: zigzag, and the integer types that a field's data_size selects.
use native.Mathlib.Nat.{one-le-pow, mod-lt, mod-eq_of_lt}
use logoguess.Common.{ℕ, ◌+◌, ◌-◌, ◌*◌, ◌%◌, ◌^◌, ◌<◌, ◌≡◌, refl, arith, bit_and, ltb, ◌==◌}
use logoguess.Common.{
  if◌then◌else◌, some, ◌⊎◌, inl, inr, true, Bool, Bool-cases, ltb→lt, lt→ltb, ltb-false→le,
}
use logoguess.Common.Bits.{bit_and-mask}
use logoguess.Common.Int.{ℤ, pos, negsuc, to_signed, to_unsigned, IsInt, int_eq}
use logoguess.Nanopb.Encode.{zigzag}
use logoguess.Nanopb.IStream.{IStream, done, return_error}
use logoguess.Nanopb.Errors.{integer_too_large}
use logoguess.Nanopb.DecodeScalar.{unzigzag, int_width, clamp_signed, clamp_unsigned, signed_value}

-- The format: the integers 0, -1, 1, -2, … are sent as 0, 1, 2, 3, ….
abbrev pub zigzag_number : ℤ → ℕ
zigzag_number (pos n) = 2 * n
zigzag_number (negsuc n) = 2 * n + 1

pub zigzag_lem : (i : ℤ) → IsInt 64 i → zigzag i ≡ zigzag_number i
unfolding zigzag
zigzag_lem (pos n) h = omega arith
zigzag_lem (negsuc n) h = omega arith

pub zigzag-lt : (i : ℤ) → IsInt 64 i → zigzag i < 2 ^ 64
zigzag-lt (pos n) h = omega (arith, zigzag_lem (pos n) h)
zigzag-lt (negsuc n) h = omega (arith, zigzag_lem (negsuc n) h)

low_bit : (v : ℕ) → bit_and v 1 ≡ v % 2
low_bit v = bit_and-mask 1 v

pub unzigzag-number : (i : ℤ) → IsInt 64 i → unzigzag (zigzag_number i) ≡ i
unfolding unzigzag
unzigzag-number (pos n) h = ground (arith, low_bit (2 * n))
unzigzag-number (negsuc n) h = ground (arith, low_bit (2 * n + 1))

pub unzigzag-zigzag : (i : ℤ) → IsInt 64 i → unzigzag (zigzag i) ≡ i
unzigzag-zigzag i h = rw (zigzag_lem i h) (unzigzag-number i h)

-- The sizes that an integer field may have.
width_cases :
    (size w : ℕ)
    → int_width size ≡ some w
    → (size ≡ 8) × (w ≡ 64) ⊎ (size ≡ 4) × (w ≡ 32) ⊎ (size ≡ 2) × (w ≡ 16) ⊎ (size ≡ 1) × (w ≡ 8)
unfolding int_width
width_cases size w e = ground arith

narrow64 : (i : ℤ) → IsInt 64 i → to_signed 64 (to_unsigned 64 i) ≡ i
narrow64 (pos n) h = ground arith
narrow64 (negsuc n) h = ground arith

narrow32 : (i : ℤ) → IsInt 32 i → to_signed 32 (to_unsigned 64 i) ≡ i
narrow32 (pos n) h = ground arith
narrow32 (negsuc n) h = ground arith

narrow16 : (i : ℤ) → IsInt 16 i → to_signed 16 (to_unsigned 64 i) ≡ i
narrow16 (pos n) h = ground arith
narrow16 (negsuc n) h = ground arith

narrow8 : (i : ℤ) → IsInt 8 i → to_signed 8 (to_unsigned 64 i) ≡ i
narrow8 (pos n) h = ground arith
narrow8 (negsuc n) h = ground arith

pub to_unsigned-lt : (i : ℤ) → to_unsigned 64 i < 2 ^ 64
to_unsigned-lt (pos n) = omega arith
to_unsigned-lt (negsuc n) = omega arith

-- Whether `i` is a value of `intw_t`.
abbrev pub is_int : ℕ → ℤ → Bool
is_int w (pos n) = ltb n (2 ^ (w - 1))
is_int w (negsuc n) = ltb n (2 ^ (w - 1))

exact64 : (i : ℤ) → IsInt 64 i → int_eq (to_signed 64 (to_unsigned 64 i)) i ≡ is_int 64 i
exact64 (pos n) h = ground arith
exact64 (negsuc n) h = ground arith

exact32 : (i : ℤ) → IsInt 64 i → int_eq (to_signed 32 (to_unsigned 64 i)) i ≡ is_int 32 i
exact32 (pos n) h = ground arith
exact32 (negsuc n) h = ground arith

exact16 : (i : ℤ) → IsInt 64 i → int_eq (to_signed 16 (to_unsigned 64 i)) i ≡ is_int 16 i
exact16 (pos n) h = ground arith
exact16 (negsuc n) h = ground arith

exact8 : (i : ℤ) → IsInt 64 i → int_eq (to_signed 8 (to_unsigned 64 i)) i ≡ is_int 8 i
exact8 (pos n) h = ground arith
exact8 (negsuc n) h = ground arith

wide32 : (i : ℤ) → IsInt 32 i → IsInt 64 i
wide32 (pos n) h = omega arith
wide32 (negsuc n) h = omega arith

wide16 : (i : ℤ) → IsInt 16 i → IsInt 32 i
wide16 (pos n) h = omega arith
wide16 (negsuc n) h = omega arith

wide8 : (i : ℤ) → IsInt 8 i → IsInt 32 i
wide8 (pos n) h = omega arith
wide8 (negsuc n) h = omega arith

-- The narrowing to `w` bits, for the widths that a field may have.
pub record Narrows (w : ℕ) : Type 0 where
  pub keeps : (i : ℤ) → IsInt w i → to_signed w (to_unsigned 64 i) ≡ i
  pub detects : (i : ℤ) → IsInt 64 i → int_eq (to_signed w (to_unsigned 64 i)) i ≡ is_int w i
  pub widens : (i : ℤ) → IsInt w i → IsInt 64 i

pub int_width-Narrows : (size w : ℕ) → int_width size ≡ some w → Narrows w
int_width-Narrows size w e = elim (width_cases size w e) [
  | inl (a, b) ↦ rw b (record { keeps = narrow64; detects = exact64; widens = λ i h. h })
  | inr (inl (a, b)) ↦ rw b (record { keeps = narrow32; detects = exact32; widens = wide32 })
  | inr (inr (inl (a, b))) ↦
      rw b (record { keeps = narrow16; detects = exact16; widens = λ i h. wide32 i (wide16 i h) })
  | inr (inr (inr (a, b))) ↦
      rw b (record { keeps = narrow8; detects = exact8; widens = λ i h. wide32 i (wide8 i h) })
]

-- pb_dec_varint reads a negative value of a narrow field through an int32_t.
pub signed_value-to_unsigned :
    (size w : ℕ) (i : ℤ)
    → int_width size ≡ some w
    → IsInt w i
    → signed_value size (to_unsigned 64 i) ≡ i
unfolding signed_value
signed_value-to_unsigned size w i e h = elim (width_cases size w e) [
  | inl (a, b) ↦ rw a (narrow64 i (rw b at h))
  | inr (inl (a, b)) ↦ rw a (narrow32 i (rw b at h))
  | inr (inr (inl (a, b))) ↦ rw a (narrow32 i (wide16 i (rw b at h)))
  | inr (inr (inr (a, b))) ↦ rw a (narrow32 i (wide8 i (rw b at h)))
]

pub clamp_signed_lem :
    (size w : ℕ) (i : ℤ) (s : IStream)
    → int_width size ≡ some w
    → IsInt 64 i
    → clamp_signed size i s ≡ (
      if is_int w i then done tt s else return_error integer_too_large s,
      some (to_signed w (to_unsigned 64 i)),
    )
unfolding clamp_signed
clamp_signed_lem size w i s e h =
    rw (e, clamp_signed) (rw ((int_width-Narrows size w e).detects i h))

pub clamp_unsigned_lem :
    (size w v : ℕ) (s : IStream)
    → int_width size ≡ some w
    → clamp_unsigned size v s
      ≡ (if ltb v (2 ^ w) then done tt s else return_error integer_too_large s, some (v % 2 ^ w))
unfolding clamp_unsigned
clamp_unsigned_lem size w v s e =
    rw (e, clamp_unsigned) (rw (fits v (2 ^ w) (one-le-pow w 2 (omega arith))))
  where
    fits : (v m : ℕ) → 0 < m → (v % m == v) ≡ ltb v m
    fits v m h = ground (arith, mod-lt v {m = m}, mod-eq_of_lt {n = v} {m = m})

is_int_of : (w : ℕ) (i : ℤ) → IsInt w i → is_int w i ≡ true
is_int_of w (pos n) h = lt→ltb n (2 ^ (w - 1)) h
is_int_of w (negsuc n) h = lt→ltb n (2 ^ (w - 1)) h

-- A value of the field's type passes the check.
pub clamp_signed_fits :
    (size w : ℕ) (i : ℤ) (s : IStream)
    → int_width size ≡ some w
    → IsInt w i
    → clamp_signed size i s ≡ (done tt s, some i)
clamp_signed_fits size w i s e h =
    let n = int_width-Narrows size w e in
    rw (clamp_signed_lem size w i s e (n.widens i h), is_int_of w i h, n.keeps i h)

to_signed-IsInt : (v : ℕ) → IsInt 32 (to_signed 32 v)
to_signed-IsInt v = elim (Bool-cases (ltb (v % 2 ^ 32) (2 ^ 31))) [
  | inl low ↦ rw low (ltb→lt _ _ low)
  | inr high ↦ rw high (omega (arith, ltb-false→le (v % 2 ^ 32) (2 ^ 31) high))
]

-- A field of four bytes takes the low half of any value.
pub clamp_signed_low_half :
    (size v : ℕ) (s : IStream)
    → size ≡ 4
    → clamp_signed size (signed_value size v) s ≡ (done tt s, some (to_signed 32 v))
unfolding signed_value int_width
clamp_signed_low_half size v s e =
    rw e (clamp_signed_fits 4 32 (to_signed 32 v) s refl (to_signed-IsInt v))
