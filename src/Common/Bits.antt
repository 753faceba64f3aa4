-- ===== src/Common/Bits.antt =====
-- `&` with a mask of low bits and `|` of bits that do not overlap, as arithmetic.
use Prim.Native.Nat.{ℕ, zero, suc, ◌+◌, ◌-◌, ◌*◌, ◌/◌, ◌%◌, ◌^◌, ◌≤◌, ◌<◌, min, max}
use Prim.Native.Nat.{bit_and, bit_or, digits, bit_and-bitwise, bit_or-bitwise}
use mathlib.Core.Path.{◌≡◌, refl, ap, ◌∙◌}
use native.Mathlib.Nat.{pow-suc, one-le-pow, mod-eq_of_lt, div-add-mod, div-div-eq-div-mul}
use native.Mathlib.Omega.{arith}

-- The recursion that a native operation stands for runs on fuel; any fuel from the first operand
-- on gives the same result.
module _ (z : ℕ → ℕ) (f : ℕ → ℕ → ℕ) where
  digits_enough : (n m a b : ℕ) → a ≤ n → a ≤ m → digits z f n a b ≡ digits z f m a b
  digits_enough zero zero a b p q = refl
  digits_enough zero (suc m) zero b p q = refl
  digits_enough zero (suc m) (suc a) b p q = absurd (omega arith)
  digits_enough (suc n) zero zero b p q = refl
  digits_enough (suc n) zero (suc a) b p q = absurd (omega arith)
  digits_enough (suc n) (suc m) zero b p q = refl
  digits_enough (suc n) (suc m) (suc a) b p q =
      ap (λ (t : ℕ). t * 2 + f (suc a % 2) (b % 2))
        (digits_enough n m (suc a / 2) (b / 2) (omega arith) (omega arith))

pub bit_or-halves : (a b : ℕ) → bit_or a b ≡ bit_or (a / 2) (b / 2) * 2 + max (a % 2) (b % 2)
bit_or-halves zero b = omega (arith, bit_or-bitwise 0 b, bit_or-bitwise 0 (b / 2))
bit_or-halves (suc a) b = omega (
  arith,
  bit_or-bitwise (suc a) b,
  bit_or-bitwise (suc a / 2) (b / 2),
  digits_enough (λ y. y) max a (suc a / 2) (suc a / 2) (b / 2) (omega arith) (omega arith),
)

bit_and-halves : (a b : ℕ) → bit_and a b ≡ bit_and (a / 2) (b / 2) * 2 + min (a % 2) (b % 2)
bit_and-halves zero b = omega (arith, bit_and-bitwise 0 b, bit_and-bitwise 0 (b / 2))
bit_and-halves (suc a) b = omega (
  arith,
  bit_and-bitwise (suc a) b,
  bit_and-bitwise (suc a / 2) (b / 2),
  digits_enough (λ y. 0) min a (suc a / 2) (suc a / 2) (b / 2) (omega arith) (omega arith),
)

pub zero-bit_or : (b : ℕ) → bit_or 0 b ≡ b
zero-bit_or b = bit_or-bitwise 0 b

twice : (g k : ℕ) → g * 2 ^ suc k ≡ g * 2 ^ k * 2
twice g k = omega (arith, ap (λ (t : ℕ). g * t) (pow-suc 2 k))

twice_half : (g k : ℕ) → g * 2 ^ suc k / 2 ≡ g * 2 ^ k
twice_half g k = omega (arith, twice g k)

-- `r | (g << k)` is a sum when `r` lies below bit `k`.
pub bit_or-shifted : (k r g : ℕ) → r < 2 ^ k → bit_or r (g * 2 ^ k) ≡ r + g * 2 ^ k
bit_or-shifted zero r g h =
    let e : r ≡ 0 = omega arith in
    ap (λ (t : ℕ). bit_or t (g * 2 ^ 0)) e ∙ omega (arith, zero-bit_or (g * 2 ^ 0))
bit_or-shifted (suc k) r g h = omega (
  arith,
  bit_or-halves r (g * 2 ^ suc k),
  twice g k,
  pow-suc 2 k,
  ap (λ (t : ℕ). bit_or (r / 2) t) (twice_half g k),
  bit_or-shifted k (r / 2) g (omega (arith, pow-suc 2 k)),
)

bit_or_comm_below : (n a b : ℕ) → a + b ≤ n → bit_or a b ≡ bit_or b a
bit_or_comm_below zero a b h = rw (none a b h, none b a (omega arith)) refl
  where
    none : (a b : ℕ) → a + b ≤ 0 → bit_or a b ≡ 0
    none zero b h = omega (arith, zero-bit_or b)
    none (suc a) b h = absurd (omega arith)
bit_or_comm_below (suc n) zero zero h = refl
bit_or_comm_below (suc n) (suc a) b h = omega (
  arith,
  bit_or-halves (suc a) b,
  bit_or-halves b (suc a),
  bit_or_comm_below n (suc a / 2) (b / 2) (omega arith),
)
bit_or_comm_below (suc n) zero (suc b) h = omega (
  arith,
  bit_or-halves 0 (suc b),
  bit_or-halves (suc b) 0,
  bit_or_comm_below n (0 / 2) (suc b / 2) (omega arith),
)

pub bit_or_comm : (a b : ℕ) → bit_or a b ≡ bit_or b a
bit_or_comm a b = bit_or_comm_below (a + b) a b (omega arith)

bit_and-zero_below : (n a : ℕ) → a ≤ n → bit_and a 0 ≡ 0
bit_and-zero_below n zero h = refl
bit_and-zero_below zero (suc a) h = absurd (omega arith)
bit_and-zero_below (suc n) (suc a) h =
    omega (arith, bit_and-halves (suc a) 0, bit_and-zero_below n (suc a / 2) (omega arith))

bit_and-zero : (a : ℕ) → bit_and a 0 ≡ 0
bit_and-zero a = bit_and-zero_below a a (omega arith)

pub mask_suc : (k : ℕ) → ((2 ^ suc k - 1) / 2 ≡ 2 ^ k - 1) × ((2 ^ suc k - 1) % 2 ≡ 1)
mask_suc k = omega (arith, pow-suc 2 k, one-le-pow k 2)

pub div_suc : (k a : ℕ) → a / 2 / 2 ^ k ≡ a / 2 ^ suc k
div_suc k a = div-div-eq-div-mul a 2 (2 ^ k) ∙ ap (λ (t : ℕ). a / t) (omega (arith, pow-suc 2 k))

mod_suc : (k a : ℕ) → a % 2 ^ suc k ≡ a / 2 % 2 ^ k * 2 + a % 2
mod_suc k a = omega (
  arith,
  div-add-mod a (2 ^ suc k),
  div-add-mod (a / 2) (2 ^ k),
  ap (λ (t : ℕ). t * 2 ^ k) (div_suc k a),
  twice (a / 2 ^ suc k) k,
)

-- A mask of the `k` lowest bits is the remainder by `2 ^ k`.
pub bit_and-mask : (k a : ℕ) → bit_and a (2 ^ k - 1) ≡ a % 2 ^ k
bit_and-mask zero a = omega (arith, bit_and-zero a)
bit_and-mask (suc k) a = omega (
  arith,
  bit_and-halves a (2 ^ suc k - 1),
  (mask_suc k).1,
  ap (λ (t : ℕ). bit_and (a / 2) t) ((mask_suc k).0),
  bit_and-mask k (a / 2),
  mod_suc k a,
)

-- A mask that starts at bit `k` reads the bits from there on.
pub bit_and-shifted : (k a m : ℕ) → bit_and a (m * 2 ^ k) ≡ bit_and (a / 2 ^ k) m * 2 ^ k
bit_and-shifted zero a m = rw (over_one a, times_one m) (omega arith)
  where
    over_one : (a : ℕ) → a / 2 ^ 0 ≡ a
    over_one a = omega arith

    times_one : (m : ℕ) → m * 2 ^ 0 ≡ m
    times_one m = omega arith
bit_and-shifted (suc k) a m = omega (
  arith,
  bit_and-halves a (m * 2 ^ suc k),
  twice m k,
  ap (λ (t : ℕ). bit_and (a / 2) t) (twice_half m k),
  bit_and-shifted k (a / 2) m,
  ap (λ (t : ℕ). bit_and t m * 2 ^ k) (div_suc k a),
  twice (bit_and (a / 2 ^ suc k) m) k,
)

-- The masks of one byte.
pub low_seven : (b : ℕ) → bit_and b 0x7f ≡ b % 128
low_seven b = bit_and-mask 7 b

pub top_bit : (b : ℕ) → bit_and b 0x80 ≡ b / 128 % 2 * 128
top_bit b = omega (arith, bit_and-shifted 7 b 1, bit_and-mask 1 (b / 2 ^ 7))

pub set_top_bit : (x : ℕ) → x < 128 → bit_or x 0x80 ≡ x + 128
set_top_bit x h = bit_or-shifted 7 x 1 h

-- `r | (g << k)` on words below `w`, where nothing is cut off.
pub bit_or-shl :
    (w k r g : ℕ) → r < 2 ^ k → g * 2 ^ k < w → bit_or r (g * 2 ^ k % w) ≡ r + g * 2 ^ k
bit_or-shl w k r g h fits = ap (bit_or r) (mod-eq_of_lt fits) ∙ bit_or-shifted k r g h

pub bit_or-lt : (k a b : ℕ) → a < 2 ^ k → b < 2 ^ k → bit_or a b < 2 ^ k
bit_or-lt zero a b ha hb =
    let e : a ≡ 0 = omega arith in omega (arith, ap (λ (t : ℕ). bit_or t b) e, zero-bit_or b)
bit_or-lt (suc k) a b ha hb = omega (
  arith,
  bit_or-halves a b,
  pow-suc 2 k,
  bit_or-lt k (a / 2) (b / 2) (omega (arith, pow-suc 2 k)) (omega (arith, pow-suc 2 k)),
)
