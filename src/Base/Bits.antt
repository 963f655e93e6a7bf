-- ===== src/Base/Bits.antt =====
-- Masks and disjoint bits at variables. A mask of `k` ones keeps the low `k` binary digits, and the
-- or of two numbers whose digits do not overlap is their sum.
use Prim.Native.Nat.{
  ℕ, zero, suc, ◌+◌, ◌*◌, ◌/◌, ◌%◌, ◌≤◌, min, max, bit_and, bit_or, digits, bit_and-bitwise,
  bit_or-bitwise,
}
use mathlib.Core.Path.{◌≡◌, refl, ap}
use native.Mathlib.Omega.{arith}

module _ (z : ℕ → ℕ) (f : ℕ → ℕ → ℕ) (z_step : (b : ℕ) → z b ≡ z (b / 2) * 2 + f 0 (b % 2)) where
  -- More rounds than the first number has digits change nothing.
  rounds : (n m a b : ℕ) → a ≤ n → a ≤ m → digits z f n a b ≡ digits z f m a b
  rounds zero zero zero b p q = refl
  rounds zero (suc m) zero b p q = refl
  rounds (suc n) zero zero b p q = refl
  rounds (suc n) (suc m) zero b p q = refl
  rounds zero m (suc a) b p q = absurd (omega arith)
  rounds (suc n) zero (suc a) b p q = absurd (omega arith)
  rounds (suc n) (suc m) (suc a) b p q =
      omega (arith, rounds n m (suc a / 2) (b / 2) (omega arith) (omega arith))

  lowest_digit :
      (a b : ℕ) → digits z f a a b ≡ digits z f (a / 2) (a / 2) (b / 2) * 2 + f (a % 2) (b % 2)
  lowest_digit zero b = z_step b
  lowest_digit (suc a) b =
      omega (arith, rounds a (suc a / 2) (suc a / 2) (b / 2) (omega arith) (omega arith))

pub bit_and_digit : (a b : ℕ) → bit_and a b ≡ bit_and (a / 2) (b / 2) * 2 + min (a % 2) (b % 2)
bit_and_digit a b = omega (
  arith,
  bit_and-bitwise a b,
  bit_and-bitwise (a / 2) (b / 2),
  lowest_digit (λ b. zero) min (λ b. omega arith) a b,
)

pub bit_or_digit : (a b : ℕ) → bit_or a b ≡ bit_or (a / 2) (b / 2) * 2 + max (a % 2) (b % 2)
bit_or_digit a b = omega (
  arith,
  bit_or-bitwise a b,
  bit_or-bitwise (a / 2) (b / 2),
  lowest_digit (λ b. b) max (λ b. omega arith) a b,
)

-- `k` ones, the low `k` digits of a number, and a number moved up by `k` digits.
abbrev pub mask : ℕ → ℕ
mask zero = 0
mask (suc k) = mask k * 2 + 1

abbrev pub low : ℕ → ℕ → ℕ
low zero a = 0
low (suc k) a = low k (a / 2) * 2 + a % 2

abbrev pub shift : ℕ → ℕ → ℕ
shift zero b = b
shift (suc k) b = shift k b * 2

abbrev pub above : ℕ → ℕ → ℕ
above zero a = a
above (suc k) a = above k (a / 2)

bit_and-zero : (n a : ℕ) → a ≤ n → bit_and a 0 ≡ 0
bit_and-zero n zero h = bit_and-bitwise 0 0
bit_and-zero zero (suc a) h = absurd (omega arith)
bit_and-zero (suc n) (suc a) h =
    omega (arith, bit_and_digit (suc a) 0, bit_and-zero n (suc a / 2) (omega arith))

pub bit_and-mask : (k a : ℕ) → bit_and a (mask k) ≡ low k a
bit_and-mask zero a = bit_and-zero a a (omega arith)
bit_and-mask (suc k) a =
    omega (arith, bit_and_digit a (mask (suc k)), half_mask, bit_and-mask k (a / 2))
  where
    half_mask : bit_and (a / 2) (mask (suc k) / 2) ≡ bit_and (a / 2) (mask k)
    half_mask = ap (bit_and (a / 2)) (omega arith)

pub bit_or-shift : (k a b : ℕ) → above k a ≡ 0 → bit_or a (shift k b) ≡ a + shift k b
bit_or-shift zero a b h = rw h (omega (arith, bit_or-bitwise 0 b))
bit_or-shift (suc k) a b h =
    omega (arith, bit_or_digit a (shift (suc k) b), half_shift, bit_or-shift k (a / 2) b h)
  where
    half_shift : bit_or (a / 2) (shift (suc k) b / 2) ≡ bit_or (a / 2) (shift k b)
    half_shift = ap (bit_or (a / 2)) (omega arith)
