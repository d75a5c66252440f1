-- ===== src/Prelude/Bits.antt =====
-- Single bits of a word. The native operations are a recursion on binary digits with fuel, from which
-- the equation for the lowest digit is taken.
use Prim.Native.Nat.{
  ℕ, zero, suc, ◌+◌, ◌*◌, ◌/◌, ◌%◌, ◌≤◌, min, max, digits, bit_and, bit_or, bit_and-bitwise,
  bit_or-bitwise,
}
use mathlib.Core.Path.{◌≡◌, refl}
use native.Mathlib.Omega.{arith}

module _ (z : ℕ → ℕ) (f : ℕ → ℕ → ℕ) where
  digits_enough : (k m a b : ℕ) → a ≤ k → a ≤ m → digits z f k a b ≡ digits z f m a b
  digits_enough k m zero b p q = digits_zero k m b
    where
      digits_zero : (k m b : ℕ) → digits z f k 0 b ≡ digits z f m 0 b
      digits_zero zero zero b = refl
      digits_zero zero (suc m) b = refl
      digits_zero (suc k) zero b = refl
      digits_zero (suc k) (suc m) b = refl
  digits_enough zero m (suc a) b p q = absurd (omega arith)
  digits_enough (suc k) zero (suc a) b p q = absurd (omega arith)
  digits_enough (suc k) (suc m) (suc a) b p q =
      rw (digits_enough k m (suc a / 2) (b / 2) (omega arith) (omega arith))

and_zero : (b : ℕ) → bit_and 0 b ≡ 0
and_zero b = bit_and-bitwise 0 b

or_zero : (b : ℕ) → bit_or 0 b ≡ b
or_zero b = bit_or-bitwise 0 b

bit_and_low : (a b : ℕ) → bit_and a b ≡ bit_and (a / 2) (b / 2) * 2 + min (a % 2) (b % 2)
bit_and_low zero b = omega (arith, and_zero b, and_zero (b / 2))
bit_and_low (suc a) b = omega (
  arith,
  bit_and-bitwise (suc a) b,
  bit_and-bitwise (suc a / 2) (b / 2),
  digits_enough (λ _. 0) min a (suc a / 2) (suc a / 2) (b / 2) (omega arith) (omega arith),
)

bit_or_low : (a b : ℕ) → bit_or a b ≡ bit_or (a / 2) (b / 2) * 2 + max (a % 2) (b % 2)
bit_or_low zero b = omega (arith, or_zero b, or_zero (b / 2))
bit_or_low (suc a) b = omega (
  arith,
  bit_or-bitwise (suc a) b,
  bit_or-bitwise (suc a / 2) (b / 2),
  digits_enough (λ c. c) max a (suc a / 2) (suc a / 2) (b / 2) (omega arith) (omega arith),
)

bit_and_none : (k a : ℕ) → a ≤ k → bit_and a 0 ≡ 0
bit_and_none k zero h = refl
bit_and_none zero (suc a) h = absurd (omega arith)
bit_and_none (suc k) (suc a) h =
    omega (arith, bit_and_low (suc a) 0, bit_and_none k (suc a / 2) (omega arith))

bit_or_none : (k a : ℕ) → a ≤ k → bit_or a 0 ≡ a
bit_or_none k zero h = refl
bit_or_none zero (suc a) h = absurd (omega arith)
bit_or_none (suc k) (suc a) h =
    omega (arith, bit_or_low (suc a) 0, bit_or_none k (suc a / 2) (omega arith))

pub bit_or-zero : (a : ℕ) → bit_or a 0 ≡ a
bit_or-zero a = bit_or_none a a (omega arith)

pub bit_and-bit_0 : (a : ℕ) → bit_and a 1 ≡ a % 2
bit_and-bit_0 a = omega (arith, bit_and_low a 1, bit_and_none (a / 2) (a / 2) (omega arith))

bit_and-double : (a m : ℕ) → bit_and a (2 * m) ≡ 2 * bit_and (a / 2) m
bit_and-double a m =
    let e : 2 * m / 2 ≡ m = omega arith in
    let s : bit_and a (2 * m) ≡ bit_and (a / 2) (2 * m / 2) * 2 + min (a % 2) (2 * m % 2) =
      bit_and_low a (2 * m) in
    let s' : bit_and a (2 * m) ≡ bit_and (a / 2) m * 2 + min (a % 2) (2 * m % 2) = rw e at s in
    omega arith

pub bit_and-bit_1 : (a : ℕ) → bit_and a 2 ≡ 2 * (a / 2 % 2)
bit_and-bit_1 a = omega (arith, bit_and-double a 1, bit_and-bit_0 (a / 2))

bit_and-bit_4 : (a : ℕ) → bit_and a 16 ≡ 16 * (a / 16 % 2)
bit_and-bit_4 a = omega (
  arith,
  bit_and-double a 8,
  bit_and-double (a / 2) 4,
  bit_and-double (a / 2 / 2) 2,
  bit_and-bit_1 (a / 2 / 2 / 2),
)

pub bit_and-bit_8 : (a : ℕ) → bit_and a 256 ≡ 256 * (a / 256 % 2)
bit_and-bit_8 a = omega (
  arith,
  bit_and-double a 128,
  bit_and-double (a / 2) 64,
  bit_and-double (a / 2 / 2) 32,
  bit_and-double (a / 2 / 2 / 2) 16,
  bit_and-bit_4 (a / 2 / 2 / 2 / 2),
)

pub bit_and-bit_9 : (a : ℕ) → bit_and a 512 ≡ 512 * (a / 512 % 2)
bit_and-bit_9 a = omega (arith, bit_and-double a 256, bit_and-bit_8 (a / 2))
