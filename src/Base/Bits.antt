-- ===== src/Base/Bits.antt =====
-- Masking by a power of two less one is a remainder. The native operations have no laws at
-- variables, so the step from one binary digit to the next comes from their definition.
use Prim.Native.Nat.{ℕ, zero, suc, ◌+◌, ◌-◌, ◌*◌, ◌/◌, ◌%◌, ◌^◌, ◌≤◌, ◌<◌, min}
use Prim.Native.Nat.{bit_and, digits, bit_and-bitwise}
use mathlib.Core.Path.{◌≡◌, refl}
use native.Mathlib.Nat.{pow-suc, mod-lt, div-add-mod, one-le-pow}
use native.Mathlib.Omega.{arith}

-- The digits of `a & b`, lowest first, with a bound on their number.
abbrev masked : ℕ → ℕ → ℕ → ℕ
masked bound a b = digits (λ _. zero) min bound a b

masked_bound : (n m a b : ℕ) → a ≤ n → a ≤ m → masked n a b ≡ masked m a b
masked_bound zero zero a b p q = refl
masked_bound zero (suc m) zero b p q = refl
masked_bound zero (suc m) (suc a) b p q = absurd (omega arith)
masked_bound (suc n) zero zero b p q = refl
masked_bound (suc n) zero (suc a) b p q = absurd (omega arith)
masked_bound (suc n) (suc m) zero b p q = refl
masked_bound (suc n) (suc m) (suc a) b p q =
    omega (arith, masked_bound n m (suc a / 2) (b / 2) (omega arith) (omega arith))

zero-bit_and : (b : ℕ) → bit_and 0 b ≡ 0
zero-bit_and b = bit_and-bitwise 0 b

pub bit_and-halves : (a b : ℕ) → bit_and a b ≡ bit_and (a / 2) (b / 2) * 2 + min (a % 2) (b % 2)
bit_and-halves zero b = omega (arith, zero-bit_and b, zero-bit_and (b / 2))
bit_and-halves (suc a) b = omega (
  arith,
  bit_and-bitwise (suc a) b,
  bit_and-bitwise (suc a / 2) (b / 2),
  masked_bound a (suc a / 2) (suc a / 2) (b / 2) (omega arith) (omega arith),
)

bit_and-zero_below : (n a : ℕ) → a ≤ n → bit_and a 0 ≡ 0
bit_and-zero_below n zero h = refl
bit_and-zero_below zero (suc a) h = absurd (omega arith)
bit_and-zero_below (suc n) (suc a) h =
    omega (arith, bit_and-halves (suc a) 0, bit_and-zero_below n (suc a / 2) (omega arith))

pub bit_and-zero : (a : ℕ) → bit_and a 0 ≡ 0
bit_and-zero a = bit_and-zero_below a a (omega arith)

-- A quotient and a remainder below the divisor are the quotient and the remainder.
pub mod_unique : (x d q r : ℕ) → x ≡ d * q + r → r < d → x % d ≡ r
mod_unique x d q r e h = grind arith

pub mod-double : (x m : ℕ) → 0 < m → x % (2 * m) ≡ 2 * (x / 2 % m) + x % 2
mod-double x m pos =
    mod_unique x (2 * m) (x / 2 / m) (2 * (x / 2 % m) + x % 2)
      (omega (arith, div-add-mod (x / 2) m)) (omega (arith, mod-lt (x / 2) pos))

bit_and-double :
    (m : ℕ)
    → 0 < m
    → ((y : ℕ) → bit_and y (m - 1) ≡ y % m)
    → (x : ℕ) → bit_and x (2 * m - 1) ≡ x % (2 * m)
bit_and-double m pos ih x =
    let half : (2 * m - 1) / 2 ≡ m - 1 = omega arith in
    rw (bit_and-halves x (2 * m - 1), half) (omega (arith, ih (x / 2), mod-double x m pos))

-- `x & (2 ^ k - 1)` is `x % 2 ^ k`.
pub bit_and-mask : (k x : ℕ) → bit_and x (2 ^ k - 1) ≡ x % 2 ^ k
bit_and-mask zero x = omega (arith, bit_and-zero x)
bit_and-mask (suc k) x =
    let e : 2 ^ suc k ≡ 2 * 2 ^ k = omega (arith, pow-suc 2 k) in
    rw e (bit_and-double (2 ^ k) (one-le-pow k 2 (omega arith)) (bit_and-mask k) x)
