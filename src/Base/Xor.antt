-- ===== src/Base/Xor.antt =====
-- Exclusive or of native numbers: its digits, and that it undoes itself.
use Prim.Native.Nat.{ℕ, zero, suc, ◌+◌, ◌*◌, ◌/◌, ◌%◌, ◌^◌, ◌≤◌, ◌<◌}
use Prim.Native.Nat.{bit_xor, differ, digits, bit_xor-bitwise}
use mathlib.Core.Path.{◌≡◌, refl, sym, ap, ◌∙◌}
use mathlib.Core.Logic.{◌⊎◌, inl, inr}
use native.Mathlib.Nat.{pow-suc, div-div-eq-div-mul}
use native.Mathlib.Omega.{arith}

-- The digits of `a ^ b`, lowest first, with a bound on their number.
abbrev flipped : ℕ → ℕ → ℕ → ℕ
flipped bound a b = digits (λ b. b) differ bound a b

flipped_bound : (n m a b : ℕ) → a ≤ n → a ≤ m → flipped n a b ≡ flipped m a b
flipped_bound zero zero a b p q = refl
flipped_bound zero (suc m) zero b p q = refl
flipped_bound zero (suc m) (suc a) b p q = absurd (omega arith)
flipped_bound (suc n) zero zero b p q = refl
flipped_bound (suc n) zero (suc a) b p q = absurd (omega arith)
flipped_bound (suc n) (suc m) zero b p q = refl
flipped_bound (suc n) (suc m) (suc a) b p q =
    omega (arith, flipped_bound n m (suc a / 2) (b / 2) (omega arith) (omega arith))

zero-bit_xor : (b : ℕ) → bit_xor 0 b ≡ b
zero-bit_xor b = bit_xor-bitwise 0 b

bit_xor-halves : (a b : ℕ) → bit_xor a b ≡ bit_xor (a / 2) (b / 2) * 2 + differ (a % 2) (b % 2)
bit_xor-halves zero b = omega (arith, zero-bit_xor b, zero-bit_xor (b / 2))
bit_xor-halves (suc a) b = omega (
  arith,
  bit_xor-bitwise (suc a) b,
  bit_xor-bitwise (suc a / 2) (b / 2),
  flipped_bound a (suc a / 2) (suc a / 2) (b / 2) (omega arith) (omega arith),
)

differ_below : (x y : ℕ) → x < 2 → y < 2 → differ x y < 2
differ_below zero y p q = q
differ_below (suc zero) zero p q = p
differ_below (suc zero) (suc zero) p q = omega arith
differ_below (suc zero) (suc (suc y)) p q = absurd (omega arith)
differ_below (suc (suc x)) y p q = absurd (omega arith)

differ_twice : (x y : ℕ) → x < 2 → y < 2 → differ (differ x y) y ≡ x
differ_twice zero zero p q = refl
differ_twice zero (suc zero) p q = refl
differ_twice zero (suc (suc y)) p q = absurd (omega arith)
differ_twice (suc zero) zero p q = refl
differ_twice (suc zero) (suc zero) p q = refl
differ_twice (suc zero) (suc (suc y)) p q = absurd (omega arith)
differ_twice (suc (suc x)) y p q = absurd (omega arith)

differ-zero : (x : ℕ) → differ x 0 ≡ x
differ-zero zero = refl
differ-zero (suc x) = refl

-- The other digits, and the lowest one.
bit_xor-half : (a b : ℕ) → bit_xor a b / 2 ≡ bit_xor (a / 2) (b / 2)
bit_xor-half a b =
    omega (arith, bit_xor-halves a b, differ_below (a % 2) (b % 2) (omega arith) (omega arith))

bit_xor-parity : (a b : ℕ) → bit_xor a b % 2 ≡ differ (a % 2) (b % 2)
bit_xor-parity a b =
    omega (arith, bit_xor-halves a b, differ_below (a % 2) (b % 2) (omega arith) (omega arith))

bit_xor_twice_below : (n a b : ℕ) → a ≤ n → b ≤ n → bit_xor (bit_xor a b) b ≡ a
bit_xor_twice_below zero zero zero p q = refl
bit_xor_twice_below zero (suc a) b p q = absurd (omega arith)
bit_xor_twice_below zero zero (suc b) p q = absurd (omega arith)
bit_xor_twice_below (suc n) a b p q =
    let parity : differ (bit_xor a b % 2) (b % 2) ≡ a % 2 =
      rw (bit_xor-parity a b) (differ_twice (a % 2) (b % 2) (omega arith) (omega arith)) in
    let rest : bit_xor (bit_xor a b / 2) (b / 2) ≡ a / 2 =
      rw (bit_xor-half a b) (bit_xor_twice_below n (a / 2) (b / 2) (omega arith) (omega arith)) in
    omega (arith, bit_xor-halves (bit_xor a b) b, parity, rest)

-- It undoes itself.
pub bit_xor_twice : (a b : ℕ) → bit_xor (bit_xor a b) b ≡ a
bit_xor_twice a b = bit_xor_twice_below (a + b) a b (omega arith) (omega arith)

-- Digit by digit, so without the lowest ones too.
pub bit_xor-shift : (k a b : ℕ) → bit_xor a b / 2 ^ k ≡ bit_xor (a / 2 ^ k) (b / 2 ^ k)
bit_xor-shift zero a b =
    let e : (x : ℕ) → x / 2 ^ 0 ≡ x = λ x. omega arith in e (bit_xor a b) ∙ rw (e a, e b) refl
bit_xor-shift (suc k) a b =
    let e : (x : ℕ) → x / 2 ^ suc k ≡ x / 2 / 2 ^ k = λ x.
      let p : 2 ^ suc k ≡ 2 * 2 ^ k = omega (arith, pow-suc 2 k) in
      rw p (sym (div-div-eq-div-mul x 2 (2 ^ k))) in
    e (bit_xor a b)
    ∙ ap (λ x. x / 2 ^ k) (bit_xor-half a b)
    ∙ bit_xor-shift k (a / 2) (b / 2)
    ∙ rw (e a, e b) refl

bit_xor-zero_below : (n a : ℕ) → a ≤ n → bit_xor a 0 ≡ a
bit_xor-zero_below n zero h = refl
bit_xor-zero_below zero (suc a) h = absurd (omega arith)
bit_xor-zero_below (suc n) (suc a) h =
    let parity : differ (suc a % 2) 0 ≡ suc a % 2 = differ-zero (suc a % 2) in
    omega (arith, bit_xor-halves (suc a) 0, bit_xor-zero_below n (suc a / 2) (omega arith), parity)

pub bit_xor-zero : (a : ℕ) → bit_xor a 0 ≡ a
bit_xor-zero a = bit_xor-zero_below a a (omega arith)

parity-cases : (x : ℕ) → x < 2 → (x ≡ 0) ⊎ (x ≡ 1)
parity-cases zero h = inl refl
parity-cases (suc zero) h = inr refl
parity-cases (suc (suc x)) h = absurd (omega arith)

-- The lowest digit, against 1.
pub bit_xor-one : (a : ℕ) → bit_xor a 1 % 2 + a % 2 ≡ 1
bit_xor-one a = elim (parity-cases (a % 2) (omega arith)) [
  | inl e ↦ rw (bit_xor-parity a 1, e) refl
  | inr e ↦ rw (bit_xor-parity a 1, e) refl
]
