-- ===== src/LeafHook/Sext.antt =====
-- LH_SEXT64 of jni/leafhook.h, which is written with masks, as arithmetic.
use Prim.Native.Nat.{bit_or, digits, bit_or-bitwise, max}
use native.Mathlib.Nat.{pow-suc, div-div-eq-div-mul, one-le-pow}
use kn_shim.Base.{
  ℕ, zero, suc, ◌+◌, ◌-◌, ◌*◌, ◌/◌, ◌%◌, ◌^◌, ◌≤◌, ◌<◌, ◌≡◌, refl, sym, ◌∙◌, inl, inr, true, false,
  Bool-cases, if◌then◌else◌, ltb, ◌==◌, arith, bit_and, bit_and-mask, bit_and-halves, mod-double,
}
use kn_shim.LeafHook.{sext64}

-- The digits of `a | b`, lowest first, with a bound on their number.
abbrev joined : ℕ → ℕ → ℕ → ℕ
joined bound a b = digits (λ b. b) max bound a b

joined_bound : (n m a b : ℕ) → a ≤ n → a ≤ m → joined n a b ≡ joined m a b
joined_bound zero zero a b p q = refl
joined_bound zero (suc m) zero b p q = refl
joined_bound zero (suc m) (suc a) b p q = absurd (omega arith)
joined_bound (suc n) zero zero b p q = refl
joined_bound (suc n) zero (suc a) b p q = absurd (omega arith)
joined_bound (suc n) (suc m) zero b p q = refl
joined_bound (suc n) (suc m) (suc a) b p q =
    omega (arith, joined_bound n m (suc a / 2) (b / 2) (omega arith) (omega arith))

zero-bit_or : (b : ℕ) → bit_or 0 b ≡ b
zero-bit_or b = bit_or-bitwise 0 b

bit_or-halves : (a b : ℕ) → bit_or a b ≡ bit_or (a / 2) (b / 2) * 2 + max (a % 2) (b % 2)
bit_or-halves zero b = omega (arith, zero-bit_or b, zero-bit_or (b / 2))
bit_or-halves (suc a) b = omega (
  arith,
  bit_or-bitwise (suc a) b,
  bit_or-bitwise (suc a / 2) (b / 2),
  joined_bound a (suc a / 2) (suc a / 2) (b / 2) (omega arith) (omega arith),
)

div-power : (k a : ℕ) → a / 2 ^ suc k ≡ a / 2 / 2 ^ k
div-power k a =
    let p : 2 ^ suc k ≡ 2 * 2 ^ k = omega (arith, pow-suc 2 k) in
    rw p (sym (div-div-eq-div-mul a 2 (2 ^ k)))

-- The digits from number `k` on are joined, and the lower ones are those of the second number.
bit_or-high : (k m a : ℕ) → bit_or (2 ^ k * m) a ≡ 2 ^ k * bit_or m (a / 2 ^ k) + a % 2 ^ k
bit_or-high zero m a =
    let e : a / 2 ^ 0 ≡ a = omega arith in
    let e1 : 2 ^ 0 * m ≡ m = omega arith in rw (e, e1) (omega arith)
bit_or-high (suc k) m a =
    let q = 2 ^ k in
    let half : 2 * q * m / 2 ≡ q * m = omega arith in
    let even : 2 * q * m % 2 ≡ 0 = omega arith in
    let pos = one-le-pow k 2 (omega arith) in
    let p : 2 ^ suc k ≡ 2 * q = omega (arith, pow-suc 2 k) in
    let rest : bit_or (q * m) (a / 2) ≡ q * bit_or m (a / 2 / q) + a / 2 % q =
      bit_or-high k m (a / 2) in
    let low : a % (2 * q) ≡ 2 * (a / 2 % q) + a % 2 = mod-double a q pos in
    let all = bit_or-halves (2 * q * m) a in
    rw (div-power k a) (rw (p, all, half, even, rest, low) (omega arith))

bit_and-high : (k a : ℕ) → bit_and a (2 ^ k) ≡ 2 ^ k * (a / 2 ^ k % 2)
bit_and-high zero a = let e : a / 2 ^ 0 ≡ a = omega arith in rw e (bit_and-mask 1 a ∙ omega arith)
bit_and-high (suc k) a =
    let q = 2 ^ k in
    let half : 2 * q / 2 ≡ q = omega arith in
    let even : 2 * q % 2 ≡ 0 = omega arith in
    let p : 2 ^ suc k ≡ 2 * q = omega (arith, pow-suc 2 k) in
    let all = bit_and-halves a (2 * q) in
    rw (div-power k a) (rw (p, all, half, even, bit_and-high k (a / 2)) (omega arith))

-- A number of `bits` bits with its sign, in 64 bits.
unfoldable pub extended : ℕ → ℕ → ℕ
extended bits a = if ltb a (2 ^ (bits - 1)) then a else a + (2 ^ 64 - 2 ^ bits)

-- The extension of the immediates of `adr` and `adrp`.
pub sext64-21 : (a : ℕ) → a < 2 ^ 21 → sext64 a 21 ≡ extended 21 a
unfolding sext64 extended
sext64-21 a small =
    let bit = bit_and-high 20 a in
    let high = bit_or-high 20 (2 ^ 44 - 1) a in
    elim (Bool-cases (ltb a (2 ^ 20))) [
      | inl below ↦
          let clear : (bit_and a (2 ^ 20) == 0) ≡ true = ground (arith, bit) in
          rw (clear, below) refl
      | inr above ↦
          let set : (bit_and a (2 ^ 20) == 0) ≡ false = ground (arith, bit) in
          let one : a / 2 ^ 20 ≡ 1 = ground arith in
          rw (set, above) (rw (high, one) (omega (arith, one)))
    ]

-- The extension of the immediates of a literal `ldr`.
pub sext64-19 : (a : ℕ) → a < 2 ^ 19 → sext64 a 19 ≡ extended 19 a
unfolding sext64 extended
sext64-19 a small =
    let bit = bit_and-high 18 a in
    let high = bit_or-high 18 (2 ^ 46 - 1) a in
    elim (Bool-cases (ltb a (2 ^ 18))) [
      | inl below ↦
          let clear : (bit_and a (2 ^ 18) == 0) ≡ true = ground (arith, bit) in
          rw (clear, below) refl
      | inr above ↦
          let set : (bit_and a (2 ^ 18) == 0) ≡ false = ground (arith, bit) in
          let one : a / 2 ^ 18 ≡ 1 = ground arith in
          rw (set, above) (rw (high, one) (omega (arith, one)))
    ]
