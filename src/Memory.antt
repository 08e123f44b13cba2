-- ===== src/Memory.antt =====
-- Numbers in memory, little endian as on every target of the shim.
pub mod Region
use kn_shim.Base.{
  ℕ, ◌+◌, ◌*◌, ◌/◌, ◌%◌, ◌^◌, ◌<◌, ◌≡◌, refl, ap, Option, none, some, [], ◌∷◌, length, arith,
}
use kn_shim.Dict.Blob.{Bytes}

-- The memory of a `uint32_t`, and the number in four bytes of memory.
unfoldable pub int_bytes : ℕ → Bytes
int_bytes n = n % 256 ∷ n / 2 ^ 8 % 256 ∷ n / 2 ^ 16 % 256 ∷ n / 2 ^ 24 % 256 ∷ []

unfoldable pub int_of_bytes : Bytes → Option ℕ
int_of_bytes (a ∷ b ∷ c ∷ d ∷ []) = some (a + b * 2 ^ 8 + c * 2 ^ 16 + d * 2 ^ 24)
int_of_bytes _ = none

pub int_of_bytes-int_bytes : (n : ℕ) → n < 2 ^ 32 → int_of_bytes (int_bytes n) ≡ some n
unfolding int_bytes int_of_bytes
int_of_bytes-int_bytes n h = ap some (omega arith)

pub length-int_bytes : (n : ℕ) → length (int_bytes n) ≡ 4
unfolding int_bytes
length-int_bytes n = refl

-- Four bytes are a number.
pub int_of_bytes_four : (b : Bytes) → length b ≡ 4 → (n : ℕ) × (int_of_bytes b ≡ some n)
unfolding int_of_bytes
int_of_bytes_four (a ∷ b ∷ c ∷ d ∷ []) h = (_, refl)
int_of_bytes_four [] h = absurd (omega arith)
int_of_bytes_four (a ∷ []) h = absurd (omega arith)
int_of_bytes_four (a ∷ b ∷ []) h = absurd (omega arith)
int_of_bytes_four (a ∷ b ∷ c ∷ []) h = absurd (omega arith)
int_of_bytes_four (a ∷ b ∷ c ∷ d ∷ e ∷ r) h = absurd (omega arith)
