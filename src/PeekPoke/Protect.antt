-- ===== src/PeekPoke/Protect.antt =====
-- The protection of memory, of jni/util.c. mprotect is the system's and an argument: it takes an
-- address, a length and a protection, changes the system's state, and returns a status.
use native.Mathlib.Nat.{mod-le}
use kn_shim.Base.{ℕ, ◌+◌, ◌-◌, ◌%◌, ◌^◌, ◌≤◌, ◌<◌, ◌≡◌, refl, arith}

-- The address and the length that mprotect gets.
unfoldable protected : ℕ → ℕ → ℕ → ℕ × ℕ
protected page_size address length =
    let align_diff = address % page_size in (address - align_diff, (length + align_diff) % 2 ^ 64)

-- PROT_READ, PROT_WRITE and PROT_EXEC.
abbrev prot_all : ℕ
prot_all = 7

module _ {ℓ} {System : Type ℓ} (mprotect : ℕ → ℕ → ℕ → System → System × ℕ) (page_size : ℕ) where
  unfoldable set_memory_protection : ℕ → ℕ → ℕ → System → System × ℕ
  unfolding protected
  set_memory_protection address length protection system =
      let (start, size) = protected page_size address length in
      mprotect start size protection system

  unfoldable unprotect_memory : ℕ → ℕ → System → System × ℕ
  unfolding protected
  unprotect_memory address length system =
      let (start, size) = protected page_size address length in mprotect start size prot_all system

  unprotect_memory-set_memory_protection :
      (address length : ℕ) (system : System)
      → unprotect_memory address length system
        ≡ set_memory_protection address length prot_all system
  unfolding unprotect_memory set_memory_protection
  unprotect_memory-set_memory_protection address length system = refl

-- The range starts no later than the address and ends where the caller's does.
protected_range :
    (page_size address length : ℕ)
    → address + length < 2 ^ 64
    → let (start, size) = protected page_size address length in
      (start ≤ address) × (start + size ≡ address + length)
unfolding protected
protected_range page_size address length small =
    let le = mod-le address page_size in (omega arith, omega (arith, le))
