-- ===== src/PeekPoke/Branch.antt =====
-- The inversion of a branch.
use kn_shim.Base.{
  ℕ, ◌+◌, ◌/◌, ◌%◌, ◌^◌, ◌≤◌, ◌<◌, ◌≡◌, ◌≢◌, refl, sym, ◌∙◌, true, false, some, length, ◌==◌, arith,
  bit_xor, bit_xor_twice, bit_xor-shift, bit_xor-zero, bit_xor-one, Bool,
}
use kn_shim.Dict.Blob.{Bytes}
use kn_shim.Leaf.{Outcome, done}
use kn_shim.Memory.Region.{
  bytes_of, patch, load_number, store_number_lem, length-patch, length-bytes_of, patch_twice,
  load_number-patch,
}
use kn_shim.PeekPoke.{invert_branch, invert_branch_arm}

-- The instruction at an address, and it replaced.
pub record Instruction (memory : Bytes) (a instr : ℕ) : Type 0 where
  pub there : load_number memory a 4 ≡ some instr
  pub room : a + 4 ≤ length memory
  pub word : instr < 2 ^ 32

pub replaced : Bytes → ℕ → ℕ → Bytes
replaced memory a instr = patch memory a (bytes_of 4 instr)

replaced-Instruction :
    {memory : Bytes} {a : ℕ} (instr new : ℕ)
    → Instruction memory a instr
    → new < 2 ^ 32
    → Instruction (replaced memory a new) a new
unfolding replaced
replaced-Instruction {memory} {a} instr new i small = record {
  there = load_number-patch memory a 4 new i.room small;
  room = omega (arith, i.room, length-patch memory a (bytes_of 4 new));
  word = small;
}

replaced_twice :
    (memory : Bytes) (a x y : ℕ) → replaced (replaced memory a x) a y ≡ replaced memory a y
unfolding replaced
replaced_twice memory a x y =
    patch_twice memory a (bytes_of 4 x) (bytes_of 4 y)
      (length-bytes_of 4 x ∙ sym (length-bytes_of 4 y))

-- A mask below 2 ^ k leaves the digits from number k on.
high-bit_xor : (k a mask : ℕ) → mask / 2 ^ k ≡ 0 → bit_xor a mask / 2 ^ k ≡ a / 2 ^ k
high-bit_xor k a mask h = bit_xor-shift k a mask ∙ rw h (bit_xor-zero (a / 2 ^ k))

word-bit_xor : (a mask : ℕ) → mask / 2 ^ 32 ≡ 0 → a < 2 ^ 32 → bit_xor a mask < 2 ^ 32
word-bit_xor a mask h small = omega (arith, high-bit_xor 32 a mask h)

pub data Arch : Type 0 where
  aarch64 armv7 : Arch

pub invert : Arch → Bytes → ℕ → Outcome (Bytes × Bool)
invert aarch64 = invert_branch
invert armv7 = invert_branch_arm

-- The lowest bit of the condition, which is the one that negates it.
unfoldable pub condition_bit : Arch → ℕ
condition_bit aarch64 = 1
condition_bit armv7 = 2 ^ 28

-- On AArch64 `b.cond` and `bc.cond`, on ARMv7 every instruction whose condition is neither "always"
-- nor the reserved one.
unfoldable pub Conditional : Arch → ℕ → Type 0
Conditional aarch64 instr = instr / 2 ^ 24 ≡ 0x54
Conditional armv7 instr = instr / 2 ^ 29 ≢ 7

invert_once :
    (arch : Arch) {memory : Bytes} {a instr : ℕ}
    → Instruction memory a instr
    → Conditional arch instr
    → invert arch memory a ≡ done (replaced memory a (bit_xor instr (condition_bit arch)), true)
unfolding invert_branch invert_branch_arm replaced invert Conditional condition_bit
invert_once aarch64 {memory} {a} {instr} i cond =
    let test : (instr / 2 ^ 24 == 0x54) ≡ true = ground arith in
    rw (i.there, test, store_number_lem memory a 4 (bit_xor instr 1) i.room) refl
invert_once armv7 {memory} {a} {instr} i cond =
    let test : (instr / 2 ^ 29 == 7) ≡ false = ground arith in
    rw (i.there, test, store_number_lem memory a 4 (bit_xor instr (2 ^ 28)) i.room) refl

Conditional-bit_xor :
    (arch : Arch) (instr : ℕ)
    → Conditional arch instr
    → Conditional arch (bit_xor instr (condition_bit arch))
unfolding Conditional condition_bit
Conditional-bit_xor aarch64 instr cond = high-bit_xor 24 instr 1 refl ∙ cond
Conditional-bit_xor armv7 instr cond = rw (high-bit_xor 29 instr (2 ^ 28) refl) cond

small-condition_bit : (arch : Arch) → condition_bit arch / 2 ^ 32 ≡ 0
unfolding condition_bit
small-condition_bit aarch64 = refl
small-condition_bit armv7 = refl

flips :
    (arch : Arch) (instr : ℕ)
    → bit_xor instr (condition_bit arch) / condition_bit arch % 2 + instr / condition_bit arch % 2
      ≡ 1
unfolding condition_bit
flips aarch64 instr = omega (arith, bit_xor-one instr)
flips armv7 instr = rw (bit_xor-shift 28 instr (2 ^ 28)) (bit_xor-one (instr / 2 ^ 28))

-- `invert_branch` of a conditional instruction flips the bit that negates its condition; and a
-- second one gives the first instruction back.
pub invert_twice :
    (arch : Arch) {memory : Bytes} {a instr : ℕ}
    → Instruction memory a instr
    → Conditional arch instr
    → (invert arch memory a ≡ done (replaced memory a (bit_xor instr (condition_bit arch)), true))
      × (bit_xor instr (condition_bit arch) / condition_bit arch % 2
            + instr / condition_bit arch % 2
          ≡ 1)
      × (invert arch (replaced memory a (bit_xor instr (condition_bit arch))) a
          ≡ done (replaced memory a instr, true))
invert_twice arch {memory} {a} {instr} i cond =
    let new = bit_xor instr (condition_bit arch) in
    let small : condition_bit arch / 2 ^ 32 ≡ 0 = small-condition_bit arch in
    let i' =
      replaced-Instruction instr new i (word-bit_xor instr (condition_bit arch) small i.word) in
    let back : bit_xor new (condition_bit arch) ≡ instr =
      bit_xor_twice instr (condition_bit arch) in
    (
      invert_once arch i cond,
      flips arch instr,
      invert_once arch i' (Conditional-bit_xor arch instr cond)
          ∙ rw (back, replaced_twice memory a new instr) refl,
    )
