-- ===== src/LeafHook/Hook.antt =====
-- The hooking of a function on AArch64: `LHHookerAArch64Function` of jni/leafhook.h, which is all
-- that `LHHookerHookFunction` calls there.
use kn_shim.Base.{
  ℕ, zero, suc, ◌+◌, ◌-◌, ◌*◌, ◌^◌, ◌≤◌, ◌<◌, ◌≡◌, refl, ◌∙◌, ◌⊎◌, inl, inr, Bool, true, false,
  ◌&&◌, Option, none, some, List, [], ◌∷◌, length, get_or, take, drop, ltb, leb, if◌then◌else◌,
  arith,
}
use kn_shim.Dict.Blob.{Bytes}
use kn_shim.Memory.{int_bytes}
use kn_shim.Memory.Region.{number_of}
use kn_shim.LeafHook.Block.{IsBlock, rewrite_aarch64_block-IsBlock}
use kn_shim.LeafHook.{
  LhHooker, load, long_bytes, rewrite_aarch64_block, long_jump, make_ldr_literal, make_br,
  is_aarch64_ldr_literal, ldr_literal_decode_imm, ldr_literal_decode_rt, ldr_literal_decode_x,
}

-- A copy to memory.
unfoldable pub write_bytes : (ℕ → ℕ) → ℕ → Bytes → ℕ → ℕ
write_bytes memory start bytes address =
    if leb start address && ltb address (start + length bytes)
    then get_or bytes (address - start) 0
    else memory address

-- The instructions of a block.
unfoldable pub read_block : (ℕ → ℕ) → ℕ → ℕ → List ℕ
unfolding load
read_block memory address zero = []
read_block memory address (suc n) = load memory 4 address ∷ read_block memory (address + 4) n

-- LH_COPY_TO_NEW_BLOCK, and the new block's address.
unfoldable pub make_original : (ℕ → ℕ) → LhHooker → ℕ → LhHooker × (ℕ → ℕ) × ℕ
unfolding read_block rewrite_aarch64_block write_bytes
make_original memory self function =
    let (self', new_block, bytes) =
      rewrite_aarch64_block memory self function (read_block memory function 4) in
    (self', write_bytes memory new_block bytes, new_block)

-- With or without a place for the original function's address; it always succeeds, since the
-- allocator does.
unfoldable pub hook_aarch64_function :
    (ℕ → ℕ) → LhHooker → ℕ → ℕ → Bool → LhHooker × (ℕ → ℕ) × Option ℕ
unfolding make_original long_jump write_bytes
hook_aarch64_function memory self function hook false =
    (self, write_bytes memory function (long_jump hook), none)
hook_aarch64_function memory self function hook true =
    let (self', memory', orig) = make_original memory self function in
    (self', write_bytes memory' function (long_jump hook), some orig)

drop-step :
    (k : ℕ) (bytes : Bytes)
    → k < length bytes
    → drop k bytes ≡ get_or bytes k 0 ∷ drop (k + 1) bytes
drop-step k [] h = absurd (omega arith)
drop-step zero (b ∷ bs) h = refl
drop-step (suc k) (b ∷ bs) h =
    let e : suc k + 1 ≡ suc (k + 1) = omega arith in rw e (drop-step k bs (omega arith))

-- A byte that was written.
write_bytes-inside :
    (memory : ℕ → ℕ) (start k : ℕ) (bytes : Bytes)
    → k < length bytes
    → write_bytes memory start bytes (start + k) ≡ get_or bytes k 0
unfolding write_bytes
write_bytes-inside memory start k bytes h =
    let low : leb start (start + k) ≡ true = ground arith in
    let high : ltb (start + k) (start + length bytes) ≡ true = ground arith in
    let index : start + k - start ≡ k = omega arith in rw (low, high, index) refl

-- A byte that was not.
pub write_bytes-outside :
    (memory : ℕ → ℕ) (start a : ℕ) (bytes : Bytes)
    → (a < start) ⊎ (start + length bytes ≤ a)
    → write_bytes memory start bytes a ≡ memory a
unfolding write_bytes
write_bytes-outside memory start a bytes (inl h) =
    let low : leb start a ≡ false = ground arith in rw low refl
write_bytes-outside memory start a bytes (inr h) =
    let low : leb start a ≡ true = ground arith in
    let high : ltb a (start + length bytes) ≡ false = ground arith in rw (low, high) refl

-- A number that was written.
load-write_bytes :
    (memory : ℕ → ℕ) (start k count : ℕ) (bytes : Bytes)
    → k + count ≤ length bytes
    → load (write_bytes memory start bytes) count (start + k)
      ≡ number_of (take count (drop k bytes))
unfolding load number_of
load-write_bytes memory start k zero bytes h = refl
load-write_bytes memory start k (suc count) bytes h =
    let e : start + k + 1 ≡ start + (k + 1) = omega arith in
    rw
      (
        write_bytes-inside memory start k bytes (omega arith),
        drop-step k bytes (omega arith),
        e,
        load-write_bytes memory start (k + 1) count bytes (omega arith),
      )
      refl

-- The two instructions at the function are `ldr x<rt>, <4 * imm bytes ahead>` and `br x<rt>`, and
-- the eight bytes that are loaded are `target`.
pub record Jumps (memory : ℕ → ℕ) (function target : ℕ) : Type 0 where
  pub rt : ℕ
  pub imm : ℕ
  pub register : rt < 32
  pub ahead : imm < 2 ^ 18
  pub loads : load memory 4 function ≡ 0x58000000 + 32 * imm + rt
  pub branches : load memory 4 (function + 4) ≡ 0xd61f0000 + 32 * rt
  pub address : load memory 8 (function + 4 * imm) ≡ target

long_jump-Jumps :
    (memory : ℕ → ℕ) (function target : ℕ)
    → target < 2 ^ 64
    → Jumps (write_bytes memory function (long_jump target)) function target
unfolding long_jump make_ldr_literal make_br is_aarch64_ldr_literal ldr_literal_decode_imm
    ldr_literal_decode_rt ldr_literal_decode_x number_of int_bytes long_bytes
long_jump-Jumps memory function target small =
    let zero_less : function + 0 ≡ function = omega arith in
    let first : load (write_bytes memory function (long_jump target)) 4 function ≡ 0x58000050 =
      rw zero_less at (load-write_bytes memory function 0 4 (long_jump target) (omega arith)) in
    record {
      rt = 16;
      imm = 2;
      register = omega arith;
      ahead = omega arith;
      loads = first;
      branches = load-write_bytes memory function 4 4 (long_jump target) (omega arith);
      address = load-write_bytes memory function 8 8 (long_jump target) (omega arith) ∙ omega arith;
    }

load-other :
    (memory : ℕ → ℕ) (start a count : ℕ) (bytes : Bytes)
    → (a + count ≤ start) ⊎ (start + length bytes ≤ a)
    → load (write_bytes memory start bytes) count a ≡ load memory count a
unfolding load
load-other memory start a zero bytes h = refl
load-other memory start a (suc count) bytes h =
    rw
      (
        write_bytes-outside memory start a bytes (ground arith),
        load-other memory start (a + 1) count bytes (ground arith),
      )
      refl

length-long_jump : (target : ℕ) → length (long_jump target) ≡ 16
unfolding long_jump long_bytes int_bytes
length-long_jump target = refl

-- The new block that a hook of the function makes: its address and its bytes.
unfoldable pub new_block : (ℕ → ℕ) → LhHooker → ℕ → ℕ × Bytes
new_block memory self function =
    let (_, start, bytes) =
      rewrite_aarch64_block memory self function (read_block memory function 4) in
    (start, bytes)

few : (memory : ℕ → ℕ) (function : ℕ) → length (read_block memory function 4) ≤ 8
unfolding read_block
few memory function = omega arith

-- A hook for which the original function is asked for answers the address of a new block, where the
-- new block does not overlap the function's first sixteen bytes. Then the function loads the
-- hook's address and branches to it, the new block has the rewritten instructions with a jump back,
-- each number in it is in memory at its place, and a byte that is in neither is as before.
pub hook_aarch64_function-Jumps :
    (memory : ℕ → ℕ) (self : LhHooker) (function hook k count a : ℕ)
    → hook < 2 ^ 64
    → ((new_block memory self function).0 + length (new_block memory self function).1 ≤ function)
      ⊎ (function + 16 ≤ (new_block memory self function).0)
    → k + count ≤ length (new_block memory self function).1
    → (a < function) ⊎ (function + 16 ≤ a)
    → (a < (new_block memory self function).0)
      ⊎ ((new_block memory self function).0 + length (new_block memory self function).1 ≤ a)
    → ((hook_aarch64_function memory self function hook true).2
        ≡ some (new_block memory self function).0)
      × Jumps (hook_aarch64_function memory self function hook true).1 function hook
      × (load
            (hook_aarch64_function memory self function hook true).1
            count
            ((new_block memory self function).0 + k)
          ≡ number_of (take count (drop k (new_block memory self function).1)))
      × IsBlock memory function (read_block memory function 4) (new_block memory self function).1
      × ((hook_aarch64_function memory self function hook true).1 a ≡ memory a)
unfolding hook_aarch64_function make_original new_block
hook_aarch64_function-Jumps memory self function hook k count a small apart inside not_function
      not_block =
    let (start, bytes) = new_block memory self function in
    let memory' = write_bytes memory start bytes in
    let sixteen = length-long_jump hook in
    (
      refl,
      long_jump-Jumps memory' function hook small,
      load-other memory' function (start + k) count (long_jump hook) (rw sixteen (ground arith))
          ∙ load-write_bytes memory start k count bytes inside,
      rewrite_aarch64_block-IsBlock memory self function (read_block memory function 4)
          (few memory function),
      write_bytes-outside memory' function a (long_jump hook) (rw sixteen not_function)
          ∙ write_bytes-outside memory start a bytes not_block,
    )
