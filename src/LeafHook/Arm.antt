-- ===== src/LeafHook/Arm.antt =====
-- The hooks of jni/leafhook.h on AArch32. Addresses and instructions are 32-bit numbers.
use kn_shim.Base.{
  ℕ, ◌+◌, ◌-◌, ◌*◌, ◌/◌, ◌%◌, ◌^◌, bit_and, Bool, true, false, Option, none, some, List, [], ◌∷◌,
  ◌++◌, length, ◌==◌, if◌then◌else◌,
}
use kn_shim.Dict.Blob.{Bytes}
use kn_shim.Memory.{int_bytes}
use kn_shim.LeafHook.{LhHooker, LhStream, alloc_rwx, stream_write32, load}
use kn_shim.LeafHook.Hook.{write_bytes, read_block}

unfoldable pub is_aarch32_adr : ℕ → Bool
is_aarch32_adr input = bit_and input 0xffff0000 == 0xe28f0000

-- The same test, so the branch behind the first one is never taken.
unfoldable pub is_aarch32_adr_sub : ℕ → Bool
is_aarch32_adr_sub input = bit_and input 0xffff0000 == 0xe28f0000

unfoldable pub is_aarch32_ldr_literal : ℕ → Bool
is_aarch32_ldr_literal input = bit_and input 0xff7f0000 == 0xe51f0000

-- Shared by `adr` and the load of a literal.
unfoldable pub decode_imm : ℕ → ℕ
decode_imm input = input % 2 ^ 12

unfoldable pub decode_rd : ℕ → ℕ
decode_rd input = input / 2 ^ 12 % 2 ^ 4

unfoldable pub decode_u : ℕ → ℕ
decode_u input = input / 2 ^ 23 % 2

unfoldable pub make_aarch32_ldr_literal : ℕ → ℕ → ℕ → ℕ
make_aarch32_ldr_literal u rt imm =
    imm % 2 ^ 12 + rt % 2 ^ 4 * 2 ^ 12 + 0x1f * 2 ^ 16 + u % 2 * 2 ^ 23 + 0xe5 * 2 ^ 24

unfoldable pub make_bx : ℕ → ℕ
make_bx rm = rm % 2 ^ 4 + 0xe12fff1 * 2 ^ 4

-- LH_INS_OFFSET: the program counter is eight bytes ahead.
unfoldable pub ins_offset32 : ℕ → LhStream → LhStream → ℕ
ins_offset32 block_size code data' =
    ((block_size + 2) * 4 + 2 ^ 32 - length code + length data' + 2 ^ 32 - 8) % 2 ^ 32

-- LH_PC_VALUE_ALIGNED.
unfoldable pub pc_value_aligned : ℕ → ℕ → ℕ
pc_value_aligned old_block i = let pc = (old_block + 4 * i + 8) % 2 ^ 32 in pc - pc % 4

-- One round of the loop of `LHRewriteAArch32Block`.
unfoldable pub rewrite32_instruction :
    (ℕ → ℕ) → ℕ → ℕ → ℕ → ℕ → LhStream × LhStream → LhStream × LhStream
unfolding is_aarch32_adr is_aarch32_adr_sub is_aarch32_ldr_literal decode_imm decode_rd decode_u
    make_aarch32_ldr_literal ins_offset32 pc_value_aligned stream_write32 load
rewrite32_instruction memory old_block block_size i ins (code, data') =
    let offset = ins_offset32 block_size code data' in
    let pc = pc_value_aligned old_block i in
    let code' = stream_write32 code (make_aarch32_ldr_literal 1 (decode_rd ins) offset) in
    let below = (pc + 2 ^ 32 - decode_imm ins) % 2 ^ 32 in
    let above = (pc + decode_imm ins) % 2 ^ 32 in
    if is_aarch32_adr ins
    then (code', stream_write32 data' above)
    else if is_aarch32_adr_sub ins
    then (code', stream_write32 data' below)
    else if is_aarch32_ldr_literal ins
    then (code', stream_write32 data' (load memory 4 (if decode_u ins == 1 then above else below)))
    else (stream_write32 code ins, data')

unfoldable pub rewrite32_instructions :
    (ℕ → ℕ) → ℕ → ℕ → ℕ → List ℕ → LhStream × LhStream → LhStream × LhStream
unfolding rewrite32_instruction
rewrite32_instructions memory old_block block_size i [] streams = streams
rewrite32_instructions memory old_block block_size i (ins ∷ rest) streams =
    rewrite32_instructions memory old_block block_size (i + 1) rest
      (rewrite32_instruction memory old_block block_size i ins streams)

-- The jump back, by r12.
unfoldable pub write_jump_back32 : ℕ → ℕ → LhStream × LhStream → LhStream × LhStream
unfolding make_aarch32_ldr_literal make_bx ins_offset32 stream_write32
write_jump_back32 old_block block_size (code, data') = (
  stream_write32
      (stream_write32 code (make_aarch32_ldr_literal 1 12 (ins_offset32 block_size code data')))
      (make_bx 12),
  stream_write32 data' ((old_block + 4 * block_size) % 2 ^ 32),
)

-- `LHRewriteAArch32Block` of these instructions: the new block's address and its bytes.
unfoldable pub rewrite_aarch32_block : (ℕ → ℕ) → LhHooker → ℕ → List ℕ → LhHooker × ℕ × Bytes
unfolding rewrite32_instructions write_jump_back32 alloc_rwx
rewrite_aarch32_block memory self old_block instructions =
    let (code, data') =
      write_jump_back32 old_block (length instructions)
        (rewrite32_instructions memory old_block (length instructions) 0 instructions ([], [])) in
    let (self', new_block) = alloc_rwx self (length code + length data') in
    (self', new_block, code ++ data')

-- `LHWriteAArch32LongJump`: the twelve bytes at the function.
unfoldable pub long_jump32 : ℕ → Bytes
unfolding make_aarch32_ldr_literal make_bx
long_jump32 target =
    int_bytes (make_aarch32_ldr_literal 1 12 0) ++ (int_bytes (make_bx 12) ++ int_bytes target)

-- `LHHookerAArch32Function`, with or without a place for the original function's address.
unfoldable pub hook_aarch32_function :
    (ℕ → ℕ) → LhHooker → ℕ → ℕ → Bool → LhHooker × (ℕ → ℕ) × Option ℕ
unfolding rewrite_aarch32_block long_jump32 write_bytes read_block
hook_aarch32_function memory self function hook false =
    (self, write_bytes memory function (long_jump32 hook), none)
hook_aarch32_function memory self function hook true =
    let (self', new_block, bytes) =
      rewrite_aarch32_block memory self function (read_block memory function 3) in
    (
      self',
      write_bytes (write_bytes memory new_block bytes) function (long_jump32 hook),
      some new_block,
    )
