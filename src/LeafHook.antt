-- ===== src/LeafHook.antt =====
-- The hooks of jni/leafhook.h on AArch64: the allocator of executable memory, the write streams,
-- and the rewriting of the first instructions of a function into a block that runs elsewhere.
-- An instruction is its 32-bit pattern. The fields of one that is made are disjoint, so the `|`
-- between them is written as a sum. Memory is a function from addresses to bytes; that an address
-- is mapped is not modelled, and neither is the mapping of the executable block itself.
pub mod Alloc
pub mod Sext
pub mod Literals
pub mod Instructions
pub mod Block
pub mod Hook
pub mod Arm
pub mod Hooker
use kn_shim.Base.{
  ℕ, zero, suc, ◌+◌, ◌-◌, ◌*◌, ◌/◌, ◌%◌, ◌^◌, bit_and, bit_or, Bool, true, false, not, Option, none,
  some, List, [], ◌∷◌, ◌++◌, length, get_or, ltb, leb, ◌==◌, ◌&&◌, if◌then◌else◌,
}
use kn_shim.Dict.Blob.{Bytes}
use kn_shim.Memory.{int_bytes}

-- LH_SEXT64 in 64 bits.
unfoldable pub sext64 : ℕ → ℕ → ℕ
sext64 input nbits =
    if bit_and input (2 ^ (nbits - 1)) == 0
    then input
    else bit_or (2 ^ 64 - 1 - (2 ^ (nbits - 1) - 1)) input

unfoldable pub is_aarch64_adr : ℕ → Bool
is_aarch64_adr input = bit_and input 0x9f000000 == 0x10000000

unfoldable pub is_aarch64_adrp : ℕ → Bool
is_aarch64_adrp input = bit_and input 0x9f000000 == 0x90000000

unfoldable pub is_aarch64_ldr_literal : ℕ → Bool
is_aarch64_ldr_literal input = bit_and input 0xbf000000 == 0x18000000

-- Shared by `adr` and `adrp`.
unfoldable pub adr_decode_imm : ℕ → ℕ
adr_decode_imm input = input / 2 ^ 29 % 2 ^ 2 + input / 2 ^ 5 % 2 ^ 19 * 2 ^ 2

unfoldable pub adr_decode_rd : ℕ → ℕ
adr_decode_rd input = input % 2 ^ 5

unfoldable pub ldr_literal_decode_x : ℕ → ℕ
ldr_literal_decode_x input = input / 2 ^ 30 % 2

unfoldable pub ldr_literal_decode_imm : ℕ → ℕ
ldr_literal_decode_imm input = input / 2 ^ 5 % 2 ^ 19

unfoldable pub ldr_literal_decode_rt : ℕ → ℕ
ldr_literal_decode_rt input = input % 2 ^ 5

unfoldable pub make_ldr_literal : ℕ → ℕ → ℕ → ℕ
make_ldr_literal x imm rt = rt % 2 ^ 5 + imm % 2 ^ 19 * 2 ^ 5 + 24 * 2 ^ 24 + x % 2 * 2 ^ 30

unfoldable pub make_br : ℕ → ℕ
make_br rn = rn % 2 ^ 5 * 2 ^ 5 + 0x3587c0 * 2 ^ 10

-- `LHHooker`.
pub record LhHooker : Type 0 where
  pub rwx_block : ℕ
  pub rwx_block_size : ℕ
  pub rwx_block_used : ℕ

-- The size of the block is not looked at.
unfoldable pub alloc_rwx : LhHooker → ℕ → LhHooker × ℕ
alloc_rwx self size =
    let size' = if bit_and size 3 == 0 then size else size + (4 - bit_and size 3) in
    (
      record self { rwx_block_used = self.rwx_block_used + size' },
      self.rwx_block + self.rwx_block_used,
    )

-- `LHStream`: the bytes before the head, which is their number.
abbrev pub LhStream : Type 0
LhStream = Bytes

abbrev pub stream_max_size : ℕ
stream_max_size = 0x100

-- A write that does not fit is dropped.
unfoldable pub stream_write : LhStream → Bytes → LhStream
stream_write self data' =
    if ltb stream_max_size (length self + length data') then self else self ++ data'

-- The results, the positions of the data, are used by no caller.
unfoldable pub stream_write32 : LhStream → ℕ → LhStream
unfolding stream_write
stream_write32 self number = stream_write self (int_bytes number)

-- The memory of a `uint64_t`.
unfoldable pub long_bytes : ℕ → Bytes
long_bytes n = int_bytes (n % 2 ^ 32) ++ int_bytes (n / 2 ^ 32)

unfoldable pub stream_write64 : LhStream → ℕ → LhStream
unfolding stream_write long_bytes
stream_write64 self number = stream_write self (long_bytes number)

-- LH_INS_OFFSET, from the next instruction to the next data, in `size_t`.
unfoldable pub ins_offset : ℕ → LhStream → LhStream → ℕ
ins_offset block_size code data' =
    ((block_size + 2) * 4 + 2 ^ 64 - length code + length data') % 2 ^ 64

-- A number of `count` bytes in memory.
unfoldable pub load : (ℕ → ℕ) → ℕ → ℕ → ℕ
load memory zero address = 0
load memory (suc count) address = memory address + 2 ^ 8 * load memory count (address + 1)

-- One round of the loop of `LHRewriteAArch64Block`, at the address of instruction `i`.
unfoldable pub rewrite_instruction :
    (ℕ → ℕ) → ℕ → ℕ → ℕ → ℕ → LhStream × LhStream → LhStream × LhStream
unfolding sext64 is_aarch64_adr is_aarch64_adrp is_aarch64_ldr_literal adr_decode_imm adr_decode_rd
    ldr_literal_decode_x ldr_literal_decode_imm ldr_literal_decode_rt make_ldr_literal
    stream_write32 stream_write64 ins_offset load
rewrite_instruction memory old_block block_size i ins (code, data') =
    let here = old_block + 4 * i in
    let literal = ins_offset block_size code data' / 2 ^ 2 in
    if is_aarch64_adr ins
    then (let imm = sext64 (adr_decode_imm ins) 21 in
        (
          stream_write32 code (make_ldr_literal 1 literal (adr_decode_rd ins)),
          stream_write64 data' ((here + imm) % 2 ^ 64),
        ))
    else if is_aarch64_adrp ins
    then (let imm = sext64 (adr_decode_imm ins) 21 * 2 ^ 12 % 2 ^ 64 in
        (
          stream_write32 code (make_ldr_literal 1 literal (adr_decode_rd ins)),
          stream_write64 data' ((here - here % 2 ^ 12 + imm) % 2 ^ 64),
        ))
    else if is_aarch64_ldr_literal ins
    then (let x = ldr_literal_decode_x ins in
        let imm = sext64 (ldr_literal_decode_imm ins) 19 * 2 ^ 2 % 2 ^ 64 in
        let source = (here + imm) % 2 ^ 64 in
        (
          stream_write32 code (make_ldr_literal x literal (ldr_literal_decode_rt ins)),
          if x == 1
              then stream_write64 data' (load memory 8 (source + 8 * i))
              else stream_write32 data' (load memory 4 (source + 4 * i)),
        ))
    else (stream_write32 code ins, data')

unfoldable pub rewrite_instructions :
    (ℕ → ℕ) → ℕ → ℕ → ℕ → List ℕ → LhStream × LhStream → LhStream × LhStream
unfolding rewrite_instruction
rewrite_instructions memory old_block block_size i [] streams = streams
rewrite_instructions memory old_block block_size i (ins ∷ rest) streams =
    rewrite_instructions memory old_block block_size (i + 1) rest
      (rewrite_instruction memory old_block block_size i ins streams)

-- The jump back to the instruction after the block, by x16.
unfoldable pub write_jump_back : ℕ → ℕ → LhStream × LhStream → LhStream × LhStream
unfolding make_ldr_literal make_br stream_write32 stream_write64 ins_offset
write_jump_back old_block block_size (code, data') =
    let literal = ins_offset block_size code data' / 2 ^ 2 in
    (
      stream_write32 (stream_write32 code (make_ldr_literal 1 literal 16)) (make_br 16),
      stream_write64 data' (old_block + 4 * block_size),
    )

-- `LHRewriteAArch64Block` of these instructions: the new block's address and its bytes.
unfoldable pub rewrite_aarch64_block : (ℕ → ℕ) → LhHooker → ℕ → List ℕ → LhHooker × ℕ × Bytes
unfolding rewrite_instructions write_jump_back alloc_rwx
rewrite_aarch64_block memory self old_block instructions =
    let (code, data') =
      write_jump_back old_block (length instructions)
        (rewrite_instructions memory old_block (length instructions) 0 instructions ([], [])) in
    let (self', new_block) = alloc_rwx self (length code + length data') in
    (self', new_block, code ++ data')

-- `LHWriteAArch64LongJump`: the sixteen bytes at the function.
unfoldable pub long_jump : ℕ → Bytes
unfolding make_ldr_literal make_br long_bytes
long_jump target =
    int_bytes (make_ldr_literal 1 (8 / 2 ^ 2) 16) ++ (int_bytes (make_br 16) ++ long_bytes target)
