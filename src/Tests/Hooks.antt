-- ===== src/Tests/Hooks.antt =====
-- The hooks of jni/leafhook.h at work.
use kn_shim.Base.{
  ℕ, Option, some, true, inl, inr, length, take, drop, ◌+◌, ◌≡◌, refl, [], ◌∷◌, arith, ◌++◌,
}
use kn_shim.Memory.{int_bytes}
use kn_shim.LeafHook.{
  LhHooker, load, alloc_rwx, rewrite_instruction, rewrite_aarch64_block, long_bytes, make_br,
  make_ldr_literal, stream_write, stream_write32, stream_write64, ins_offset, sext64,
  is_aarch64_adr, is_aarch64_adrp, is_aarch64_ldr_literal, adr_decode_imm, adr_decode_rd,
  rewrite_instructions, write_jump_back,
}
use kn_shim.LeafHook.Arm.{rewrite32_instruction}
use kn_shim.LeafHook.Block.{IsBlock, rewrite_aarch64_block-IsBlock}
use kn_shim.LeafHook.Hook.{
  hook_aarch64_function, new_block, read_block, Jumps, hook_aarch64_function-Jumps,
}
use kn_shim.Dict.Blob.{Bytes}
use kn_shim.Memory.Region.{number_of}

abbrev hooker : LhHooker
hooker = record { rwx_block = 0x10000; rwx_block_size = 40960; rwx_block_used = 8 }

abbrev zeros : ℕ → ℕ
zeros address = 0

-- `adr x0, #8`, and `nop`.
abbrev adr_x0 : ℕ
adr_x0 = 0x10000040

abbrev nop : ℕ
nop = 0xd503201f

rewrite_aarch64_block-IsBlock_example :
    IsBlock zeros 0x4000
      (adr_x0 ∷ nop ∷ [])
      (rewrite_aarch64_block zeros hooker 0x4000 (adr_x0 ∷ nop ∷ [])).2
rewrite_aarch64_block-IsBlock_example =
    rewrite_aarch64_block-IsBlock zeros hooker 0x4000 (adr_x0 ∷ nop ∷ []) (omega arith)

-- The block for `adr x0, #8; nop`: a load from 16 bytes on, the copy, the jump back, then the
-- address 0x4008 and the address behind the block.
block_of_adr :
    (rewrite_aarch64_block zeros hooker 0x4000 (adr_x0 ∷ nop ∷ [])).2
    ≡ int_bytes 0x58000080
      ++ (int_bytes nop
          ++ (int_bytes 0x58000090
              ++ (int_bytes (make_br 16) ++ (long_bytes 0x4008 ++ long_bytes 0x4008))))
unfolding rewrite_aarch64_block rewrite_instructions rewrite_instruction write_jump_back int_bytes
    long_bytes make_br make_ldr_literal stream_write stream_write32 stream_write64 ins_offset sext64
    is_aarch64_adr is_aarch64_adrp is_aarch64_ldr_literal adr_decode_imm adr_decode_rd
block_of_adr = refl

abbrev hooked : LhHooker × (ℕ → ℕ) × Option ℕ
hooked = hook_aarch64_function zeros hooker 0x4000 0x123456789 true

abbrev block_bytes : Bytes
block_bytes = (new_block zeros hooker 0x4000).1

new_block-place : ((new_block zeros hooker 0x4000).0 ≡ 0x10008) × (length block_bytes ≡ 32)
unfolding new_block read_block load rewrite_aarch64_block rewrite_instructions rewrite_instruction
    write_jump_back int_bytes long_bytes make_br make_ldr_literal stream_write stream_write32
    stream_write64 ins_offset is_aarch64_adr is_aarch64_adrp is_aarch64_ldr_literal alloc_rwx
new_block-place = (refl, refl)

hook_aarch64_function-Jumps_example :
    (hooked.2 ≡ some (new_block zeros hooker 0x4000).0)
    × Jumps hooked.1 0x4000 0x123456789
    × (load hooked.1 8 ((new_block zeros hooker 0x4000).0 + 24)
        ≡ number_of (take 8 (drop 24 block_bytes)))
    × IsBlock zeros 0x4000 (read_block zeros 0x4000 4) block_bytes
    × (hooked.1 0x5000 ≡ 0)
hook_aarch64_function-Jumps_example =
    hook_aarch64_function-Jumps zeros hooker 0x4000 0x123456789 24 8 0x5000 (omega arith)
      (inr (omega (arith, new_block-place.0))) (omega (arith, new_block-place.1))
      (inr (omega arith)) (inl (omega (arith, new_block-place.0)))

-- `adr r1, #8`, as the second of three instructions.
abbrev adr_r1 : ℕ
adr_r1 = 0xe28f1008

-- The load is of the number behind the five instructions of the block, where the address 0x4014 is.
round_of_adr :
    rewrite32_instruction zeros 0x4000 3 1 adr_r1 (int_bytes 0xe1a00000, [])
    ≡ (int_bytes 0xe1a00000 ++ int_bytes 0xe59f1008, int_bytes 0x4014)
unfolding rewrite32_instruction int_bytes stream_write
round_of_adr = refl
