-- ===== src/LeafHook/Block.antt =====
-- The block that the rewriting puts together: copies and loads, the jump back, then the data.
use kn_shim.Base.{
  ℕ, ◌+◌, ◌*◌, ◌/◌, ◌^◌, ◌≤◌, ◌≡◌, refl, sym, ap, ◌∙◌, List, [], ◌++◌, length, arith, length-append,
  append_assoc,
}
use kn_shim.Dict.Blob.{Bytes}
use kn_shim.Memory.{int_bytes, length-int_bytes}
use kn_shim.LeafHook.{
  LhHooker, alloc_rwx, make_ldr_literal, make_br, long_bytes, ins_offset, rewrite_instructions,
  write_jump_back, rewrite_aarch64_block,
}
use kn_shim.LeafHook.Literals.{write32-append, write64-append, length-long_bytes}
use kn_shim.LeafHook.Instructions.{words_bytes, AllAimed, rewrite_instructions-Written}

-- The block that is put together for at most eight instructions, which were at `old_block`. It is a
-- word for each of them, `ldr x16` and `br x16`, and then the data. Each word is a plain
-- instruction, or a load from the data of what its instruction puts into its register; `ldr x16`
-- loads the last eight bytes, which are the address of the instruction after the old ones. At most
-- twelve bytes are for each instruction, and sixteen for the jump.
pub record IsBlock (memory : ℕ → ℕ) (old_block : ℕ) (instructions : List ℕ) (block : Bytes)
    : Type 0 where
  pub words : List ℕ
  pub imm : ℕ
  pub datums : Bytes
  pub put :
      block
      ≡ (words_bytes words ++ (int_bytes (0x58000010 + 32 * imm) ++ int_bytes 0xd61f0200))
        ++ (datums ++ long_bytes (old_block + 4 * length instructions))
  pub many : length (words_bytes words) ≡ 4 * length instructions
  pub aimed :
      AllAimed memory old_block
        (length instructions)
        0
        instructions
        words
        (datums ++ long_bytes (old_block + 4 * length instructions))
  pub target : 4 * length instructions + 4 * imm + 8 ≡ length block
  pub small : length block ≤ 12 * length instructions + 16

write_jump_back-append :
    (old_block block_size half : ℕ) (code data' : Bytes)
    → length code ≡ 4 * block_size
    → length data' ≡ 4 * half
    → half ≤ 2 * block_size
    → block_size ≤ 8
    → let jump = make_ldr_literal 1 (ins_offset block_size code data' / 2 ^ 2) 16 in
      (write_jump_back old_block block_size (code, data') ≡ (
        (code ++ int_bytes jump) ++ int_bytes (make_br 16),
        data' ++ long_bytes (old_block + 4 * block_size),
      ))
      × (4 * block_size + 4 * (ins_offset block_size code data' / 2 ^ 2)
          ≡ 4 * (block_size + 2) + length data')
      × (jump ≡ 0x58000010 + 32 * (ins_offset block_size code data' / 2 ^ 2))
unfolding write_jump_back ins_offset make_ldr_literal
write_jump_back-append old_block block_size half code data' at_code at_data few size =
    let literal = ins_offset block_size code data' / 2 ^ 2 in
    let jump = make_ldr_literal 1 literal 16 in
    let offset : literal ≡ 2 + half = omega arith in
    (
      rw
          (
            write32-append code jump (omega arith),
            write32-append (code ++ int_bytes jump) (make_br 16)
                (omega (arith, length-append code (int_bytes jump), length-int_bytes jump)),
            write64-append data' (old_block + 4 * block_size) (omega arith),
          )
          refl,
      omega (arith, offset),
      omega (arith, offset),
    )

-- The rewriting of at most eight instructions is such a block: its loads are from its own data,
-- which are what the instructions refer to, and the jump goes to the instruction after the old
-- ones.
pub rewrite_aarch64_block-IsBlock :
    (memory : ℕ → ℕ) (self : LhHooker) (old_block : ℕ) (instructions : List ℕ)
    → length instructions ≤ 8
    → IsBlock memory old_block instructions
        (rewrite_aarch64_block memory self old_block instructions).2
unfolding rewrite_aarch64_block make_br
rewrite_aarch64_block-IsBlock memory self old_block instructions size =
    let n = length instructions in
    let w =
      rewrite_instructions-Written memory old_block n 0 0 instructions [] [] (omega arith) size
        (omega arith) (omega arith) (omega arith) in
    let literal = ins_offset n (words_bytes w.words) w.datums / 2 ^ 2 in
    let jump = make_ldr_literal 1 literal 16 in
    let (ends, aim, jump_is) =
      write_jump_back-append old_block n w.half (words_bytes w.words) w.datums
        (omega (arith, w.many)) w.whole w.few size in
    let run = ap (write_jump_back old_block n) w.wrote ∙ ends in
    let put =
      ap (λ s. s.0 ++ s.1) run
      ∙ ap (λ t. t ++ (w.datums ++ long_bytes (old_block + 4 * n)))
          (append_assoc (words_bytes w.words) (int_bytes jump) (int_bytes (make_br 16))) in
    let size_of =
      ap length put ∙ length-block (words_bytes w.words) w.datums jump (old_block + 4 * n) in
    record {
      words = w.words;
      imm = literal;
      datums = w.datums;
      put = rw jump_is at put;
      many = omega (arith, w.many);
      aimed = w.all (long_bytes (old_block + 4 * n));
      target = omega (arith, size_of, aim, w.many);
      small = omega (arith, size_of, w.many, w.whole, w.few);
    }
  where
    length-block :
        (code datums : Bytes) (jump target : ℕ)
        → length
            ((code ++ (int_bytes jump ++ int_bytes (make_br 16))) ++ (datums ++ long_bytes target))
          ≡ length code + length datums + 16
    length-block code datums jump target = omega (
      arith,
      length-append (code ++ (int_bytes jump ++ int_bytes (make_br 16)))
          (datums ++ long_bytes target),
      length-append code (int_bytes jump ++ int_bytes (make_br 16)),
      length-append (int_bytes jump) (int_bytes (make_br 16)),
      length-append datums (long_bytes target),
      length-int_bytes jump,
      length-int_bytes (make_br 16),
      length-long_bytes target,
    )

-- The hooker after it: an allocation of the block's length was made.
pub rewrite_aarch64_block-alloc_rwx :
    (memory : ℕ → ℕ) (self : LhHooker) (old_block : ℕ) (instructions : List ℕ)
    → let (self', start, block) = rewrite_aarch64_block memory self old_block instructions in
      (self', start) ≡ alloc_rwx self (length block)
unfolding rewrite_aarch64_block
rewrite_aarch64_block-alloc_rwx memory self old_block instructions =
    let n = length instructions in
    let (code, data') =
      write_jump_back old_block n
        (rewrite_instructions memory old_block n 0 instructions ([], [])) in
    ap (alloc_rwx self) (sym (length-append code data'))
