-- ===== src/LeafHook/Literals.antt =====
-- What the rewriting of an instruction writes: a copy of it, or a load of the number that it
-- refers to from the data behind the code.
use kn_shim.Base.{
  ℕ, ◌+◌, ◌-◌, ◌*◌, ◌/◌, ◌%◌, ◌^◌, ◌<◌, ◌≤◌, ◌≡◌, ◌≢◌, refl, sym, ◌∙◌, bit_and, true, ==_iff, ◌⊎◌,
  inl, inr, false, Bool-cases, [], ◌++◌, length, arith, ltb, ◌==◌, length-append, append-nil,
}
use kn_shim.Dict.Blob.{Bytes}
use kn_shim.Memory.{int_bytes, length-int_bytes}
use kn_shim.LeafHook.{
  LhStream, make_ldr_literal, ldr_literal_decode_imm, ldr_literal_decode_rt, ldr_literal_decode_x,
  stream_write, stream_write32, stream_write64, long_bytes, ins_offset, is_aarch64_adr,
  is_aarch64_adrp, is_aarch64_ldr_literal, adr_decode_rd, adr_decode_imm, sext64, load,
  rewrite_instruction,
}
use kn_shim.LeafHook.Sext.{extended, sext64-21, sext64-19}

-- The fields of a load are read back.
pub decode-make_ldr_literal :
    (x imm rt : ℕ)
    → x < 2
    → imm < 2 ^ 19
    → rt < 2 ^ 5
    → (ldr_literal_decode_x (make_ldr_literal x imm rt) ≡ x)
      × (ldr_literal_decode_imm (make_ldr_literal x imm rt) ≡ imm)
      × (ldr_literal_decode_rt (make_ldr_literal x imm rt) ≡ rt)
unfolding make_ldr_literal ldr_literal_decode_x ldr_literal_decode_imm ldr_literal_decode_rt
decode-make_ldr_literal x imm rt hx hi hr = (omega arith, omega arith, omega arith)

stream_write-append : (s b : Bytes) → length s + length b ≤ 0x100 → stream_write s b ≡ s ++ b
unfolding stream_write
stream_write-append s b fits =
    let test : ltb 0x100 (length s + length b) ≡ false = ground arith in rw test refl

pub length-long_bytes : (n : ℕ) → length (long_bytes n) ≡ 8
unfolding long_bytes
length-long_bytes n = omega (
  arith,
  length-append (int_bytes (n % 2 ^ 32)) (int_bytes (n / 2 ^ 32)),
  length-int_bytes (n % 2 ^ 32),
  length-int_bytes (n / 2 ^ 32),
)

pub write32-append :
    (s : Bytes) (n : ℕ) → length s + 4 ≤ 0x100 → stream_write32 s n ≡ s ++ int_bytes n
unfolding stream_write32
write32-append s n fits = stream_write-append s (int_bytes n) (omega (arith, length-int_bytes n))

pub write64-append :
    (s : Bytes) (n : ℕ) → length s + 8 ≤ 0x100 → stream_write64 s n ≡ s ++ long_bytes n
unfolding stream_write64
write64-append s n fits = stream_write-append s (long_bytes n) (omega (arith, length-long_bytes n))

-- An instruction that is not `adr`, `adrp`, or a load from an address relative to it.
abbrev pub IsPlain : ℕ → Type 0
IsPlain ins =
    (bit_and ins 0x9f000000 ≢ 0x10000000)
    × (bit_and ins 0x9f000000 ≢ 0x90000000)
    × (bit_and ins 0xbf000000 ≢ 0x18000000)

-- What the other instructions put into their register, as the bytes of a number, where instruction
-- `i` of a block is at `here`; and whether the number has 64 bits. The immediates are
-- signed. The number that a load of a block reads is by `i` numbers off.
pub data Refers (memory : ℕ → ℕ) (here i ins : ℕ) : ℕ → Bytes → Type 0 where
  adr :
      bit_and ins 0x9f000000 ≡ 0x10000000
      → Refers memory here i ins 1 (
          long_bytes
            ((here + extended 21 (ins / 2 ^ 29 % 2 ^ 2 + ins / 2 ^ 5 % 2 ^ 19 * 2 ^ 2)) % 2 ^ 64))
  adrp :
      bit_and ins 0x9f000000 ≡ 0x90000000
      → Refers memory here i ins 1 (
          long_bytes (
            (here
              - here % 2 ^ 12
              + extended 21 (ins / 2 ^ 29 % 2 ^ 2 + ins / 2 ^ 5 % 2 ^ 19 * 2 ^ 2) * 2 ^ 12 % 2 ^ 64)
            % 2 ^ 64))
  ldr_wide :
      bit_and ins 0xbf000000 ≡ 0x18000000
      → ins / 2 ^ 30 % 2 ≡ 1
      → Refers memory here i ins (ins / 2 ^ 30 % 2) (
          long_bytes (
            load memory 8
              ((here + extended 19 (ins / 2 ^ 5 % 2 ^ 19) * 2 ^ 2 % 2 ^ 64) % 2 ^ 64 + 8 * i)))
  ldr_narrow :
      bit_and ins 0xbf000000 ≡ 0x18000000
      → ins / 2 ^ 30 % 2 ≢ 1
      → Refers memory here i ins (ins / 2 ^ 30 % 2) (
          int_bytes (
            load memory 4
              ((here + extended 19 (ins / 2 ^ 5 % 2 ^ 19) * 2 ^ 2 % 2 ^ 64) % 2 ^ 64 + 4 * i)))

-- A word that loads these bytes into the register of the instruction, from behind the
-- `block_size + 2` words of the code and what is in the data already.
pub record IsLiteral (memory : ℕ → ℕ) (old_block block_size i ins : ℕ) (code data' : LhStream)
    (word : ℕ) (datum : Bytes) : Type 0 where
  pub x : ℕ
  pub imm : ℕ
  pub refers : Refers memory (old_block + 4 * i) i ins x datum
  pub loads : word ≡ 0x18000000 + x * 2 ^ 30 + 32 * imm + ins % 2 ^ 5
  pub place : length code + 4 * imm ≡ 4 * (block_size + 2) + length data'
  pub size : (length datum ≡ 8) ⊎ (length datum ≡ 4)

-- The word at the front of what was written to the code, and the data behind it.
pub record Aimed (memory : ℕ → ℕ) (old_block block_size i : ℕ) (code data' : LhStream) (ins : ℕ)
    (r : LhStream × LhStream) : Type 0 where
  pub word : ℕ
  pub datum : Bytes
  pub wrote : r ≡ (code ++ int_bytes word, data' ++ datum)
  pub aim :
      (IsPlain ins × (word ≡ ins) × (datum ≡ []))
      ⊎ IsLiteral memory old_block block_size i ins code data' word datum

same_bits : (a b : ℕ) → (a == b) ≡ true → a ≡ b
same_bits a b h = (==_iff a b).0 h

other_bits : (a b : ℕ) → (a == b) ≡ false → a ≢ b
other_bits a b h e = cc (sym h ∙ (==_iff a b).1 e)

-- A load of the data that are written next, where the lengths are those of whole words.
literal-Aimed :
    (memory : ℕ → ℕ) (old_block block_size i k : ℕ) (code data' datum : Bytes) (ins x : ℕ)
    → i < block_size
    → block_size ≤ 8
    → length code ≡ 4 * i
    → length data' ≡ 4 * k
    → k ≤ 16
    → x < 2
    → Refers memory (old_block + 4 * i) i ins x datum
    → (length datum ≡ 8) ⊎ (length datum ≡ 4)
    → Aimed memory old_block block_size i code data' ins (
      stream_write32 code
          (make_ldr_literal x (ins_offset block_size code data' / 2 ^ 2) (ins % 2 ^ 5)),
      data' ++ datum,
    )
unfolding ins_offset make_ldr_literal
literal-Aimed memory old_block block_size i k code data' datum ins x small size place room bound hx
      refers full =
    let literal = ins_offset block_size code data' / 2 ^ 2 in
    let offset : literal ≡ block_size + 2 - i + k = omega arith in
    record {
      word = make_ldr_literal x literal (ins % 2 ^ 5);
      datum = datum;
      wrote =
          rw (write32-append code (make_ldr_literal x literal (ins % 2 ^ 5)) (omega arith)) refl;
      aim = inr (record {
        x = x;
        imm = literal;
        refers = refers;
        loads = omega (arith, offset);
        place = omega (arith, offset);
        size = full;
      });
    }

-- An instruction of a block of at most eight is copied to the code, where it is plain, or it
-- becomes a load of what it puts into its register, from its place in the data: for any
-- instruction, after whole words of code and of data.
pub rewrite_instruction-Aimed :
    (memory : ℕ → ℕ) (old_block block_size i k ins : ℕ) (code data' : LhStream)
    → i < block_size
    → block_size ≤ 8
    → length code ≡ 4 * i
    → length data' ≡ 4 * k
    → k ≤ 16
    → Aimed memory old_block block_size i code data' ins
        (rewrite_instruction memory old_block block_size i ins (code, data'))
unfolding rewrite_instruction adr_decode_rd adr_decode_imm ldr_literal_decode_x
    ldr_literal_decode_imm ldr_literal_decode_rt is_aarch64_adr is_aarch64_adrp
    is_aarch64_ldr_literal
rewrite_instruction-Aimed memory old_block block_size i k ins code data' small size place room
      bound =
    elim (Bool-cases (bit_and ins 0x9f000000 == 0x10000000)) [
      | inl e ↦
          rw (e, write64-append data' _ fits)
            (long _ 1 (omega arith) (rw imm (adr (same_bits _ _ e))))
      | inr e1 ↦ elim (Bool-cases (bit_and ins 0x9f000000 == 0x90000000)) [
        | inl e ↦
            rw (e1, e, write64-append data' _ fits)
              (long _ 1 (omega arith) (rw imm (adrp (same_bits _ _ e))))
        | inr e2 ↦ elim (Bool-cases (bit_and ins 0xbf000000 == 0x18000000)) [
          | inl e ↦ elim (Bool-cases (ins / 2 ^ 30 % 2 == 1)) [
            | inl wide ↦
                rw (e1, e2, e, wide, write64-append data' _ fits)
                  (long _ (ins / 2 ^ 30 % 2) (omega arith)
                    (rw offset (ldr_wide (same_bits _ _ e) (same_bits _ _ wide))))
            | inr narrow ↦
                rw (e1, e2, e, narrow, write32-append data' _ (omega arith))
                  (short _ (ins / 2 ^ 30 % 2) (omega arith)
                    (rw offset (ldr_narrow (same_bits _ _ e) (other_bits _ _ narrow))))
          ]
          | inr e3 ↦
              rw (e1, e2, e3, write32-append code ins (omega arith))
                (record {
                  word = ins;
                  datum = [];
                  wrote = rw (append-nil data') refl;
                  aim = inl ((other_bits _ _ e1, other_bits _ _ e2, other_bits _ _ e3), refl, refl);
                })
        ]
      ]
    ]
  where
    fits : length data' + 8 ≤ 0x100
    fits = omega arith

    imm :
        sext64 (ins / 2 ^ 29 % 2 ^ 2 + ins / 2 ^ 5 % 2 ^ 19 * 2 ^ 2) 21
        ≡ extended 21 (ins / 2 ^ 29 % 2 ^ 2 + ins / 2 ^ 5 % 2 ^ 19 * 2 ^ 2)
    imm = sext64-21 _ (omega arith)

    offset : sext64 (ins / 2 ^ 5 % 2 ^ 19) 19 ≡ extended 19 (ins / 2 ^ 5 % 2 ^ 19)
    offset = sext64-19 _ (omega arith)

    long :
        (n x : ℕ)
        → x < 2
        → Refers memory (old_block + 4 * i) i ins x (long_bytes n)
        → Aimed memory old_block block_size i code data' ins (
          stream_write32 code
              (make_ldr_literal x (ins_offset block_size code data' / 2 ^ 2) (ins % 2 ^ 5)),
          data' ++ long_bytes n,
        )
    long n x hx refers =
        literal-Aimed memory old_block block_size i k code data' (long_bytes n) ins x small size
          place room bound hx refers (inl (length-long_bytes n))

    short :
        (n x : ℕ)
        → x < 2
        → Refers memory (old_block + 4 * i) i ins x (int_bytes n)
        → Aimed memory old_block block_size i code data' ins (
          stream_write32 code
              (make_ldr_literal x (ins_offset block_size code data' / 2 ^ 2) (ins % 2 ^ 5)),
          data' ++ int_bytes n,
        )
    short n x hx refers =
        literal-Aimed memory old_block block_size i k code data' (int_bytes n) ins x small size
          place room bound hx refers (inr (length-int_bytes n))
