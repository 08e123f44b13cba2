-- ===== src/Leaf/Relocs.antt =====
-- The relocations, which the loader reads from the mapped memory that it also changes.
pub mod Applied
pub mod Loop
use kn_shim.Base.{
  ℕ, zero, suc, ◌+◌, ◌*◌, ◌/◌, ◌%◌, ◌^◌, Bool, Option, none, some, List, ◌==◌, if◌then◌else◌,
}
use kn_shim.Dict.Blob.{Bytes}
use kn_shim.Memory.Region.{load_number, store_number}
use kn_shim.Leaf.{Outcome, done, ◌>>=◌, ◌>>◌, access}
use kn_shim.Leaf.Symbols.{sym_size}

-- `Elf64_Rela`, which has 24 bytes.
pub record Rela : Type 0 where
  pub r_offset : ℕ
  pub r_info : ℕ
  pub r_addend : ℕ

abbrev pub rela_size : ℕ
rela_size = 24

unfoldable pub rela_at : Bytes → ℕ → ℕ → Outcome Rela
unfolding load_number
rela_at blob relocs i = do
  r_offset ← access (load_number blob (relocs + rela_size * i) 8)
  r_info ← access (load_number blob (relocs + rela_size * i + 8) 8)
  r_addend ← access (load_number blob (relocs + rela_size * i + 16) 8)
  done (record { r_offset = r_offset; r_info = r_info; r_addend = r_addend })

abbrev pub reloc_sym : ℕ → ℕ
reloc_sym info = info / 2 ^ 32

abbrev pub reloc_type : ℕ → ℕ
reloc_type info = info % 2 ^ 32

abbrev pub r_aarch64_glob_dat : ℕ
r_aarch64_glob_dat = 1025

abbrev pub r_aarch64_jump_slot : ℕ
r_aarch64_jump_slot = 1026

abbrev pub r_aarch64_relative : ℕ
r_aarch64_relative = 1027

-- What the switch of `LeafDoRela` stores, if anything.
unfoldable pub rela_value : ℕ → ℕ → Bytes → Rela → Outcome (Option ℕ)
unfolding load_number
rela_value base symtab blob r =
    let symbolic : Outcome (Option ℕ) = (do
      st_value ← access (load_number blob (symtab + sym_size * reloc_sym r.r_info + 8) 8)
      done (some ((st_value + r.r_addend) % 2 ^ 64))) in
    let type = reloc_type r.r_info in
    if type == r_aarch64_relative
    then done (some ((base + r.r_addend) % 2 ^ 64))
    else if type == r_aarch64_glob_dat
    then symbolic
    else if type == r_aarch64_jump_slot
    then symbolic
    else done none

unfoldable pub put_value : ℕ → Option ℕ → Bytes → Outcome Bytes
unfolding store_number
put_value place none blob = done blob
put_value place (some v) blob = access (store_number blob place 8 v)

-- One relocation.
unfoldable pub apply_rela : ℕ → ℕ → Bytes → Rela → Outcome Bytes
unfolding rela_value put_value
apply_rela base symtab blob r = do
  value ← rela_value base symtab blob r
  put_value r.r_offset value blob

-- `LeafDoRela`, with the rounds left and `i`.
unfoldable pub do_rela : ℕ → ℕ → ℕ → ℕ → ℕ → Bytes → Outcome Bytes
unfolding rela_at apply_rela
do_rela zero i base symtab relocs blob = done blob
do_rela (suc rounds) i base symtab relocs blob = do
  r ← rela_at blob relocs i
  blob' ← apply_rela base symtab blob r
  do_rela rounds (i + 1) base symtab relocs blob'

-- `LeafDoRel`, which knows no type of relocation on AArch64. `Elf64_Rel` has 16 bytes.
unfoldable pub do_rel : ℕ → ℕ → ℕ → Bytes → Outcome Bytes
unfolding load_number
do_rel zero i relocs blob = done blob
do_rel (suc rounds) i relocs blob = do
  r_offset ← access (load_number blob (relocs + 16 * i) 8)
  r_info ← access (load_number blob (relocs + 16 * i + 8) 8)
  do_rel rounds (i + 1) relocs blob
