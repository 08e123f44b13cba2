-- ===== src/Leaf/Relocs32.antt =====
-- `LeafDoRel` of jni/andrleaf.h on the 32-bit targets, ARM and i386, where the addend of a
-- relocation is what is in memory at its place. Numbers have 32 bits; `x | 1` is written x / 2 * 2
-- + 1.
pub mod Applied32
pub mod Meant32
pub mod Loop32
use kn_shim.Base.{
  ℕ, zero, suc, ◌+◌, ◌-◌, ◌*◌, ◌/◌, ◌%◌, ◌^◌, Bool, true, false, ◌&&◌, Option, none, some, ◌==◌,
  if◌then◌else◌,
}
use kn_shim.Dict.Blob.{Bytes}
use kn_shim.Memory.Region.{load_number, store_number}
use kn_shim.Leaf.{Outcome, done, ◌>>=◌, access}

pub data Target : Type 0 where
  arm : Target
  i386 : Target

-- `Elf32_Rel`, which has 8 bytes; `Elf32_Sym` has 16.
pub record Rel : Type 0 where
  pub r_offset : ℕ
  pub r_info : ℕ

unfoldable pub rel_at : Bytes → ℕ → ℕ → Outcome Rel
rel_at blob relocs i = do
  r_offset ← access (load_number blob (relocs + 8 * i) 4)
  r_info ← access (load_number blob (relocs + 8 * i + 4) 4)
  done (record { r_offset = r_offset; r_info = r_info })

-- `LeafRelocSym` and `LeafRelocType`.
abbrev pub reloc_sym32 : ℕ → ℕ
reloc_sym32 info = info / 2 ^ 8

abbrev pub reloc_type32 : ℕ → ℕ
reloc_type32 info = info % 2 ^ 8

-- The kinds of relocation that the switch tells apart; R_386_COPY changes nothing either.
pub data RelKind : Type 0 where
  relative : RelKind
  thumb_glob_dat : RelKind
  symbol_value : RelKind
  no_change : RelKind

unfoldable pub kind_of_rel : Target → ℕ → RelKind
kind_of_rel arm type =
    if type == 23
    then relative
    else if type == 21
    then thumb_glob_dat
    else if type == 22
    then symbol_value
    else no_change
kind_of_rel i386 type =
    if type == 8
    then relative
    else if type == 6
    then symbol_value
    else if type == 7
    then symbol_value
    else no_change

-- R_ARM_GLOB_DAT: the addend, `st_value` and `st_info`. STT_FUNC is 2.
unfoldable pub thumb_value : ℕ → ℕ → ℕ → ℕ
thumb_value addend st_value st_info =
    let odd = st_value % 2 == 1 in
    let sum = (addend + (if odd then st_value - 1 else st_value)) % 2 ^ 32 in
    if (st_info % 16 == 2) && odd then sum / 2 * 2 + 1 else sum

-- What is stored at the place of a relocation, if anything.
unfoldable pub rel_value : RelKind → ℕ → ℕ → Bytes → Rel → Outcome (Option ℕ)
unfolding thumb_value
rel_value relative base symtab blob r = do
  addend ← access (load_number blob r.r_offset 4)
  done (some ((base + addend) % 2 ^ 32))
rel_value thumb_glob_dat base symtab blob r = do
  addend ← access (load_number blob r.r_offset 4)
  st_value ← access (load_number blob (symtab + 16 * reloc_sym32 r.r_info + 4) 4)
  st_info ← access (load_number blob (symtab + 16 * reloc_sym32 r.r_info + 12) 1)
  done (some (thumb_value addend st_value st_info))
rel_value symbol_value base symtab blob r = do
  st_value ← access (load_number blob (symtab + 16 * reloc_sym32 r.r_info + 4) 4)
  done (some (st_value % 2 ^ 32))
rel_value no_change base symtab blob r = done none

unfoldable pub put_word : ℕ → Option ℕ → Bytes → Outcome Bytes
put_word place none blob = done blob
put_word place (some v) blob = access (store_number blob place 4 v)

unfoldable pub apply_rel : Target → ℕ → ℕ → Bytes → Rel → Outcome Bytes
unfolding put_word
apply_rel target base symtab blob r = do
  value ← rel_value (kind_of_rel target (reloc_type32 r.r_info)) base symtab blob r
  put_word r.r_offset value blob

-- `LeafDoRel`, with the rounds left and `i`.
unfoldable pub do_rel32 : Target → ℕ → ℕ → ℕ → ℕ → ℕ → Bytes → Outcome Bytes
unfolding apply_rel
do_rel32 target zero i base symtab relocs blob = done blob
do_rel32 target (suc rounds) i base symtab relocs blob = do
  r ← rel_at blob relocs i
  blob' ← apply_rel target base symtab blob r
  do_rel32 target rounds (i + 1) base symtab relocs blob'
