-- ===== src/Leaf/Dynamic.antt =====
-- The scan of the dynamic entries, which are read from the file, and the tests on what it found.
pub mod Scan
use kn_shim.Base.{
  ℕ, zero, suc, ◌+◌, ◌*◌, Bool, true, false, not, Option, none, some, List, [], ◌∷◌, ◌++◌, ◌==◌,
  if◌then◌else◌,
}
use kn_shim.Dict.Blob.{Bytes}
use kn_shim.Memory.Region.{load_number}
use kn_shim.Leaf.{
  LoadError, no_string_table, no_relocs, no_symbol_table, no_plt_relocs, no_init_array,
  no_fini_array, no_symbol_count, Outcome, done, error, stuck, ◌>>=◌, ◌>>◌, access, found, require,
}

-- The local variables of the scan: addresses as offsets in the mapped memory, and sizes that are
-- `none` while they are not initialised. `needed` is `dl_handles` before the names are fixed.
pub record DynInfo : Type 0 where
  pub needed : List ℕ
  pub strtab : Option ℕ
  pub relocs : Option ℕ
  pub reloc_size : Option ℕ
  pub reloc_ent_size : Option ℕ
  pub reloc_types : Option ℕ
  pub plt_relocs : Option ℕ
  pub plt_relocs_size : Option ℕ
  pub symtab : Option ℕ
  pub sym_count : ℕ
  pub init_array : Option ℕ
  pub init_array_size : Option ℕ
  pub fini_array : Option ℕ
  pub fini_array_size : Option ℕ

abbrev pub dyn_start : DynInfo
dyn_start = record {
  needed = [];
  strtab = none;
  relocs = none;
  reloc_size = none;
  reloc_ent_size = none;
  reloc_types = none;
  plt_relocs = none;
  plt_relocs_size = none;
  symtab = none;
  sym_count = 0;
  init_array = none;
  init_array_size = none;
  fini_array = none;
  fini_array_size = none;
}

-- The tags that the scan stores something for; `other` are those it only logs or ignores.
pub data Tag : Type 0 where
  needed hash strtab symtab relocs reloc_size reloc_ent_size reloc_types : Tag
  plt_relocs plt_relocs_size init_array init_array_size fini_array fini_array_size other : Tag

-- The numbers of <elf.h>. DT_RELA and DT_REL, their sizes and their entries' sizes share a place.
unfoldable pub tag_of : ℕ → Tag
tag_of tag =
    if tag == 1
    then Tag.needed
    else if tag == 2
    then Tag.plt_relocs_size
    else if tag == 4
    then hash
    else if tag == 5
    then Tag.strtab
    else if tag == 6
    then Tag.symtab
    else if tag == 7
    then Tag.relocs
    else if tag == 8
    then Tag.reloc_size
    else if tag == 9
    then Tag.reloc_ent_size
    else if tag == 17
    then Tag.relocs
    else if tag == 18
    then Tag.reloc_size
    else if tag == 19
    then Tag.reloc_ent_size
    else if tag == 20
    then Tag.reloc_types
    else if tag == 23
    then Tag.plt_relocs
    else if tag == 25
    then Tag.init_array
    else if tag == 26
    then Tag.fini_array
    else if tag == 27
    then Tag.init_array_size
    else if tag == 28
    then Tag.fini_array_size
    else other

-- One case of the switch. The number of symbols is the second word of the hash table.
unfoldable pub note_entry : Bytes → Tag → ℕ → DynInfo → Outcome DynInfo
unfolding load_number
note_entry blob Tag.needed v i = done (record i { needed = i.needed ++ v ∷ [] })
note_entry blob hash v i = do
  n ← access (load_number blob (v + 4) 4)
  done (record i { sym_count = n })
note_entry blob Tag.strtab v i = done (record i { strtab = some v })
note_entry blob Tag.symtab v i = done (record i { symtab = some v })
note_entry blob Tag.relocs v i = done (record i { relocs = some v })
note_entry blob Tag.reloc_size v i = done (record i { reloc_size = some v })
note_entry blob Tag.reloc_ent_size v i = done (record i { reloc_ent_size = some v })
note_entry blob Tag.reloc_types v i = done (record i { reloc_types = some v })
note_entry blob Tag.plt_relocs v i = done (record i { plt_relocs = some v })
note_entry blob Tag.plt_relocs_size v i = done (record i { plt_relocs_size = some v })
note_entry blob Tag.init_array v i = done (record i { init_array = some v })
note_entry blob Tag.init_array_size v i = done (record i { init_array_size = some v })
note_entry blob Tag.fini_array v i = done (record i { fini_array = some v })
note_entry blob Tag.fini_array_size v i = done (record i { fini_array_size = some v })
note_entry blob other v i = done i

-- The loop, up to DT_NULL.
unfoldable pub scan_dynamic : ℕ → Bytes → Bytes → ℕ → DynInfo → Outcome DynInfo
unfolding note_entry
scan_dynamic zero contents blob pos info = stuck
scan_dynamic (suc fuel) contents blob pos info =
    let rest : ℕ → Outcome DynInfo = λ tag. (do
      value ← access (load_number contents (pos + 8) 8)
      info' ← note_entry blob (tag_of tag) value info
      scan_dynamic fuel contents blob (pos + 16) info') in
    do tag ← access (load_number contents pos 8); if tag == 0 then done info else rest tag

-- What the loader goes on with.
pub record DynTables : Type 0 where
  pub strtab : ℕ
  pub relocs : ℕ
  pub symtab : ℕ
  pub plt_relocs : ℕ
  pub init_array : ℕ
  pub fini_array : ℕ

unfoldable pub check_dynamic : DynInfo → Outcome DynTables
check_dynamic i = do
  strtab' ← found i.strtab no_string_table
  relocs' ← found i.relocs no_relocs
  symtab' ← found i.symtab no_symbol_table
  plt_relocs' ← found i.plt_relocs no_plt_relocs
  init_array' ← found i.init_array no_init_array
  fini_array' ← found i.fini_array no_fini_array
  require (not (i.sym_count == 0)) no_symbol_count
  done (record {
    strtab = strtab';
    relocs = relocs';
    symtab = symtab';
    plt_relocs = plt_relocs';
    init_array = init_array';
    fini_array = fini_array';
  })
