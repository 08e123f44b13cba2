-- ===== src/Leaf/Dynamic/Scan.antt =====
-- The fuel of the scan of the dynamic entries: each entry has sixteen bytes of the file.
use kn_shim.Base.{ℕ, zero, suc, ◌+◌, ◌*◌, ◌<◌, length, ◌==◌, arith}
use kn_shim.Dict.Blob.{Bytes}
use kn_shim.Leaf.Finishes.{
  Finishes, done_ends, load-Finishes, access-Finishes, bind-Finishes, if-Finishes,
}
use kn_shim.Leaf.Dynamic.{Tag, DynInfo, tag_of, note_entry, scan_dynamic}

note_entry-Finishes :
    (blob : Bytes) (t : Tag) (v : ℕ) (i : DynInfo) → Finishes (note_entry blob t v i)
unfolding note_entry
note_entry-Finishes blob Tag.hash v i = access-Finishes _ _ λ n. done_ends _
note_entry-Finishes blob Tag.needed v i = done_ends _
note_entry-Finishes blob Tag.strtab v i = done_ends _
note_entry-Finishes blob Tag.symtab v i = done_ends _
note_entry-Finishes blob Tag.relocs v i = done_ends _
note_entry-Finishes blob Tag.reloc_size v i = done_ends _
note_entry-Finishes blob Tag.reloc_ent_size v i = done_ends _
note_entry-Finishes blob Tag.reloc_types v i = done_ends _
note_entry-Finishes blob Tag.plt_relocs v i = done_ends _
note_entry-Finishes blob Tag.plt_relocs_size v i = done_ends _
note_entry-Finishes blob Tag.init_array v i = done_ends _
note_entry-Finishes blob Tag.init_array_size v i = done_ends _
note_entry-Finishes blob Tag.fini_array v i = done_ends _
note_entry-Finishes blob Tag.fini_array_size v i = done_ends _
note_entry-Finishes blob Tag.other v i = done_ends _

pub scan_dynamic-Finishes :
    (fuel : ℕ) (contents blob : Bytes) (pos : ℕ) (info : DynInfo)
    → length contents < pos + 16 * fuel
    → 0 < fuel
    → Finishes (scan_dynamic fuel contents blob pos info)
unfolding scan_dynamic
scan_dynamic-Finishes zero contents blob pos info h pos_fuel = absurd (omega arith)
scan_dynamic-Finishes (suc zero) contents blob pos info h pos_fuel =
    load-Finishes contents pos 8 _ λ room tag.
      if-Finishes (tag == 0) (done_ends _)
        (load-Finishes contents (pos + 8) 8 _ λ room' value. absurd (omega arith))
scan_dynamic-Finishes (suc (suc fuel)) contents blob pos info h pos_fuel =
    load-Finishes contents pos 8 _ λ room tag. if-Finishes (tag == 0) (done_ends _) (
      load-Finishes contents (pos + 8) 8 _ λ room' value.
        bind-Finishes _ (note_entry-Finishes blob (tag_of tag) value info) λ info'.
          scan_dynamic-Finishes (suc fuel) contents blob (pos + 16) info' (omega arith)
            (omega arith))
