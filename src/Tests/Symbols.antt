-- ===== src/Tests/Symbols.antt =====
-- The loop over the symbols, on a small symbol table.
use kn_shim.Base.{◌≡◌, ◌≤◌, refl, [], ◌∷◌, ◌++◌, length, take, arith, inl, inr}
use kn_shim.Dict.Blob.{Bytes}
use kn_shim.Memory.Region.{bytes_of, number_of, load_number, store_number}
use kn_shim.Leaf.{done, access, ◌>>=◌}
use kn_shim.Leaf.Symbols.{SymbolTable, fix_symbols}
use kn_shim.Leaf.Symbols.Moved.{
  absolute, moved, ToMove, no_symbol, symbol, HaveValues, fix_symbols-moves,
}
use kn_shim.Leaf.Relocs32.{arm, Rel, rel_at, rel_value, kind_of_rel, do_rel32}
use kn_shim.Leaf.Relocs32.Applied32.{Table32, no_entry, entry}
use kn_shim.Leaf.Relocs32.Loop32.{do_rel32-applied}
use kn_shim.Leaf.Relocs32.Meant32.{AllRelocated}
use kn_shim.Tests.Loader
use kn_shim.Tests.Loader.{test_linker}

-- The null symbol, one of a section and an absolute one.
abbrev symbols : Bytes
symbols = Loader.symbol 0 0 0 ++ Loader.symbol 1 5 0x20 ++ Loader.symbol 2 0xfff1 7

abbrev at_start : SymbolTable
at_start = record { strtab = 72; symtab = 0; sym_count = 3 }

symbols-ToMove : ToMove 4096 at_start symbols 1 (4128 ∷ 7 ∷ [])
unfolding load_number number_of bytes_of
symbols-ToMove =
    symbol (moved refl refl refl refl refl) (omega arith)
      (symbol (absolute refl refl) (omega arith) no_symbol)

fix_symbols-moves_example :
    (new : Bytes) × (fix_symbols test_linker 2 1 4096 [] at_start symbols ≡ done new)
    × (length new ≡ length symbols)
    × HaveValues at_start new 1 (4128 ∷ 7 ∷ [])
    × (take 32 new ≡ take 32 symbols)
fix_symbols-moves_example =
    fix_symbols-moves test_linker 4096 [] at_start 1 (4128 ∷ 7 ∷ []) symbols symbols-ToMove

-- A symbol of a Thumb function, two relocations, and the words that they are to.
abbrev arm_memory : Bytes
arm_memory =
    (Loader.half 0 ++ (Loader.half 0x1001 ++ (Loader.half 0 ++ (2 ∷ 0 ∷ Loader.short 5))))
    ++ (Loader.half 32 ++ (Loader.half 21 ++ (Loader.half 36 ++ Loader.half 23)))
    ++ (Loader.half 0x10 ++ (Loader.half 0x24 ++ Loader.half 7))

abbrev glob_dat : Rel
glob_dat = record { r_offset = 32; r_info = 21 }

abbrev relative : Rel
relative = record { r_offset = 36; r_info = 23 }

arm_memory-long : 32 ≤ length arm_memory
unfolding bytes_of
arm_memory-long = omega arith

arm_memory-Table32 : Table32 0 32 16 arm_memory 0 (glob_dat ∷ relative ∷ [])
unfolding rel_at bytes_of load_number number_of
arm_memory-Table32 =
    entry refl (omega arith) (omega arith) (omega arith) (omega arith) (inl (omega arith), tt)
      (entry refl (omega arith) (omega arith) (omega arith) (omega arith) tt no_entry)

do_rel32-applied_example :
    (new : Bytes) × (do_rel32 arm 2 0 4096 0 16 arm_memory ≡ done new)
    × AllRelocated arm 4096 0 arm_memory new (glob_dat ∷ relative ∷ [])
    × (load_number new 4 4 ≡ load_number arm_memory 4 4)
    × (load_number new 40 4 ≡ load_number arm_memory 40 4)
do_rel32-applied_example =
    do_rel32-applied arm 4096 0 32 16 arm_memory (glob_dat ∷ relative ∷ []) 4 4 40 arm_memory-long
      arm_memory-Table32 (omega arith) (inr (omega arith), (inr (omega arith), tt))

arm_relocated :
    (do_rel32 arm 2 0 4096 0 16 arm_memory >>= λ new. access (load_number new 32 4)) ≡ done 0x1011
unfolding do_rel32 rel_at rel_value kind_of_rel store_number bytes_of load_number number_of
arm_relocated = refl
