-- ===== src/Leaf/Image/Total.antt =====
-- The end of `LeafLoadFromBuffer` of jni/andrleaf.h.
use kn_shim.Base.{ℕ, zero, suc, ◌≢◌, Option, none, some, List, [], ◌∷◌, length, arith}
use kn_shim.Dict.Blob.{Bytes}
use kn_shim.Leaf.{stuck, Linker, LeafStream}
use kn_shim.Leaf.Finishes.{Finishes, ends, bind-Finishes, not_stuck}
use kn_shim.Leaf.Header.{Ehdr, parse_ehdr, check_ehdr, read_ehdr}
use kn_shim.Leaf.Segments.{
  Phdr, parse_phdr, read_phdrs, put_segment, copy_segment, copy_segments, load_segments,
}
use kn_shim.Leaf.Dynamic.{DynInfo, DynTables, dyn_start, scan_dynamic, check_dynamic}
use kn_shim.Leaf.Dynamic.Scan.{scan_dynamic-Finishes}
use kn_shim.Leaf.Symbols.{
  SymbolTable, has_name, symbol_info_loop, symbol_info, fix_symbol, fix_symbols, put_symbol,
  stub_atexit,
}
use kn_shim.Leaf.Relocs.{Rela, rela_at, rela_value, put_value, apply_rela, do_rela, do_rel}
use kn_shim.Leaf.Image.{init_calls, divided, relocate, needed_names, link, load_from_buffer}

parse_ehdr-Finishes : (b : Bytes) → Finishes (parse_ehdr b)
unfolding parse_ehdr
parse_ehdr-Finishes b = search (ends) depth 30

check_ehdr-Finishes : (h : Ehdr) → Finishes (check_ehdr h)
unfolding check_ehdr
check_ehdr-Finishes h = search (ends) depth 30

parse_phdr-Finishes : (b : Bytes) → Finishes (parse_phdr b)
unfolding parse_phdr
parse_phdr-Finishes b = search (ends) depth 30

read_ehdr-Finishes : (s : LeafStream) → Finishes (read_ehdr s)
unfolding read_ehdr
read_ehdr-Finishes s = search (ends, parse_ehdr-Finishes, check_ehdr-Finishes) depth 30

read_phdrs-Finishes : (left n : ℕ) (s : LeafStream) → Finishes (read_phdrs left n s)
unfolding read_phdrs
read_phdrs-Finishes zero n s = search (ends) depth 30
read_phdrs-Finishes (suc left) n s =
    search (ends, parse_phdr-Finishes, read_phdrs-Finishes left n) depth 30

put_segment-Finishes :
    (vaddr : ℕ) (read : Option Bytes) (blob : Bytes) → Finishes (put_segment vaddr read blob)
unfolding put_segment
put_segment-Finishes vaddr none blob = search (ends) depth 30
put_segment-Finishes vaddr (some b) blob = search (ends) depth 30

copy_segment-Finishes :
    (s : LeafStream) (p : Phdr) (st : Bytes × Option ℕ) → Finishes (copy_segment s p st)
unfolding copy_segment
copy_segment-Finishes s p st = search (ends, put_segment-Finishes) depth 30

copy_segments-Finishes :
    (s : LeafStream) (ps : List Phdr) (st : Bytes × Option ℕ) → Finishes (copy_segments s ps st)
unfolding copy_segments
copy_segments-Finishes s [] st = search (ends) depth 30
copy_segments-Finishes s (p ∷ ps) st =
    bind-Finishes _ (copy_segment-Finishes s p st) (copy_segments-Finishes s ps)

check_dynamic-Finishes : (i : DynInfo) → Finishes (check_dynamic i)
unfolding check_dynamic
check_dynamic-Finishes i = search (ends) depth 30

put_symbol-Finishes : (t : SymbolTable) (b : Bytes) (i v : Option ℕ) → Finishes (put_symbol t b i v)
unfolding put_symbol
put_symbol-Finishes t b none v = search (ends) depth 30
put_symbol-Finishes t b (some i) none = search (ends) depth 30
put_symbol-Finishes t b (some i) (some v) = search (ends) depth 30

has_name-Finishes :
    (blob : Bytes) (t : SymbolTable) (name : Bytes) (i : ℕ) → Finishes (has_name blob t name i)
unfolding has_name
has_name-Finishes blob t name i = search (ends) depth 30

symbol_info_loop-Finishes :
    (rounds i : ℕ) (blob : Bytes) (t : SymbolTable) (name : Bytes)
    → Finishes (symbol_info_loop rounds i blob t name)
unfolding symbol_info_loop
symbol_info_loop-Finishes zero i blob t name = search (ends) depth 30
symbol_info_loop-Finishes (suc rounds) i blob t name =
    search (ends, has_name-Finishes, symbol_info_loop-Finishes rounds) depth 30

rela_at-Finishes : (blob : Bytes) (relocs i : ℕ) → Finishes (rela_at blob relocs i)
unfolding rela_at
rela_at-Finishes blob relocs i = search (ends) depth 30

rela_value-Finishes :
    (base symtab : ℕ) (blob : Bytes) (r : Rela) → Finishes (rela_value base symtab blob r)
unfolding rela_value
rela_value-Finishes base symtab blob r = search (ends) depth 30

put_value-Finishes : (place : ℕ) (v : Option ℕ) (blob : Bytes) → Finishes (put_value place v blob)
unfolding put_value
put_value-Finishes place none blob = search (ends) depth 30
put_value-Finishes place (some v) blob = search (ends) depth 30

apply_rela-Finishes :
    (base symtab : ℕ) (blob : Bytes) (r : Rela) → Finishes (apply_rela base symtab blob r)
unfolding apply_rela
apply_rela-Finishes base symtab blob r =
    search (ends, rela_value-Finishes, put_value-Finishes) depth 30

do_rela-Finishes :
    (rounds i base symtab relocs : ℕ) (blob : Bytes)
    → Finishes (do_rela rounds i base symtab relocs blob)
unfolding do_rela
do_rela-Finishes zero i base symtab relocs blob = search (ends) depth 30
do_rela-Finishes (suc rounds) i base symtab relocs blob =
    search (ends, rela_at-Finishes, apply_rela-Finishes, do_rela-Finishes rounds) depth 30

do_rel-Finishes : (rounds i relocs : ℕ) (blob : Bytes) → Finishes (do_rel rounds i relocs blob)
unfolding do_rel
do_rel-Finishes zero i relocs blob = search (ends) depth 30
do_rel-Finishes (suc rounds) i relocs blob = search (ends, do_rel-Finishes rounds) depth 30

divided-Finishes : (n d : ℕ) → Finishes (divided n d)
unfolding divided
divided-Finishes n d = search (ends) depth 30

relocate-Finishes :
    (base : ℕ) (i : DynInfo) (t : DynTables) (blob : Bytes) → Finishes (relocate base i t blob)
unfolding relocate
relocate-Finishes base i t blob =
    search (ends, divided-Finishes, do_rela-Finishes, do_rel-Finishes) depth 30

init_calls-Finishes :
    (rounds i array : ℕ) (blob : Bytes) → Finishes (init_calls rounds i array blob)
unfolding init_calls
init_calls-Finishes zero i array blob = search (ends) depth 30
init_calls-Finishes (suc rounds) i array blob = search (ends, init_calls-Finishes rounds) depth 30

needed_names-Finishes :
    (blob : Bytes) (strtab : ℕ) (vs : List ℕ) → Finishes (needed_names blob strtab vs)
unfolding needed_names
needed_names-Finishes blob strtab [] = search (ends) depth 30
needed_names-Finishes blob strtab (v ∷ vs) =
    search (ends, needed_names-Finishes blob strtab vs) depth 30

module _ (linker : Linker) where
  open linker use {Handle}

  load_segments-Finishes : (s : LeafStream) (ps : List Phdr) → Finishes (load_segments linker s ps)
  unfolding load_segments
  load_segments-Finishes s ps = search (ends, copy_segments-Finishes) depth 30

  fix_symbol-Finishes :
      (base : ℕ) (hs : List (Option Handle)) (t : SymbolTable) (blob : Bytes) (i : ℕ)
      → Finishes (fix_symbol linker base hs t blob i)
  unfolding fix_symbol
  fix_symbol-Finishes base hs t blob i = search (ends, put_symbol-Finishes) depth 30

  fix_symbols-Finishes :
      (rounds i base : ℕ) (hs : List (Option Handle)) (t : SymbolTable) (blob : Bytes)
      → Finishes (fix_symbols linker rounds i base hs t blob)
  unfolding fix_symbols
  fix_symbols-Finishes zero i base hs t blob = search (ends) depth 30
  fix_symbols-Finishes (suc rounds) i base hs t blob =
      search (ends, fix_symbol-Finishes, fix_symbols-Finishes rounds) depth 30

  stub_atexit-Finishes : (t : SymbolTable) (blob : Bytes) → Finishes (stub_atexit linker t blob)
  unfolding stub_atexit symbol_info
  stub_atexit-Finishes t blob =
      search (ends, symbol_info_loop-Finishes, put_symbol-Finishes) depth 30

  link-Finishes : (base : ℕ) (blob : Bytes) (i : DynInfo) → Finishes (link linker base blob i)
  unfolding link
  link-Finishes base blob i =
      search
        (
          ends, check_dynamic-Finishes, needed_names-Finishes, fix_symbols-Finishes,
          stub_atexit-Finishes, relocate-Finishes, init_calls-Finishes,
        )
        depth 30

  -- Whatever the file is, and whatever the linker answers, `LeafLoadFromBuffer` gets to an answer,
  -- an error or undefined behaviour: it never runs out of the fuel, which is one more than the
  -- length of the file.
  pub load_from_buffer-ends :
      (contents : Bytes) (size : ℕ) → load_from_buffer linker contents size ≢ stuck
  unfolding load_from_buffer
  load_from_buffer-ends contents size =
      let scanned : (blob : Bytes) (pos : ℕ)
          → Finishes (scan_dynamic (suc (length contents)) contents blob pos dyn_start) =
        λ blob pos.
          scan_dynamic-Finishes (suc (length contents)) contents blob pos dyn_start (omega arith)
            (omega arith) in
      not_stuck (
        search
          (
            ends, read_ehdr-Finishes, read_phdrs-Finishes, load_segments-Finishes, scanned,
            link-Finishes,
          )
          depth 30)
