-- ===== src/Tests/Loader.antt =====
-- The loader on small files.
use kn_shim.Base.{
  ℕ, ◌+◌, ◌*◌, ◌^◌, ◌≡◌, refl, inl, none, some, Option, List, [], ◌∷◌, ◌++◌, length, replicate,
  take, drop, arith, true, false, ◌<◌, ◌≤◌,
}
use kn_shim.Dict.Blob.{Bytes, bytes_eq}
use kn_shim.Memory.Region.{bytes_of, number_of, load_number}
use kn_shim.Leaf.{Outcome, done, LeafStream, stream_init, Linker}
use kn_shim.Leaf.Header.{elf_signature}
use kn_shim.Leaf.Header.Checks.{Verdict, read_ehdr-Verdict}
use kn_shim.Leaf.Segments.{Phdr, copy_segments}
use kn_shim.Leaf.Segments.Copied.{nothing, segment, no_more, copy_segments-copied}
use kn_shim.Leaf.Dynamic.{tag_of}
use kn_shim.Leaf.Symbols.{SymbolTable, strcmp, has_name, symbol_info}
use kn_shim.Leaf.Symbols.Search.{symbol_info-first}
use kn_shim.Leaf.Relocs.{Rela, rela_at, do_rela}
use kn_shim.Leaf.Relocs.Applied.{Table, no_entry, entry, none_left, away}
use kn_shim.Leaf.Relocs.Loop.{Meant, base_sum, do_rela-applied}
use kn_shim.Leaf.Image.{init_calls, Leaf, load_from_buffer, finish_loop, finish}
use kn_shim.Tests.Machine.{Files}
use kn_shim.Leaf.Image.Calls.{reverse, in_order, finish-reverses}

abbrev pub word : ℕ → Bytes
unfolding bytes_of
word n = bytes_of 8 n

abbrev pub half : ℕ → Bytes
unfolding bytes_of
half n = bytes_of 4 n

abbrev pub short : ℕ → Bytes
unfolding bytes_of
short n = bytes_of 2 n

-- A header, for a number of program headers.
abbrev pub elf_header : ℕ → Bytes
elf_header phnum =
    elf_signature
    ++ 2 ∷ 1 ∷ 1 ∷ replicate 9 0
    ++ short 3
    ++ replicate 14 0
    ++ word 64
    ++ replicate 14 0
    ++ short 56
    ++ short phnum
    ++ replicate 6 0

abbrev pub program_header : ℕ → ℕ → ℕ → Bytes
program_header p_type offset size =
    half p_type
    ++ half 0
    ++ word offset
    ++ word offset
    ++ word offset
    ++ word size
    ++ word size
    ++ word 0

abbrev pub symbol : ℕ → ℕ → ℕ → Bytes
symbol name shndx value = half name ++ 0 ∷ 0 ∷ short shndx ++ word value ++ word 0

abbrev pub rela : ℕ → ℕ → ℕ → ℕ → Bytes
rela offset sym type addend = word offset ++ word (sym * 2 ^ 32 + type) ++ word addend

abbrev pub dyn : ℕ → ℕ → Bytes
dyn tag value = word tag ++ word value

-- One loadable segment that is the whole file, and the dynamic entries in it.
abbrev pub test_elf : Bytes
test_elf =
    elf_header 2
    ++ program_header 1 0 608
    ++ program_header 2 320 240
    ++ 0 ∷ b'f' ∷ b'o' ∷ b'o' ∷ 0 ∷ b'l' ∷ b'i' ∷ b'b' ∷ b'c' ∷ 0 ∷ replicate 6 0
    ++ symbol 0 0 0
    ++ symbol 1 5 0x20
    ++ half 1
    ++ half 2
    ++ rela 560 0 1027 176
    ++ rela 568 1 1025 1
    ++ rela 576 1 1026 0
    ++ dyn 1 5
    ++ dyn 4 240
    ++ dyn 5 176
    ++ dyn 6 192
    ++ dyn 7 248
    ++ dyn 8 48
    ++ dyn 9 24
    ++ dyn 20 7
    ++ dyn 23 296
    ++ dyn 2 24
    ++ dyn 25 584
    ++ dyn 27 8
    ++ dyn 26 592
    ++ dyn 28 16
    ++ dyn 0 0
    ++ word 0
    ++ word 0
    ++ word 0
    ++ word 0x77
    ++ word 0x88
    ++ word 0x99

-- Mapped at 4096; no library can be opened.
abbrev pub test_linker : Linker
test_linker = record {
  Handle = Unit;
  map_rwx = λ n. some 4096;
  dlopen = λ name. none;
  dlsym = λ h name. 0;
  atexit_stub = 0x1234;
}

-- The three relocated words, the functions called, and those that `LeafFinish` calls.
abbrev summary : Outcome (Leaf test_linker × List ℕ) → Option (Bytes × List ℕ × Outcome (List ℕ))
unfolding finish finish_loop load_number number_of
summary (done (leaf, calls)) = some (take 24 (drop 560 leaf.blob), calls, finish test_linker leaf)
summary other = none

test_elf_loads :
    summary (load_from_buffer test_linker test_elf 608)
    ≡ some (word 4272 ++ word 4129 ++ word 4128, 0x77 ∷ [], done (0x99 ∷ 0x88 ∷ []))
unfolding load_from_buffer summary bytes_eq tag_of strcmp
test_elf_loads = refl

abbrev elf_disk : Files
elf_disk path = some test_elf

read_ehdr-Verdict_example : Verdict test_elf
unfolding bytes_of
read_ehdr-Verdict_example = read_ehdr-Verdict test_elf (omega arith)

abbrev pub table : SymbolTable
table = record { strtab = 176; symtab = 192; sym_count = 2 }

abbrev pub foo : Bytes
foo = b'f' ∷ b'o' ∷ b'o' ∷ []

test_elf-no_foo : (j : ℕ) → j < 1 → has_name test_elf table foo j ≡ done false
unfolding has_name bytes_of strcmp load_number number_of
test_elf-no_foo j lt = let e : j ≡ 0 = omega arith in rw e refl

test_elf-foo : has_name test_elf table foo 1 ≡ done true
unfolding has_name bytes_of strcmp load_number number_of
test_elf-foo = refl

foo_found : symbol_info test_elf table foo ≡ done (some 1)
foo_found = symbol_info-first 1 test_elf table foo (omega arith) test_elf-no_foo test_elf-foo

abbrev eight_bytes : LeafStream
eight_bytes = stream_init (1 ∷ 2 ∷ 3 ∷ 4 ∷ 5 ∷ 6 ∷ 7 ∷ 8 ∷ []) 8

abbrev text_segment : Phdr
text_segment = record { p_type = 1; p_offset = 0; p_vaddr = 0; p_filesz = 4; p_memsz = 4 }

abbrev data_segment : Phdr
data_segment = record { p_type = 1; p_offset = 4; p_vaddr = 6; p_filesz = 4; p_memsz = 6 }

copy_segments-copied_example :
    (r : Bytes × Option ℕ) × (copy_segments eight_bytes
        (text_segment ∷ data_segment ∷ [])
        (replicate 12 0, none)
      ≡ done r)
    × (take 4 (drop 6 r.0) ≡ 5 ∷ 6 ∷ 7 ∷ 8 ∷ [])
copy_segments-copied_example =
    copy_segments-copied (text_segment ∷ []) [] data_segment (replicate 12 0) none
      (record { sized = refl; small = omega arith })
      (segment refl (record { read = omega arith; placed = omega arith })
        (segment refl (record { read = omega arith; placed = omega arith }) nothing))
      refl no_more

-- A symbol, the table of two relocations, and the words that they are to.
abbrev relocated : Bytes
relocated = symbol 1 5 0x20 ++ rela 72 0 1027 24 ++ rela 80 0 1025 1 ++ word 0 ++ word 0 ++ word 9

abbrev relative : Rela
relative = record { r_offset = 72; r_info = 1027; r_addend = 24 }

abbrev glob_dat : Rela
glob_dat = record { r_offset = 80; r_info = 1025; r_addend = 1 }

relocated-long : 72 ≤ length relocated
unfolding bytes_of
relocated-long = omega arith

relocated-Table : Table 0 72 24 relocated 0 (relative ∷ glob_dat ∷ [])
unfolding rela_at bytes_of load_number number_of
relocated-Table =
    entry refl (omega arith)
      (record { symbol_below = omega arith; place_above = omega arith; place_within = omega arith })
      (entry refl (omega arith)
        (record {
          symbol_below = omega arith;
          place_above = omega arith;
          place_within = omega arith;
        })
        no_entry)

relative-Meant : Meant 4096 0 relocated relative 4120
relative-Meant = base_sum refl

do_rela-applied_example :
    (new : Bytes) × (do_rela 2 0 4096 0 24 relocated ≡ done new)
    × (length new ≡ length relocated)
    × (load_number new 72 8 ≡ some 4120)
do_rela-applied_example =
    do_rela-applied 4096 0 72 24 relocated [] (glob_dat ∷ []) relative 4120 relocated-long
      relocated-Table (away (inl (omega arith)) none_left) relative-Meant

abbrev finishing : Leaf test_linker
finishing = record {
  base = 4096;
  blob = word 0x88 ++ word 0 ++ word 0x99;
  table = table;
  fini_array = 0;
  fini_count = 3;
  handles = [];
}

finishing-room : 0 + 8 * 3 ≤ length finishing.blob
unfolding bytes_of
finishing-room = omega arith

finish-reverses_example :
    (init_calls 3 0 0 finishing.blob ≡ done (in_order 3 0 0 finishing.blob))
    × (finish test_linker finishing ≡ done (reverse (in_order 3 0 0 finishing.blob)))
finish-reverses_example = finish-reverses test_linker finishing finishing-room
