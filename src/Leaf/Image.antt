-- ===== src/Leaf/Image.antt =====
-- `LeafLoadFromBuffer` as a whole, and `LeafFinish` and `LeafFree`. The functions that are called
-- in the loaded program are given by their addresses, in the order of the calls.
pub mod Total
pub mod Calls
pub mod FromFile
use kn_shim.Base.{
  ℕ, zero, suc, ◌+◌, ◌-◌, ◌*◌, ◌/◌, Bool, Option, none, some, List, [], ◌∷◌, map, drop, length,
  ◌==◌, if◌then◌else◌,
}
use kn_shim.Dict.Blob.{Bytes}
use kn_shim.Memory.Region.{load_number}
use kn_shim.Leaf.{Outcome, done, fault, ◌>>=◌, ◌>>◌, access, stream_init, set_pos, Linker}
use kn_shim.Leaf.Header.{read_ehdr}
use kn_shim.Leaf.Segments.{read_phdrs, load_segments}
use kn_shim.Leaf.Dynamic.{DynInfo, DynTables, dyn_start, scan_dynamic, check_dynamic}
use kn_shim.Leaf.Symbols.{SymbolTable, string_at, fix_symbols, stub_atexit}
use kn_shim.Leaf.Relocs.{do_rela, do_rel}

-- The pointers that are not NULL in an array of them, with the rounds left and `i`.
unfoldable pub init_calls : ℕ → ℕ → ℕ → Bytes → Outcome (List ℕ)
unfolding load_number
init_calls zero i init_array blob = done []
init_calls (suc rounds) i init_array blob = do
  func ← access (load_number blob (init_array + 8 * i) 8)
  rest ← init_calls rounds (i + 1) init_array blob
  done (if func == 0 then rest else func ∷ rest)

-- A variable that must have been set.
abbrev pub initialised : Option ℕ → Outcome ℕ
initialised n = access n

-- A division, whose divisor must not be 0.
unfoldable pub divided : ℕ → ℕ → Outcome ℕ
divided n d = if d == 0 then fault else done (n / d)

-- DT_RELA is 7.
unfoldable pub relocate : ℕ → DynInfo → DynTables → Bytes → Outcome Bytes
unfolding do_rela do_rel divided
relocate base info t blob = do
  size ← initialised info.reloc_size
  ent_size ← initialised info.reloc_ent_size
  plt_size ← initialised info.plt_relocs_size
  types ← initialised info.reloc_types
  reloc_count ← divided size ent_size
  plt_count ← divided plt_size ent_size
  let rela : Outcome Bytes = (do
    blob' ← do_rela reloc_count 0 base t.symtab t.relocs blob
    do_rela plt_count 0 base t.symtab t.plt_relocs blob')
  let rel : Outcome Bytes = (do
    blob' ← do_rel reloc_count 0 t.relocs blob
    do_rel plt_count 0 t.plt_relocs blob')
  if types == 7 then rela else rel

-- The names of the needed libraries.
unfoldable pub needed_names : Bytes → ℕ → List ℕ → Outcome (List Bytes)
unfolding string_at
needed_names blob strtab [] = done []
needed_names blob strtab (v ∷ vs) = do
  name ← access (string_at (drop (strtab + v) blob))
  names ← needed_names blob strtab vs
  done (name ∷ names)

module _ (linker : Linker) where
  open linker use {Handle, dlopen}

  -- `Leaf`; a library that could not be opened is `none`.
  pub record Leaf : Type 0 where
    pub base : ℕ
    pub blob : Bytes
    pub table : SymbolTable
    pub fini_array : ℕ
    pub fini_count : ℕ
    pub handles : List (Option Handle)

  -- From the tests on the dynamic entries to the end; also the functions called.
  unfoldable pub link : ℕ → Bytes → DynInfo → Outcome (Leaf × List ℕ)
  unfolding check_dynamic needed_names fix_symbols stub_atexit relocate init_calls
  link base blob info = do
    t ← check_dynamic info
    fini_size ← initialised info.fini_array_size
    let table : SymbolTable = record {
      strtab = t.strtab;
      symtab = t.symtab;
      sym_count = info.sym_count;
    }
    names ← needed_names blob t.strtab info.needed
    let handles : List (Option Handle) = map dlopen names
    blob1 ← fix_symbols linker (info.sym_count - 1) 1 base handles table blob
    blob2 ← stub_atexit linker table blob1
    blob3 ← relocate base info t blob2
    init_size ← initialised info.init_array_size
    called ← init_calls (init_size / 8) 0 t.init_array blob3
    done (
      record {
        base = base;
        blob = blob3;
        table = table;
        fini_array = t.fini_array;
        fini_count = fini_size / 8;
        handles = handles;
      },
      called,
    )

  unfoldable pub load_from_buffer : Bytes → ℕ → Outcome (Leaf × List ℕ)
  unfolding read_ehdr read_phdrs load_segments scan_dynamic link
  load_from_buffer contents size = do
    (ehdr, stream) ← read_ehdr (stream_init contents size)
    (phdrs, stream') ← read_phdrs ehdr.phnum ehdr.phentsize (set_pos stream ehdr.phoff)
    (base, blob, pos) ← load_segments linker stream' phdrs
    info ← scan_dynamic (suc (length contents)) contents blob pos dyn_start
    link base blob info

  -- The loop of `LeafFinish`, with the rounds left and `i`: the functions called.
  unfoldable pub finish_loop : ℕ → ℕ → Leaf → Outcome (List ℕ)
  unfolding load_number
  finish_loop zero i self = done []
  finish_loop (suc rounds) i self = do
    func ← access (load_number self.blob (self.fini_array + 8 * (self.fini_count - i)) 8)
    rest ← finish_loop rounds (i + 1) self
    done (if func == 0 then rest else func ∷ rest)

  unfoldable pub finish : Leaf → Outcome (List ℕ)
  unfolding finish_loop
  finish self = finish_loop self.fini_count 1 self

  -- The handles that `LeafFree` closes.
  unfoldable pub opened : List (Option Handle) → List Handle
  opened [] = []
  opened (none ∷ hs) = opened hs
  opened (some h ∷ hs) = h ∷ opened hs

  -- `LeafFree`: the functions called, and the handles closed.
  unfoldable pub leaf_free : Leaf → Outcome (List ℕ × List Handle)
  unfolding finish opened
  leaf_free self = do called ← finish self; done (called, opened self.handles)
