-- ===== src/Leaf/Symbols.antt =====
-- The symbol table: the lookups, and the values that the loader puts in.
pub mod Search
pub mod Moved
use kn_shim.Base.{
  ℕ, zero, suc, ◌+◌, ◌*◌, ◌%◌, ◌^◌, Bool, true, false, Option, none, some, List, [], ◌∷◌, drop,
  ◌==◌, if◌then◌else◌,
}
use kn_shim.Dict.Blob.{Bytes}
use kn_shim.Memory.Region.{load_number, store_number}
use kn_shim.Leaf.{LoadError, Outcome, done, fault, ◌>>=◌, ◌>>◌, access, Linker}

-- `strcmp(…) == 0` of a string in memory, given from its start, and a name without a NUL.
unfoldable pub strcmp : Bytes → Bytes → Option Bool
strcmp [] name = none
strcmp (b ∷ bs) [] = some (b == 0)
strcmp (b ∷ bs) (n ∷ ns) = let rest = strcmp bs ns in if b == n then rest else some false

-- The text up to its NUL.
unfoldable pub string_at : Bytes → Option Bytes
string_at [] = none
string_at (b ∷ bs) =
    let rest : Option Bytes = elim (string_at bs) [ none ↦ none | some s ↦ some (b ∷ s) ] in
    if b == 0 then some [] else rest

-- The parts of `Leaf` that the lookups use: offsets in the mapped memory.
pub record SymbolTable : Type 0 where
  pub strtab : ℕ
  pub symtab : ℕ
  pub sym_count : ℕ

-- `Elf64_Sym` has 24 bytes.
abbrev pub sym_size : ℕ
sym_size = 24

abbrev pub sym_at : SymbolTable → ℕ → ℕ
sym_at t i = t.symtab + sym_size * i

-- Whether symbol `i` has the name.
unfoldable pub has_name : Bytes → SymbolTable → Bytes → ℕ → Outcome Bool
has_name blob t name i = do
  st_name ← access (load_number blob (sym_at t i) 4)
  access (strcmp (drop (t.strtab + st_name) blob) name)

-- The loops of `LeafSymbolInfo` and `LeafSymbolAddr`: the rounds left, and `i`. A pointer to a
-- symbol is its number.
unfoldable pub symbol_info_loop : ℕ → ℕ → Bytes → SymbolTable → Bytes → Outcome (Option ℕ)
unfolding has_name
symbol_info_loop zero i blob t name = done none
symbol_info_loop (suc rounds) i blob t name =
    let rest = symbol_info_loop rounds (i + 1) blob t name in
    do same ← has_name blob t name i; if same then done (some i) else rest

unfoldable pub symbol_info : Bytes → SymbolTable → Bytes → Outcome (Option ℕ)
unfolding symbol_info_loop
symbol_info blob t name = symbol_info_loop t.sym_count 0 blob t name

unfoldable pub symbol_addr_loop : ℕ → ℕ → Bytes → SymbolTable → Bytes → Outcome (Option ℕ)
unfolding has_name
symbol_addr_loop zero i blob t name = done none
symbol_addr_loop (suc rounds) i blob t name =
    let rest = symbol_addr_loop rounds (i + 1) blob t name in
    let here : Outcome (Option ℕ) = (do
      v ← access (load_number blob (sym_at t i + 8) 8)
      done (some v)) in
    do same ← has_name blob t name i; if same then here else rest

unfoldable pub symbol_addr : Bytes → SymbolTable → Bytes → Outcome (Option ℕ)
unfolding symbol_addr_loop
symbol_addr blob t name = symbol_addr_loop t.sym_count 0 blob t name

abbrev pub shn_undef : ℕ
shn_undef = 0

abbrev pub shn_abs : ℕ
shn_abs = 0xfff1

abbrev pub shn_common : ℕ
shn_common = 0xfff2

-- `__cxa_atexit` and `__aeabi_atexit`.
abbrev pub cxa_atexit : Bytes
cxa_atexit = b'_' ∷ b'_' ∷ b'c' ∷ b'x' ∷ b'a' ∷ b'_' ∷ b'a' ∷ b't' ∷ b'e' ∷ b'x' ∷ b'i' ∷ b't' ∷ []

abbrev pub aeabi_atexit : Bytes
aeabi_atexit =
    b'_' ∷ b'_' ∷ b'a' ∷ b'e' ∷ b'a' ∷ b'b' ∷ b'i' ∷ b'_' ∷ b'a' ∷ b't' ∷ b'e' ∷ b'x' ∷ b'i' ∷ b't'
    ∷ []

-- A new `st_value`, where there are a symbol and a value.
unfoldable pub put_symbol : SymbolTable → Bytes → Option ℕ → Option ℕ → Outcome Bytes
unfolding store_number
put_symbol t blob none v = done blob
put_symbol t blob (some i) none = done blob
put_symbol t blob (some i) (some v) = access (store_number blob (sym_at t i + 8) 8 v)

module _ (linker : Linker) where
  open linker use {Handle, dlsym}

  -- The first of the libraries that could be opened and has the symbol.
  unfoldable pub resolve : List (Option Handle) → Bytes → Option ℕ
  resolve [] name = none
  resolve (none ∷ hs) name = resolve hs name
  resolve (some h ∷ hs) name =
      let rest = resolve hs name in if dlsym h name == 0 then rest else some (dlsym h name)

  -- One round of the loop over the symbols.
  unfoldable pub fix_symbol : ℕ → List (Option Handle) → SymbolTable → Bytes → ℕ → Outcome Bytes
  unfolding resolve string_at put_symbol
  fix_symbol base handles t blob i =
      let external : Outcome Bytes = (do
        st_name ← access (load_number blob (sym_at t i) 4)
        name ← access (string_at (drop (t.strtab + st_name) blob))
        put_symbol t blob (some i) (resolve handles name)) in
      let internal : Outcome Bytes = (do
        st_value ← access (load_number blob (sym_at t i + 8) 8)
        put_symbol t blob (some i) (some ((st_value + base) % 2 ^ 64))) in
      do
        shndx ← access (load_number blob (sym_at t i + 6) 2)
        if shndx == shn_abs
            then done blob
            else if shndx == shn_common
            then done blob
            else if shndx == shn_undef
            then external
            else internal

  unfoldable pub fix_symbols :
      ℕ → ℕ → ℕ → List (Option Handle) → SymbolTable → Bytes → Outcome Bytes
  unfolding fix_symbol
  fix_symbols zero i base handles t blob = done blob
  fix_symbols (suc rounds) i base handles t blob = do
    blob' ← fix_symbol base handles t blob i
    fix_symbols rounds (i + 1) base handles t blob'

  -- Both are looked up before either is replaced. A symbol that is there gets the stub's address.
  unfoldable pub stub_atexit : SymbolTable → Bytes → Outcome Bytes
  unfolding symbol_info put_symbol
  stub_atexit t blob = do
    cxa ← symbol_info blob t cxa_atexit
    aeabi ← symbol_info blob t aeabi_atexit
    blob' ← put_symbol t blob cxa (some linker.atexit_stub)
    put_symbol t blob' aeabi (some linker.atexit_stub)
