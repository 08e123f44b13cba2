-- ===== src/Startup/RegTable.antt =====
-- The table of libraries after `KNInitLua`.
use kn_shim.Base.{
  ℕ, zero, suc, ◌+◌, ◌%◌, ◌^◌, ◌≤◌, ◌<◌, ◌≡◌, ◌≢◌, refl, ap, ◌∙◌, ◌⊎◌, inl, false, Option, none,
  some, List, [], ◌∷◌, length, ◌==◌, if◌then◌else◌, arith, ◌>>=◌,
}
use kn_shim.Dict.Blob.{Bytes}
use kn_shim.Memory.Region.{
  bytes_of, patch, load_number, store_number_lem, length-patch, load_number-patch,
  load_number-patch_other,
}
use kn_shim.Leaf.{done}
use kn_shim.Leaf.Symbols.{SymbolTable, symbol_addr}
use kn_shim.Startup.{file_stream_vtable, write_entries, init_lua, DataPaths}

-- The entries of a table of libraries, a name and a function each, up to a NULL function.
unfoldable pub reg_entries : ℕ → Bytes → ℕ → Option (List (ℕ × ℕ))
reg_entries zero memory a = none
reg_entries (suc fuel) memory a =
    let rest = reg_entries fuel memory (a + 16) in
    load_number memory a 8 >>= λ name. load_number memory (a + 8) 8 >>= λ func.
    if func == 0 then some [] else (rest >>= λ entries. some ((name, func) ∷ entries))

-- The memory after one, two, three and the four writes.
abbrev written1 : Bytes → ℕ → ℕ → Bytes
written1 memory t e = patch memory (t + 16) (bytes_of 8 e)

abbrev written2 : Bytes → ℕ → ℕ → ℕ → Bytes
written2 memory t e l = patch (written1 memory t e) (t + 24) (bytes_of 8 l)

abbrev written3 : Bytes → ℕ → ℕ → ℕ → Bytes
written3 memory t e l = patch (written2 memory t e l) (t + 32) (bytes_of 8 0)

abbrev written : Bytes → ℕ → ℕ → ℕ → Bytes
written memory t e l = patch (written3 memory t e l) (t + 40) (bytes_of 8 0)

length-written :
    (memory : Bytes) (t e l : ℕ)
    → (length (written1 memory t e) ≡ length memory)
      × (length (written2 memory t e l) ≡ length memory)
      × (length (written3 memory t e l) ≡ length memory)
length-written memory t e l =
    let l1 = length-patch memory (t + 16) (bytes_of 8 e) in
    let l2 = length-patch (written1 memory t e) (t + 24) (bytes_of 8 l) in
    let l3 = length-patch (written2 memory t e l) (t + 32) (bytes_of 8 0) in
    (l1, l2 ∙ l1, l3 ∙ (l2 ∙ l1))

module _ (memory : Bytes) (t e l : ℕ) (room : t + 48 ≤ length memory) where
  write_entries-written : write_entries memory t e l ≡ done (written memory t e l)
  unfolding write_entries
  write_entries-written =
      let (l1, l2, l3) = length-written memory t e l in
      rw
        (
          store_number_lem memory (t + 16) 8 e (omega arith),
          store_number_lem (written1 memory t e) (t + 24) 8 l (omega arith),
          store_number_lem (written2 memory t e l) (t + 32) 8 0 (omega arith),
          store_number_lem (written3 memory t e l) (t + 40) 8 0 (omega arith),
        )
        refl

  -- What is apart from the two entries stays.
  written-load :
      (q n : ℕ)
      → (q + n ≤ t + 16) ⊎ (t + 48 ≤ q)
      → load_number (written memory t e l) q n ≡ load_number memory q n
  written-load q n apart =
      load_number-patch_other (written3 memory t e l) (t + 40) 8 0 q n (ground arith)
      ∙ load_number-patch_other (written2 memory t e l) (t + 32) 8 0 q n (ground arith)
      ∙ load_number-patch_other (written1 memory t e) (t + 24) 8 l q n (ground arith)
      ∙ load_number-patch_other memory (t + 16) 8 e q n (ground arith)

  written-entries :
      e < 2 ^ 64
      → l < 2 ^ 64
      → (load_number (written memory t e l) (t + 16) 8 ≡ some e)
        × (load_number (written memory t e l) (t + 24) 8 ≡ some l)
        × (load_number (written memory t e l) (t + 32) 8 ≡ some 0)
        × (load_number (written memory t e l) (t + 40) 8 ≡ some 0)
  written-entries small small' =
      let (l1, l2, l3) = length-written memory t e l in
      let m1 = written1 memory t e in
      let m2 = written2 memory t e l in
      let m3 = written3 memory t e l in
      (
        load_number-patch_other m3 (t + 40) 8 0 (t + 16) 8 (inl (omega arith))
            ∙ load_number-patch_other m2 (t + 32) 8 0 (t + 16) 8 (inl (omega arith))
            ∙ load_number-patch_other m1 (t + 24) 8 l (t + 16) 8 (inl (omega arith))
            ∙ load_number-patch memory (t + 16) 8 e (omega arith) (omega arith),
        load_number-patch_other m3 (t + 40) 8 0 (t + 24) 8 (inl (omega arith))
            ∙ load_number-patch_other m2 (t + 32) 8 0 (t + 24) 8 (inl (omega arith))
            ∙ load_number-patch m1 (t + 24) 8 l (omega arith) (omega arith),
        load_number-patch_other m3 (t + 40) 8 0 (t + 32) 8 (inl (omega arith))
            ∙ load_number-patch m2 (t + 32) 8 0 (omega arith) (omega arith),
        load_number-patch m3 (t + 40) 8 0 (omega arith) (omega arith),
      )

  -- A walk over the table finds the first entry, which was there, and that of the shim.
  entries-written :
      {name func : ℕ} (fuel : ℕ)
      → e < 2 ^ 64
      → l < 2 ^ 64
      → l ≢ 0
      → load_number memory t 8 ≡ some name
      → load_number memory (t + 8) 8 ≡ some func
      → func ≢ 0
      → reg_entries (suc (suc (suc fuel))) (written memory t e l) t
        ≡ some ((name, func) ∷ (e, l) ∷ [])
  unfolding reg_entries
  entries-written {name} {func} fuel small small' there first second there' =
      let (at16, at24, at32, at40) = written-entries small small' in
      let t24 : t + 16 + 8 ≡ t + 24 = omega arith in
      let t32 : t + 16 + 16 ≡ t + 32 = omega arith in
      let t40 : t + 32 + 8 ≡ t + 40 = omega arith in
      let at0 = written-load t 8 (inl (omega arith)) ∙ first in
      let at8 = written-load (t + 8) 8 (inl (omega arith)) ∙ second in
      let func_there : (func == 0) ≡ false = ground arith in
      let l_there : (l == 0) ≡ false = ground arith in
      rw (t32, t24, t40, at0, at8, at16, at24, at32, at40, func_there, l_there) refl

-- Where the symbol is in the game and the table behind it in memory, with a first entry,
-- `KNInitLua` succeeds; then a walk over the table, up to the NULL function, finds that first entry
-- and the one of `load_lua_libs`, and no others. What is apart from the second and third entry
-- stays in the game's memory, and the shim's data paths are those of the activity.
pub init_lua-entries :
    (memory : Bytes) (leaf : SymbolTable) (a e l fuel q n : ℕ) (internal external : Bytes)
    (paths : DataPaths) {name func : ℕ}
    → symbol_addr memory leaf file_stream_vtable ≡ done (some a)
    → a + 96 ≤ length memory
    → length memory ≤ 2 ^ 64
    → e < 2 ^ 64
    → l < 2 ^ 64
    → l ≢ 0
    → load_number memory (a + 48) 8 ≡ some name
    → load_number memory (a + 56) 8 ≡ some func
    → func ≢ 0
    → (q + n ≤ a + 64) ⊎ (a + 96 ≤ q)
    → (new : Bytes) × (init_lua memory leaf e l internal external paths
        ≡ done (new, record { internal = some internal; external = some external }))
      × (reg_entries (suc (suc (suc fuel))) new (a + 48) ≡ some ((name, func) ∷ (e, l) ∷ []))
      × (load_number new q n ≡ load_number memory q n)
unfolding init_lua
init_lua-entries memory leaf a e l fuel q n internal external paths symbol room long small small'
      there first second there' apart =
    let t : (a + 48) % 2 ^ 64 ≡ a + 48 = omega arith in
    let not_null : ((a + 48) == 0) ≡ false = ground arith in
    let t56 : a + 48 + 8 ≡ a + 56 = omega arith in
    (
      written memory (a + 48) e l,
      rw (symbol, t, not_null, write_entries-written memory (a + 48) e l (omega arith)) refl,
      entries-written memory (a + 48) e l (omega arith) fuel small small' there first
          (ap (λ p. load_number memory p 8) t56 ∙ second) there',
      written-load memory (a + 48) e l (omega arith) q n (ground arith),
    )
