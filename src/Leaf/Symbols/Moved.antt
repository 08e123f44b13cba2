-- ===== src/Leaf/Symbols/Moved.antt =====
-- What the symbol table holds after the loop of `LeafLoadFromBuffer` over the symbols, where no
-- symbol is to be looked up in another library.
use kn_shim.Base.{
  ℕ, ◌+◌, ◌%◌, ◌^◌, ◌≤◌, ◌≡◌, refl, ◌∙◌, ◌⊎◌, inl, inr, Option, some, List, [], ◌∷◌, length, take,
  drop, ◌==◌, arith, false,
}
use kn_shim.Dict.Blob.{Bytes}
use kn_shim.Memory.Region.{
  load_number, store_number_lem, length-patch, patch, bytes_of, length-bytes_of, slice-patch_other,
  load_number-patch,
}
use kn_shim.Leaf.{done, Linker}
use kn_shim.Leaf.Symbols.{
  SymbolTable, sym_at, shn_abs, shn_common, shn_undef, put_symbol, fix_symbol, fix_symbols,
}

-- The value that symbol `i` is to have: an absolute or a common symbol keeps it, one of a section
-- of the file is moved with the file.
pub data Moves (base : ℕ) (t : SymbolTable) (blob : Bytes) (i : ℕ) : ℕ → Type 0 where
  absolute :
      {v : ℕ}
      → load_number blob (sym_at t i + 6) 2 ≡ some shn_abs
      → load_number blob (sym_at t i + 8) 8 ≡ some v
      → Moves base t blob i v
  common :
      {v : ℕ}
      → load_number blob (sym_at t i + 6) 2 ≡ some shn_common
      → load_number blob (sym_at t i + 8) 8 ≡ some v
      → Moves base t blob i v
  moved :
      {section v : ℕ}
      → load_number blob (sym_at t i + 6) 2 ≡ some section
      → (section == shn_abs) ≡ false
      → (section == shn_common) ≡ false
      → (section == shn_undef) ≡ false
      → load_number blob (sym_at t i + 8) 8 ≡ some v
      → Moves base t blob i ((v + base) % 2 ^ 64)

-- The symbols from `i` on, with the values that they are to have, in a memory with room for them.
pub data ToMove (base : ℕ) (t : SymbolTable) (blob : Bytes) : ℕ → List ℕ → Type 0 where
  no_symbol : {i : ℕ} → ToMove base t blob i []
  symbol :
      {i v : ℕ} {vs : List ℕ}
      → Moves base t blob i v
      → sym_at t i + 16 ≤ length blob
      → ToMove base t blob (i + 1) vs
      → ToMove base t blob i (v ∷ vs)

-- A memory in which the symbols from `i` on have the values.
pub data HaveValues (t : SymbolTable) (blob : Bytes) : ℕ → List ℕ → Type 0 where
  no_value : {i : ℕ} → HaveValues t blob i []
  value :
      {i v : ℕ} {vs : List ℕ}
      → load_number blob (sym_at t i + 8) 8 ≡ some v
      → HaveValues t blob (i + 1) vs
      → HaveValues t blob i (v ∷ vs)

-- Memory that is as long, and the same from `start` on.
record SameFrom (start : ℕ) (old new : Bytes) : Type 0 where
  as_long : length new ≡ length old
  same : (q n : ℕ) → start ≤ q → take n (drop q new) ≡ take n (drop q old)

load-kept :
    (old new : Bytes) (q n : ℕ)
    → length new ≡ length old
    → take n (drop q new) ≡ take n (drop q old)
    → load_number new q n ≡ load_number old q n
unfolding load_number
load-kept old new q n long h = rw (long, h) refl

load-SameFrom :
    {start : ℕ} {old new : Bytes} (q n : ℕ)
    → SameFrom start old new
    → start ≤ q
    → load_number new q n ≡ load_number old q n
load-SameFrom q n s h = load-kept _ _ q n s.as_long (s.same q n h)

Moves-SameFrom :
    {base : ℕ} (t : SymbolTable) (i : ℕ) {v : ℕ} {old new : Bytes}
    → SameFrom (sym_at t i) old new
    → Moves base t old i v
    → Moves base t new i v
Moves-SameFrom t i s (absolute e l) =
    absolute (load-SameFrom (sym_at t i + 6) 2 s (omega arith) ∙ e)
      (load-SameFrom (sym_at t i + 8) 8 s (omega arith) ∙ l)
Moves-SameFrom t i s (common e l) =
    common (load-SameFrom (sym_at t i + 6) 2 s (omega arith) ∙ e)
      (load-SameFrom (sym_at t i + 8) 8 s (omega arith) ∙ l)
Moves-SameFrom t i s (moved e a c u l) =
    moved (load-SameFrom (sym_at t i + 6) 2 s (omega arith) ∙ e) a c u
      (load-SameFrom (sym_at t i + 8) 8 s (omega arith) ∙ l)

SameFrom-later :
    {start start' : ℕ} {old new : Bytes}
    → start ≤ start'
    → SameFrom start old new
    → SameFrom start' old new
SameFrom-later h s = record { as_long = s.as_long; same = λ q n h'. s.same q n (omega arith) }

ToMove-SameFrom :
    {base : ℕ} (t : SymbolTable) {old new : Bytes} (i : ℕ) {vs : List ℕ}
    → SameFrom (sym_at t i) old new
    → ToMove base t old i vs
    → ToMove base t new i vs
ToMove-SameFrom t i s no_symbol = no_symbol
ToMove-SameFrom t i s (symbol m room ms) =
    symbol (Moves-SameFrom t i s m) (omega (arith, s.as_long))
      (ToMove-SameFrom t (i + 1) (SameFrom-later (omega arith) s) ms)

-- One round: the symbol has its value, and only the eight bytes of the value are changed.
record Round (t : SymbolTable) (i v : ℕ) (old new : Bytes) : Type 0 where
  as_long : length new ≡ length old
  has : load_number new (sym_at t i + 8) 8 ≡ some v
  others :
      (q n : ℕ)
      → (q + n ≤ sym_at t i + 8) ⊎ (sym_at t i + 8 + 8 ≤ q)
      → take n (drop q new) ≡ take n (drop q old)

module _ (linker : Linker) (base : ℕ) (handles : List (Option linker.Handle))
    (t : SymbolTable) where
  fix_symbol-Round :
      (i v : ℕ) (blob : Bytes)
      → Moves base t blob i v
      → sym_at t i + 16 ≤ length blob
      → (new : Bytes) × (fix_symbol linker base handles t blob i ≡ done new) × Round t i v blob new
  unfolding fix_symbol put_symbol
  fix_symbol-Round i v blob (absolute e l) room =
      (blob, rw e refl, record { as_long = refl; has = l; others = λ q n h. refl })
  fix_symbol-Round i v blob (common e l) room =
      (blob, rw e refl, record { as_long = refl; has = l; others = λ q n h. refl })
  fix_symbol-Round i v blob (moved {v = old} e a c u l) room =
      let w = (old + base) % 2 ^ 64 in
      let p = sym_at t i + 8 in
      let eight : length (bytes_of 8 w) ≡ 8 = length-bytes_of 8 w in
      (
        patch blob p (bytes_of 8 w),
        rw (e, a, c, u, l, store_number_lem blob p 8 w (omega arith)) refl,
        record {
          as_long = length-patch blob p (bytes_of 8 w);
          has = load_number-patch blob p 8 w (omega arith) (omega arith);
          others = λ q n h. slice-patch_other blob p q n (bytes_of 8 w) (rw eight h);
        },
      )

  fix_symbols-from :
      (i : ℕ) (vs : List ℕ) (blob : Bytes)
      → ToMove base t blob i vs
      → (new : Bytes) × (fix_symbols linker (length vs) i base handles t blob ≡ done new)
        × (length new ≡ length blob)
        × HaveValues t new i vs
        × ((q n : ℕ) → q + n ≤ sym_at t i + 8 → take n (drop q new) ≡ take n (drop q blob))
  unfolding fix_symbols
  fix_symbols-from i [] blob no_symbol = (blob, refl, refl, no_value, λ q n h. refl)
  fix_symbols-from i (v ∷ vs) blob (symbol m room ms) =
      let (mid, e1, round) = fix_symbol-Round i v blob m room in
      let same : SameFrom (sym_at t (i + 1)) blob mid = record {
        as_long = round.as_long;
        same = λ q n h. round.others q n (inr (omega arith));
      } in
      let (new, e2, long, values, before) =
        fix_symbols-from (i + 1) vs mid (ToMove-SameFrom t (i + 1) same ms) in
      let kept : load_number new (sym_at t i + 8) 8 ≡ load_number mid (sym_at t i + 8) 8 =
        load-kept _ _ (sym_at t i + 8) 8 long (before (sym_at t i + 8) 8 (omega arith)) in
      (
        new,
        rw e1 e2,
        long ∙ round.as_long,
        value (kept ∙ round.has) values,
        λ q n h. before q n (omega arith) ∙ round.others q n (inl h),
      )

  -- Where no symbol is undefined in the file, the loop over the symbols is defined, and leaves to
  -- each symbol its value: that of an absolute or common symbol unchanged, any other with the base
  -- added modulo 2 ^ 64. The length of the memory, and all that is before the first of these
  -- values, stay.
  pub fix_symbols-moves :
      (i : ℕ) (vs : List ℕ) (blob : Bytes)
      → ToMove base t blob i vs
      → (new : Bytes) × (fix_symbols linker (length vs) i base handles t blob ≡ done new)
        × (length new ≡ length blob)
        × HaveValues t new i vs
        × (take (sym_at t i + 8) new ≡ take (sym_at t i + 8) blob)
  fix_symbols-moves i vs blob to_move =
      let (new, e, long, values, before) = fix_symbols-from i vs blob to_move in
      (new, e, long, values, before 0 (sym_at t i + 8) (omega arith))
