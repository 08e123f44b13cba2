-- ===== src/Leaf/Relocs/Loop.antt =====
-- What the mapped memory holds after a whole table of relocations.
use kn_shim.Base.{
  ℕ, suc, ◌+◌, ◌*◌, ◌/◌, ◌%◌, ◌^◌, inl, inr, ◌≤◌, ◌≡◌, refl, sym, ap, ◌∙◌, ◌⊎◌, Option, some, List,
  [], ◌∷◌, ◌++◌, length, take, drop, arith,
}
use kn_shim.Dict.Blob.{Bytes}
use kn_shim.Memory.Region.{load_number}
use kn_shim.Leaf.{done}
use kn_shim.Leaf.Relocs.{Rela, rela_size, rela_at, rela_value, do_rela}
use kn_shim.Leaf.Relocs.Applied.{
  Sound, Table, no_entry, entry, Apart, away, Agree, Stored, unchanged, stored, Holds, holds,
  Applied, rela_at-Agree, rela_value-Stored, apply_rela-Applied,
}

-- A whole table.
record Kept (limit : ℕ) (rs : List Rela) (orig old new : Bytes) : Type 0 where
  agree : Agree limit orig new
  others : (q : ℕ) → Apart q rs → take 8 (drop q new) ≡ take 8 (drop q old)

Apart-head :
    {q : ℕ} {r : Rela} {rs : List Rela}
    → Apart q (r ∷ rs)
    → (q + 8 ≤ r.r_offset) ⊎ (r.r_offset + 8 ≤ q)
Apart-head (away h a) = h

Apart-tail : {q : ℕ} {r : Rela} {rs : List Rela} → Apart q (r ∷ rs) → Apart q rs
Apart-tail (away h a) = a

Agree-refl : (limit : ℕ) (blob : Bytes) → Agree limit blob blob
Agree-refl limit blob = record { as_long = refl; below = λ p n h. refl }

-- What a relocation is to store: R_AARCH64_RELATIVE is 1027, R_AARCH64_GLOB_DAT 1025 and
-- R_AARCH64_JUMP_SLOT 1026; the value of symbol `n` is at `symtab + 24 * n + 8`.
pub data Meant (base symtab : ℕ) (orig : Bytes) (r : Rela) : ℕ → Type 0 where
  base_sum : r.r_info % 2 ^ 32 ≡ 1027 → Meant base symtab orig r ((base + r.r_addend) % 2 ^ 64)
  symbol_sum :
      {s : ℕ}
      → (r.r_info % 2 ^ 32 ≡ 1025) ⊎ (r.r_info % 2 ^ 32 ≡ 1026)
      → load_number orig (symtab + 24 * (r.r_info / 2 ^ 32) + 8) 8 ≡ some s
      → Meant base symtab orig r ((s + r.r_addend) % 2 ^ 64)

Meant-rela_value :
    {base symtab : ℕ} {orig : Bytes} {r : Rela} {v : ℕ}
    → Meant base symtab orig r v
    → rela_value base symtab orig r ≡ done (some v)
unfolding rela_value
Meant-rela_value (base_sum type) = rw type refl
Meant-rela_value (symbol_sum (inl type) value) = rw (type, value) refl
Meant-rela_value (symbol_sum (inr type) value) = rw (type, value) refl

-- The value that is held is the one that the relocation has.
held :
    {base symtab : ℕ} {orig new : Bytes} {r : Rela} {w : Option ℕ} (v : ℕ)
    → Stored base symtab orig r w
    → Holds r new w
    → rela_value base symtab orig r ≡ done (some v)
    → load_number new r.r_offset 8 ≡ some v
held v (unchanged e') h e = absurd (cc)
held v (stored {v = v'} e' small) (holds l) e = let same : v' ≡ v = cc in l ∙ ap some same

module _ (base symtab limit relocs : ℕ) (orig : Bytes) where
  -- One round of the loop.
  do_rela-round :
      (i rounds : ℕ) (old : Bytes) {r : Rela} {v : Option ℕ}
      → Agree limit orig old
      → rela_at orig relocs i ≡ done r
      → relocs + rela_size * i + rela_size ≤ limit
      → Sound symtab limit (length orig) r
      → Stored base symtab orig r v
      → (new : Bytes) × (do_rela (suc rounds) i base symtab relocs old
          ≡ do_rela rounds (i + 1) base symtab relocs new)
        × Applied limit r v orig old new
  unfolding do_rela
  do_rela-round i rounds old a at below s st =
      let (new, e, applied) = apply_rela-Applied base a s st in
      (new, rw (rela_at-Agree relocs i a below, at, e) refl, applied)

  do_rela-Kept :
      {i : ℕ} {rs : List Rela} (old : Bytes)
      → limit ≤ length orig
      → Agree limit orig old
      → Table symtab limit relocs orig i rs
      → (new : Bytes) × (do_rela (length rs) i base symtab relocs old ≡ done new)
        × Kept limit rs orig old new
  unfolding do_rela
  do_rela-Kept old top a no_entry = (old, refl, record { agree = a; others = λ q h. refl })
  do_rela-Kept {i = i} {rs = r ∷ rs} old top a (entry at below s t) =
      let (v, st) = rela_value-Stored base symtab orig r (omega (arith, s.symbol_below)) in
      let (mid, e1, applied) = do_rela-round i (length rs) old a at below s st in
      let (new, e2, kept) = do_rela-Kept {i = i + 1} mid top applied.agree t in
      (
        new,
        e1 ∙ e2,
        record {
          agree = kept.agree;
          others = λ q h. kept.others q (Apart-tail h) ∙ applied.others q (Apart-head h);
        },
      )

  do_rela-from :
      {i : ℕ} (earlier later : List Rela) (old : Bytes) (r : Rela) (v : ℕ)
      → limit ≤ length orig
      → Agree limit orig old
      → Table symtab limit relocs orig i (earlier ++ r ∷ later)
      → Apart r.r_offset later
      → rela_value base symtab orig r ≡ done (some v)
      → (new : Bytes) × (do_rela (length (earlier ++ r ∷ later)) i base symtab relocs old
          ≡ done new)
        × (length new ≡ length orig)
        × (load_number new r.r_offset 8 ≡ some v)
  unfolding load_number
  do_rela-from {i = i} [] later old r v top a (entry at below s t) c e =
      let (w, st) = rela_value-Stored base symtab orig r (omega (arith, s.symbol_below)) in
      let (mid, e1, applied) = do_rela-round i (length later) old a at below s st in
      let (new, e2, kept) = do_rela-Kept {i = i + 1} mid top applied.agree t in
      let same : length new ≡ length mid = kept.agree.as_long ∙ sym applied.agree.as_long in
      let there : load_number new r.r_offset 8 ≡ load_number mid r.r_offset 8 =
        rw (same, kept.others r.r_offset c) refl in
      (new, e1 ∙ e2, kept.agree.as_long, there ∙ held v st applied.value e)
  do_rela-from {i = i} (x ∷ xs) later old r v top a (entry at below s t) c e =
      let (w, st) = rela_value-Stored base symtab orig x (omega (arith, s.symbol_below)) in
      let (mid, e1, applied) = do_rela-round i (length (xs ++ r ∷ later)) old a at below s st in
      let (new, e2, long, there) =
        do_rela-from {i = i + 1} xs later mid r v top applied.agree t c e in
      (new, e1 ∙ e2, long, there)

  -- Where the tables of relocations and symbols lie below `limit`, every place that is relocated is
  -- in the memory and not below it: `LeafDoRela` is defined; and the place of a relocation that no
  -- later one of the table overlaps holds what the relocation is to store, the sum of the base or
  -- of its symbol's value and its addend, by its type and the memory before any of them was
  -- applied.
  pub do_rela-applied :
      (earlier later : List Rela) (r : Rela) (v : ℕ)
      → limit ≤ length orig
      → Table symtab limit relocs orig 0 (earlier ++ r ∷ later)
      → Apart r.r_offset later
      → Meant base symtab orig r v
      → (new : Bytes) × (do_rela (length (earlier ++ r ∷ later)) 0 base symtab relocs orig
          ≡ done new)
        × (length new ≡ length orig)
        × (load_number new r.r_offset 8 ≡ some v)
  do_rela-applied earlier later r v top t c e =
      do_rela-from earlier later orig r v top (Agree-refl limit orig) t c (Meant-rela_value e)

  -- Under the same conditions on the tables, the memory keeps its length, all that is below
  -- `limit`, and every eight bytes that no relocation of the table overlaps.
  pub do_rela-keeps :
      (rs : List Rela) (q : ℕ)
      → limit ≤ length orig
      → Table symtab limit relocs orig 0 rs
      → Apart q rs
      → (new : Bytes) × (do_rela (length rs) 0 base symtab relocs orig ≡ done new)
        × (length new ≡ length orig)
        × (take limit new ≡ take limit orig)
        × (take 8 (drop q new) ≡ take 8 (drop q orig))
  do_rela-keeps rs q top t c =
      let (new, e, kept) = do_rela-Kept orig top (Agree-refl limit orig) t in
      (new, e, kept.agree.as_long, kept.agree.below 0 limit (omega arith), kept.others q c)
