-- ===== src/Leaf/Relocs32/Loop32.antt =====
-- A whole table of relocations of a 32-bit target.
use kn_shim.Base.{ℕ, ◌+◌, ◌≤◌, ◌≡◌, refl, ◌∙◌, ◌⊎◌, inl, inr, List, [], ◌∷◌, length}
use kn_shim.Dict.Blob.{Bytes}
use kn_shim.Memory.Region.{load_number}
use kn_shim.Leaf.{done}
use kn_shim.Leaf.Relocs32.{Target, Rel, do_rel32}
use kn_shim.Leaf.Relocs32.Applied32.{
  Apart32, Table32, no_entry, entry, Holds32, unchanged, stored, AllHold32, SameAt, OnTheWay,
  rel_at-OnTheWay, apply_rel-Applied,
}
use kn_shim.Leaf.Relocs32.Meant32.{AllRelocated, AllHold32-AllRelocated}

module _ (target : Target) (base symtab limit relocs : ℕ) (orig : Bytes) where
  Holds32-kept :
      {mid new : Bytes} {r : Rel}
      → load_number new r.r_offset 4 ≡ load_number mid r.r_offset 4
      → Holds32 target base symtab orig mid r
      → Holds32 target base symtab orig new r
  Holds32-kept e (unchanged v l) = unchanged v (e ∙ l)
  Holds32-kept e (stored v l) = stored v (e ∙ l)

  SameAt-step :
      (cur mid : Bytes) (r : Rel) (rs : List Rel)
      → ((q : ℕ)
          → (q + 4 ≤ r.r_offset) ⊎ (r.r_offset + 4 ≤ q)
          → load_number mid q 4 ≡ load_number cur q 4)
      → Apart32 r.r_offset rs
      → SameAt orig cur rs
      → SameAt orig mid rs
  SameAt-step cur mid r [] others apart same = tt
  SameAt-step cur mid r (x ∷ xs) others apart same =
      (others x.r_offset (swap apart.0) ∙ same.0, SameAt-step cur mid r xs others apart.1 same.1)
    where
      swap :
          (r.r_offset + 4 ≤ x.r_offset) ⊎ (x.r_offset + 4 ≤ r.r_offset)
          → (x.r_offset + 4 ≤ r.r_offset) ⊎ (r.r_offset + 4 ≤ x.r_offset)
      swap (inl h) = inr h
      swap (inr h) = inl h

  record Whole (rs : List Rel) (cur new : Bytes) : Type 0 where
    way : OnTheWay limit orig new
    all : AllHold32 target base symtab orig new rs
    others : (q : ℕ) → Apart32 q rs → load_number new q 4 ≡ load_number cur q 4

  do_rel32-Whole :
      {i : ℕ} {rs : List Rel} (cur : Bytes)
      → limit ≤ length orig
      → OnTheWay limit orig cur
      → SameAt orig cur rs
      → Table32 symtab limit relocs orig i rs
      → (new : Bytes) × (do_rel32 target (length rs) i base symtab relocs cur ≡ done new)
        × Whole rs cur new
  unfolding do_rel32
  do_rel32-Whole cur top w same no_entry =
      (cur, refl, record { way = w; all = tt; others = λ q h. refl })
  do_rel32-Whole {i = i} {rs = r ∷ rs} cur top w same (entry at below there above inside apart t) =
      let (mid, e1, step) =
        apply_rel-Applied target base symtab limit r orig cur w top there above inside same.0 in
      let (new, e2, rest) =
        do_rel32-Whole {i = i + 1} mid top step.way
          (SameAt-step cur mid r rs step.others apart same.1) t in
      (
        new,
        rw (rel_at-OnTheWay relocs i w below, at, e1) e2,
        record {
          way = rest.way;
          all = (Holds32-kept (rest.others r.r_offset apart) step.holds, rest.all);
          others = λ q h. rest.others q h.1 ∙ step.others q h.0;
        },
      )

  SameAt-refl : (rs : List Rel) → SameAt orig orig rs
  SameAt-refl [] = tt
  SameAt-refl (r ∷ rs) = (refl, SameAt-refl rs)

  -- On ARM and i386, where the tables of relocations and symbols lie below `limit`, the places do
  -- not, and no two places overlap: `LeafDoRel` is defined, every place holds what its relocation
  -- is to store, by the number of its type and the memory before, or what it held where the loader
  -- does not know the type, and the memory below `limit` and every four bytes apart from all places
  -- stay.
  pub do_rel32-applied :
      (rs : List Rel) (p n q : ℕ)
      → limit ≤ length orig
      → Table32 symtab limit relocs orig 0 rs
      → p + n ≤ limit
      → Apart32 q rs
      → (new : Bytes) × (do_rel32 target (length rs) 0 base symtab relocs orig ≡ done new)
        × AllRelocated target base symtab orig new rs
        × (load_number new p n ≡ load_number orig p n)
        × (load_number new q 4 ≡ load_number orig q 4)
  do_rel32-applied rs p n q top t below apart =
      let start : OnTheWay limit orig orig = record { as_long = refl; below = λ p n h. refl } in
      let (new, e, whole) = do_rel32-Whole orig top start (SameAt-refl rs) t in
      (
        new,
        e,
        AllHold32-AllRelocated target base new top t whole.all,
        whole.way.below p n below,
        whole.others q apart,
      )
