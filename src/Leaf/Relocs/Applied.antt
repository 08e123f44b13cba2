-- ===== src/Leaf/Relocs/Applied.antt =====
-- What the mapped memory holds after the relocations.
use kn_shim.Base.{
  ℕ, ◌+◌, ◌*◌, ◌%◌, ◌^◌, ◌≤◌, ◌<◌, ◌≡◌, refl, ap, ◌∙◌, ◌⊎◌, inl, inr, Bool-cases, Option, none,
  some, List, [], ◌∷◌, length, take, drop, ◌==◌, arith,
}
use kn_shim.Dict.Blob.{Bytes}
use kn_shim.Memory.Region.{
  bytes_of, number_of, patch, load_number, load_number_lem, store_number_lem, length-patch,
  length-bytes_of, number_of-bytes_of, slice-patch_self, slice-patch_other,
}
use kn_shim.Leaf.{done}
use kn_shim.Leaf.Symbols.{sym_size}
use kn_shim.Leaf.Relocs.{
  Rela, rela_size, reloc_sym, reloc_type, r_aarch64_relative, r_aarch64_glob_dat,
  r_aarch64_jump_slot, rela_at, rela_value, put_value, apply_rela,
}

-- The tables of relocations and of symbols lie below `limit`, and what is relocated does not.
pub record Sound (symtab limit top : ℕ) (r : Rela) : Type 0 where
  pub symbol_below : symtab + sym_size * reloc_sym r.r_info + sym_size ≤ limit
  pub place_above : limit ≤ r.r_offset
  pub place_within : r.r_offset + 8 ≤ top

-- The relocations of a table from its entry `i` on.
pub data Table (symtab limit relocs : ℕ) (blob : Bytes) : ℕ → List Rela → Type 0 where
  no_entry : {i : ℕ} → Table symtab limit relocs blob i []
  entry :
      {i : ℕ} {r : Rela} {rs : List Rela}
      → rela_at blob relocs i ≡ done r
      → relocs + rela_size * i + rela_size ≤ limit
      → Sound symtab limit (length blob) r
      → Table symtab limit relocs blob (i + 1) rs
      → Table symtab limit relocs blob i (r ∷ rs)

-- No relocation of the list is to the eight bytes at a place, not even to a part of them.
pub data Apart (place : ℕ) : List Rela → Type 0 where
  none_left : Apart place []
  away :
      {r : Rela} {rs : List Rela}
      → (place + 8 ≤ r.r_offset) ⊎ (r.r_offset + 8 ≤ place)
      → Apart place rs
      → Apart place (r ∷ rs)

-- Memory that is as long, and the same below `limit`.
pub record Agree (limit : ℕ) (old new : Bytes) : Type 0 where
  pub as_long : length new ≡ length old
  pub below : (p n : ℕ) → p + n ≤ limit → take n (drop p new) ≡ take n (drop p old)

load-Agree :
    {limit : ℕ} {old new : Bytes} (p n : ℕ)
    → Agree limit old new
    → p + n ≤ limit
    → load_number new p n ≡ load_number old p n
unfolding load_number
load-Agree p n a h = rw (a.as_long, a.below p n h)

pub rela_at-Agree :
    {limit : ℕ} {old new : Bytes} (relocs i : ℕ)
    → Agree limit old new
    → relocs + rela_size * i + rela_size ≤ limit
    → rela_at new relocs i ≡ rela_at old relocs i
unfolding rela_at
rela_at-Agree relocs i a h = rw (
  load-Agree (relocs + rela_size * i) 8 a (omega arith),
  load-Agree (relocs + rela_size * i + 8) 8 a (omega arith),
  load-Agree (relocs + rela_size * i + 16) 8 a (omega arith),
)

rela_value-Agree :
    {limit : ℕ} {old new : Bytes} (base symtab : ℕ) (r : Rela)
    → Agree limit old new
    → symtab + sym_size * reloc_sym r.r_info + sym_size ≤ limit
    → rela_value base symtab new r ≡ rela_value base symtab old r
unfolding rela_value
rela_value-Agree base symtab r a h =
    rw (load-Agree (symtab + sym_size * reloc_sym r.r_info + 8) 8 a (omega arith)) refl

-- What a relocation stores, where its symbol is there: a number of eight bytes.
pub data Stored (base symtab : ℕ) (blob : Bytes) (r : Rela) : Option ℕ → Type 0 where
  unchanged : rela_value base symtab blob r ≡ done none → Stored base symtab blob r none
  stored :
      {v : ℕ}
      → rela_value base symtab blob r ≡ done (some v)
      → v < 2 ^ 64
      → Stored base symtab blob r (some v)

pub rela_value-Stored :
    (base symtab : ℕ) (blob : Bytes) (r : Rela)
    → symtab + sym_size * reloc_sym r.r_info + sym_size ≤ length blob
    → (v : Option ℕ) × Stored base symtab blob r v
unfolding rela_value
rela_value-Stored base symtab blob r h =
    let place = symtab + sym_size * reloc_sym r.r_info + 8 in
    let there : load_number blob place 8 ≡ some (number_of (take 8 (drop place blob))) =
      load_number_lem blob place 8 (omega arith) in
    let type = reloc_type r.r_info in
    let sum = (number_of (take 8 (drop place blob)) + r.r_addend) % 2 ^ 64 in
    elim (Bool-cases (type == r_aarch64_relative)) [
      | inl e ↦ (some ((base + r.r_addend) % 2 ^ 64), stored (rw e refl) (omega arith))
      | inr e1 ↦ elim (Bool-cases (type == r_aarch64_glob_dat)) [
        | inl e ↦ (some sum, stored (rw (e1, e, there) refl) (omega arith))
        | inr e2 ↦ elim (Bool-cases (type == r_aarch64_jump_slot)) [
          | inl e ↦ (some sum, stored (rw (e1, e2, e, there) refl) (omega arith))
          | inr e3 ↦ (none, unchanged (rw (e1, e2, e3) refl))
        ]
      ]
    ]

-- A memory that holds the value of a relocation at its place.
pub data Holds (r : Rela) (new : Bytes) : Option ℕ → Type 0 where
  no_value : Holds r new none
  holds : {v : ℕ} → load_number new r.r_offset 8 ≡ some v → Holds r new (some v)

-- One relocation, in a memory that agrees with the one that the table was read from.
pub record Applied (limit : ℕ) (r : Rela) (v : Option ℕ) (orig old new : Bytes) : Type 0 where
  pub agree : Agree limit orig new
  pub value : Holds r new v
  pub others :
      (q : ℕ)
      → (q + 8 ≤ r.r_offset) ⊎ (r.r_offset + 8 ≤ q)
      → take 8 (drop q new) ≡ take 8 (drop q old)

put_value-Applied :
    {limit symtab : ℕ} {orig old : Bytes} {r : Rela} (v : ℕ)
    → Agree limit orig old
    → Sound symtab limit (length orig) r
    → v < 2 ^ 64
    → (new : Bytes) × (put_value r.r_offset (some v) old ≡ done new)
      × Applied limit r (some v) orig old new
unfolding put_value
put_value-Applied {limit} {orig = orig} {old = old} {r = r} v a s small =
    let p = r.r_offset in
    let new = patch old p (bytes_of 8 v) in
    let eight : length (bytes_of 8 v) ≡ 8 = length-bytes_of 8 v in
    let long : length new ≡ length old = length-patch old p (bytes_of 8 v) in
    let room : p + 8 ≤ length old = omega (arith, s.place_within, a.as_long) in
    let written : take 8 (drop p new) ≡ bytes_of 8 v =
      rw eight at (slice-patch_self old p (bytes_of 8 v) (omega arith)) in
    let back : load_number new p 8 ≡ some v =
      load_number_lem new p 8 (omega arith)
      ∙ ap (λ b. some (number_of b)) written
      ∙ ap some (number_of-bytes_of 8 v small) in
    let kept : (q n : ℕ) → (q + n ≤ p) ⊎ (p + 8 ≤ q) → take n (drop q new) ≡ take n (drop q old) =
      λ q n h. slice-patch_other old p q n (bytes_of 8 v) (rw eight h) in
    let agree : Agree limit orig new = record {
      as_long = long ∙ a.as_long;
      below = λ q n h. kept q n (inl (omega (arith, s.place_above))) ∙ a.below q n h;
    } in
    (
      new,
      rw (store_number_lem old p 8 v room) refl,
      record { agree = agree; value = holds back; others = λ q h. kept q 8 h },
    )

pub apply_rela-Applied :
    {limit symtab : ℕ} {orig old : Bytes} {r : Rela} {v : Option ℕ} (base : ℕ)
    → Agree limit orig old
    → Sound symtab limit (length orig) r
    → Stored base symtab orig r v
    → (new : Bytes) × (apply_rela base symtab old r ≡ done new) × Applied limit r v orig old new
unfolding apply_rela put_value
apply_rela-Applied {symtab = symtab} {old = old} {r = r} base a s (unchanged e) = (
  old,
  rw (rela_value-Agree base symtab r a s.symbol_below, e) refl,
  record { agree = a; value = no_value; others = λ q h. refl },
)
apply_rela-Applied {symtab = symtab} {r = r} base a s (stored {v} e small) =
    let (new, put, applied) = put_value-Applied v a s small in
    (new, rw (rela_value-Agree base symtab r a s.symbol_below, e) put, applied)
