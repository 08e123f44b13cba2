-- ===== src/Leaf/Relocs32/Applied32.antt =====
-- What the memory holds after a table of relocations of a 32-bit target.
use kn_shim.Base.{
  ℕ, ◌+◌, ◌*◌, ◌%◌, ◌^◌, ◌≤◌, ◌<◌, ◌≡◌, refl, ◌∙◌, ◌⊎◌, inl, none, some, List, [], ◌∷◌, length,
  take, drop, arith,
}
use kn_shim.Dict.Blob.{Bytes}
use kn_shim.Memory.Region.{
  bytes_of, number_of, patch, load_number, load_number_lem, store_number_lem, length-patch,
  load_number-patch, load_number-patch_other,
}
use kn_shim.Leaf.{done}
use kn_shim.Leaf.Relocs32.{
  Target, Rel, rel_at, reloc_sym32, reloc_type32, RelKind, relative, thumb_glob_dat, symbol_value,
  no_change, kind_of_rel, thumb_value, rel_value, put_word, apply_rel,
}

-- No relocation of the list is to any of the four bytes at a place.
abbrev pub Apart32 : ℕ → List Rel → Type 0
Apart32 place [] = Unit
Apart32 place (r ∷ rs) = ((place + 4 ≤ r.r_offset) ⊎ (r.r_offset + 4 ≤ place)) × Apart32 place rs

-- The relocations of a table from its entry `i` on. The tables lie below `limit`, the places do
-- not, and no two places overlap.
pub data Table32 (symtab limit relocs : ℕ) (blob : Bytes) : ℕ → List Rel → Type 0 where
  no_entry : {i : ℕ} → Table32 symtab limit relocs blob i []
  entry :
      {i : ℕ} {r : Rel} {rs : List Rel}
      → rel_at blob relocs i ≡ done r
      → relocs + 8 * i + 8 ≤ limit
      → symtab + 16 * reloc_sym32 r.r_info + 16 ≤ limit
      → limit ≤ r.r_offset
      → r.r_offset + 4 ≤ length blob
      → Apart32 r.r_offset rs
      → Table32 symtab limit relocs blob (i + 1) rs
      → Table32 symtab limit relocs blob i (r ∷ rs)

-- A memory that holds at a place the value of its relocation in the memory `orig`.
pub data Holds32 (target : Target) (base symtab : ℕ) (orig new : Bytes) (r : Rel) : Type 0 where
  unchanged :
      rel_value (kind_of_rel target (reloc_type32 r.r_info)) base symtab orig r ≡ done none
      → load_number new r.r_offset 4 ≡ load_number orig r.r_offset 4
      → Holds32 target base symtab orig new r
  stored :
      {v : ℕ}
      → rel_value (kind_of_rel target (reloc_type32 r.r_info)) base symtab orig r ≡ done (some v)
      → load_number new r.r_offset 4 ≡ some v
      → Holds32 target base symtab orig new r

abbrev pub AllHold32 : Target → ℕ → ℕ → Bytes → Bytes → List Rel → Type 0
AllHold32 target base symtab orig new [] = Unit
AllHold32 target base symtab orig new (r ∷ rs) =
    Holds32 target base symtab orig new r × AllHold32 target base symtab orig new rs

-- A value that is stored has 32 bits, and is there where the symbol and the place are.
data Valued (kind : RelKind) (base symtab : ℕ) (blob : Bytes) (r : Rel) : Type 0 where
  keeps : rel_value kind base symtab blob r ≡ done none → Valued kind base symtab blob r
  gives :
      (v : ℕ)
      → rel_value kind base symtab blob r ≡ done (some v)
      → v < 2 ^ 32
      → Valued kind base symtab blob r

abbrev word_at : Bytes → ℕ → ℕ → ℕ
word_at blob place n = number_of (take n (drop place blob))

thumb_value-lt : (a v t : ℕ) → thumb_value a v t < 2 ^ 32
unfolding thumb_value
thumb_value-lt a v t = ground arith

-- For a function's symbol and an even addend, R_ARM_GLOB_DAT adds the whole value of the symbol,
-- with the bit that tells Thumb code from ARM code.
thumb_value-add :
    (addend st_value st_info : ℕ)
    → addend % 2 ≡ 0
    → st_info % 16 ≡ 2
    → addend + st_value < 2 ^ 32
    → thumb_value addend st_value st_info ≡ addend + st_value
unfolding thumb_value
thumb_value-add addend st_value st_info even function small = ground arith

rel_value-Valued :
    (kind : RelKind) (base symtab : ℕ) (blob : Bytes) (r : Rel)
    → symtab + 16 * reloc_sym32 r.r_info + 16 ≤ length blob
    → r.r_offset + 4 ≤ length blob
    → Valued kind base symtab blob r
unfolding rel_value
rel_value-Valued relative base symtab blob r there place =
    gives ((base + word_at blob r.r_offset 4) % 2 ^ 32)
      (rw (load_number_lem blob r.r_offset 4 place) refl) (omega arith)
rel_value-Valued thumb_glob_dat base symtab blob r there place =
    let s = symtab + 16 * reloc_sym32 r.r_info in
    let a = word_at blob r.r_offset 4 in
    let v = word_at blob (s + 4) 4 in
    let t = word_at blob (s + 12) 1 in
    gives (thumb_value a v t)
      (rw
        (
          load_number_lem blob r.r_offset 4 place,
          load_number_lem blob (s + 4) 4 (omega arith),
          load_number_lem blob (s + 12) 1 (omega arith),
        )
        refl)
      (thumb_value-lt a v t)
rel_value-Valued symbol_value base symtab blob r there place =
    let s = symtab + 16 * reloc_sym32 r.r_info in
    gives (word_at blob (s + 4) 4 % 2 ^ 32) (rw (load_number_lem blob (s + 4) 4 (omega arith)) refl)
      (omega arith)
rel_value-Valued no_change base symtab blob r there place = keeps refl

-- The memory `cur` on the way from `orig`: as long, the same below `limit`, and at the places of
-- the relocations that are left.
abbrev pub SameAt : Bytes → Bytes → List Rel → Type 0
SameAt orig cur [] = Unit
SameAt orig cur (r ∷ rs) =
    (load_number cur r.r_offset 4 ≡ load_number orig r.r_offset 4) × SameAt orig cur rs

pub record OnTheWay (limit : ℕ) (orig cur : Bytes) : Type 0 where
  pub as_long : length cur ≡ length orig
  pub below : (p n : ℕ) → p + n ≤ limit → load_number cur p n ≡ load_number orig p n

pub rel_at-OnTheWay :
    {limit : ℕ} {orig cur : Bytes} (relocs i : ℕ)
    → OnTheWay limit orig cur
    → relocs + 8 * i + 8 ≤ limit
    → rel_at cur relocs i ≡ rel_at orig relocs i
unfolding rel_at
rel_at-OnTheWay relocs i w h =
    rw (w.below (relocs + 8 * i) 4 (omega arith), w.below (relocs + 8 * i + 4) 4 (omega arith))

rel_value-OnTheWay :
    {limit : ℕ} {orig cur : Bytes} (kind : RelKind) (base symtab : ℕ) (r : Rel)
    → OnTheWay limit orig cur
    → symtab + 16 * reloc_sym32 r.r_info + 16 ≤ limit
    → load_number cur r.r_offset 4 ≡ load_number orig r.r_offset 4
    → rel_value kind base symtab cur r ≡ rel_value kind base symtab orig r
unfolding rel_value
rel_value-OnTheWay relative base symtab r w h e = rw e
rel_value-OnTheWay thumb_glob_dat base symtab r w h e =
    let s = symtab + 16 * reloc_sym32 r.r_info in
    rw (e, w.below (s + 4) 4 (omega arith), w.below (s + 12) 1 (omega arith))
rel_value-OnTheWay symbol_value base symtab r w h e =
    rw (w.below (symtab + 16 * reloc_sym32 r.r_info + 4) 4 (omega arith))
rel_value-OnTheWay no_change base symtab r w h e = refl

-- One relocation.
pub record Applied (target : Target) (base symtab limit : ℕ) (r : Rel) (orig cur new : Bytes)
    : Type 0 where
  pub way : OnTheWay limit orig new
  pub holds : Holds32 target base symtab orig new r
  pub others :
      (q : ℕ)
      → (q + 4 ≤ r.r_offset) ⊎ (r.r_offset + 4 ≤ q)
      → load_number new q 4 ≡ load_number cur q 4

pub apply_rel-Applied :
    (target : Target) (base symtab limit : ℕ) (r : Rel) (orig cur : Bytes)
    → OnTheWay limit orig cur
    → limit ≤ length orig
    → symtab + 16 * reloc_sym32 r.r_info + 16 ≤ limit
    → limit ≤ r.r_offset
    → r.r_offset + 4 ≤ length orig
    → load_number cur r.r_offset 4 ≡ load_number orig r.r_offset 4
    → (new : Bytes) × (apply_rel target base symtab cur r ≡ done new)
      × Applied target base symtab limit r orig cur new
unfolding apply_rel put_word
apply_rel-Applied target base symtab limit r orig cur w top there above inside e =
    let kind = kind_of_rel target (reloc_type32 r.r_info) in
    let same = rel_value-OnTheWay kind base symtab r w there e in
    elim (rel_value-Valued kind base symtab orig r (omega arith) inside) [
      | keeps none_there ↦ (
        cur,
        rw (same, none_there) refl,
        record { way = w; holds = unchanged none_there e; others = λ q h. refl },
      )
      | gives v some_there small ↦
          let room : r.r_offset + 4 ≤ length cur = omega (arith, w.as_long) in
          (
            patch cur r.r_offset (bytes_of 4 v),
            rw (same, some_there) (rw (store_number_lem cur r.r_offset 4 v room) refl),
            record {
              way = record {
                as_long = length-patch cur r.r_offset (bytes_of 4 v) ∙ w.as_long;
                below = λ p n h.
                    load_number-patch_other cur r.r_offset 4 v p n (inl (omega arith))
                    ∙ w.below p n h;
              };
              holds = stored some_there (load_number-patch cur r.r_offset 4 v room (omega arith));
              others = λ q h. load_number-patch_other cur r.r_offset 4 v q 4 h;
            },
          )
    ]
