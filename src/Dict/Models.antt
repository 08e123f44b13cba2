-- ===== src/Dict/Models.antt =====
-- When a table stands for an association list.
use kn_shim.Base.{
  ℕ, zero, suc, ◌+◌, ◌≤◌, ◌<◌, ◌≡◌, refl, ◌⊎◌, inl, none, some, List, [], ◌∷◌, ◌++◌, map, length,
  get_elem?, get_or, arith,
}
use kn_shim.Dict.Blob.{Bytes, kh_hash, create_blob}
use kn_shim.Dict.Table.{Cell, Dict, create_dict, threshold}
use kn_shim.Dict.Assoc.{Entries, key_at, value_of, IsDistinct}
use kn_shim.Dict.Probe.{IsCapacity, Slotted, nil-Slotted}

abbrev pub cell : Bytes × Bytes → Cell
cell e = some (create_blob e.0, create_blob e.1)

abbrev pub hash_at : Entries → ℕ → ℕ
hash_at m j = kh_hash (key_at m j)

-- The first pairs are the entries, the slots lead to exactly these, the load is within the
-- bound, and the cells that no insertion has reached are still NULL: a removal leaves stale
-- pairs past the last entry, but only below the threshold.
pub record Models (m : Entries) (d : Dict) : Type 0 where
  pub capacity : (d.data_alloced ≡ 0) ⊎ IsCapacity d.data_alloced
  pub counted : d.data_count ≡ length m
  pub load : length m ≤ threshold d.data_alloced
  pub rest : List Cell
  pub stored : d.pairs ≡ map cell m ++ rest
  pub room : length d.pairs ≡ d.data_alloced
  pub clean : (i : ℕ) → threshold d.data_alloced ≤ length m + i → get_or rest i none ≡ none
  pub slotted : Slotted d.data_alloced (hash_at m) d.slots (length m)
  pub distinct : IsDistinct m

-- A new dictionary is empty.
pub create_dict-Models : Models [] create_dict
unfolding create_dict
create_dict-Models = record {
  capacity = inl refl;
  counted = refl;
  load = omega arith;
  rest = [];
  stored = refl;
  room = refl;
  clean = λ i h. refl;
  slotted = nil-Slotted (hash_at []);
  distinct = tt;
}

pub get_elem?-cells :
    (m : Entries) (rest : List Cell) (s : ℕ)
    → s < length m
    → get_elem? (map cell m ++ rest) s
      ≡ some (some (create_blob (key_at m s), create_blob (value_of m s)))
get_elem?-cells [] rest s h = absurd (omega arith)
get_elem?-cells ((k, v) ∷ m) rest zero h = refl
get_elem?-cells ((k, v) ∷ m) rest (suc s) h = get_elem?-cells m rest s (omega arith)

pub load-lt : {n : ℕ} → IsCapacity n → threshold n < n
load-lt c = omega (arith, c.least)
