-- ===== src/Dict/Table.antt =====
-- The table: `KH_Dict` and its operations, of jni/hashtable.h.
-- `none` of the outer option is undefined behaviour: an access out of range or through NULL, or a
-- loop that does not end. `lookup_index` answers `some none` for KH_NOT_FOUND, and `resize` for
-- NULL. A pair is written whole, so a cell is `none` (both pointers NULL) or holds both blobs.
-- Who owns a blob and when it is freed is not modelled.
use kn_shim.Base.{
  ℕ, zero, suc, ◌+◌, ◌-◌, ◌*◌, ◌/◌, ◌%◌, ◌^◌, Bool, true, false, Option, none, some, List, [], ◌∷◌,
  map, get_elem?, set, length, replicate, ltb, leb, ◌==◌, if◌then◌else◌, ◌>>=◌,
}
use kn_shim.Dict.Blob.{Blob, blob_equal}
use kn_shim.Dict.Slots.{hash_empty, hash_deleted, is_free, mask, starting_index, insert_slot}

abbrev pub Cell : Type 0
Cell = Option (Blob × Blob)

pub record Dict : Type 0 where
  pub slots : List ℕ
  pub pairs : List Cell
  pub data_count : ℕ
  pub data_alloced : ℕ

unfoldable pub create_dict : Dict
create_dict = record { slots = []; pairs = []; data_count = 0; data_alloced = 0 }

-- A write to an array, `none` out of range.
unfoldable pub store {ℓ} : {A : Type ℓ} → List A → ℕ → A → Option (List A)
store xs i v = if ltb i (length xs) then some (set xs i v) else none

-- The loop of `KH_ResizeDict` over the old pairs, with the new arrays and `j`.
unfoldable pub copy_pairs : List Cell → ℕ → List ℕ → List Cell → ℕ → Option (List ℕ × List Cell × ℕ)
unfolding store
copy_pairs [] size slots pairs j = some (slots, pairs, j)
copy_pairs (none ∷ old) size slots pairs j = some (slots, pairs, j)
copy_pairs (some (key, value) ∷ old) size slots pairs j = do
  pairs' ← store pairs j (some (key, value))
  slots' ← insert_slot slots size key.hash j
  copy_pairs old size slots' pairs' (j + 1)

abbrev pub new_size : ℕ → ℕ
new_size alloced = if alloced == 0 then 8 else 2 * alloced % 2 ^ 64

-- The Boolean says whether both allocations succeed.
unfoldable pub resize : Bool → Dict → Option (Option Dict)
unfolding copy_pairs
resize false self = some none
resize true self = do
  let size = new_size self.data_alloced
  (slots, pairs, j) ← copy_pairs self.pairs size (replicate size hash_empty) (replicate size none) 0
  some (some (record { slots = slots; pairs = pairs; data_count = j; data_alloced = size }))

-- The load at which the table grows: `(n >> 1) + (n >> 3)`.
abbrev pub threshold : ℕ → ℕ
threshold n = n / 2 + n / 8

-- The part of `KH_DictInsert` after the resize.
unfoldable pub append_pair : Dict → Blob → Blob → Option (Bool × Dict)
unfolding store
append_pair self key value = do
  pairs ← store self.pairs self.data_count (some (key, value))
  slots ← insert_slot self.slots self.data_alloced key.hash self.data_count
  some (true, record self { slots = slots; pairs = pairs; data_count = self.data_count + 1 })

unfoldable pub dict_insert : Bool → Dict → Blob → Blob → Option (Bool × Dict)
unfolding resize append_pair
dict_insert alloc self key value =
    if leb (threshold self.data_alloced) self.data_count
    then (do
      grown ← resize alloc self
      elim grown [ none ↦ some (false, self) | some self' ↦ append_pair self' key value ])
    else append_pair self key value

unfoldable pub dict_change : Dict → ℕ → Blob → Option Dict
dict_change self index value = do
  cell ← get_elem? self.pairs index
  (key, _) ← cell
  some (record self { pairs = set self.pairs index (some (key, value)) })

-- The loop of `KH_DictLookupIndex`, with the rounds left and `i`.
unfoldable pub lookup_loop : ℕ → ℕ → Dict → ℕ → Blob → Option (Option ℕ)
lookup_loop zero i self slot_index key = some none
lookup_loop (suc rounds) i self slot_index key =
    let rest = lookup_loop rounds (i + 1) self slot_index key in
    do
      slot ← get_elem? self.slots (mask (slot_index + i) self.data_alloced)
      let hit = (do
        cell ← get_elem? self.pairs slot
        (found, _) ← cell
        if blob_equal key found then some (some slot) else rest)
      if slot == hash_empty then some none else if slot == hash_deleted then rest else hit

unfoldable pub lookup_index : Dict → Blob → Option (Option ℕ)
unfolding lookup_loop
lookup_index self key =
    lookup_loop self.data_alloced 0 self (starting_index key.hash self.data_alloced) key

-- `pairs[i - 1] = pairs[i]` for the given number of rounds, the first at `i`.
unfoldable pub shift_pairs : ℕ → ℕ → List Cell → Option (List Cell)
unfolding store
shift_pairs zero i pairs = some pairs
shift_pairs (suc rounds) i pairs = do
  cell ← get_elem? pairs i
  pairs' ← store pairs (i - 1) cell
  shift_pairs rounds (i + 1) pairs'

-- The body of the loop that fixes the slots up.
unfoldable pub fix_slot : ℕ → ℕ → ℕ
fix_slot index slot =
    if is_free slot
    then slot
    else if ltb index slot
    then slot - 1
    else if slot == index
    then hash_deleted
    else slot

unfoldable pub dict_remove : Dict → ℕ → Option Dict
unfolding shift_pairs fix_slot
dict_remove self index = do
  pairs ← shift_pairs (self.data_count - (index + 1)) (index + 1) self.pairs
  some (record self {
    slots = map (fix_slot index) self.slots;
    pairs = pairs;
    data_count = self.data_count - 1;
  })

unfoldable pub dict_set : Bool → Dict → Blob → Blob → Option (Bool × Dict)
unfolding lookup_index dict_insert dict_change
dict_set alloc self key value = do
  found ← lookup_index self key
  elim found [
    | none ↦ dict_insert alloc self key value
    | some index ↦ do self' ← dict_change self index value; some (true, self')
  ]

-- The value under an index that `KH_DictLookupIndex` found.
unfoldable pub value_at : Dict → ℕ → Option Blob
value_at self index = do cell ← get_elem? self.pairs index; (_, value) ← cell; some value

-- The inner `none` is NULL.
unfoldable pub dict_get : Dict → Blob → Option (Option Blob)
unfolding lookup_index value_at
dict_get self key = do
  found ← lookup_index self key
  elim found [ none ↦ some none | some index ↦ do value ← value_at self index; some (some value) ]

unfoldable pub dict_has : Dict → Blob → Option Bool
unfolding lookup_index
dict_has self key = do
  found ← lookup_index self key
  some (elim found [ none ↦ false | some _ ↦ true ])

unfoldable pub dict_delete : Dict → Blob → Option (Bool × Dict)
unfolding lookup_index dict_remove
dict_delete self key = do
  found ← lookup_index self key
  elim found [
    | none ↦ some (false, self)
    | some index ↦ do self' ← dict_remove self index; some (true, self')
  ]

-- The inner `none` is NULL: past the last pair, and in a cell that holds none.
unfoldable pub dict_key_iter : Dict → ℕ → Option (Option Blob)
dict_key_iter self index =
    if ltb index self.data_count
    then (do
      cell ← get_elem? self.pairs index
      some (elim cell [ none ↦ none | some (key, _) ↦ some key ]))
    else some none

unfoldable pub dict_value_iter : Dict → ℕ → Option (Option Blob)
dict_value_iter self index =
    if ltb index self.data_count
    then (do
      cell ← get_elem? self.pairs index
      some (elim cell [ none ↦ none | some (_, value) ↦ some value ]))
    else some none

unfoldable pub dict_len : Dict → ℕ
dict_len self = self.data_count
