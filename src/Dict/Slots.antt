-- ===== src/Dict/Slots.antt =====
-- The slot array: `KH_BlobStartingIndexForSize` and `KH_InsertSlot` of jni/hashtable.h, for a
-- 64-bit `size_t`.
use kn_shim.Base.{
  ℕ, zero, suc, ◌+◌, ◌-◌, ◌%◌, ◌^◌, bit_and, Bool, ◌||◌, Option, none, some, List, get_elem?, set,
  ◌==◌, if◌then◌else◌,
}

abbrev pub hash_empty : ℕ
hash_empty = 0xffffffff

abbrev pub hash_deleted : ℕ
hash_deleted = 0xfffffffe

abbrev pub is_free : ℕ → Bool
is_free slot = slot == hash_empty || slot == hash_deleted

-- `x & (size - 1)`, where `size - 1` wraps at size 0.
unfoldable pub mask : ℕ → ℕ → ℕ
mask x size = bit_and x ((size + 2 ^ 64 - 1) % 2 ^ 64)

unfoldable pub starting_index : ℕ → ℕ → ℕ
starting_index hash size = mask hash size % 2 ^ 32

-- The `while (1)` of `KH_InsertSlot`. It visits slot after slot and never changes one before it
-- stops, so where it has not stopped after as many rounds as there are slots it never does; that,
-- and an index out of range, is `none`.
unfoldable pub insert_slot_loop : ℕ → List ℕ → ℕ → ℕ → ℕ → Option (List ℕ)
insert_slot_loop zero slots nslots slot_index index = none
insert_slot_loop (suc fuel) slots nslots slot_index index =
    let rest = insert_slot_loop fuel slots nslots (mask (slot_index + 1) nslots % 2 ^ 32) index in
    elim (get_elem? slots slot_index) [
      | none ↦ none
      | some slot ↦ if is_free slot then some (set slots slot_index index) else rest
    ]

unfoldable pub insert_slot : List ℕ → ℕ → ℕ → ℕ → Option (List ℕ)
insert_slot slots nslots hash index =
    insert_slot_loop nslots slots nslots (starting_index hash nslots) (index % 2 ^ 32)
