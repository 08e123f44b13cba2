-- ===== src/Dict/Resize.antt =====
-- `KH_ResizeDict`.
use native.Mathlib.Nat.{mod-le}
use kn_shim.Base.{
  ℕ, zero, suc, ◌+◌, ◌-◌, ◌*◌, ◌^◌, ◌≤◌, ◌<◌, ◌≡◌, refl, sym, ap, ◌∙◌, ◌⊎◌, inl, inr, true, none,
  some, List, [], ◌∷◌, ◌++◌, map, length, get_or, replicate, length-append, length-map,
  length-replicate, get_or-replicate, append-nil, arith, Returns,
}
use kn_shim.Dict.Blob.{Bytes, kh_hash, create_blob}
use kn_shim.Dict.Slots.{hash_empty, hash_deleted, insert_slot}
use kn_shim.Dict.Table.{Cell, Dict, store, copy_pairs, new_size, resize, threshold}
use kn_shim.Dict.Assoc.{Entries}
use kn_shim.Dict.Probe.{IsCapacity, IsCapacity-double, IsCapacity-even, Slotted, replicate-Slotted}
use kn_shim.Dict.Insert.{insert_slot-Slotted}
use kn_shim.Dict.Models.{Models, cell, hash_at, load-lt}
use kn_shim.Dict.Cells.{store-length_append, append_snoc, cells_snoc, key_at-length_append}

copy_pairs_step :
    (k v : Bytes) (old : List Cell) (size : ℕ) (slots slots' : List ℕ) (pairs pairs' : List Cell)
    (j : ℕ)
    → store pairs j (cell (k, v)) ≡ some pairs'
    → insert_slot slots size (kh_hash k) j ≡ some slots'
    → copy_pairs (cell (k, v) ∷ old) size slots pairs j ≡ copy_pairs old size slots' pairs' (j + 1)
unfolding copy_pairs create_blob
copy_pairs_step k v old size slots slots' pairs pairs' j written inserted = rw (written, inserted)

-- The loop that copies: `m` is the entries before it, `m2` those still to come, and the old
-- array holds NULL behind them, or ends.
copy_pairs_lem :
    {size : ℕ} (cap : IsCapacity size) (m m1 m2 : Entries) (rest : List Cell) (slots : List ℕ)
    (z j : ℕ)
    → m ≡ m1 ++ m2
    → j ≡ length m1
    → length m < size
    → length m < hash_deleted
    → j + z ≡ size
    → get_or rest 0 none ≡ none
    → Slotted size (hash_at m) slots j
    → Returns (copy_pairs (map cell m2 ++ rest) size slots (map cell m1 ++ replicate z none) j) λ r.
      Slotted size (hash_at m) r.0 (length m)
      × (r.1 ≡ map cell m ++ replicate (size - length m) none)
      × (r.2 ≡ length m)
unfolding copy_pairs create_blob
copy_pairs_lem {size} cap m m1 [] [] slots z j whole place room few fits clean s =
    let e : m ≡ m1 = whole ∙ append-nil m1 in
    let n : length m ≡ j = ap length e ∙ sym place in
    (
      _,
      refl,
      (rw n s, rw (e, ← place) (ap (λ t. map cell m1 ++ replicate t none) (omega arith)), sym n),
    )
copy_pairs_lem {size} cap m m1 [] (none ∷ rest) slots z j whole place room few fits clean s =
    let e : m ≡ m1 = whole ∙ append-nil m1 in
    let n : length m ≡ j = ap length e ∙ sym place in
    (
      _,
      refl,
      (rw n s, rw (e, ← place) (ap (λ t. map cell m1 ++ replicate t none) (omega arith)), sym n),
    )
copy_pairs_lem cap m m1 [] (some c ∷ rest) slots z j whole place room few fits clean s = absurd (cc)
copy_pairs_lem cap m m1 (e ∷ m2) rest slots zero j whole place room few fits clean s =
    absurd (omega (arith, ap length whole, length-append m1 (e ∷ m2)))
copy_pairs_lem {size} cap m m1 ((k, v) ∷ m2) rest slots (suc z) j whole place room few fits clean
      s =
    let hash : hash_at m j ≡ kh_hash k =
      rw (whole, place) (ap kh_hash (key_at-length_append m1 m2 k v)) in
    let below : j < length m = omega (arith, ap length whole, length-append m1 ((k, v) ∷ m2)) in
    let (slots', run, s') = insert_slot-Slotted cap s (omega arith) (omega arith) in
    let up : suc j ≡ j + 1 = omega arith in
    let (r, rest_run, p) =
      copy_pairs_lem cap m (m1 ++ ((k, v) ∷ [])) m2 rest slots' z (j + 1)
        (whole ∙ sym (append_snoc m1 m2 (k, v))) (omega (arith, length-append m1 ((k, v) ∷ [])))
        room few (omega arith) clean (rw up at s') in
    (
      r,
      copy_pairs_step k v (map cell m2 ++ rest) size slots slots' _ _ j
            (store-length_append (map cell m1) (replicate z none) none (cell (k, v)) j
                (omega (arith, length-map cell m1))
              ∙ ap some (cells_snoc m1 (k, v) (replicate z none)))
            (rw hash at run)
          ∙ rest_run,
      p,
    )

-- The load at which the table grows leaves no stale pair: all cells past the entries are NULL.
full_clean :
    {m : Entries} {d : Dict} (models : Models m d)
    → threshold d.data_alloced ≤ length m
    → get_or models.rest 0 none ≡ none
full_clean models full = models.clean 0 (omega arith)

new_size-IsCapacity :
    {n : ℕ}
    → (n ≡ 0) ⊎ IsCapacity n
    → n ≤ 2 ^ 31
    → IsCapacity (new_size n)
      × (threshold n < threshold (new_size n))
      × (threshold n < hash_deleted)
new_size-IsCapacity {n} (inl e) small = rw (e) (
  record { exponent = 3; power = refl; least = omega arith; most = omega arith },
  omega arith,
  omega arith,
)
new_size-IsCapacity {n} (inr c) small =
    let e : new_size n ≡ 2 * n = ground (arith, c.least) in
    rw e (IsCapacity-double c small, omega (arith, c.least), omega arith)

new_size-le : {n : ℕ} (c : ℕ) → (n ≡ 0) ⊎ IsCapacity n → threshold n ≤ c → new_size n ≤ 8 + 4 * c
new_size-le {n} c (inl e) full = rw e (omega arith)
new_size-le {n} c (inr capacity) full =
    ground (arith, capacity.least, IsCapacity-even capacity, mod-le (2 * n) (2 ^ 64))

-- A full table, of at most 2 ^ 31 slots, grows to one of twice the size with the same entries.
pub resize-Models :
    {m : Entries} {d : Dict}
    → Models m d
    → d.data_alloced ≤ 2 ^ 31
    → threshold d.data_alloced ≤ length m
    → Returns (resize true d) λ r.
      (d' : Dict) × (r ≡ some d')
      × Models m d'
      × IsCapacity d'.data_alloced
      × (length m < threshold d'.data_alloced)
      × (d'.data_alloced ≤ 8 + 4 * length m)
unfolding resize
resize-Models {m} {d} models small full =
    let size = new_size d.data_alloced in
    let (capacity, more, few) = new_size-IsCapacity models.capacity small in
    let lt = load-lt capacity in
    let (r, run, (slotted, pairs, j)) =
      copy_pairs_lem capacity m [] m models.rest (replicate size hash_empty) size 0 refl refl
        (omega (arith, models.load)) (omega (arith, models.load)) (omega arith)
        (full_clean models full) (replicate-Slotted size (hash_at m)) in
    let d' : Dict = record { slots = r.0; pairs = r.1; data_count = r.2; data_alloced = size } in
    let copied : copy_pairs d.pairs size (replicate size hash_empty) (replicate size none) 0
        ≡ some r =
      rw models.stored run in
    (
      some d',
      rw copied,
      (
        d',
        refl,
        record {
          capacity = inr capacity;
          counted = j;
          load = omega (arith, models.load);
          rest = replicate (size - length m) none;
          stored = pairs;
          room = omega (
            arith,
            ap length pairs,
            length-append (map cell m) (replicate {A = Cell} (size - length m) none),
            length-map cell m,
            length-replicate {A = Cell} (size - length m) none,
            models.load,
          );
          clean = λ i h. get_or-replicate (size - length m) i none;
          slotted = slotted;
          distinct = models.distinct;
        },
        capacity,
        omega (arith, models.load),
        omega (arith, new_size-le (length m) models.capacity full),
      ),
    )
