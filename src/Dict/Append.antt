-- ===== src/Dict/Append.antt =====
-- The insertion of a pair into a table that has room, of jni/hashtable.h.
use kn_shim.Base.{
  ℕ, suc, ◌+◌, ◌<◌, ◌≡◌, refl, sym, ap, ◌∙◌, true, none, some, List, [], ◌∷◌, ◌++◌, map, length,
  length-append, length-map, arith, Returns,
}
use kn_shim.Dict.Blob.{Bytes, kh_hash, create_blob}
use kn_shim.Dict.Slots.{insert_slot}
use kn_shim.Dict.Table.{Cell, Dict, store, append_pair, threshold}
use kn_shim.Dict.Assoc.{Entries, index_of, assign, assign_absent, assign-IsDistinct}
use kn_shim.Dict.Probe.{IsCapacity, Slotted, Slotted-congr}
use kn_shim.Dict.Insert.{insert_slot-Slotted}
use kn_shim.Dict.Models.{Models, cell, hash_at, load-lt}
use kn_shim.Dict.Cells.{store-length_append, cells_snoc, key_at-append_left, key_at-length_append}

append_pair_step :
    (d : Dict) (q w : Bytes) (slots' : List ℕ) (pairs' : List Cell)
    → store d.pairs d.data_count (cell (q, w)) ≡ some pairs'
    → insert_slot d.slots d.data_alloced (kh_hash q) d.data_count ≡ some slots'
    → append_pair d (create_blob q) (create_blob w)
      ≡ some (true, record d { slots = slots'; pairs = pairs'; data_count = d.data_count + 1 })
unfolding append_pair create_blob
append_pair_step d q w slots' pairs' written inserted = rw (written, inserted)

-- The insertion of a key that is not there, into a table below the threshold.
pub append_pair-Models :
    {m : Entries} {d : Dict} (q w : Bytes)
    → Models m d
    → IsCapacity d.data_alloced
    → length m < threshold d.data_alloced
    → index_of q m ≡ none
    → Returns
        (append_pair d (create_blob q) (create_blob w))
        λ r. (r.0 ≡ true) × Models (assign q w m) r.1 × (r.1.data_alloced ≡ d.data_alloced)
unfolding append_pair create_blob
append_pair-Models {m} {d} q w models capacity room absent = append_at models.rest refl
  where
    m' : Entries
    m' = m ++ ((q, w) ∷ [])

    longer : length m' ≡ length m + 1
    longer = length-append m ((q, w) ∷ [])

    slots : Slotted d.data_alloced (hash_at m') d.slots (length m)
    slots =
        Slotted-congr (hash_at m')
          (λ i lt. ap kh_hash (sym (key_at-append_left m ((q, w) ∷ []) i lt))) models.slotted

    append_at :
        (rest : List Cell)
        → models.rest ≡ rest
        → Returns
            (append_pair d (create_blob q) (create_blob w))
            λ r. (r.0 ≡ true) × Models (assign q w m) r.1 × (r.1.data_alloced ≡ d.data_alloced)
    append_at [] e = absurd (
        omega (
          arith,
          load-lt capacity,
          models.room,
          ap length models.stored,
          ap length e,
          length-append (map cell m) models.rest,
          length-map cell m,
        ))
    append_at (x ∷ rest) e =
        let (slots', run, s') =
          insert_slot-Slotted capacity slots (omega (arith, load-lt capacity))
            (omega (arith, load-lt capacity, capacity.most)) in
        let hash : hash_at m' (length m) ≡ kh_hash q = ap kh_hash (key_at-length_append m [] q w) in
        let written : store d.pairs d.data_count (cell (q, w)) ≡ some (map cell m' ++ rest) =
          rw (models.stored, e)
            (store-length_append (map cell m) rest x (cell (q, w)) d.data_count
                (omega (arith, models.counted, length-map cell m))
              ∙ ap some (cells_snoc m (q, w) rest)) in
        let same : assign q w m ≡ m' = assign_absent q w m absent in
        let up : suc (length m) ≡ length m' = omega (arith, longer) in
        (
          _,
          append_pair_step d q w slots' _ written (rw models.counted (rw hash at run)),
          (
            refl,
            rw same (record {
              capacity = models.capacity;
              counted = omega (arith, models.counted, longer);
              load = omega (arith, longer);
              rest = rest;
              stored = refl;
              room = omega (
                arith,
                models.room,
                ap length models.stored,
                ap length e,
                length-append (map cell m) models.rest,
                length-append (map cell m') rest,
                length-map cell m,
                length-map cell m',
                longer,
              );
              clean = λ i h. rw e at (models.clean (suc i) (omega (arith, longer)));
              slotted = rw up at s';
              distinct = rw same at (assign-IsDistinct q w m models.distinct);
            }),
            refl,
          ),
        )
