-- ===== src/Dict/Refine.antt =====
-- The public operations of jni/hashtable.h against those of an association list.
use Prim.Native.Nat.{max}
use mathlib.Core.Option
use kn_shim.Base.{
  ℕ, ◌+◌, ◌*◌, ◌≤◌, ◌<◌, ◌^◌, ◌≡◌, refl, inl, inr, true, false, none, some, length, get_elem?, ltb,
  lt→ltb, leb, arith, Option-cases, Bool-cases, Returns,
}
use kn_shim.Dict.Blob.{Bytes, create_blob}
use kn_shim.Dict.Slots.{hash_deleted}
use kn_shim.Dict.Table.{
  Dict, threshold, dict_insert, dict_set, value_at, dict_get, dict_has, dict_delete, dict_key_iter,
  dict_value_iter, dict_len,
}
use kn_shim.Dict.Assoc.{
  Entries, index_of, find, assign, erase, is_some, key_at, value_of, find-index_of,
  index_of-some_at, erase_absent,
}
use kn_shim.Dict.Probe.{IsCapacity}
use kn_shim.Dict.Models.{Models, get_elem?-cells, load-lt}
use kn_shim.Dict.Lookup.{lookup_index-index_of}
use kn_shim.Dict.Change.{dict_change-Models}
use kn_shim.Dict.Resize.{resize-Models}
use kn_shim.Dict.Append.{append_pair-Models}
use kn_shim.Dict.Remove.{dict_remove-Models}

load_few : {m : Entries} {d : Dict} → Models m d → threshold d.data_alloced < hash_deleted
load_few {d = d} models = elim models.capacity [
  | inl e ↦ rw e (omega arith)
  | inr c ↦ omega (arith, load-lt c, c.most)
]

IsCapacity-below :
    {m : Entries} {d : Dict}
    → Models m d
    → length m < threshold d.data_alloced
    → IsCapacity d.data_alloced
IsCapacity-below {m} {d} models h = elim models.capacity [
  | inl e ↦ absurd (omega (arith, e))
  | inr c ↦ c
]

dict_insert-Models :
    {m : Entries} {d : Dict} (q w : Bytes)
    → Models m d
    → d.data_alloced ≤ 2 ^ 31
    → index_of q m ≡ none
    → Returns (dict_insert true d (create_blob q) (create_blob w)) λ r.
      (r.0 ≡ true)
      × Models (assign q w m) r.1
      × (r.1.data_alloced ≤ max d.data_alloced (8 + 4 * length m))
unfolding dict_insert
dict_insert-Models {m} {d} q w models small absent =
    elim (Bool-cases (leb (threshold d.data_alloced) d.data_count)) [
      | inr no' ↦
          let room : length m < threshold d.data_alloced = ground (arith, models.counted) in
          let (r, run, (e, models', same)) =
            append_pair-Models q w models (IsCapacity-below models room) room absent in
          (r, rw no' run, (e, models', omega (arith, same)))
      | inl full ↦
          let (r, run, (d', e, models', capacity, room, grown)) =
            resize-Models models small (ground (arith, models.counted)) in
          let (r2, run2, (e2, models2, same)) =
            append_pair-Models q w models' capacity room absent in
          (r2, rw (full, run, e) run2, (e2, models2, omega (arith, same, grown)))
    ]

-- `KH_DictSet`, where the allocations succeed and the table has at most 2 ^ 31 slots: it returns
-- true, overwrites the value of a key that is there in its place, and appends a new key. The
-- capacity grows only with the number of entries.
pub dict_set-Models :
    {m : Entries} {d : Dict} (q w : Bytes)
    → Models m d
    → d.data_alloced ≤ 2 ^ 31
    → Returns (dict_set true d (create_blob q) (create_blob w)) λ r.
      (r.0 ≡ true)
      × Models (assign q w m) r.1
      × (r.1.data_alloced ≤ max d.data_alloced (8 + 4 * length m))
unfolding dict_set
dict_set-Models {m} {d} q w models small =
    rw (lookup_index-index_of q models) (elim (Option-cases (index_of q m)) [
      | inl e ↦ rw e (dict_insert-Models q w models small e)
      | inr (j, e) ↦
          let (d', run, (models', same)) = dict_change-Models q w j models e in
          ((true, d'), rw (e, run), (refl, models', omega (arith, same)))
    ])

-- `KH_DictGet` answers the value of the key, and NULL for a key that is not there.
pub dict_get-find :
    {m : Entries} {d : Dict} (q : Bytes)
    → Models m d
    → dict_get d (create_blob q) ≡ some (Option.map create_blob (find q m))
unfolding dict_get value_at
dict_get-find {m} {d} q models =
    rw (lookup_index-index_of q models, find-index_of q m)
      (elim (Option-cases (index_of q m)) [
        | inl e ↦ rw e
        | inr (j, e) ↦
            let read : get_elem? d.pairs j
                ≡ some (some (create_blob (key_at m j), create_blob (value_of m j))) =
              rw models.stored (get_elem?-cells m models.rest j (index_of-some_at q m j e).0) in
            rw (e, read)
      ])

-- `KH_DictHas` says whether the key is there.
pub dict_has-find :
    {m : Entries} {d : Dict} (q : Bytes)
    → Models m d
    → dict_has d (create_blob q) ≡ some (is_some (find q m))
unfolding dict_has
dict_has-find {m} {d} q models =
    rw (lookup_index-index_of q models, find-index_of q m)
      (elim (Option-cases (index_of q m)) [ inl e ↦ rw e | inr (j, e) ↦ rw e ])

-- Also, the number of slots stays.
pub dict_delete-kept :
    {m : Entries} {d : Dict} (q : Bytes)
    → Models m d
    → Returns (dict_delete d (create_blob q)) λ r.
      (r.0 ≡ is_some (find q m)) × Models (erase q m) r.1 × (r.1.data_alloced ≡ d.data_alloced)
unfolding dict_delete
dict_delete-kept {m} {d} q models =
    rw (lookup_index-index_of q models, find-index_of q m)
      (elim (Option-cases (index_of q m)) [
        | inl e ↦ ((false, d), rw e, (rw e, rw (erase_absent q m e) models, refl))
        | inr (j, e) ↦
            let (d', run, (models', same)) = dict_remove-Models q j models (load_few models) e in
            ((true, d'), rw (e, run), (rw e, models', same))
      ])

-- `KH_DictDelete` takes the key out, keeps the other entries in their order, and says whether
-- the key was there.
pub dict_delete-Models :
    {m : Entries} {d : Dict} (q : Bytes)
    → Models m d
    → Returns
        (dict_delete d (create_blob q))
        λ r. (r.0 ≡ is_some (find q m)) × Models (erase q m) r.1
dict_delete-Models q models =
    let (r, run, (there, models', _)) = dict_delete-kept q models in (r, run, (there, models'))

-- `KH_DictKeyIter` and `KH_DictValueIter` over 0 … `KH_DictLen` - 1 go through the entries in
-- their order, and answer NULL from there on.
pub dict_iter-Models :
    {m : Entries} {d : Dict} (i : ℕ)
    → Models m d
    → (dict_len d ≡ length m)
      × (i < length m
          → (dict_key_iter d i ≡ some (some (create_blob (key_at m i))))
            × (dict_value_iter d i ≡ some (some (create_blob (value_of m i)))))
      × (length m ≤ i → (dict_key_iter d i ≡ some none) × (dict_value_iter d i ≡ some none))
unfolding dict_len dict_key_iter dict_value_iter
dict_iter-Models {m} {d} i models = (
  models.counted,
  (λ lt.
      let read : get_elem? d.pairs i
          ≡ some (some (create_blob (key_at m i), create_blob (value_of m i))) =
        rw models.stored (get_elem?-cells m models.rest i lt) in
      let test : ltb i d.data_count ≡ true = lt→ltb _ _ (omega (arith, models.counted)) in
      (rw (test, read), rw (test, read))),
  λ ge.
      let test : ltb i d.data_count ≡ false = ground (arith, models.counted) in (rw test, rw test),
)
