-- ===== src/Dict/Change.antt =====
-- `KH_DictChange` of jni/hashtable.h and the entries.
use kn_shim.Base.{
  ℕ, zero, suc, ◌≡◌, refl, sym, ap, ◌∙◌, some, List, [], ◌∷◌, ◌++◌, map, length, get_elem?, set,
  length-set, arith, Returns,
}
use kn_shim.Dict.Blob.{Bytes, kh_hash, create_blob}
use kn_shim.Dict.Table.{Cell, Dict, dict_change}
use kn_shim.Dict.Assoc.{
  Entries, index_of, assign, key_at, value_of, index_of-some_at, assign-IsDistinct,
}
use kn_shim.Dict.Probe.{Slotted-congr}
use kn_shim.Dict.Models.{Models, cell, hash_at, get_elem?-cells}

set-assign :
    (q w : Bytes) (m : Entries) (rest : List Cell) (j : ℕ)
    → index_of q m ≡ some j
    → set (map cell m ++ rest) j (some (create_blob (key_at m j), create_blob w))
      ≡ map cell (assign q w m) ++ rest
unfolding index_of assign
set-assign q w [] rest j h = cc
set-assign q w ((k, v) ∷ m) rest zero h = ground arith
set-assign q w ((k, v) ∷ m) rest (suc j) h = ground (arith, set-assign q w m rest j)

key_at-assign :
    (q w : Bytes) (m : Entries) (j i : ℕ)
    → index_of q m ≡ some j
    → key_at (assign q w m) i ≡ key_at m i
unfolding index_of assign
key_at-assign q w [] j i h = cc
key_at-assign q w ((k, v) ∷ m) zero i h = ground arith
key_at-assign q w ((k, v) ∷ m) (suc j) zero h = ground arith
key_at-assign q w ((k, v) ∷ m) (suc j) (suc i) h = ground (arith, key_at-assign q w m j i)

length-assign :
    (q w : Bytes) (m : Entries) (j : ℕ) → index_of q m ≡ some j → length (assign q w m) ≡ length m
unfolding index_of assign
length-assign q w [] j h = cc
length-assign q w ((k, v) ∷ m) zero h = ground arith
length-assign q w ((k, v) ∷ m) (suc j) h = ground (arith, length-assign q w m j)

pub dict_change-Models :
    {m : Entries} {d : Dict} (q w : Bytes) (j : ℕ)
    → Models m d
    → index_of q m ≡ some j
    → Returns
        (dict_change d j (create_blob w))
        λ d'. Models (assign q w m) d' × (d'.data_alloced ≡ d.data_alloced)
unfolding dict_change
dict_change-Models {m} {d} q w j models here =
    let (lt, same) = index_of-some_at q m j here in
    let e = length-assign q w m j here in
    let new : List Cell = set d.pairs j (some (create_blob (key_at m j), create_blob w)) in
    let read : get_elem? d.pairs j
        ≡ some (some (create_blob (key_at m j), create_blob (value_of m j))) =
      rw models.stored (get_elem?-cells m models.rest j lt) in
    (
      record d { pairs = new },
      rw (read),
      (
        record {
          capacity = models.capacity;
          counted = rw e models.counted;
          load = rw e models.load;
          rest = models.rest;
          stored = rw models.stored (set-assign q w m models.rest j here);
          room = length-set d.pairs j _ ∙ models.room;
          clean = λ i h. models.clean i (omega arith);
          slotted = rw e (
              Slotted-congr (hash_at (assign q w m))
                (λ i _. ap kh_hash (sym (key_at-assign q w m j i here))) models.slotted);
          distinct = assign-IsDistinct q w m models.distinct;
        },
        refl,
      ),
    )
