-- ===== src/Dict/Laws.antt =====
-- Two calls of jni/hashtable.h in a row.
use kn_shim.Base.{◌≤◌, ◌^◌, ◌≡◌, refl, true, none, some, [], ◌∷◌, if◌then◌else◌, arith, ◌>>=◌}
use kn_shim.Dict.Blob.{Bytes, bytes_eq, bytes_eq_sound, bytes_eq_refl, create_blob}
use kn_shim.Dict.Table.{Dict, dict_set, dict_get, dict_delete}
use kn_shim.Dict.Assoc.{Entries, index_of, find, assign, erase, IsDistinct, find-index_of}
use kn_shim.Dict.Models.{Models}
use kn_shim.Dict.Refine.{dict_set-Models, dict_get-find, dict_delete-Models}

find-assign :
    (q k w : Bytes) (m : Entries)
    → find q (assign k w m) ≡ (if bytes_eq q k then some w else find q m)
unfolding find assign
find-assign q k w [] = refl
find-assign q k w ((j, v) ∷ m) = ground (
  arith,
  find-assign q k w m,
  bytes_eq_sound k j,
  bytes_eq_sound q j,
  bytes_eq_sound q k,
  bytes_eq_refl j,
)

find_absent : (q : Bytes) (m : Entries) → index_of q m ≡ none → find q m ≡ none
find_absent q m h = rw (find-index_of q m, h)

find-erase :
    (q k : Bytes) (m : Entries)
    → IsDistinct m
    → find q (erase k m) ≡ (if bytes_eq q k then none else find q m)
unfolding find erase
find-erase q k [] d = ground arith
find-erase q k ((j, v) ∷ m) d = ground (
  arith,
  find-erase q k m d.1,
  find_absent j m d.0,
  bytes_eq_sound k j,
  bytes_eq_sound q j,
  bytes_eq_sound q k,
  bytes_eq_refl j,
)

-- After `KH_DictSet` every key reads as before, but for the key that was set, which reads as the
-- new value.
pub dict_get-dict_set :
    {m : Entries} {d : Dict} (q k w : Bytes)
    → Models m d
    → d.data_alloced ≤ 2 ^ 31
    → (dict_set true d (create_blob k) (create_blob w) >>= λ r. dict_get r.1 (create_blob q))
      ≡ (if bytes_eq q k then some (some (create_blob w)) else dict_get d (create_blob q))
dict_get-dict_set {m} {d} q k w models small =
    let (r, run, (_, models', _)) = dict_set-Models k w models small in
    rw (run, dict_get-find q models', dict_get-find q models, find-assign q k w m) (ground arith)

-- After `KH_DictDelete` the key is gone, and every other key reads as before.
pub dict_get-dict_delete :
    {m : Entries} {d : Dict} (q k : Bytes)
    → Models m d
    → (dict_delete d (create_blob k) >>= λ r. dict_get r.1 (create_blob q))
      ≡ (if bytes_eq q k then some none else dict_get d (create_blob q))
dict_get-dict_delete {m} {d} q k models =
    let (r, run, (_, models')) = dict_delete-Models k models in
    rw (run, dict_get-find q models', dict_get-find q models, find-erase q k m models.distinct)
      (ground arith)
