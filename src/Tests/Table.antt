-- ===== src/Tests/Table.antt =====
-- The dictionary of jni/hashtable.h at work.
use Prim.Native.Nat.{max}
use mathlib.Core.Option
use kn_shim.Base.{
  ◌^◌, ℕ, ◌+◌, ◌*◌, ◌≡◌, refl, Bool, true, Option, some, [], ◌∷◌, arith, ◌>>=◌, Returns, ◌≤◌,
}
use kn_shim.Dict.Blob.{Bytes, kh_hash, create_blob, bytes_eq, blob_equal}
use kn_shim.Dict.Slots.{mask, starting_index, insert_slot_loop, insert_slot}
use kn_shim.Dict.Table.{Dict, create_dict, dict_set, dict_get, dict_has, dict_delete, dict_len}
use kn_shim.Dict.Assoc.{Entries, find, assign, erase, is_some}
use kn_shim.Dict.Models.{Models, create_dict-Models}
use kn_shim.Dict.Refine.{dict_set-Models, dict_get-find, dict_delete-Models}

abbrev pub key : Bytes
key = b'k' ∷ b'1' ∷ []

abbrev pub other : Bytes
other = b'k' ∷ b'2' ∷ []

program : Unit {0}
unfolding bytes_eq kh_hash create_blob blob_equal mask starting_index insert_slot_loop insert_slot
    create_dict dict_set dict_get dict_has dict_delete dict_len
program = tt

-- DJB2 with exclusive or of "k1".
hash_of_key : kh_hash key ≡ 5861311
unfolding program
hash_of_key = refl

-- Two keys set, one of them overwritten and deleted.
abbrev session : Option (ℕ × Bool × ℕ × Bool)
session = do
  (_, d1) ← dict_set true create_dict (create_blob key) (create_blob (1 ∷ []))
  (_, d2) ← dict_set true d1 (create_blob other) (create_blob (2 ∷ []))
  (_, d3) ← dict_set true d2 (create_blob key) (create_blob (3 ∷ []))
  (gone, d4) ← dict_delete d3 (create_blob key)
  there ← dict_has d4 (create_blob other)
  some (dict_len d3, gone, dict_len d4, there)

session_runs : session ≡ some (2, true, 1, true)
unfolding program
session_runs = refl

pub new_is_empty : create_dict.data_alloced ≡ 0
unfolding create_dict
new_is_empty = refl

pub new_is_small : create_dict.data_alloced ≤ 2 ^ 31
unfolding create_dict
new_is_small = omega arith

dict_set-Models_example :
    Returns (dict_set true create_dict (create_blob key) (create_blob (1 ∷ []))) λ r.
      (r.0 ≡ true)
      × Models (assign key (1 ∷ []) []) r.1
      × (r.1.data_alloced ≤ max create_dict.data_alloced (8 + 4 * 0))
dict_set-Models_example = dict_set-Models key (1 ∷ []) create_dict-Models new_is_small

abbrev pub first_set :
    Returns (dict_set true create_dict (create_blob key) (create_blob (1 ∷ []))) λ r.
      (r.0 ≡ true)
      × Models (assign key (1 ∷ []) []) r.1
      × (r.1.data_alloced ≤ max create_dict.data_alloced (8 + 4 * 0))
first_set = dict_set-Models key (1 ∷ []) create_dict-Models new_is_small

abbrev pub sample : Dict
sample = first_set.0.1

abbrev pub sample_entries : Entries
sample_entries = assign key (1 ∷ []) []

pub sample-Models : Models sample_entries sample
sample-Models = first_set.2.1

dict_get-find_example :
    dict_get sample (create_blob key) ≡ some (Option.map create_blob (find key sample_entries))
dict_get-find_example = dict_get-find key sample-Models

dict_delete-Models_example :
    Returns
      (dict_delete sample (create_blob key))
      λ r. (r.0 ≡ is_some (find key sample_entries)) × Models (erase key sample_entries) r.1
dict_delete-Models_example = dict_delete-Models key sample-Models
