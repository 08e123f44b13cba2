-- ===== src/Tests/Databases.antt =====
-- A session of the database.
use kn_shim.Base.{ℕ, Option, some, ◌⊎◌, ◌≡◌, refl, none, List, [], ◌∷◌, arith, Returns}
use kn_shim.Dict.Table.{
  Dict, create_dict, dict_set, dict_get, value_at, lookup_index, lookup_loop, dict_insert,
  dict_change, append_pair, resize, copy_pairs, store, dict_key_iter, dict_value_iter, dict_len,
}
use kn_shim.Dict.Models.{create_dict-Models}
use kn_shim.Dict.Assoc.{Entries, IsDistinct, index_of}
use kn_shim.Database.{
  get_db, load_dict, load_pairs, load_pair, read_int, read_data, save_dict, write_dict, write_pairs,
  write_blob, write_data, write_int,
}
use kn_shim.Memory.{int_bytes, int_of_bytes}
use kn_shim.Dict.Slots.{insert_slot, insert_slot_loop, starting_index, mask}
use kn_shim.Dict.Blob.{create_blob, kh_hash, bytes_eq, blob_equal}
use kn_shim.Database.Format.{encode, encode_pairs, encode_blob}
use kn_shim.Database.Script.Session.Restart.{restart-Holds, session-restart}
use kn_shim.Database.Script.{db_set, db_get, set_and_save}
use kn_shim.Database.Script.Session.{
  DbCall, call_set, call_get, call_has, call_delete, AllHaveArguments, session, perform, Run, Holds,
}
use kn_shim.Database.Script.Session.Runs.{session-Run}
use kn_shim.Database.Script.Session.Whole.{HeldOnce, session-whole}
use kn_shim.Tests.Machine.{Stack, Files, string, test_lua, test_io, test_laws, test-IsReliable}
use kn_shim.Tests.Table.{key, other}
use kn_shim.Tests.Stores.{db_path, no_files}

-- The entry of the empty key cannot be written, so the file has it neither after its call nor,
-- while it is there, after the next.
abbrev db_calls : List (DbCall test_lua test_io db_path)
db_calls =
    call_get (string key ∷ []) key
    ∷ call_set (string key ∷ string other ∷ []) key other
    ∷ call_set (string [] ∷ string other ∷ []) [] other
    ∷ call_delete (string key ∷ []) key
    ∷ call_has (string key ∷ []) key
    ∷ []

db_calls-AllHaveArguments : AllHaveArguments test_lua test_io db_path db_calls
db_calls-AllHaveArguments = (
  (omega arith, refl),
  (
    (omega arith, refl, refl),
    ((omega arith, refl, refl), ((omega arith, refl), ((omega arith, refl), tt))),
  ),
)

-- No file, and no use of the database yet.
unused-Holds : Holds test_lua test_io test_laws db_path [] no_files none
unfolding get_db load_dict create_dict
unused-Holds = record {
  held = create_dict;
  ready = refl;
  models = create_dict-Models;
  slots = omega arith;
}

session-Run_example : Returns (session test_lua test_io db_path db_calls no_files none) λ r.
    (m' : Entries) × Run test_lua test_io test_laws db_path db_calls
      ([], none)
      r.0
      (m', test_laws.contents r.1 db_path)
    × Holds test_lua test_io test_laws db_path m' r.1 r.2
session-Run_example =
    session-Run test_lua test_io test_laws db_path test-IsReliable db_calls [] no_files none
      db_calls-AllHaveArguments (omega arith) unused-Holds

session-whole_example : Returns (session test_lua test_io db_path db_calls no_files none) λ r.
    (test_laws.contents r.1 db_path ≡ none)
    ⊎ HeldOnce test_lua test_io test_laws db_path db_calls
        ([], none)
        (test_laws.contents r.1 db_path)
session-whole_example =
    session-whole test_lua test_io test_laws db_path test-IsReliable db_calls [] no_files none
      db_calls-AllHaveArguments (omega arith) unused-Holds

-- A disk with a database of one entry.
abbrev one_file : Files
one_file p = some (encode ((key, other) ∷ []))

alone : IsDistinct ((key, other) ∷ [])
unfolding index_of
alone = (refl, tt)

-- A set and a look-up, on the file of one entry.
abbrev short_calls : List (DbCall test_lua test_io db_path)
short_calls = call_set (string key ∷ string key ∷ []) key key ∷ call_get (string key ∷ []) key ∷ []

start : Unit {0}
unfolding encode encode_pairs encode_blob session perform db_set set_and_save db_get create_dict
    create_blob kh_hash bytes_eq blob_equal dict_set dict_get value_at lookup_index lookup_loop
    dict_insert dict_change append_pair resize copy_pairs store dict_key_iter dict_value_iter
    dict_len get_db load_dict load_pairs load_pair read_int read_data save_dict write_dict
    write_pairs write_blob write_data write_int int_bytes int_of_bytes insert_slot insert_slot_loop
    starting_index mask
start = tt

left : List (ℕ × Stack) × Files × Option Dict
left = elim (session test_lua test_io db_path short_calls one_file none) [
  | none ↦ ([], one_file, none)
  | some r ↦ r
]

short_calls-left :
    session test_lua test_io db_path short_calls one_file none ≡ some (left.0, left.1, left.2)
unfolding left start
short_calls-left = refl

left_opens : test_io.fopen_rb left.1 db_path ≡ some (encode ((key, key) ∷ []))
unfolding left start
left_opens = refl

one_file-Holds : Holds test_lua test_io test_laws db_path ((key, other) ∷ []) one_file none
one_file-Holds =
    restart-Holds test_lua test_io test_laws db_path test-IsReliable ((key, other) ∷ []) one_file
      (record { distinct = alone; short = (omega arith, omega arith, tt); few = omega arith }) refl
      refl

session-restart_example :
    (once : HeldOnce test_lua test_io test_laws db_path short_calls
      ((key, other) ∷ [], test_laws.contents one_file db_path)
      (test_laws.contents left.1 db_path))
    × Holds test_lua test_io test_laws db_path once.held left.1 none
session-restart_example =
    session-restart test_lua test_io test_laws db_path test-IsReliable short_calls
      ((key, other) ∷ []) one_file none ((omega arith, refl, refl), ((omega arith, refl), tt))
      (omega arith, omega arith, tt) (omega arith, omega arith, tt) (omega arith) one_file-Holds
      refl short_calls-left left_opens
