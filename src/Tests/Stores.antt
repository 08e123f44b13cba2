-- ===== src/Tests/Stores.antt =====
-- The stores of jni/reg.c and the extractor of jni/nxarchive.c at work.
use kn_shim.Base.{◌^◌, ◌≡◌, refl, ap, true, none, some, [], ◌∷◌, ◌++◌, arith, Returns, ◌≤◌, length}
use kn_shim.Dict.Blob.{Bytes, create_blob, kh_hash, bytes_eq, blob_equal}
use kn_shim.Dict.Slots.{insert_slot, insert_slot_loop, starting_index, mask}
use kn_shim.Dict.Table.{Dict, create_dict, dict_set, dict_key_iter, dict_value_iter, dict_len}
use kn_shim.Dict.Assoc.{assign}
use kn_shim.Dict.Models.{Models}
use kn_shim.Memory.{int_bytes}
use kn_shim.Registry.{get_reg}
use kn_shim.Database.{
  save_dict, load_dict, write_dict, write_pairs, write_blob, write_data, write_int,
}
use kn_shim.Database.Format.{encode, encode_pairs, encode_blob, AreShort}
use kn_shim.Database.Save.{Saved, save_dict-Saved}
use kn_shim.Database.RoundTrip.{load_dict-save_dict}
use kn_shim.Database.Script.{World}
use kn_shim.Tests.Machine.{Stack, string, test_lua, Files, test_io, test_laws, test-IsReliable}
use kn_shim.Tests.Table.{key, other, sample, sample_entries, sample-Models, first_set, new_is_empty}

-- `f("k1", "k2")`.
abbrev call : Stack
call = string key ∷ string other ∷ []

unused_is_small : (get_reg none).data_alloced ≤ 2 ^ 31
unfolding get_reg create_dict
unused_is_small = omega arith

-- The capacity after the first insertion.
sample_is_small : sample.data_alloced ≤ 2 ^ 31
sample_is_small = omega (arith, first_set.2.2, new_is_empty)

-- The path of the database.
abbrev pub db_path : Bytes
db_path = b'd' ∷ []

abbrev pub no_files : Files
no_files p = none

save_dict-Saved_example :
    Returns
      (save_dict test_io no_files sample db_path)
      (Saved test_io test_laws no_files sample_entries db_path)
save_dict-Saved_example =
    save_dict-Saved test_io test_laws test-IsReliable no_files sample db_path sample_entries
      sample-Models

-- The table with one entry: its key has the hash 5861311, which leads to the last slot.
abbrev filled : Dict
filled = record {
  slots =
      0xffffffff ∷ 0xffffffff ∷ 0xffffffff ∷ 0xffffffff ∷ 0xffffffff ∷ 0xffffffff ∷ 0xffffffff ∷ 0
      ∷ [];
  pairs =
      some (create_blob key, create_blob (1 ∷ []))
      ∷ none
      ∷ none
      ∷ none
      ∷ none
      ∷ none
      ∷ none
      ∷ none
      ∷ [];
  data_count = 1;
  data_alloced = 8;
}

program : Unit {0}
unfolding dict_set create_dict create_blob kh_hash bytes_eq blob_equal save_dict write_dict
    write_pairs write_blob write_data write_int int_bytes dict_key_iter dict_value_iter dict_len
    insert_slot insert_slot_loop starting_index mask
program = tt

filled_runs :
    dict_set true create_dict (create_blob key) (create_blob (1 ∷ [])) ≡ some (true, filled)
unfolding program
filled_runs = refl

filled-sample : sample ≡ filled
filled-sample = cc (first_set.1, filled_runs)

filled-Models : Models sample_entries filled
filled-Models = rw filled-sample at sample-Models

saved_disk : Files
saved_disk p = elim (save_dict test_io no_files filled db_path) [ none ↦ none | some r ↦ r.0 p ]

filled_saved : save_dict test_io no_files filled db_path ≡ some (saved_disk, true)
unfolding program saved_disk
filled_saved = refl

file_there : test_io.fopen_rb saved_disk db_path ≡ some (encode ((key, 1 ∷ []) ∷ []))
unfolding program saved_disk encode encode_pairs encode_blob
file_there = refl

sample-assign : sample_entries ≡ (key, 1 ∷ []) ∷ []
unfolding assign
sample-assign = refl

sample_short : AreShort sample_entries
unfolding assign
sample_short = (omega arith, omega arith, tt)

load_dict-save_dict_example :
    Returns
      (load_dict test_io true saved_disk create_dict db_path)
      λ r. (r.1 ≡ true) × Models sample_entries r.0
load_dict-save_dict_example =
    load_dict-save_dict test_io test_laws test-IsReliable no_files filled db_path sample_entries
      filled-Models (omega (arith, ap length sample-assign)) sample_short filled_saved file_there

abbrev start : World test_lua test_io
start = record { script = call; disk = no_files; database = some sample }

-- The start command, a directory "a", and the end command.
abbrev archive : Bytes
archive =
    int_bytes 100
    ++ (int_bytes 0x584e0001 ++ (int_bytes 201 ++ (int_bytes 2 ++ (b'a' ∷ 0 ∷ int_bytes 300))))
