-- ===== src/Database.antt =====
-- The database: the store of the second half of jni/reg.c, which is kept in a file.
-- `none` is undefined behaviour. The allocation of the temporary path is taken to succeed.
pub mod Format
pub mod Save
pub mod Load
pub mod RoundTrip
pub mod Script
use kn_shim.Base.{
  ℕ, zero, suc, ◌+◌, ◌*◌, ◌/◌, ◌%◌, ◌^◌, Bool, true, false, ◌||◌, not, Option, none, some, List, [],
  ◌∷◌, ◌++◌, length, ltb, ◌==◌, if◌then◌else◌, ◌>>=◌,
}
use kn_shim.Dict.Blob.{Bytes, Blob, create_blob}
use kn_shim.Dict.Table.{
  Dict, create_dict, dict_set, dict_get, dict_has, dict_delete, dict_len, dict_key_iter,
  dict_value_iter,
}
use kn_shim.Lua.{Lua, c_string}
use kn_shim.Memory.{int_bytes, int_of_bytes}
use kn_shim.Stdio.{Stdio}

-- KN_DATABASE_MAGIC: 'K' | 'N' << 8 | 'O' << 16 | 'T' << 24.
abbrev pub database_magic : ℕ
database_magic = b'K' + b'N' * 2 ^ 8 + b'O' * 2 ^ 16 + b'T' * 2 ^ 24

-- ".new", which is put behind the path of the new version.
abbrev pub new_suffix : Bytes
new_suffix = b'.' ∷ b'n' ∷ b'e' ∷ b'w' ∷ []

module _ (io : Stdio) where
  open io use {Disk, Sink, Source, fopen_wb, fwrite, fclose, fopen_rb, fread, rename}

  -- The Boolean is true on error, as in the code.
  unfoldable pub write_int : Sink → ℕ → Sink × Bool
  write_int file number =
      let (file', count) = fwrite file (int_bytes number) 4 1 in (file', count == 0)

  unfoldable pub write_data : Sink → Bytes → Sink × Bool
  write_data file buffer =
      let (file', count) = fwrite file buffer (length buffer) 1 in (file', count == 0)

  -- A blob's length, then its bytes, with the error so far.
  unfoldable pub write_blob : Sink × Bool → Blob → Sink × Bool
  unfolding write_int write_data
  write_blob (file, error) blob =
      let (file1, error1) = write_int file (length blob.bytes) in
      let (file2, error2) = write_data file1 blob.bytes in (file2, (error || error1) || error2)

  -- The loop of `SaveDict`: the rounds left, and `i`.
  unfoldable pub write_pairs : ℕ → ℕ → Dict → Sink × Bool → Option (Sink × Bool)
  unfolding write_blob
  write_pairs zero i dict out = some out
  write_pairs (suc rounds) i dict out = do
    found_key ← dict_key_iter dict i
    key ← found_key
    found_value ← dict_value_iter dict i
    value ← found_value
    write_pairs rounds (i + 1) dict (write_blob (write_blob out key) value)

  unfoldable pub write_dict : Sink → Dict → Option (Sink × Bool)
  unfolding write_int write_pairs
  write_dict file dict =
      let (file1, error1) = write_int file database_magic in
      let (file2, error2) = write_int file1 (dict_len dict) in
      write_pairs (dict_len dict) 0 dict (file2, error1 || error2)

  unfoldable pub save_dict : Disk → Dict → Bytes → Option (Disk × Bool)
  unfolding write_dict
  save_dict disk dict path =
      let temp_path = path ++ new_suffix in
      elim (fopen_wb disk temp_path) [
        | none ↦ some (disk, false)
        | some file ↦ do
          (file', error) ← write_dict file dict
          let disk' = fclose disk file'
          if error then some (disk', false) else some (rename disk' temp_path path)
      ]

  -- `ReadInt`: with fewer than four bytes left the result is not initialised.
  unfoldable pub read_int : Source → Option (Source × ℕ)
  read_int file =
      let (file', bytes) = fread file 4 in do number ← int_of_bytes bytes; some (file', number)

  -- `ReadData`, NULL (the inner `none`) where the file is too short.
  unfoldable pub read_data : Source → ℕ → Source × Option Bytes
  read_data file size =
      let (file', bytes) = fread file size in
      (file', if length bytes == size then some bytes else none)

  -- One round of `LoadDict`. `KH_CreateBlob` would copy from NULL.
  unfoldable pub load_pair : Bool → Source → Dict → Option (Source × Dict)
  unfolding read_int read_data
  load_pair alloc file dict = do
    (file1, key_len) ← read_int file
    let (file2, key_data) = read_data file1 key_len
    (file3, val_len) ← read_int file2
    let (file4, val_data) = read_data file3 val_len
    key ← key_data
    value ← val_data
    (_, dict') ← dict_set alloc dict (create_blob key) (create_blob value)
    some (file4, dict')

  unfoldable pub load_pairs : ℕ → Bool → Source → Dict → Option Dict
  unfolding load_pair
  load_pairs zero alloc file dict = some dict
  load_pairs (suc rounds) alloc file dict = do
    (file', dict') ← load_pair alloc file dict
    load_pairs rounds alloc file' dict'

  unfoldable pub load_dict : Bool → Disk → Dict → Bytes → Option (Dict × Bool)
  unfolding read_int load_pairs
  load_dict alloc disk dict path = elim (fopen_rb disk path) [
    | none ↦ some (dict, false)
    | some file ↦ do
      (file1, magic) ← read_int file
      let rest = (do
        (file2, count) ← read_int file1
        dict' ← load_pairs count alloc file2 dict
        some (dict', true))
      if not (magic == database_magic) then some (dict, false) else rest
  ]

  -- `GetDB`: the first use loads the file.
  unfoldable pub get_db : Bool → Disk → Bytes → Option Dict → Option Dict
  unfolding load_dict
  get_db alloc disk path (some database) = some database
  get_db alloc disk path none = do (dict, _) ← load_dict alloc disk create_dict path; some dict

-- "/database.kn".
abbrev database_name : Bytes
database_name =
    b'/' ∷ b'd' ∷ b'a' ∷ b't' ∷ b'a' ∷ b'b' ∷ b'a' ∷ b's' ∷ b'e' ∷ b'.' ∷ b'k' ∷ b'n' ∷ []

-- `KNDatabaseInit`: the path of the database, in the internal data path.
unfoldable pub database_init : Bytes → Bytes
unfolding c_string
database_init internal_path = c_string internal_path ++ database_name
