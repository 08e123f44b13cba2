-- ===== src/NxArchive.antt =====
-- The archive extractor of jni/nxarchive.c, for a 64-bit `size_t`.
-- `none` of the outer option is undefined behaviour (an access out of range), or a loop that has
-- not ended within its fuel. A pointer into the archive is its offset. A path is the text of the C
-- string in the buffer `tmp_path`; only its length against the size of the buffer matters beside.
pub mod Bounds
pub mod Steps
pub mod Total
pub mod Format
pub mod Reading
pub mod Room
pub mod Commands
pub mod Extract
use kn_shim.Base.{
  ℕ, zero, suc, ◌+◌, ◌-◌, ◌*◌, ◌%◌, ◌^◌, Bool, true, false, ◌||◌, not, Option, none, some, List, [],
  ◌∷◌, ◌++◌, length, get_elem?, take, drop, ltb, leb, ◌==◌, if◌then◌else◌, ◌>>=◌,
}
use kn_shim.Dict.Blob.{Bytes}
use kn_shim.Lua.{c_string}
use kn_shim.Memory.{int_of_bytes}
use kn_shim.Memory.Region.{slice}
use kn_shim.Stdio.{Stdio}

abbrev pub path_max : ℕ
path_max = 2048

abbrev pub format_version : ℕ
format_version = 0x584e0001

-- `size_t` addition and subtraction.
abbrev pub add_size : ℕ → ℕ → ℕ
add_size a b = (a + b) % 2 ^ 64

abbrev pub sub_size : ℕ → ℕ → ℕ
sub_size a b = (a + 2 ^ 64 - b) % 2 ^ 64

-- `none` for a nonzero error code.
unfoldable pub strcpy_s : ℕ → Bytes → Option Bytes
strcpy_s destsz src =
    if destsz == 0 then none else if ltb destsz (length src + 1) then none else some src

unfoldable pub strcat_s : Bytes → ℕ → Bytes → Option Bytes
strcat_s dest destsz src =
    if destsz == 0
    then none
    else if not (ltb (length dest) destsz)
    then none
    else if ltb destsz (length dest + length src + 1)
    then none
    else some (dest ++ src)

-- `NXArchiveExtractor`.
pub record Extractor : Type 0 where
  pub base : Bytes
  pub size : ℕ
  pub pos : ℕ

unfoldable pub from_buffer : ℕ → Bytes → Extractor
from_buffer size buf = record { base = buf; size = size; pos = 0 }

-- The inner `none` is the result 1. The only caller passes a buffer, so none is skipped.
unfoldable pub read_into_buf : Extractor → ℕ → Option (Option Bytes × Extractor)
unfolding slice
read_into_buf this size =
    let copied : Option (Option Bytes × Extractor) = (do
      bytes ← slice this.base this.pos size
      some (some bytes, record this { pos = add_size this.pos size })) in
    if ltb this.size (add_size this.pos size) then some (none, this) else copied

unfoldable pub get_pointer : Extractor → ℕ → Option ℕ × Extractor
get_pointer this size =
    if ltb (sub_size this.size this.pos) size
    then (none, this)
    else (some this.pos, record this { pos = add_size this.pos size })

unfoldable pub get_string_pointer : Extractor → ℕ → Option (Option ℕ × Extractor)
get_string_pointer this size =
    let tested : Option (Option ℕ × Extractor) = (do
      last ← get_elem? this.base (sub_size (add_size this.pos size) 1)
      some (
          if not (last == 0)
          then (none, this)
          else (some this.pos, record this { pos = add_size this.pos size }))) in
    if ltb (sub_size this.size this.pos) size then some (none, this) else tested

-- 0 past the end.
unfoldable pub read_int : Extractor → Option (ℕ × Extractor)
unfolding read_into_buf
read_int this = do
  (found, this') ← read_into_buf this 4
  elim found [
    | none ↦ some (0, this')
    | some bytes ↦ do number ← int_of_bytes bytes; some (number, this')
  ]

-- The strings that explain an error.
pub data NxError : Type 0 where
  strcpy_s_failed_for_location : NxError
  strcpy_s_failed_for_slash : NxError
  invalid_archive_format : NxError
  cannot_read_file_name : NxError
  cannot_append_file_name : NxError
  cannot_read_file_buffer : NxError
  cannot_read_dir_name : NxError
  cannot_append_dir_name : NxError
  invalid_command : NxError

module _ (io : Stdio) where
  open io use {Disk, Sink, fopen_wb, fwrite, fclose, mkdir}

  -- How many bytes were written is only logged.
  pub write_buf_to_file : Disk → Bytes → ℕ → Bytes → Disk
  write_buf_to_file disk filename size buf = elim (fopen_wb disk filename) [
    | none ↦ disk
    | some f ↦ fclose disk (fwrite f buf 1 size).0
  ]

  -- The extractor goes on, or returns: NULL or an error.
  pub data Progress : Type 0 where
    go_on : Extractor → Bytes → Disk → Progress
    return : Option NxError → Disk → Progress

  -- The name at the front of a file or a directory entry, appended to the path.
  pub read_name :
      NxError
      → NxError
      → Extractor
      → Bytes
      → Disk
      → (Extractor → Bytes → Option Progress)
      → Option Progress
  read_name no_name no_room this tmp_path disk continue' = do
    (name_size, this1) ← read_int this
    (name, this2) ← get_string_pointer this1 name_size
    elim name [
      | none ↦ some (return (some no_name) disk)
      | some at ↦
          if name_size == 0
          then some (return (some no_name) disk)
          else elim (strcat_s tmp_path path_max (c_string (take name_size (drop at this2.base)))) [
            | none ↦ some (return (some no_room) disk)
            | some path ↦ continue' this2 path
          ]
    ]

  -- `tmp_path[location_size + 1] = '\0'`.
  pub restore_path : ℕ → Bytes → Option Bytes
  restore_path location_size tmp_path =
      if ltb (location_size + 1) path_max then some (take (location_size + 1) tmp_path) else none

  pub start_command : Extractor → Bytes → Disk → Option Progress
  start_command this tmp_path disk = do
    (version, this1) ← read_int this
    some (
        if not (version == format_version)
        then return (some invalid_archive_format) disk
        else go_on this1 tmp_path disk)

  pub file_command : ℕ → Extractor → Bytes → Disk → Option Progress
  unfolding read_name write_buf_to_file restore_path
  file_command location_size this tmp_path disk =
      read_name cannot_read_file_name cannot_append_file_name this tmp_path disk λ this2 path. do
        (file_size, this3) ← read_int this2
        let (file_buf, this4) = get_pointer this3 file_size
        elim file_buf [
          | none ↦ some (return (some cannot_read_file_buffer) disk)
          | some at ↦ do
            bytes ← slice this4.base at file_size
            path' ← restore_path location_size path
            some (go_on this4 path' (write_buf_to_file disk path file_size bytes))
        ]

  pub dir_command : ℕ → Extractor → Bytes → Disk → Option Progress
  unfolding read_name restore_path
  dir_command location_size this tmp_path disk =
      read_name cannot_read_dir_name cannot_append_dir_name this tmp_path disk λ this2 path. do
        path' ← restore_path location_size path
        some (go_on this2 path' (mkdir disk path).0)

  -- The body of the loop.
  pub run_command : ℕ → Extractor → Bytes → Disk → Option Progress
  unfolding start_command file_command dir_command
  run_command location_size this tmp_path disk = do
    (cmd, this1) ← read_int this
    if cmd == 100
        then start_command this1 tmp_path disk
        else if cmd == 200
        then file_command location_size this1 tmp_path disk
        else if cmd == 201
        then dir_command location_size this1 tmp_path disk
        else some (return (if cmd == 300 then none else some invalid_command) disk)

  pub extract_loop : ℕ → ℕ → Extractor → Bytes → Disk → Option (Option NxError × Disk)
  extract_loop zero location_size this tmp_path disk = none
  extract_loop (suc fuel) location_size this tmp_path disk = do
    progress ← run_command location_size this tmp_path disk
    elim progress [
      | return error disk' ↦ some (error, disk')
      | go_on this' tmp_path' disk' ↦ extract_loop fuel location_size this' tmp_path' disk'
    ]

  pub extract_archive : ℕ → Extractor → Bytes → Disk → Option (Option NxError × Disk)
  unfolding extract_loop
  extract_archive fuel this location disk = elim (strcpy_s path_max location) [
    | none ↦ some (some strcpy_s_failed_for_location, disk)
    | some copied ↦ elim (strcat_s copied path_max (b'/' ∷ [])) [
      | none ↦ some (some strcpy_s_failed_for_slash, disk)
      | some tmp_path ↦ extract_loop fuel (length location) this tmp_path disk
    ]
  ]

  -- Each round reads a command of four bytes at least, or ends.
  pub extract_archive_from_buffer : Bytes → ℕ → Bytes → Disk → Option (Option NxError × Disk)
  unfolding extract_archive
  extract_archive_from_buffer location size buf disk =
      extract_archive (length buf + 1) (from_buffer size buf) location disk
