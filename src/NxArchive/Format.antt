-- ===== src/NxArchive/Format.antt =====
-- The format that the extractor of jni/nxarchive.c reads, and what an archive of it stands for.
use kn_shim.Base.{ℕ, ◌+◌, ◌^◌, ◌<◌, ◌≡◌, List, [], ◌∷◌, ◌++◌, length, none, some}
use kn_shim.Dict.Blob.{Bytes}
use kn_shim.Lua.{c_string}
use kn_shim.Memory.{int_bytes}
use kn_shim.NxArchive.{format_version, path_max}
use kn_shim.Stdio.{Stdio}

pub data Entry : Type 0 where
  file : Bytes → Bytes → Entry
  folder : Bytes → Entry

-- A name with its length and its NUL.
unfoldable pub encode_name : Bytes → Bytes → Bytes
encode_name name rest = int_bytes (length name + 1) ++ ((name ++ 0 ∷ []) ++ rest)

-- An entry in front of what follows it.
unfoldable pub encode_entry : Entry → Bytes → Bytes
unfolding encode_name
encode_entry (file name text) rest =
    int_bytes 200 ++ encode_name name (int_bytes (length text) ++ (text ++ rest))
encode_entry (folder name) rest = int_bytes 201 ++ encode_name name rest

unfoldable pub encode_entries : List Entry → Bytes
unfolding encode_entry
encode_entries [] = int_bytes 300
encode_entries (e ∷ es) = encode_entry e (encode_entries es)

unfoldable pub encode_archive : List Entry → Bytes
unfolding encode_entries
encode_archive es = int_bytes 100 ++ (int_bytes format_version ++ encode_entries es)

-- A name without a NUL, which fits behind a path; and contents whose size fits a number.
pub record Fits (prefix : ℕ) (name : Bytes) : Type 0 where
  pub no_nul : c_string (name ++ 0 ∷ []) ≡ name
  pub short : prefix + length name < path_max

pub data AllFit (prefix : ℕ) : List Entry → Type 0 where
  none_left : AllFit prefix []
  fit_file :
      {name text : Bytes} {es : List Entry}
      → Fits prefix name
      → length text < 2 ^ 32
      → AllFit prefix es
      → AllFit prefix (file name text ∷ es)
  fit_folder :
      {name : Bytes} {es : List Entry}
      → Fits prefix name
      → AllFit prefix es
      → AllFit prefix (folder name ∷ es)

module _ (io : Stdio) where
  open io use {Disk, fopen_wb, fwrite, fclose, mkdir}

  -- A file with a text: it is opened for writing, the text is written in one call, and it is
  -- closed. Where it cannot be opened nothing happens.
  unfoldable pub put_file : Bytes → Bytes → Disk → Disk
  put_file path text disk = elim (fopen_wb disk path) [
    | none ↦ disk
    | some f ↦ fclose disk (fwrite f text 1 (length text)).0
  ]

  -- What the entries stand for, below a path: files are written and folders made, in order.
  unfoldable pub unpack : Bytes → List Entry → Disk → Disk
  unpack path [] disk = disk
  unpack path (file name text ∷ es) disk = unpack path es (put_file (path ++ name) text disk)
  unpack path (folder name ∷ es) disk = unpack path es (mkdir disk (path ++ name)).0
