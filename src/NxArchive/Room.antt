-- ===== src/NxArchive/Room.antt =====
-- Lengths: of paths in their buffers, and of archives in the format.
use kn_shim.Base.{ℕ, ◌+◌, ◌≤◌, ◌<◌, ◌≡◌, some, List, [], ◌∷◌, ◌++◌, length, length-append, arith}
use kn_shim.Dict.Blob.{Bytes}
use kn_shim.Memory.{int_bytes, length-int_bytes}
use kn_shim.NxArchive.{format_version, strcpy_s, strcat_s}
use kn_shim.NxArchive.Format.{
  Entry, file, folder, encode_name, encode_entry, encode_entries, encode_archive,
}

pub strcat_s-fits :
    (dest src : Bytes) (n : ℕ)
    → length dest + length src < n
    → strcat_s dest n src ≡ some (dest ++ src)
unfolding strcat_s
strcat_s-fits dest src n h = ground arith

pub strcpy_s-fits : (n : ℕ) (src : Bytes) → length src < n → strcpy_s n src ≡ some src
unfolding strcpy_s
strcpy_s-fits n src h = ground arith

name-bounded : (name rest : Bytes) → length rest ≤ length (encode_name name rest)
unfolding encode_name
name-bounded name rest = omega (
  arith,
  length-append (int_bytes (length name + 1)) ((name ++ 0 ∷ []) ++ rest),
  length-append (name ++ 0 ∷ []) rest,
)

entries-bounded : (es : List Entry) → length es ≤ length (encode_entries es)
unfolding encode_entries encode_entry
entries-bounded [] = omega arith
entries-bounded (file name text ∷ es) =
    let rest = encode_name name (int_bytes (length text) ++ (text ++ encode_entries es)) in
    omega (
      arith,
      length-append (int_bytes 200) rest,
      length-int_bytes 200,
      name-bounded name (int_bytes (length text) ++ (text ++ encode_entries es)),
      length-append (int_bytes (length text)) (text ++ encode_entries es),
      length-append text (encode_entries es),
      entries-bounded es,
    )
entries-bounded (folder name ∷ es) = omega (
  arith,
  length-append (int_bytes 201) (encode_name name (encode_entries es)),
  length-int_bytes 201,
  name-bounded name (encode_entries es),
  entries-bounded es,
)

pub archive-bounded : (es : List Entry) → length es + 8 ≤ length (encode_archive es)
unfolding encode_archive
archive-bounded es = omega (
  arith,
  entries-bounded es,
  length-append (int_bytes 100) (int_bytes format_version ++ encode_entries es),
  length-append (int_bytes format_version) (encode_entries es),
  length-int_bytes 100,
  length-int_bytes format_version,
)
