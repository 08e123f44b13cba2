-- ===== src/Tests/Archives.antt =====
-- An archive, extracted from memory and from a response.
use kn_shim.Base.{◌≡◌, ◌<◌, ◌^◌, refl, none, some, List, [], ◌∷◌, length, arith}
use kn_shim.Dict.Blob.{Bytes}
use kn_shim.Http.{HttpLib}
use kn_shim.Http.Handlers.{HttpWorld}
use kn_shim.Lua.{c_string}
use kn_shim.Memory.{int_bytes}
use kn_shim.NxArchive.{extract_archive_from_buffer}
use kn_shim.NxArchive.Format.{
  Entry, file, folder, encode_archive, AllFit, none_left, fit_file, fit_folder, unpack,
}
use kn_shim.NxArchive.Extract.{extract_archive-encode_archive}
use kn_shim.Tests.Machine.{Stack, string, userdata, Files, test_lua, test_io, test_http}

-- A folder "d", and the file "d/f".
abbrev entries : List Entry
entries = folder (b'd' ∷ []) ∷ file (b'd' ∷ b'/' ∷ b'f' ∷ []) (b'h' ∷ b'i' ∷ []) ∷ []

entries-AllFit : AllFit 2 entries
unfolding c_string
entries-AllFit =
    fit_folder (record { no_nul = refl; short = omega arith })
      (fit_file (record { no_nul = refl; short = omega arith }) (omega arith) none_left)

archive-small : length (encode_archive entries) < 2 ^ 63
unfolding encode_archive int_bytes
archive-small = omega arith

abbrev location : Bytes
location = b'x' ∷ []

abbrev no_files : Files
no_files p = none

extract_archive-encode_archive_example :
    extract_archive_from_buffer test_io location
      (length (encode_archive entries))
      (encode_archive entries)
      no_files
    ≡ some (none, unpack test_io (b'x' ∷ b'/' ∷ []) entries no_files)
extract_archive-encode_archive_example =
    extract_archive-encode_archive test_io location entries no_files (omega arith) entries-AllFit
      archive-small

-- Every response is the archive.
abbrev archive_http : HttpLib
archive_http = record test_http {
  response_data = λ n r. encode_archive entries;
  response_size = λ n r. length (encode_archive entries);
}

abbrev extracting : Stack
extracting = userdata 0 ∷ string location ∷ []

abbrev world : HttpWorld test_lua archive_http
world = record { script = extracting; net = 1; blocks = some 0 ∷ [] }
