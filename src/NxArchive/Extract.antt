-- ===== src/NxArchive/Extract.antt =====
-- The extractor of jni/nxarchive.c on archives in the format.
use kn_shim.Base.{
  ℕ, zero, suc, ◌+◌, ◌<◌, ◌^◌, ◌≡◌, refl, none, some, List, [], ◌∷◌, ◌++◌, append-nil, length,
  length-append, arith, ◌>>=◌,
}
use kn_shim.Dict.Blob.{Bytes}
use kn_shim.Memory.{int_bytes}
use kn_shim.NxArchive.{
  Extractor, path_max, format_version, from_buffer, start_command, run_command, extract_loop,
  extract_archive, extract_archive_from_buffer,
}
use kn_shim.NxArchive.Bounds.{from_buffer-InBounds}
use kn_shim.NxArchive.Format.{
  Entry, file, folder, encode_entries, encode_archive, AllFit, none_left, fit_file, fit_folder,
  unpack,
}
use kn_shim.NxArchive.Reading.{At, moved_on, read_int-At}
use kn_shim.Stdio.{Stdio}
use kn_shim.NxArchive.Room.{strcat_s-fits, strcpy_s-fits, archive-bounded}
use kn_shim.NxArchive.Commands.{run_folder, run_file}

module _ (io : Stdio) where
  open io use {Disk, mkdir}

  module _ (location_size : ℕ) (tmp_path : Bytes) (long : length tmp_path ≡ location_size + 1)
      (short : length tmp_path < path_max) where
    extract_loop-unpack :
        (fuel : ℕ) {this : Extractor} {es : List Entry} (disk : Disk)
        → AllFit (length tmp_path) es
        → At this (encode_entries es)
        → length es < fuel
        → extract_loop io fuel location_size this tmp_path disk
          ≡ some (none, unpack io tmp_path es disk)
    unfolding extract_loop encode_entries unpack run_command
    extract_loop-unpack zero disk fits a h = absurd (omega arith)
    extract_loop-unpack (suc fuel) {this} disk none_left a h =
        let (number, _) =
          read_int-At {this = this} 300 [] (omega arith) (rw (append-nil (int_bytes 300)) a) in
        rw (run_command, number) refl
    extract_loop-unpack (suc fuel) {this} {es = file name text ∷ es} disk (fit_file f small fits) a
          h =
        let (ran, a') =
          run_file io location_size tmp_path long short name text (encode_entries es) disk f small
            a in
        rw ran (extract_loop-unpack fuel _ fits a' (omega arith))
    extract_loop-unpack (suc fuel) {this} {es = folder name ∷ es} disk (fit_folder f fits) a h =
        let (ran, a') =
          run_folder io location_size tmp_path long short name (encode_entries es) disk f a in
        rw ran (extract_loop-unpack fuel _ fits a' (omega arith))

  extract_loop-archive :
      (fuel location_size : ℕ) (tmp_path : Bytes) {this : Extractor} {es : List Entry} (disk : Disk)
      → length tmp_path ≡ location_size + 1
      → length tmp_path < path_max
      → AllFit (length tmp_path) es
      → At this (encode_archive es)
      → length es + 1 < fuel
      → extract_loop io fuel location_size this tmp_path disk
        ≡ some (none, unpack io tmp_path es disk)
  unfolding extract_loop run_command start_command encode_archive
  extract_loop-archive zero location_size tmp_path disk long short fits a h = absurd (omega arith)
  extract_loop-archive (suc fuel) location_size tmp_path {this} {es} disk long short fits a h =
      let (command, a1) =
        read_int-At {this = this} 100 (int_bytes format_version ++ encode_entries es) (omega arith)
          a in
      let (version, a2) =
        read_int-At {this = moved_on this 4} format_version (encode_entries es) (omega arith) a1 in
      rw (command, ◌>>=◌, version)
        (extract_loop-unpack location_size tmp_path long short fuel disk fits a2 (omega arith))

  -- The extractor gives back what an archive in its format was made of: where the location, with a
  -- slash, leaves room for every name in the path's buffer, names have no NUL, and sizes fit their
  -- numbers, it returns no error, and the disk is the one after writing the files and making the
  -- folders below the location, in their order.
  pub extract_archive-encode_archive :
      (location : Bytes) (es : List Entry) (disk : Disk)
      → length location + 1 < path_max
      → AllFit (length location + 1) es
      → length (encode_archive es) < 2 ^ 63
      → extract_archive_from_buffer io location
          (length (encode_archive es))
          (encode_archive es)
          disk
        ≡ some (none, unpack io (location ++ b'/' ∷ []) es disk)
  unfolding extract_archive_from_buffer from_buffer
  extract_archive-encode_archive location es disk room fits small =
      let tmp_path = location ++ b'/' ∷ [] in
      let long : length tmp_path ≡ length location + 1 = length-append location (b'/' ∷ []) in
      let start = from_buffer (length (encode_archive es)) (encode_archive es) in
      let a : At start (encode_archive es) = record {
        bounds = from_buffer-InBounds (encode_archive es) small;
        ahead = refl;
      } in
      let run =
        extract_loop-archive (length (encode_archive es) + 1) (length location) tmp_path disk long
          (omega arith) (rw long fits) a (omega (arith, archive-bounded es)) in
      rw
        (
          extract_archive,
          strcpy_s-fits path_max location (omega arith),
          strcat_s-fits location (b'/' ∷ []) path_max (omega arith),
        )
        run
