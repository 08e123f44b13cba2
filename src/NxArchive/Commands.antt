-- ===== src/NxArchive/Commands.antt =====
-- One command of an archive in the format, of jni/nxarchive.c.
use kn_shim.Base.{
  ℕ, ◌+◌, ◌<◌, ◌^◌, ◌≡◌, refl, ap, ◌∙◌, false, Option, none, some, [], ◌∷◌, ◌++◌, length,
  length-append, take, drop, take-length_append, ◌==◌, arith, ◌>>=◌,
}
use kn_shim.Dict.Blob.{Bytes}
use kn_shim.Lua.{c_string}
use kn_shim.Memory.{int_bytes}
use kn_shim.NxArchive.{
  Extractor, path_max, NxError, invalid_command, Progress, go_on, write_buf_to_file, read_name,
  file_command, dir_command, run_command,
}
use kn_shim.NxArchive.Format.{file, folder, encode_name, encode_entry, Fits, put_file}
use kn_shim.NxArchive.Reading.{
  At, moved_on, At-moved, slice-At, read_int-At, get_pointer-At, get_string_pointer-At,
}
use kn_shim.NxArchive.Steps.{restore_path_lem}
use kn_shim.Stdio.{Stdio}
use kn_shim.NxArchive.Room.{strcat_s-fits}

module _ (io : Stdio) where
  open io use {Disk, mkdir}

  -- Past a name with its length.
  pub after_name : Extractor → Bytes → Extractor
  after_name this name = moved_on (moved_on this 4) (length name + 1)

  read_name-At :
      {this : Extractor} (no_name no_room : NxError) (tmp_path name rest : Bytes) (disk : Disk)
      (next : Extractor → Bytes → Option (Progress io))
      → Fits (length tmp_path) name
      → At this (encode_name name rest)
      → (read_name io no_name no_room this tmp_path disk next
          ≡ next (after_name this name) (tmp_path ++ name))
        × At (after_name this name) rest
  unfolding read_name encode_name after_name
  read_name-At {this} no_name no_room tmp_path name rest disk next f a =
      let size : length (name ++ 0 ∷ []) ≡ length name + 1 = length-append name (0 ∷ []) in
      let (number, a1) =
        read_int-At (length name + 1) ((name ++ 0 ∷ []) ++ rest) (omega (arith, f.short)) a in
      let text = get_string_pointer-At name rest a1 in
      let nonzero : (length name + 1 == 0) ≡ false = ground arith in
      let cut : c_string (take (length name + 1) (drop (moved_on this 4).pos this.base)) ≡ name =
        rw (a1.ahead, ← size) (ap c_string (take-length_append (name ++ 0 ∷ []) rest) ∙ f.no_nul) in
      (
        rw (number, ◌>>=◌, text, ◌>>=◌, nonzero, cut, strcat_s-fits tmp_path name path_max f.short)
            refl,
        rw size at (At-moved (name ++ 0 ∷ []) rest a1),
      )

  module _ (location_size : ℕ) (tmp_path : Bytes) (long : length tmp_path ≡ location_size + 1)
      (short : length tmp_path < path_max) where
    folder_command :
        {this : Extractor} (name rest : Bytes) (disk : Disk)
        → Fits (length tmp_path) name
        → At this (encode_name name rest)
        → dir_command io location_size this tmp_path disk
          ≡ some (go_on (after_name this name) tmp_path (mkdir disk (tmp_path ++ name)).0)
    unfolding dir_command
    folder_command name rest disk f a =
        (read_name-At _ _ tmp_path name rest disk _ f a).0
        ∙ rw (restore_path_lem io location_size tmp_path name long short) refl

    -- Past a name, and contents with their length.
    pub after_file : Extractor → Bytes → Bytes → Extractor
    after_file this name text = moved_on (moved_on (after_name this name) 4) (length text)

    file_command-At :
        {this : Extractor} (name text rest : Bytes) (disk : Disk)
        → Fits (length tmp_path) name
        → length text < 2 ^ 32
        → At this (encode_name name (int_bytes (length text) ++ (text ++ rest)))
        → (file_command io location_size this tmp_path disk
            ≡ some (
                go_on
                  (after_file this name text)
                  tmp_path
                  (put_file io (tmp_path ++ name) text disk)))
          × At (after_file this name text) rest
    unfolding file_command after_file after_name write_buf_to_file put_file
    file_command-At {this} name text rest disk f small a =
        let (named, a1) = read_name-At {this = this} _ _ tmp_path name _ disk _ f a in
        let (number, a2) = read_int-At (length text) (text ++ rest) small a1 in
        let buffer = get_pointer-At text rest a2 in
        let copied = slice-At text rest a2 in
        (
          named
              ∙ rw
                  (
                    number,
                    ◌>>=◌,
                    buffer,
                    ap (λ r. r.1) buffer,
                    copied,
                    restore_path_lem io location_size tmp_path name long short,
                  )
                  refl,
          At-moved text rest a2,
        )

    pub run_folder :
        {this : Extractor} (name rest : Bytes) (disk : Disk)
        → Fits (length tmp_path) name
        → At this (encode_entry (folder name) rest)
        → (run_command io location_size this tmp_path disk
            ≡ some (
                go_on
                  (after_name (moved_on this 4) name)
                  tmp_path
                  (mkdir disk (tmp_path ++ name)).0))
          × At (after_name (moved_on this 4) name) rest
    unfolding run_command encode_entry
    run_folder {this} name rest disk f a =
        let (number, a1) = read_int-At 201 (encode_name name rest) (omega arith) a in
        (
          rw (number, ◌>>=◌) (folder_command name rest disk f a1),
          (read_name-At {this = moved_on this 4} invalid_command invalid_command tmp_path name rest
              disk (λ t p. none) f a1).1,
        )

    pub run_file :
        {this : Extractor} (name text rest : Bytes) (disk : Disk)
        → Fits (length tmp_path) name
        → length text < 2 ^ 32
        → At this (encode_entry (file name text) rest)
        → (run_command io location_size this tmp_path disk
            ≡ some (
                go_on
                  (after_file (moved_on this 4) name text)
                  tmp_path
                  (put_file io (tmp_path ++ name) text disk)))
          × At (after_file (moved_on this 4) name text) rest
    unfolding run_command encode_entry
    run_file {this} name text rest disk f small a =
        let (number, a1) =
          read_int-At 200 (encode_name name (int_bytes (length text) ++ (text ++ rest)))
            (omega arith) a in
        let (ran, a2) = file_command-At {this = moved_on this 4} name text rest disk f small a1 in
        (rw (number, ◌>>=◌) ran, a2)
