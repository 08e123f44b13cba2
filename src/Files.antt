-- ===== src/Files.antt =====
-- The script functions on files, of jni/files.c. They take the script's state and the disk, and
-- return how many values they leave for the script, and both.
pub mod Effects
use kn_shim.Base.{
  ℕ, Bool, true, false, not, Option, none, some, [], ltb, ◌==◌, if◌then◌else◌, length,
}
use kn_shim.Dict.Blob.{Bytes}
use kn_shim.Lua.{Lua, c_string}
use kn_shim.Stdio.{Stdio}

module _ (lua : Lua) (io : Stdio) where
  open lua use {State, gettop, tolstring, pushnil, pushboolean, pushlstring}
  open io use {Disk, fopen_wb, fwrite, fclose, fopen_rb, fsize, fread}

  abbrev pub FileReply : Type 0
  FileReply = ℕ × State × Disk

  unfoldable pub write_file : State → Disk → FileReply
  write_file script disk =
      if ltb (gettop script) 2
      then (0, script, disk)
      else (let (script1, path) = tolstring script 1 in
          let (script2, data') = tolstring script1 2 in
          elim path [
            | none ↦ (0, script2, disk)
            | some p ↦ elim data' [
              | none ↦ (0, script2, disk)
              | some bytes ↦ elim (fopen_wb disk (c_string p)) [
                | none ↦ (0, script2, disk)
                | some file ↦
                    let (file', written) = fwrite file bytes 1 (length bytes) in
                    (1, pushboolean script2 (written == length bytes), fclose disk file')
              ]
            ]
          ])

  -- `alloc` says whether the allocation of the contents succeeds. A short read leaves nil.
  pub read_file : Bool → State → Disk → FileReply
  read_file alloc script disk =
      if ltb (gettop script) 1
      then (0, script, disk)
      else (let (script1, path) = tolstring script 1 in
          elim path [
            | none ↦ (0, script1, disk)
            | some p ↦ elim (fopen_rb disk (c_string p)) [
              | none ↦ (0, script1, disk)
              | some file ↦
                  let contents = (fread file (fsize file)).1 in
                  if fsize file == 0
                  then (1, pushlstring script1 [], disk)
                  else if not alloc
                  then (0, script1, disk)
                  else if length contents == fsize file
                  then (1, pushlstring script1 contents, disk)
                  else (1, pushnil script1, disk)
            ]
          ])

  -- The guard asks for one argument only.
  pub rename_file : State → Disk → FileReply
  rename_file script disk =
      if ltb (gettop script) 1
      then (0, script, disk)
      else (let (script1, old_path) = tolstring script 1 in
          let (script2, new_path) = tolstring script1 2 in
          elim old_path [
            | none ↦ (0, script2, disk)
            | some old ↦ elim new_path [
              | none ↦ (0, script2, disk)
              | some new ↦
                  let (disk', success) = io.rename disk (c_string old) (c_string new) in
                  (1, pushboolean script2 success, disk')
            ]
          ])

  pub delete_file : State → Disk → FileReply
  delete_file script disk =
      if ltb (gettop script) 1
      then (0, script, disk)
      else (let (script1, path) = tolstring script 1 in
          elim path [
            | none ↦ (0, script1, disk)
            | some p ↦
                let (disk', success) = io.remove disk (c_string p) in
                (1, pushboolean script1 success, disk')
          ])

  pub is_file : State → Disk → FileReply
  is_file script disk =
      if ltb (gettop script) 1
      then (0, script, disk)
      else (let (script1, path) = tolstring script 1 in
          elim path [
            | none ↦ (0, script1, disk)
            | some p ↦ elim (fopen_rb disk (c_string p)) [
              | none ↦ (1, pushboolean script1 false, disk)
              | some f ↦ (1, pushboolean script1 true, disk)
            ]
          ])

  -- Without a name the result is false.
  pub make_dir : State → Disk → FileReply
  make_dir script disk =
      if ltb (gettop script) 1
      then (0, script, disk)
      else (let (script1, dirname) = tolstring script 1 in
          elim dirname [
            | none ↦ (1, pushboolean script1 false, disk)
            | some name ↦
                let (disk', success) = io.mkdir disk (c_string name) in
                (1, pushboolean script1 success, disk')
          ])
