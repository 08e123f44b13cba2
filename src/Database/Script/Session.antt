-- ===== src/Database/Script/Session.antt =====
-- A whole session of the database: the script calls the four functions of jni/reg.c in any order,
-- while the disk may fail at any moment.
pub mod Runs
pub mod Whole
pub mod Restart
use kn_shim.Base.{ℕ, ◌≤◌, ◌^◌, ◌≡◌, true, false, Option, none, some, List, [], ◌∷◌, ◌>>=◌}
use kn_shim.Dict.Blob.{Bytes}
use kn_shim.Dict.Table.{Dict}
use kn_shim.Dict.Assoc.{Entries, find, assign, erase, is_some}
use kn_shim.Dict.Models.{Models}
use kn_shim.Lua.{Lua}
use kn_shim.Registry.Effects.{after1, after2}
use kn_shim.Stdio.{Stdio, StdioLaws}
use kn_shim.Database.{get_db}
use kn_shim.Database.Format.{encode}
use kn_shim.Database.Save.{HasEmpty}
use kn_shim.Database.Script.{Outcome, db_set, db_get, db_has, db_delete}

module _ (lua : Lua) (io : Stdio) (path : Bytes) where
  open lua use {State, gettop, tolstring, pushnil, pushboolean, pushlstring}
  open io use {Disk}

  -- A call by a script, with the strings that are its arguments.
  pub data DbCall : Type 0 where
    call_set : State → Bytes → Bytes → DbCall
    call_get : State → Bytes → DbCall
    call_has : State → Bytes → DbCall
    call_delete : State → Bytes → DbCall

  abbrev pub HasKey : State → Bytes → Type 0
  HasKey script k = (1 ≤ gettop script) × ((tolstring script 1).1 ≡ some k)

  abbrev pub HasArguments : DbCall → Type 0
  HasArguments (call_set script k v) =
      (2 ≤ gettop script)
      × ((tolstring script 1).1 ≡ some k)
      × ((tolstring (after1 lua script) 2).1 ≡ some v)
  HasArguments (call_get script k) = HasKey script k
  HasArguments (call_has script k) = HasKey script k
  HasArguments (call_delete script k) = HasKey script k

  abbrev pub AllHaveArguments : List DbCall → Type 0
  AllHaveArguments [] = Unit
  AllHaveArguments (call ∷ calls) = HasArguments call × AllHaveArguments calls

  unfoldable pub perform : DbCall → Disk → Option Dict → Outcome lua io true path
  perform (call_set script k v) disk database =
      db_set lua io true path (record { script = script; disk = disk; database = database })
  perform (call_get script k) disk database =
      db_get lua io true path (record { script = script; disk = disk; database = database })
  perform (call_has script k) disk database =
      db_has lua io true path (record { script = script; disk = disk; database = database })
  perform (call_delete script k) disk database =
      db_delete lua io true path (record { script = script; disk = disk; database = database })

  -- What each call leaves, and the disk and `gDatabase` at the end.
  unfoldable pub session :
      List DbCall → Disk → Option Dict → Option (List (ℕ × State) × Disk × Option Dict)
  unfolding perform
  session [] disk database = some ([], disk, database)
  session (call ∷ calls) disk database = do
    (count, w) ← perform call disk database
    (answers, disk', database') ← session calls w.disk w.database
    some ((count, w.script) ∷ answers, disk', database')

module _ (lua : Lua) (io : Stdio) (laws : StdioLaws io) (path : Bytes) where
  open lua use {State, pushnil, pushboolean, pushlstring}

  abbrev Call : Type 0
  Call = DbCall lua io path

  -- The entries in memory, and the contents of the file.
  abbrev pub Store : Type 0
  Store = Entries × Option Bytes

  -- What one call may leave and do: a change reaches memory, and the file holds either all entries,
  -- and the script is told so, or what it held before.
  pub data Step : Call → Store → ℕ × State → Store → Type 0 where
    set_stored :
        {script : State} {k v : Bytes} {m : Entries} {file file' : Option Bytes}
        → file' ≡ some (encode (assign k v m))
        → ¬ HasEmpty io laws (assign k v m)
        → Step
            (call_set script k v)
            (m, file)
            (1, pushboolean (after2 lua script) true)
            (assign k v m, file')
    set_lost :
        {script : State} {k v : Bytes} {m : Entries} {file file' : Option Bytes}
        → file' ≡ file
        → Step
            (call_set script k v)
            (m, file)
            (1, pushboolean (after2 lua script) false)
            (assign k v m, file')
    got :
        {script : State} {k : Bytes} {m : Entries} {file : Option Bytes}
        → Step
            (call_get script k)
            (m, file)
            (
              1,
              elim (find k m) [
                | none ↦ pushnil (after1 lua script)
                | some v ↦ pushlstring (after1 lua script) v
              ],
            )
            (m, file)
    had :
        {script : State} {k : Bytes} {m : Entries} {file : Option Bytes}
        → Step
            (call_has script k)
            (m, file)
            (1, pushboolean (after1 lua script) (is_some (find k m)))
            (m, file)
    delete_stored :
        {script : State} {k : Bytes} {m : Entries} {file file' : Option Bytes}
        → file' ≡ some (encode (erase k m))
        → ¬ HasEmpty io laws (erase k m)
        → Step
            (call_delete script k)
            (m, file)
            (1, pushboolean (after1 lua script) true)
            (erase k m, file')
    delete_lost :
        {script : State} {k : Bytes} {m : Entries} {file file' : Option Bytes}
        → file' ≡ file
        → Step
            (call_delete script k)
            (m, file)
            (1, pushboolean (after1 lua script) false)
            (erase k m, file')

  -- One step for each call, in order, with the list of what they leave.
  pub data Run : List Call → Store → List (ℕ × State) → Store → Type 0 where
    ended : {s : Store} → Run [] s [] s
    next :
        {call : Call} {calls : List Call} {s1 s2 s3 : Store} {answer : ℕ × State}
        {answers : List (ℕ × State)}
        → Step call s1 answer s2
        → Run calls s2 answers s3
        → Run (call ∷ calls) s1 (answer ∷ answers) s3

  -- The database is loaded, or its first use would load it, and stands for the entries.
  pub record Holds (m : Entries) (disk : io.Disk) (database : Option Dict) : Type 0 where
    pub held : Dict
    pub ready : get_db io true disk path database ≡ some held
    pub models : Models m held
    pub slots : held.data_alloced ≤ 2 ^ 31
