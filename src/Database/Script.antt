-- ===== src/Database/Script.antt =====
-- The script functions of the database, of jni/reg.c: they load the database on first use, and
-- write it back after each change.
pub mod Effects
pub mod Session
use kn_shim.Base.{ℕ, Bool, true, false, Option, none, some, ltb, if◌then◌else◌, ◌>>=◌}
use kn_shim.Dict.Blob.{Bytes, create_blob}
use kn_shim.Dict.Table.{Dict, dict_set, dict_get, dict_has, dict_delete}
use kn_shim.Lua.{Lua}
use kn_shim.Stdio.{Stdio}
use kn_shim.Database.{save_dict, get_db}

-- Beside the script's state: the disk and the global `gDatabase`.
pub record World (lua : Lua) (io : Stdio) : Type 0 where
  pub script : lua.State
  pub disk : io.Disk
  pub database : Option Dict

-- `alloc` says whether the allocations of a resize succeed, and `path` is `gDatabasePath`.
module _ (lua : Lua) (io : Stdio) (alloc : Bool) (path : Bytes) where
  open lua use {gettop, tolstring, pushnil, pushboolean, pushlstring}

  abbrev pub Outcome : Type 0
  Outcome = Option (ℕ × World lua io)

  abbrev pub nil_result : World lua io → Outcome
  nil_result w = some (1, record w { script = pushnil w.script })

  -- The common part of the handlers with a value: the change, then the save.
  unfoldable pub set_and_save : World lua io → Bytes → Bytes → Outcome
  set_and_save w key value = do
    db ← get_db io alloc w.disk path w.database
    (success, db') ← dict_set alloc db (create_blob key) (create_blob value)
    let failed : Outcome =
        some (1, record { script = pushboolean w.script false; disk = w.disk; database = some db' })
    let saved : Outcome = (do
      (disk', stored) ← save_dict io w.disk db' path
      some (1, record { script = pushboolean w.script stored; disk = disk'; database = some db' }))
    if success then saved else failed

  unfoldable pub db_set : World lua io → Outcome
  unfolding set_and_save
  db_set w =
      if ltb (gettop w.script) 2
      then nil_result w
      else (let (script1, key) = tolstring w.script 1 in
          let (script2, value) = tolstring script1 2 in
          elim key [
            | none ↦ nil_result (record w { script = script2 })
            | some k ↦ elim value [
              | none ↦ nil_result (record w { script = script2 })
              | some v ↦ set_and_save (record w { script = script2 }) k v
            ]
          ])

  unfoldable pub db_get : World lua io → Outcome
  db_get w =
      if ltb (gettop w.script) 1
      then nil_result w
      else (let (script1, key) = tolstring w.script 1 in
          elim key [
            | none ↦ nil_result (record w { script = script1 })
            | some k ↦ do
              db ← get_db io alloc w.disk path w.database
              found ← dict_get db (create_blob k)
              elim found [
                | none ↦
                    some (1, record { script = pushnil script1; disk = w.disk; database = some db })
                | some v ↦ some (
                  1,
                  record {
                    script = pushlstring script1 v.bytes;
                    disk = w.disk;
                    database = some db;
                  },
                )
              ]
          ])

  pub db_has : World lua io → Outcome
  db_has w =
      if ltb (gettop w.script) 1
      then nil_result w
      else (let (script1, key) = tolstring w.script 1 in
          elim key [
            | none ↦ nil_result (record w { script = script1 })
            | some k ↦ do
              db ← get_db io alloc w.disk path w.database
              found ← dict_has db (create_blob k)
              some (
                1,
                record { script = pushboolean script1 found; disk = w.disk; database = some db },
              )
          ])

  pub db_delete : World lua io → Outcome
  db_delete w =
      if ltb (gettop w.script) 1
      then some (0, w)
      else (let (script1, key) = tolstring w.script 1 in
          elim key [
            | none ↦ some (0, record w { script = script1 })
            | some k ↦ do
              db ← get_db io alloc w.disk path w.database
              (_, db') ← dict_delete db (create_blob k)
              (disk', stored) ← save_dict io w.disk db' path
              some (
                1,
                record { script = pushboolean script1 stored; disk = disk'; database = some db' },
              )
          ])
