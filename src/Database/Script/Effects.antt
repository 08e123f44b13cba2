-- ===== src/Database/Script/Effects.antt =====
-- What a change by a script does to the database in memory and to its file.
use Prim.Native.Nat.{max}
use kn_shim.Base.{
  ℕ, ◌+◌, ◌*◌, ◌≤◌, ◌^◌, ◌≡◌, refl, Bool, true, false, some, ltb, length, arith, Returns,
}
use kn_shim.Dict.Blob.{Bytes}
use kn_shim.Dict.Table.{Dict}
use kn_shim.Dict.Assoc.{Entries, assign, erase}
use kn_shim.Dict.Models.{Models}
use kn_shim.Dict.Refine.{dict_set-Models, dict_delete-kept}
use kn_shim.Lua.{Lua}
use kn_shim.Stdio.{Stdio, StdioLaws, IsReliable}
use kn_shim.Database.{get_db}
use kn_shim.Database.Save.{Saved, save_dict-Saved}
use kn_shim.Database.Script.{World, db_set, db_delete}

module _ (lua : Lua) (io : Stdio) (laws : StdioLaws io) (path : Bytes) where
  open lua use {gettop, tolstring, pushboolean}

  -- After a change the database in memory stands for `m`, in at most `most` slots, and the script
  -- is told whether the file holds `m` too; if not, the file is what it was.
  pub record Changed (before after : World lua io) (script : lua.State) (m : Entries) (most : ℕ)
      : Type 0 where
    pub held : Dict
    pub slots : held.data_alloced ≤ most
    pub kept : after.database ≡ some held
    pub models : Models m held
    pub stored : Bool
    pub told : after.script ≡ pushboolean script stored
    pub file : Saved io laws before.disk m path (after.disk, stored)

  -- Where no `fclose` fails: `knDbSet` with two strings, on a database that is or can be loaded, of
  -- at most 2 ^ 31 slots and where a resize has its memory: the entry is set in memory, and the
  -- result says whether the file has the entries.
  pub db_set-Changed :
      (sure : IsReliable io laws) (w : World lua io) (db : Dict) (m : Entries) (k v : Bytes)
      → get_db io true w.disk path w.database ≡ some db
      → Models m db
      → db.data_alloced ≤ 2 ^ 31
      → 2 ≤ gettop w.script
      → (tolstring w.script 1).1 ≡ some k
      → (tolstring (tolstring w.script 1).0 2).1 ≡ some v
      → Returns (db_set lua io true path w) λ r.
        (r.0 ≡ 1)
        × Changed w r.1
            (tolstring (tolstring w.script 1).0 2).0
            (assign k v m)
            (max db.data_alloced (8 + 4 * length m))
  unfolding db_set
  db_set-Changed sure w db m k v loaded models small two key value =
      let ((success, db'), run, (done, models', grown)) = dict_set-Models k v models small in
      let ((disk', stored), write, saved) =
        save_dict-Saved io laws sure w.disk db' path (assign k v m) models' in
      let test : ltb (gettop w.script) 2 ≡ false = ground arith in
      (
        (_, _),
        rw (test, key, value, loaded, run, done, write),
        (
          refl,
          record {
            held = db';
            slots = grown;
            kept = refl;
            models = models';
            stored = stored;
            told = refl;
            file = saved;
          },
        ),
      )

  -- Where no `fclose` fails: `knDbDelete` with a string, on a database that is or can be loaded:
  -- the entry is gone from memory, and the result says whether the file has the entries that are
  -- left.
  pub db_delete-Changed :
      (sure : IsReliable io laws) (w : World lua io) (db : Dict) (m : Entries) (k : Bytes)
      → get_db io true w.disk path w.database ≡ some db
      → Models m db
      → 1 ≤ gettop w.script
      → (tolstring w.script 1).1 ≡ some k
      → Returns
          (db_delete lua io true path w)
          λ r. (r.0 ≡ 1) × Changed w r.1 (tolstring w.script 1).0 (erase k m) db.data_alloced
  unfolding db_delete
  db_delete-Changed sure w db m k loaded models one key =
      let ((gone, db'), run, (_, models', same)) = dict_delete-kept k models in
      let ((disk', stored), write, saved) =
        save_dict-Saved io laws sure w.disk db' path (erase k m) models' in
      let test : ltb (gettop w.script) 1 ≡ false = ground arith in
      (
        (_, _),
        rw (test, key, loaded, run, write),
        (
          refl,
          record {
            held = db';
            slots = omega (arith, same);
            kept = refl;
            models = models';
            stored = stored;
            told = refl;
            file = saved;
          },
        ),
      )
