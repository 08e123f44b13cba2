-- ===== src/Database/Script/Session/Runs.antt =====
-- Sessions of the database of jni/reg.c as runs of the abstract store.
use kn_shim.Base.{
  ◌⊎◌, ◌+◌, ◌-◌, ◌≤◌, ◌<◌, ◌^◌, ◌≡◌, refl, ap, ◌∙◌, ℕ, true, false, Option, some, inl, inr, List,
  [], ◌∷◌, length, ltb, arith, Option-cases, Returns,
}
use kn_shim.Dict.Blob.{Bytes, create_blob}
use kn_shim.Dict.Table.{Dict}
use kn_shim.Dict.Assoc.{Entries, find, assign, erase, length-assign-le, length-erase-le}
use kn_shim.Dict.Refine.{dict_get-find, dict_has-find}
use kn_shim.Lua.{Lua}
use kn_shim.Stdio.{Stdio, StdioLaws, IsReliable}
use kn_shim.Database.{get_db}
use kn_shim.Database.Format.{encode}
use kn_shim.Database.Save.{HasEmpty}
use kn_shim.Database.Script.{World, db_get, db_has}
use kn_shim.Database.Script.Effects.{Changed, db_set-Changed, db_delete-Changed}
use kn_shim.Database.Script.Session.{
  DbCall, call_set, call_get, call_has, call_delete, HasArguments, AllHaveArguments, perform,
  session, Step, set_stored, set_lost, got, had, delete_stored, delete_lost, Run, ended, next,
  Holds,
}

module _ (lua : Lua) (io : Stdio) (laws : StdioLaws io) (path : Bytes)
    (sure : IsReliable io laws) where
  open lua use {State, gettop, pushboolean}
  open io use {Disk}
  open laws use {contents}

  kept_ready : (disk : Disk) (dict : Dict) → get_db io true disk path (some dict) ≡ some dict
  unfolding get_db
  kept_ready disk dict = refl

  Holds-kept :
      {m : Entries} {disk : Disk} {database : Option Dict}
      → (h : Holds lua io laws path m disk database) → Holds lua io laws path m disk (some h.held)
  Holds-kept {disk = disk} h = record {
    held = h.held;
    ready = kept_ready disk h.held;
    models = h.models;
    slots = h.slots;
  }

  Changed-Holds :
      {before after : World lua io} {script : State} {m : Entries} {most : ℕ}
      → Changed lua io laws path before after script m most
      → most ≤ 2 ^ 31
      → Holds lua io laws path m after.disk after.database
  Changed-Holds {after = after} c few = record {
    held = c.held;
    ready = rw c.kept (kept_ready after.disk c.held);
    models = c.models;
    slots = omega (arith, c.slots);
  }

  -- The two ways a change can end.
  Changed-cases :
      {before after : World lua io} {script : State} {m : Entries} {most : ℕ}
      → Changed lua io laws path before after script m most
      → ((after.script ≡ pushboolean script true)
          × (contents after.disk path ≡ some (encode m))
          × (¬ HasEmpty io laws m))
        ⊎ ((after.script ≡ pushboolean script false)
            × (contents after.disk path ≡ contents before.disk path))
  Changed-cases {script = script} c = elim c.file [
    | inl (stored, file, none_empty) ↦
        inl (c.told ∙ ap (pushboolean script) stored, file, none_empty)
    | inr (lost, same) ↦ inr (c.told ∙ ap (pushboolean script) lost, same)
  ]

  perform-Step :
      (call : DbCall lua io path) (m : Entries) (disk : Disk) (database : Option Dict)
      → HasArguments lua io path call
      → length m < 2 ^ 29 - 2
      → Holds lua io laws path m disk database
      → Returns (perform lua io path call disk database) λ r.
        (m' : Entries) × Step lua io laws path call
          (m, contents disk path)
          (r.0, r.1.script)
          (m', contents r.1.disk path)
        × Holds lua io laws path m' r.1.disk r.1.database
        × (length m' ≤ length m + 1)
  unfolding perform db_get db_has create_blob
  perform-Step (call_get script k) m disk database (one, key) few h =
      let test : ltb (gettop script) 1 ≡ false = ground arith in
      (
        (1, record { script = _; disk = disk; database = some h.held }),
        rw (test, key, h.ready, dict_get-find k h.models)
            (elim (Option-cases (find k m)) [ inl e ↦ rw e | inr (v, e) ↦ rw e ]),
        (m, got, Holds-kept h, omega arith),
      )
  perform-Step (call_has script k) m disk database (one, key) few h =
      let test : ltb (gettop script) 1 ≡ false = ground arith in
      (
        (_, _),
        rw (test, key, h.ready, dict_has-find k h.models),
        (m, had, Holds-kept h, omega arith),
      )
  perform-Step (call_set script k v) m disk database (two, key, value) few h =
      let w : World lua io = record { script = script; disk = disk; database = database } in
      let (r, run, (one, changed)) =
        db_set-Changed lua io laws path sure w h.held m k v h.ready h.models h.slots two key
          value in
      (
        r,
        run,
        (
          assign k v m,
          elim (Changed-cases changed) [
            | inl (told, file, none_empty) ↦ rw (one, told) (set_stored file none_empty)
            | inr (told, same) ↦ rw (one, told) (set_lost same)
          ],
          Changed-Holds changed (omega (arith, h.slots)),
          length-assign-le k v m,
        ),
      )
  perform-Step (call_delete script k) m disk database (one, key) few h =
      let w : World lua io = record { script = script; disk = disk; database = database } in
      let (r, run, (count, changed)) =
        db_delete-Changed lua io laws path sure w h.held m k h.ready h.models one key in
      (
        r,
        run,
        (
          erase k m,
          elim (Changed-cases changed) [
            | inl (told, file, none_empty) ↦ rw (count, told) (delete_stored file none_empty)
            | inr (told, same) ↦ rw (count, told) (delete_lost same)
          ],
          Changed-Holds changed h.slots,
          omega (arith, length-erase-le k m),
        ),
      )

  -- Whatever calls scripts make, with string arguments, on a database that is loaded or that its
  -- first use loads, with the memory for every resize and room for all entries, and wherever an
  -- `fopen`, an `fwrite` or a `rename` fails, but no `fclose`: the session is a run of the store.
  -- Each look-up answers what an association list would, each change reaches the table, and the
  -- file holds all entries of the moment of the last change that left `true`, or what it held at
  -- first where none did.
  pub session-Run :
      (calls : List (DbCall lua io path)) (m : Entries) (disk : Disk) (database : Option Dict)
      → AllHaveArguments lua io path calls
      → length m + length calls ≤ 2 ^ 29 - 2
      → Holds lua io laws path m disk database
      → Returns (session lua io path calls disk database) λ r.
        (m' : Entries) × Run lua io laws path calls
          (m, contents disk path)
          r.0
          (m', contents r.1 path)
        × Holds lua io laws path m' r.1 r.2
  unfolding session
  session-Run [] m disk database given few h = (([], disk, database), refl, (m, ended, h))
  session-Run (call ∷ calls) m disk database given few h =
      let (r, run, (m1, step, h1, longer)) =
        perform-Step call m disk database given.0 (omega arith) h in
      let ((answers, disk', database'), rest, (m2, steps, h2)) =
        session-Run calls m1 r.1.disk r.1.database given.1 (omega arith) h1 in
      (
        ((r.0, r.1.script) ∷ answers, disk', database'),
        rw (run, rest) refl,
        (m2, next step steps, h2),
      )
