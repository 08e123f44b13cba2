-- ===== src/Registry/Effects.antt =====
-- What each registry function does to the entries that the registry holds, and what it leaves on
-- the script's stack.
use Prim.Native.Nat.{max}
use mathlib.Core.Option
use kn_shim.Base.{
  ℕ, ◌+◌, ◌*◌, ◌≤◌, ◌<◌, ◌^◌, ◌≡◌, refl, sym, ap, ◌∙◌, inl, inr, true, false, Option, none, some,
  [], ◌∷◌, ◌++◌, append_assoc, length, length-append, ltb, arith, Option-cases, Returns,
}
use kn_shim.Dict.Blob.{Bytes, create_blob}
use kn_shim.Dict.Table.{Dict}
use kn_shim.Dict.Assoc.{Entries, find, assign, erase, is_some, key_at}
use kn_shim.Dict.Models.{Models, create_dict-Models}
use kn_shim.Dict.Refine.{
  dict_set-Models, dict_get-find, dict_has-find, dict_delete-kept, dict_iter-Models,
}
use kn_shim.Dict.Cells.{key_at-length_append}
use kn_shim.Lua.{Lua}
use kn_shim.Registry.{
  get_reg, reg_set, reg_get, reg_has, reg_delete, reg_count, push_keys, reg_keys,
}

-- The registry holds the entries; one that was never used holds none.
abbrev pub RegistryModels : Entries → Option Dict → Type 0
RegistryModels m registry = Models m (get_reg registry)

pub unused-RegistryModels : RegistryModels [] none
unfolding get_reg
unused-RegistryModels = create_dict-Models

bytes-create_blob : (b : Bytes) → (create_blob b).bytes ≡ b
unfolding create_blob
bytes-create_blob b = refl

module _ (lua : Lua) where
  open lua use {
    State, gettop, tolstring, pushnil, pushboolean, pushinteger, pushlstring, createtable, settable,
  }

  -- The state after the conversion of the first argument, and of both.
  abbrev pub after1 : State → State
  after1 script = (tolstring script 1).0

  abbrev pub after2 : State → State
  after2 script = (tolstring (after1 script) 2).0

  -- With two strings as arguments, on a registry of at most 2 ^ 31 slots and where a resize has its
  -- memory, `knRegSet` stores the value under the key and leaves `true`; the slots grow at most to
  -- four for each entry and eight.
  pub reg_set-assign :
      (script : State) (registry : Option Dict) (m : Entries) (k v : Bytes)
      → RegistryModels m registry
      → (get_reg registry).data_alloced ≤ 2 ^ 31
      → 2 ≤ gettop script
      → (tolstring script 1).1 ≡ some k
      → (tolstring (after1 script) 2).1 ≡ some v
      → Returns (reg_set lua true script registry) λ r.
        (r.0 ≡ 1)
        × (r.1 ≡ pushboolean (after2 script) true)
        × RegistryModels (assign k v m) r.2
        × ((get_reg r.2).data_alloced ≤ max (get_reg registry).data_alloced (8 + 4 * length m))
  unfolding reg_set get_reg
  reg_set-assign script registry m k v models small two key value =
      let ((success, dict), run, (done, models', grown)) = dict_set-Models k v models small in
      let test : ltb (gettop script) 2 ≡ false = ground arith in
      (
        (1, pushboolean (after2 script) success, some dict),
        rw (test, key, value, run),
        (refl, ap (pushboolean (after2 script)) done, models', grown),
      )

  -- With a string as its argument `knRegGet` leaves the value under the key, or nil where there is
  -- none, and the registry holds what it held.
  pub reg_get-find :
      (script : State) (registry : Option Dict) (m : Entries) (k : Bytes)
      → RegistryModels m registry
      → 1 ≤ gettop script
      → (tolstring script 1).1 ≡ some k
      → reg_get lua script registry
        ≡ some (
          1,
          elim (find k m) [
            | none ↦ pushnil (after1 script)
            | some v ↦ pushlstring (after1 script) v
          ],
          some (get_reg registry),
        )
  unfolding reg_get Option.map
  reg_get-find script registry m k models one key =
      let test : ltb (gettop script) 1 ≡ false = ground arith in
      rw (test, key, dict_get-find k models)
        (elim (Option-cases (find k m)) [ inl e ↦ rw e | inr (v, e) ↦ rw (e, bytes-create_blob v) ])

  -- With a string as its argument `knRegHas` says whether the key is there.
  pub reg_has-find :
      (script : State) (registry : Option Dict) (m : Entries) (k : Bytes)
      → RegistryModels m registry
      → 1 ≤ gettop script
      → (tolstring script 1).1 ≡ some k
      → reg_has lua script registry
        ≡ some (1, pushboolean (after1 script) (is_some (find k m)), some (get_reg registry))
  unfolding reg_has
  reg_has-find script registry m k models one key =
      let test : ltb (gettop script) 1 ≡ false = ground arith in
      rw (test, key, dict_has-find k models)

  -- With a string as its argument `knRegDelete` takes the key out and leaves nothing; the number of
  -- slots stays.
  pub reg_delete-erase :
      (script : State) (registry : Option Dict) (m : Entries) (k : Bytes)
      → RegistryModels m registry
      → 1 ≤ gettop script
      → (tolstring script 1).1 ≡ some k
      → Returns (reg_delete lua script registry) λ r.
        (r.0 ≡ 0)
        × (r.1 ≡ after1 script)
        × RegistryModels (erase k m) r.2
        × ((get_reg r.2).data_alloced ≡ (get_reg registry).data_alloced)
  unfolding reg_delete get_reg
  reg_delete-erase script registry m k models one key =
      let ((gone, dict), run, (_, models', same)) = dict_delete-kept k models in
      let test : ltb (gettop script) 1 ≡ false = ground arith in
      ((0, after1 script, some dict), rw (test, key, run), (refl, refl, models', same))

  -- The stores into the table: entry `i + 1` is the key of entry `i`.
  abbrev pub keys_pushed : ℕ → Entries → State → State
  keys_pushed i [] script = script
  keys_pushed i ((k, v) ∷ m) script =
      keys_pushed (i + 1) m (settable (pushlstring (pushinteger script (i + 1)) k) 1)

  push_keys-keys_pushed :
      (whole before m : Entries) (i : ℕ) (script : State) (dict : Dict)
      → Models whole dict
      → whole ≡ before ++ m
      → i ≡ length before
      → push_keys lua (length m) i script dict ≡ some (keys_pushed i m script)
  unfolding push_keys
  push_keys-keys_pushed whole before [] i script dict models e place = refl
  push_keys-keys_pushed whole before ((k, v) ∷ m) i script dict models e place =
      let lt : i < length whole = omega (arith, ap length e, length-append before ((k, v) ∷ m)) in
      let key : key_at whole i ≡ k = rw (e, place) (key_at-length_append before m k v) in
      rw (((dict_iter-Models i models).1 lt).0, key, bytes-create_blob k)
        (push_keys-keys_pushed whole (before ++ ((k, v) ∷ [])) m (i + 1) _ dict models
          (e ∙ sym (append_assoc before ((k, v) ∷ []) m))
          (omega (arith, length-append before ((k, v) ∷ []))))

  -- `knRegKeys` creates a table, stores the keys under 1, 2, … in the order of insertion, and
  -- leaves one value; `knRegCount` leaves the number of entries. Both keep the registry.
  pub reg_keys_and_count :
      (script : State) (registry : Option Dict) (m : Entries)
      → RegistryModels m registry
      → (reg_keys lua script registry
          ≡ some (1, keys_pushed 0 m (createtable script), some (get_reg registry)))
        × (reg_count lua script registry
            ≡ some (1, pushinteger script (length m), some (get_reg registry)))
  unfolding reg_keys reg_count
  reg_keys_and_count script registry m models =
      let n = (dict_iter-Models 0 models).0 in
      (
        rw (
          n,
          push_keys-keys_pushed m [] m 0 (createtable script) (get_reg registry) models refl refl,
        ),
        rw n,
      )
