-- ===== src/Registry.antt =====
-- The registry: the in-memory store of the first half of jni/reg.c.
-- A handler takes the script's state and the global `gRegistry` (`none` is NULL) and returns how
-- many values it leaves for the script, the state, and the global. The Boolean of `reg_set` says
-- whether the allocations of a resize succeed.
pub mod Effects
pub mod Session
use kn_shim.Base.{
  ℕ, zero, suc, ◌+◌, Bool, true, false, Option, none, some, ltb, if◌then◌else◌, ◌>>=◌,
}
use kn_shim.Dict.Blob.{Blob, create_blob}
use kn_shim.Dict.Table.{
  Dict, create_dict, dict_set, dict_get, dict_has, dict_delete, dict_len, dict_key_iter,
}
use kn_shim.Lua.{Lua}

-- `GetReg`.
unfoldable pub get_reg : Option Dict → Dict
get_reg none = create_dict
get_reg (some registry) = registry

module _ (lua : Lua) where
  open lua use {
    State, gettop, tolstring, pushnil, pushboolean, pushinteger, pushlstring, createtable, settable,
  }

  abbrev pub Reply : Type 0
  Reply = ℕ × State × Option Dict

  -- `knReturnNil`.
  abbrev pub return_nil : State → Option Dict → Option Reply
  return_nil script registry = some (1, pushnil script, registry)

  pub reg_set : Bool → State → Option Dict → Option Reply
  unfolding get_reg
  reg_set alloc script registry =
      if ltb (gettop script) 2
      then return_nil script registry
      else (let (script1, key) = tolstring script 1 in
          let (script2, value) = tolstring script1 2 in
          elim key [
            | none ↦ return_nil script2 registry
            | some k ↦ elim value [
              | none ↦ return_nil script2 registry
              | some v ↦ do
                (success, dict) ← dict_set alloc (get_reg registry) (create_blob k) (create_blob v)
                some (1, pushboolean script2 success, some dict)
            ]
          ])

  pub reg_get : State → Option Dict → Option Reply
  unfolding get_reg
  reg_get script registry =
      if ltb (gettop script) 1
      then return_nil script registry
      else (let (script1, key) = tolstring script 1 in
          elim key [
            | none ↦ return_nil script1 registry
            | some k ↦ do
              value ← dict_get (get_reg registry) (create_blob k)
              elim value [
                | none ↦ return_nil script1 (some (get_reg registry))
                | some v ↦ some (1, pushlstring script1 v.bytes, some (get_reg registry))
              ]
          ])

  pub reg_has : State → Option Dict → Option Reply
  unfolding get_reg
  reg_has script registry =
      if ltb (gettop script) 1
      then return_nil script registry
      else (let (script1, key) = tolstring script 1 in
          elim key [
            | none ↦ return_nil script1 registry
            | some k ↦ do
              found ← dict_has (get_reg registry) (create_blob k)
              some (1, pushboolean script1 found, some (get_reg registry))
          ])

  pub reg_delete : State → Option Dict → Option Reply
  unfolding get_reg
  reg_delete script registry =
      if ltb (gettop script) 1
      then some (0, script, registry)
      else (let (script1, key) = tolstring script 1 in
          elim key [
            | none ↦ some (0, script1, registry)
            | some k ↦ do
              (_, dict) ← dict_delete (get_reg registry) (create_blob k)
              some (0, script1, some dict)
          ])

  pub reg_count : State → Option Dict → Option Reply
  unfolding get_reg
  reg_count script registry =
      some (1, pushinteger script (dict_len (get_reg registry)), some (get_reg registry))

  -- The loop of `knRegKeys`: the rounds left and `i`. A NULL blob would be read through.
  pub push_keys : ℕ → ℕ → State → Dict → Option State
  push_keys zero i script dict = some script
  push_keys (suc rounds) i script dict = do
    found ← dict_key_iter dict i
    blob ← found
    push_keys rounds (i + 1) (settable (pushlstring (pushinteger script (i + 1)) blob.bytes) 1) dict

  pub reg_keys : State → Option Dict → Option Reply
  unfolding get_reg push_keys
  reg_keys script registry = do
    let dict = get_reg registry
    script1 ← push_keys (dict_len dict) 0 (createtable script) dict
    some (1, script1, some dict)
