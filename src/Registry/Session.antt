-- ===== src/Registry/Session.antt =====
-- A whole session of the registry: the script calls the six functions of jni/reg.c in any order.
use kn_shim.Base.{
  ℕ, ◌+◌, ◌-◌, ◌*◌, ◌≤◌, ◌<◌, ◌^◌, ◌≡◌, refl, ◌∙◌, true, Option, none, some, List, [], ◌∷◌, length,
  arith, ◌>>=◌,
}
use kn_shim.Dict.Blob.{Bytes}
use kn_shim.Dict.Table.{Dict, create_dict}
use kn_shim.Dict.Assoc.{Entries, find, assign, erase, is_some, length-assign-le, length-erase-le}
use kn_shim.Lua.{Lua}
use kn_shim.Registry.{get_reg, reg_set, reg_get, reg_has, reg_delete, reg_count, reg_keys}
use kn_shim.Registry.Effects.{
  RegistryModels, unused-RegistryModels, after1, after2, keys_pushed, reg_set-assign, reg_get-find,
  reg_has-find, reg_delete-erase, reg_keys_and_count,
}

module _ (lua : Lua) where
  open lua use {
    State, gettop, tolstring, pushnil, pushboolean, pushinteger, pushlstring, createtable,
  }

  -- A call by a script, with the strings that are its arguments.
  pub data RegistryCall : Type 0 where
    call_set : State → Bytes → Bytes → RegistryCall
    call_get : State → Bytes → RegistryCall
    call_has : State → Bytes → RegistryCall
    call_delete : State → Bytes → RegistryCall
    call_count : State → RegistryCall
    call_keys : State → RegistryCall

  -- The arguments are there, and are these strings.
  abbrev pub HasKey : State → Bytes → Type 0
  HasKey script k = (1 ≤ gettop script) × ((tolstring script 1).1 ≡ some k)

  abbrev pub HasArguments : RegistryCall → Type 0
  HasArguments (call_set script k v) =
      (2 ≤ gettop script)
      × ((tolstring script 1).1 ≡ some k)
      × ((tolstring (after1 lua script) 2).1 ≡ some v)
  HasArguments (call_get script k) = HasKey script k
  HasArguments (call_has script k) = HasKey script k
  HasArguments (call_delete script k) = HasKey script k
  HasArguments (call_count script) = Unit
  HasArguments (call_keys script) = Unit

  abbrev pub AllHaveArguments : List RegistryCall → Type 0
  AllHaveArguments [] = Unit
  AllHaveArguments (call ∷ calls) = HasArguments call × AllHaveArguments calls

  unfoldable pub perform : RegistryCall → Option Dict → Option (ℕ × State × Option Dict)
  perform (call_set script k v) registry = reg_set lua true script registry
  perform (call_get script k) registry = reg_get lua script registry
  perform (call_has script k) registry = reg_has lua script registry
  perform (call_delete script k) registry = reg_delete lua script registry
  perform (call_count script) registry = reg_count lua script registry
  perform (call_keys script) registry = reg_keys lua script registry

  -- The session: what each call leaves, and the registry at the end.
  unfoldable pub session : List RegistryCall → Option Dict → Option (List (ℕ × State) × Option Dict)
  unfolding perform
  session [] registry = some ([], registry)
  session (call ∷ calls) registry = do
    (count, script, registry') ← perform call registry
    (answers, registry'') ← session calls registry'
    some ((count, script) ∷ answers, registry'')

  -- What an association list answers, and what becomes of it.
  unfoldable pub answer : RegistryCall → Entries → ℕ × State
  answer (call_set script k v) m = (1, pushboolean (after2 lua script) true)
  answer (call_get script k) m = (
    1,
    elim (find k m) [
      | none ↦ pushnil (after1 lua script)
      | some v ↦ pushlstring (after1 lua script) v
    ],
  )
  answer (call_has script k) m = (1, pushboolean (after1 lua script) (is_some (find k m)))
  answer (call_delete script k) m = (0, after1 lua script)
  answer (call_count script) m = (1, pushinteger script (length m))
  answer (call_keys script) m = (1, keys_pushed lua 0 m (createtable script))

  unfoldable pub entries_after : RegistryCall → Entries → Entries
  entries_after (call_set script k v) m = assign k v m
  entries_after (call_delete script k) m = erase k m
  entries_after (call_get script k) m = m
  entries_after (call_has script k) m = m
  entries_after (call_count script) m = m
  entries_after (call_keys script) m = m

  unfoldable pub expected : List RegistryCall → Entries → List (ℕ × State) × Entries
  unfolding answer entries_after
  expected [] m = ([], m)
  expected (call ∷ calls) m =
      let (answers, m') = expected calls (entries_after call m) in (answer call m ∷ answers, m')

  -- After `n` calls there are at most `n` entries, in at most `4 * n + 8` slots.
  record Small (n : ℕ) (m : Entries) (registry : Option Dict) : Type 0 where
    models : RegistryModels m registry
    entries : length m ≤ n
    slots : (get_reg registry).data_alloced ≤ 4 * n + 8

  perform-Small :
      (call : RegistryCall) (n : ℕ) (m : Entries) (registry : Option Dict)
      → HasArguments call
      → n < 2 ^ 29 - 2
      → Small n m registry
      → (registry' : Option Dict) × (perform call registry
          ≡ some ((answer call m).0, (answer call m).1, registry'))
        × Small (n + 1) (entries_after call m) registry'
  unfolding perform answer entries_after get_reg
  perform-Small (call_set script k v) n m registry (two, key, value) few s =
      let ((count, script', registry'), run, (one, left, models, grown)) =
        reg_set-assign lua script registry m k v s.models (omega (arith, s.slots)) two key value in
      (
        registry',
        run ∙ (λ i. some (one i, left i, registry')),
        record {
          models = models;
          entries = omega (arith, length-assign-le k v m, s.entries);
          slots = omega (arith, s.entries, s.slots);
        },
      )
  perform-Small (call_get script k) n m registry (one, key) few s = (
    some (get_reg registry),
    reg_get-find lua script registry m k s.models one key,
    record {
      models = s.models;
      entries = omega (arith, s.entries);
      slots = omega (arith, s.slots);
    },
  )
  perform-Small (call_has script k) n m registry (one, key) few s = (
    some (get_reg registry),
    reg_has-find lua script registry m k s.models one key,
    record {
      models = s.models;
      entries = omega (arith, s.entries);
      slots = omega (arith, s.slots);
    },
  )
  perform-Small (call_delete script k) n m registry (one, key) few s =
      let ((count, script', registry'), run, (none_left, left, models, same)) =
        reg_delete-erase lua script registry m k s.models one key in
      (
        registry',
        run ∙ (λ i. some (none_left i, left i, registry')),
        record {
          models = models;
          entries = omega (arith, length-erase-le k m, s.entries);
          slots = omega (arith, s.slots);
        },
      )
  perform-Small (call_count script) n m registry h few s = (
    some (get_reg registry),
    (reg_keys_and_count lua script registry m s.models).1,
    record {
      models = s.models;
      entries = omega (arith, s.entries);
      slots = omega (arith, s.slots);
    },
  )
  perform-Small (call_keys script) n m registry h few s = (
    some (get_reg registry),
    (reg_keys_and_count lua script registry m s.models).0,
    record {
      models = s.models;
      entries = omega (arith, s.entries);
      slots = omega (arith, s.slots);
    },
  )

  session-from :
      (calls : List RegistryCall) (n : ℕ) (m : Entries) (registry : Option Dict)
      → AllHaveArguments calls
      → n + length calls ≤ 2 ^ 29 - 2
      → Small n m registry
      → (registry' : Option Dict) × (session calls registry
          ≡ some ((expected calls m).0, registry'))
        × RegistryModels (expected calls m).1 registry'
  unfolding session expected
  session-from [] n m registry given few s = (registry, refl, s.models)
  session-from (call ∷ calls) n m registry given few s =
      let (mid, run, s') = perform-Small call n m registry given.0 (omega arith) s in
      let (registry', rest, models) =
        session-from calls (n + 1) (entries_after call m) mid given.1 (omega arith) s' in
      (registry', rw (run, rest) refl, models)

  -- Whatever calls scripts make from the start of the program on, with string arguments, fewer than
  -- 2 ^ 29 - 2 of them and with the memory for every resize, each call leaves what an association
  -- list that starts empty would answer, the keys in the order of their insertion, and the registry
  -- holds the entries of that list.
  pub session-expected :
      (calls : List RegistryCall)
      → AllHaveArguments calls
      → length calls ≤ 2 ^ 29 - 2
      → (registry : Option Dict) × (session calls none ≡ some ((expected calls []).0, registry))
        × RegistryModels (expected calls []).1 registry
  unfolding get_reg create_dict
  session-expected calls given few =
      session-from calls 0 [] none given (omega arith)
        (record { models = unused-RegistryModels; entries = omega arith; slots = omega arith })
