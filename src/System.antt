-- ===== src/System.antt =====
-- The small functions of jni/log.c and jni/system.c, the architecture of jni/peekpoke.c and the
-- extensions of jni/util.c. The log is Android's: what is written to it is returned.
use kn_shim.Base.{ℕ, ◌%◌, ◌^◌, Bool, true, false, Option, none, some, ltb, if◌then◌else◌}
use kn_shim.Dict.Blob.{Bytes}
use kn_shim.Lua.{Lua, c_string}

module _ (lua : Lua) where
  open lua use {State, gettop, tolstring, tointeger, pushnil, pushinteger, pushlstring}

  -- `lua_pushstring`, which pushes nil for NULL.
  unfoldable pub pushstring : State → Option Bytes → State
  unfolding c_string
  pushstring script none = pushnil script
  pushstring script (some s) = pushlstring script (c_string s)

  -- `knLog`: also the level, an `int`, and the text (NULL for other values) that are written.
  unfoldable pub log : State → (ℕ × State) × Option (ℕ × Option Bytes)
  log script =
      if ltb (gettop script) 2
      then ((0, script), none)
      else (let (script', text) = tolstring script 2 in
          ((0, script'), some (tointeger script 1 % 2 ^ 32, text)))

  unfoldable pub get_shim_version : State → ℕ × State
  get_shim_version script = (1, pushinteger script 11)

  -- `gAndroidInternalDataPath` and `gAndroidExternalDataPath`, NULL before `KNInitLua`.
  unfoldable pub get_internal_data_path : Option Bytes → State → ℕ × State
  unfolding pushstring
  get_internal_data_path path script = (1, pushstring script path)

  unfoldable pub get_external_data_path : Option Bytes → State → ℕ × State
  unfolding pushstring
  get_external_data_path path script = (1, pushstring script path)

  -- `knSystemAbi`, of KN_ARCH_STRING.
  unfoldable pub system_abi : Bytes → State → ℕ × State
  unfolding pushstring
  system_abi arch script = (1, pushstring script (some arch))

-- `KNLoadExt` of jni/util.c: `dlopen` and `dlsym` of the module's `Init`, which gets the state.
unfoldable pub load_ext {ℓ κ} :
    {Handle : Type ℓ} {S : Type κ}
    → (Bytes → Option Handle)
    → (Handle → Option (S → S))
    → Bytes
    → S
    → S × Bool
load_ext dlopen init_of name state = elim (dlopen name) [
  | none ↦ (state, false)
  | some handle ↦ elim (init_of handle) [ none ↦ (state, false) | some init ↦ (init state, true) ]
]
