-- ===== src/Script.antt =====
-- What the shim adds to the globals of a script: `knEnableLog` to `knEnableOverlay`, and the
-- functions of jni/script.c that call them. A function of the shim is written as a name for it; the
-- global table is Lua's, and a parameter.
pub mod Functions
pub mod Registered
use kn_shim.Base.{ℕ, ◌≡◌, Bool, true, false, Option, none, some, List, [], ◌∷◌, ◌++◌, if◌then◌else◌}
use text.Mathlib.Text.{◌==◌ as str_eq}
use Prim.Native.String.{String}
use kn_shim.Script.Functions.*

-- `lua_register` of a function under a name, or an integer that is made a global.
pub data Registration : Type 0 where
  register : String → ScriptFunction → Registration
  integer : String → ℕ → Registration

-- A global of a script.
pub data Global : Type 0 where
  function : ScriptFunction → Global
  number : ℕ → Global

-- ANDROID_LOG_INFO, ANDROID_LOG_WARN and ANDROID_LOG_ERROR of <android/log.h>.
pub record LogLevels : Type 0 where
  pub info : ℕ
  pub warn : ℕ
  pub error : ℕ

abbrev pub log_globals : LogLevels → List Registration
log_globals levels =
    register "knLog" log
    ∷ integer "LOG_INFO" levels.info
    ∷ integer "LOG_WARN" levels.warn
    ∷ integer "LOG_ERROR" levels.error
    ∷ []

abbrev pub peek_poke_globals : List Registration
peek_poke_globals =
    register "knSymbolAddr" symbol_addr
    ∷ register "knPeek" peek
    ∷ register "knPoke" poke
    ∷ register "knSystemAbi" system_abi
    ∷ register "knInvertBranch" invert_branch
    ∷ integer "KN_TYPE_ADDR" 1
    ∷ integer "KN_TYPE_BOOL" 2
    ∷ integer "KN_TYPE_SHORT" 3
    ∷ integer "KN_TYPE_INT" 4
    ∷ integer "KN_TYPE_FLOAT" 5
    ∷ integer "KN_TYPE_STRING" 6
    ∷ integer "KN_TYPE_BYTES" 7
    ∷ []

abbrev pub http_globals : List Registration
http_globals =
    register "knHttpRequest" http_request
    ∷ register "knHttpUpdate" http_update
    ∷ register "knHttpData" http_data
    ∷ register "knHttpDataSize" http_data_size
    ∷ register "knHttpContentType" http_content_type
    ∷ register "knHttpError" http_error
    ∷ register "knHttpErrorCode" http_error_code
    ∷ register "knHttpRelease" http_release
    ∷ register "knHttpExtractNxArchive" http_extract_nx_archive
    ∷ integer "KN_HTTP_PENDING" 1
    ∷ integer "KN_HTTP_DONE" 2
    ∷ integer "KN_HTTP_ERROR" 3
    ∷ []

abbrev pub system_globals : List Registration
system_globals =
    register "knGetShimVersion" get_shim_version
    ∷ register "knGetInternalDataPath" get_internal_data_path
    ∷ register "knGetExternalDataPath" get_external_data_path
    ∷ []

abbrev pub registry_globals : List Registration
registry_globals =
    register "knRegSet" reg_set
    ∷ register "knRegGet" reg_get
    ∷ register "knRegHas" reg_has
    ∷ register "knRegDelete" reg_delete
    ∷ register "knRegCount" reg_count
    ∷ register "knRegKeys" reg_keys
    ∷ []

abbrev pub database_globals : List Registration
database_globals =
    register "knDbSet" db_set
    ∷ register "knDbGet" db_get
    ∷ register "knDbHas" db_has
    ∷ register "knDbDelete" db_delete
    ∷ []

abbrev pub file_globals : List Registration
file_globals =
    register "knWriteFile" write_file
    ∷ register "knReadFile" read_file
    ∷ register "knRenameFile" rename_file
    ∷ register "knDeleteFile" delete_file
    ∷ register "knIsFile" is_file
    ∷ register "knMakeDir" make_dir
    ∷ []

abbrev pub gamectl_globals : List Registration
gamectl_globals =
    register "knSetBalls" set_balls
    ∷ register "knGetBalls" get_balls
    ∷ register "knSetStreak" set_streak
    ∷ register "knGetStreak" get_streak
    ∷ register "knSetNoclip" set_noclip
    ∷ register "knGetNoclip" get_noclip
    ∷ register "knDownloadFile" download_file
    ∷ register "knHttpPost" http_post
    ∷ register "knConnectAssetServer" connect_asset_server
    ∷ register "knDisconnectAssetServer" disconnect_asset_server
    ∷ register "knIsConnectedToAssetServer" is_connected_to_asset_server
    ∷ register "knEnableReloading" enable_reloading
    ∷ register "knReload" reload
    ∷ register "knShitpost" shitpost
    ∷ register "knLevelHitSomething" level_hit_something
    ∷ register "knLevelStreakAbort" level_streak_abort
    ∷ register "knLevelStreakInc" level_streak_inc
    ∷ register "knLevelAddScore" level_add_score
    ∷ register "knLevelExplosion" level_explosion
    ∷ []

abbrev pub overlay_globals : List Registration
overlay_globals =
    register "knMountOverlay" mount_overlay
    ∷ register "knUnmountOverlay" unmount_overlay
    ∷ register "knLoadTemplates" load_templates
    ∷ register "knSetPlayerZeroState" set_player_zero_state
    ∷ []

-- The calls of Lua that make globals; `real_script_load_func` is the game's `Script::load`.
pub record Globals : Type 1 where
  pub State : Type 0
  pub openlibs : State → State
  pub register_function : State → String → ScriptFunction → State
  pub set_integer : State → String → ℕ → State
  pub script_load : State → String → State

-- What they do to the table of globals.
pub record GlobalsLaws (lua : Globals) : Type 0 where
  pub getglobal : lua.State → String → Option Global
  pub registered :
      (script : lua.State) (name other : String) (f : ScriptFunction)
      → getglobal (lua.register_function script name f) other
        ≡ (if str_eq name other then some (function f) else getglobal script other)
  pub set :
      (script : lua.State) (name other : String) (n : ℕ)
      → getglobal (lua.set_integer script name n) other
        ≡ (if str_eq name other then some (number n) else getglobal script other)

module _ (lua : Globals) (levels : LogLevels) where
  open lua use {State, openlibs, register_function, set_integer, script_load}

  -- The registrations, one after the other.
  unfoldable pub install : List Registration → State → State
  install [] script = script
  install (register name f ∷ rest) script = install rest (register_function script name f)
  install (integer name n ∷ rest) script = install rest (set_integer script name n)

  unfoldable pub enable_log : State → State
  unfolding install
  enable_log script = install (log_globals levels) script

  unfoldable pub enable_peek_poke : State → State
  unfolding install
  enable_peek_poke script = install peek_poke_globals script

  unfoldable pub enable_http : State → State
  unfolding install
  enable_http script = install http_globals script

  unfoldable pub enable_system : State → State
  unfolding install
  enable_system script = install system_globals script

  unfoldable pub enable_registry : State → State
  unfolding install
  enable_registry script = install registry_globals script

  unfoldable pub enable_database : State → State
  unfolding install
  enable_database script = install database_globals script

  unfoldable pub enable_file : State → State
  unfolding install
  enable_file script = install file_globals script

  unfoldable pub enable_gamectl : State → State
  unfolding install
  enable_gamectl script = install gamectl_globals script

  unfoldable pub enable_overlay : State → State
  unfolding install
  enable_overlay script = install overlay_globals script

  -- The calls that `load_lua_libs` and `script_load_hook` both make.
  unfoldable pub enable_modules : State → State
  unfolding enable_log enable_peek_poke enable_http enable_system enable_registry enable_database
      enable_file enable_gamectl
  enable_modules script =
      let base = enable_log (openlibs script) in
      let memory = enable_peek_poke base in
      let http = enable_http memory in
      let system = enable_system http in
      let registry = enable_registry system in
      let database = enable_database registry in
      let file = enable_file database in enable_gamectl file

  -- `load_lua_libs`, without HYPERSPACE; what it returns to Lua, 0, is left out.
  unfoldable pub load_lua_libs : State → State
  unfolding enable_modules
  load_lua_libs script = enable_modules script

  -- `script_load_hook`, with HYPERSPACE.
  unfoldable pub script_load_hook : State → String → State
  unfolding enable_modules enable_overlay
  script_load_hook script path =
      let loaded = script_load script path in
      if str_eq path "menu/main.lua" then enable_overlay (enable_modules loaded) else loaded
