-- ===== src/Script/Functions.antt =====
-- The functions of the shim that a script can call, of jni/*.c, and their names there.
use kn_shim.Base.{Bool, true, false}
use Prim.Native.String.{String}

-- The functions that a script can call, in the order in which they are registered.
pub data ScriptFunction : Type 0 where
  log : ScriptFunction
  symbol_addr : ScriptFunction
  peek : ScriptFunction
  poke : ScriptFunction
  system_abi : ScriptFunction
  invert_branch : ScriptFunction
  http_request : ScriptFunction
  http_update : ScriptFunction
  http_data : ScriptFunction
  http_data_size : ScriptFunction
  http_content_type : ScriptFunction
  http_error : ScriptFunction
  http_error_code : ScriptFunction
  http_release : ScriptFunction
  http_extract_nx_archive : ScriptFunction
  get_shim_version : ScriptFunction
  get_internal_data_path : ScriptFunction
  get_external_data_path : ScriptFunction
  reg_set : ScriptFunction
  reg_get : ScriptFunction
  reg_has : ScriptFunction
  reg_delete : ScriptFunction
  reg_count : ScriptFunction
  reg_keys : ScriptFunction
  db_set : ScriptFunction
  db_get : ScriptFunction
  db_has : ScriptFunction
  db_delete : ScriptFunction
  write_file : ScriptFunction
  read_file : ScriptFunction
  rename_file : ScriptFunction
  delete_file : ScriptFunction
  is_file : ScriptFunction
  make_dir : ScriptFunction
  set_balls : ScriptFunction
  get_balls : ScriptFunction
  set_streak : ScriptFunction
  get_streak : ScriptFunction
  set_noclip : ScriptFunction
  get_noclip : ScriptFunction
  download_file : ScriptFunction
  http_post : ScriptFunction
  connect_asset_server : ScriptFunction
  disconnect_asset_server : ScriptFunction
  is_connected_to_asset_server : ScriptFunction
  enable_reloading : ScriptFunction
  reload : ScriptFunction
  shitpost : ScriptFunction
  level_hit_something : ScriptFunction
  level_streak_abort : ScriptFunction
  level_streak_inc : ScriptFunction
  level_add_score : ScriptFunction
  level_explosion : ScriptFunction
  mount_overlay : ScriptFunction
  unmount_overlay : ScriptFunction
  load_templates : ScriptFunction
  set_player_zero_state : ScriptFunction

-- The name of a function in the source.
unfoldable pub spelled : ScriptFunction → String
spelled log = "knLog"
spelled symbol_addr = "knSymbolAddr"
spelled peek = "knPeek"
spelled poke = "knPoke"
spelled system_abi = "knSystemAbi"
spelled invert_branch = "knInvertBranch"
spelled http_request = "knHttpRequest"
spelled http_update = "knHttpUpdate"
spelled http_data = "knHttpData"
spelled http_data_size = "knHttpDataSize"
spelled http_content_type = "knHttpContentType"
spelled http_error = "knHttpError"
spelled http_error_code = "knHttpErrorCode"
spelled http_release = "knHttpRelease"
spelled http_extract_nx_archive = "knHttpExtractNxArchive"
spelled get_shim_version = "knGetShimVersion"
spelled get_internal_data_path = "knGetInternalDataPath"
spelled get_external_data_path = "knGetExternalDataPath"
spelled reg_set = "knRegSet"
spelled reg_get = "knRegGet"
spelled reg_has = "knRegHas"
spelled reg_delete = "knRegDelete"
spelled reg_count = "knRegCount"
spelled reg_keys = "knRegKeys"
spelled db_set = "knDbSet"
spelled db_get = "knDbGet"
spelled db_has = "knDbHas"
spelled db_delete = "knDbDelete"
spelled write_file = "knWriteFile"
spelled read_file = "knReadFile"
spelled rename_file = "knRenameFile"
spelled delete_file = "knDeleteFile"
spelled is_file = "knIsFile"
spelled make_dir = "knMakeDir"
spelled set_balls = "knSetBalls"
spelled get_balls = "knGetBalls"
spelled set_streak = "knSetStreak"
spelled get_streak = "knGetStreak"
spelled set_noclip = "knSetNoclip"
spelled get_noclip = "knGetNoclip"
spelled download_file = "knDownloadFile"
spelled http_post = "knHttpPost"
spelled connect_asset_server = "knConnectAssetServer"
spelled disconnect_asset_server = "knDisconnectAssetServer"
spelled is_connected_to_asset_server = "knIsConnectedToAssetServer"
spelled enable_reloading = "knEnableReloading"
spelled reload = "knReload"
spelled shitpost = "knShitpost"
spelled level_hit_something = "knLevelHitSomething"
spelled level_streak_abort = "knLevelStreakAbort"
spelled level_streak_inc = "knLevelStreakInc"
spelled level_add_score = "knLevelAddScore"
spelled level_explosion = "knLevelExplosion"
spelled mount_overlay = "knMountOverlay"
spelled unmount_overlay = "knUnmountOverlay"
spelled load_templates = "knLoadTemplates"
spelled set_player_zero_state = "knSetPlayerZeroState"

unfoldable pub in_overlay : ScriptFunction → Bool
in_overlay mount_overlay = true
in_overlay unmount_overlay = true
in_overlay load_templates = true
in_overlay set_player_zero_state = true
in_overlay _ = false
