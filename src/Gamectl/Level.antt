-- ===== src/Gamectl/Level.antt =====
-- The script functions of jni/gamectl.c that call functions of the game: on the level, and its HTTP
-- and asset server. The game's functions are parameters, and its symbols are taken to be found.
use kn_shim.Base.{ℕ, ◌%◌, ◌^◌, Bool, Option, none, some, length, ◌>>=◌}
use kn_shim.Dict.Blob.{Bytes}
use kn_shim.Lua.{Lua, c_string}

-- The functions that are looked up by `KNGetSymbolAddr`, and the C type `double` with what the code
-- computes; a position is three `float`s.
pub record LevelFunctions : Type 1 where
  pub Level : Type 0
  pub hit_something : Level → ℕ → Level
  pub streak_abort : Level → ℕ → Level
  pub streak_inc : Level → ℕ → Level
  pub add_score : Level → ℕ → ℕ → Level
  pub Double : Type 0
  pub Float : Type 0
  pub to_float : Double → Float
  pub to_double : Float → Double
  pub negate : Double → Double
  pub minus : Double → Double → Double
  pub offset_z : Level → Float
  pub explosion : Level → Float × Float × Float → Float → Level

module _ (lua : Lua) (game : LevelFunctions) (tonumber : lua.State → ℕ → game.Double) where
  open lua use {State, tointeger}
  open game use {
    Level, hit_something, streak_abort, streak_inc, add_score, to_float, to_double, negate, minus,
    offset_z, explosion,
  }

  -- An argument as an `int`.
  abbrev int_argument : State → ℕ → ℕ
  int_argument script i = tointeger script i % 2 ^ 32

  unfoldable pub level_hit_something : State → Level → ℕ × State × Level
  level_hit_something script level = (0, script, hit_something level (int_argument script 1))

  unfoldable pub level_streak_abort : State → Level → ℕ × State × Level
  level_streak_abort script level = (0, script, streak_abort level (int_argument script 1))

  unfoldable pub level_streak_inc : State → Level → ℕ × State × Level
  level_streak_inc script level = (0, script, streak_inc level (int_argument script 1))

  unfoldable pub level_add_score : State → Level → ℕ × State × Level
  level_add_score script level =
      (0, script, add_score level (int_argument script 1) (int_argument script 2))

  unfoldable pub level_explosion : State → Level → ℕ × State × Level
  level_explosion script level =
      let z = minus (negate (tonumber script 3)) (to_double (offset_z level)) in
      let pos : game.Float × game.Float × game.Float =
        (to_float (tonumber script 1), to_float (tonumber script 2), to_float z) in
      (0, script, explosion level pos (to_float (tonumber script 4)))

-- `HttpThread::downloadFile`, `ResMan::httpPost` and the asset server, on what they keep.
pub record NetworkFunctions : Type 1 where
  pub World : Type 0
  pub Float : Type 0
  pub game_download : World → Bytes → Bytes → World × Bool
  pub game_post : World → Bytes → Option Bytes → ℕ → World × Bool
  pub game_connect : World → Bytes → Float → World × Bool
  pub game_disconnect : World → World
  -- Whether `ResMan::sAssetSocket` is not NULL.
  pub asset_socket : World → Bool

module _ (lua : Lua) (game : NetworkFunctions) (tofloat : lua.State → ℕ → game.Float) where
  open lua use {State, tolstring, pushboolean}
  open game use {World, game_download, game_post, game_connect, game_disconnect, asset_socket}

  -- `none` is undefined behaviour: the length of a NULL string.
  abbrev pub NetworkReply : Type 0
  NetworkReply = Option (ℕ × State × World)

  -- `knDownloadFile`. Nothing is pushed: `lua_toboolean` only reads.
  unfoldable pub download_file : State → World → NetworkReply
  unfolding c_string
  download_file script world = do
    let (script1, url) = tolstring script 1
    u ← url
    let (script2, path) = tolstring script1 2
    p ← path
    let (world', status) = game_download world (c_string u) (c_string p)
    some (1, script2, world')

  -- The length of a NULL buffer is 0.
  unfoldable pub buffer_size : Option Bytes → ℕ
  buffer_size none = 0
  buffer_size (some buffer) = length buffer % 2 ^ 32

  unfoldable pub http_post : State → World → NetworkReply
  unfolding c_string buffer_size
  http_post script world = do
    let (script1, url) = tolstring script 1
    u ← url
    let (script2, buffer) = tolstring script1 2
    let (world', success) = game_post world (c_string u) buffer (buffer_size buffer)
    some (1, pushboolean script2 success, world')

  unfoldable pub connect_asset_server : State → World → NetworkReply
  unfolding c_string
  connect_asset_server script world = do
    let (script1, host) = tolstring script 1
    h ← host
    let (world', connected) = game_connect world (c_string h) (tofloat script1 2)
    some (1, pushboolean script1 connected, world')

  unfoldable pub disconnect_asset_server : State → World → NetworkReply
  disconnect_asset_server script world = some (0, script, game_disconnect world)

  unfoldable pub is_connected_to_asset_server : State → World → NetworkReply
  is_connected_to_asset_server script world =
      some (1, pushboolean script (asset_socket world), world)
