-- ===== src/Gamectl/NewGame.antt =====
-- A new game with the overlay's hook of `Player::zero`, of jni/overlay.c.
use kn_shim.Base.{◌≡◌, ap}
use kn_shim.Lua.{Lua}
use kn_shim.Overlay.{ZipReader, ZeroState, set_player_zero_state}
use kn_shim.Gamectl.{GameState, get_balls, get_streak}
use kn_shim.Gamectl.Numbers.{FitsInt, int_to_integer-mod}

-- `KNPlayer_zero`; the original function is the game's.
unfoldable pub player_zero : (GameState → GameState) → ZeroState → GameState → GameState
player_zero original zr game = record (original game) { balls = zr.zr_balls; streak = zr.zr_streak }

-- `zrBalls` and `zrStreak` at the start.
abbrev pub initial_zero_state : ZeroState
initial_zero_state = record { zr_balls = 25; zr_streak = 0 }

module _ (lua : Lua) (zip : ZipReader) where
  open lua use {State, tointeger, pushinteger}

  -- Whatever the game's own function does, after `knSetPlayerZeroState` a new game starts with the
  -- balls and the streak that the script gave, where they fit an `int`.
  pub player_zero-set_player_zero_state :
      (original : GameState → GameState) (script later : State) (game : GameState)
      → FitsInt (tointeger script 1)
      → FitsInt (tointeger script 2)
      → let started = player_zero original (set_player_zero_state lua zip script) game in
        ((get_balls lua later started).1 ≡ pushinteger later (tointeger script 1))
        × ((get_streak lua later started).1 ≡ pushinteger later (tointeger script 2))
  unfolding player_zero set_player_zero_state get_balls get_streak
  player_zero-set_player_zero_state original script later game fits fits' = (
    ap (pushinteger later) (int_to_integer-mod (tointeger script 1) fits),
    ap (pushinteger later) (int_to_integer-mod (tointeger script 2) fits'),
  )
