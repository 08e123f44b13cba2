-- ===== src/Gamectl.antt =====
-- Game control, of jni/gamectl.c: balls and streak, noclip, and the simulated press of a key. The
-- game's memory that these touch is the state, together with the shim's globals. Numbers of the
-- game are `int`, as 32-bit patterns.
pub mod Noclip
pub mod Numbers
pub mod Reload
pub mod Level
pub mod Sayings
pub mod NewGame
use kn_shim.Base.{
  ℕ, ◌+◌, ◌-◌, ◌%◌, ◌^◌, Bool, true, false, not, ◌&&◌, Option, none, some, List, [], ◌∷◌, ltb, ◌==◌,
  if◌then◌else◌,
}
use kn_shim.Lua.{Lua}

pub record GameState : Type 0 where
  -- `gGame->player`.
  pub balls : ℕ
  pub streak : ℕ
  -- The first instruction of `Level::hitSomething`, and `gNoclipBufferedInstruction`.
  pub hit_something : ℕ
  pub buffered : ℕ
  -- `gWantsReload`.
  pub wants_reload : Bool

-- An `int` as a `lua_Integer` of 64 bits.
unfoldable pub int_to_integer : ℕ → ℕ
int_to_integer n = if ltb n (2 ^ 31) then n else n + (2 ^ 64 - 2 ^ 32)

-- `kn_ret` is KN_RET, the return instruction of the architecture.
unfoldable pub noclip_is_on : ℕ → GameState → Bool
noclip_is_on kn_ret game = not (game.buffered == kn_ret)

unfoldable pub swap_noclip_state : GameState → GameState
swap_noclip_state game = record game {
  hit_something = game.buffered;
  buffered = game.hit_something;
}

module _ (lua : Lua) where
  open lua use {State, tointeger, toboolean, pushinteger, pushboolean}

  abbrev pub GameReply : Type 0
  GameReply = ℕ × State × GameState

  unfoldable pub set_balls : State → GameState → GameReply
  set_balls script game = (0, script, record game { balls = tointeger script 1 % 2 ^ 32 })

  unfoldable pub set_streak : State → GameState → GameReply
  set_streak script game = (0, script, record game { streak = tointeger script 1 % 2 ^ 32 })

  unfoldable pub get_balls : State → GameState → GameReply
  unfolding int_to_integer
  get_balls script game = (1, pushinteger script (int_to_integer game.balls), game)

  unfoldable pub get_streak : State → GameState → GameReply
  unfolding int_to_integer
  get_streak script game = (1, pushinteger script (int_to_integer game.streak), game)

  -- Swap where the states do not match.
  unfoldable pub set_noclip : ℕ → State → GameState → GameReply
  unfolding noclip_is_on swap_noclip_state
  set_noclip kn_ret script game =
      let on = noclip_is_on kn_ret game in
      let wanted = toboolean script 1 in
      if (if on then wanted else not wanted)
      then (0, script, game)
      else (0, script, swap_noclip_state game)

  unfoldable pub get_noclip : ℕ → State → GameState → GameReply
  unfolding noclip_is_on
  get_noclip kn_ret script game = (1, pushboolean script (noclip_is_on kn_ret game), game)

  unfoldable pub reload : State → GameState → GameReply
  reload script game = (0, script, record game { wants_reload = true })

-- `KNReload_WasKeyPressedHook`. The original function is the game's.
unfoldable pub was_key_pressed_hook : (ℕ → Bool) → GameState → ℕ → Bool × GameState
was_key_pressed_hook was_key_pressed game ch =
    if game.wants_reload && ch == b'r'
    then (true, record game { wants_reload = false })
    else (was_key_pressed ch, game)
