-- ===== src/Gamectl/Numbers.antt =====
-- Balls and streak of jni/gamectl.c, set and then read.
use kn_shim.Base.{ℕ, ◌-◌, ◌%◌, ◌^◌, ◌≤◌, ◌<◌, ◌≡◌, refl, ap, ◌⊎◌, inl, inr, arith}
use kn_shim.Lua.{Lua}
use kn_shim.Gamectl.{GameState, int_to_integer, set_balls, get_balls, set_streak, get_streak}

-- The pattern of an integer from -2 ^ 31 to 2 ^ 31 - 1.
abbrev pub FitsInt : ℕ → Type 0
FitsInt n = (n < 2 ^ 31) ⊎ ((2 ^ 64 - 2 ^ 31 ≤ n) × (n < 2 ^ 64))

pub int_to_integer-mod : (n : ℕ) → FitsInt n → int_to_integer (n % 2 ^ 32) ≡ n
unfolding int_to_integer
int_to_integer-mod n (inl low) = ground arith
int_to_integer-mod n (inr (high, below)) = ground arith

module _ (lua : Lua) where
  open lua use {State, tointeger, pushinteger}

  -- `knGetBalls` leaves what `knSetBalls` was given, and `knGetStreak` what `knSetStreak` was
  -- given, whichever was called first, for integers that fit an `int`.
  pub get_balls-set_balls :
      (balls_script streak_script later : State) (game : GameState)
      → FitsInt (tointeger balls_script 1)
      → FitsInt (tointeger streak_script 1)
      → let one = (set_streak lua streak_script (set_balls lua balls_script game).2).2 in
        let other = (set_balls lua balls_script (set_streak lua streak_script game).2).2 in
        ((get_balls lua later one).1 ≡ pushinteger later (tointeger balls_script 1))
        × ((get_streak lua later one).1 ≡ pushinteger later (tointeger streak_script 1))
        × (one ≡ other)
  unfolding set_balls set_streak get_balls get_streak
  get_balls-set_balls balls_script streak_script later game fits fits' = (
    ap (pushinteger later) (int_to_integer-mod (tointeger balls_script 1) fits),
    ap (pushinteger later) (int_to_integer-mod (tointeger streak_script 1) fits'),
    refl,
  )
