-- ===== src/Lua.antt =====
-- The Lua C API as the functions that scripts call use it. Lua is a library that the shim is
-- built with, so its state and its calls are parameters. A call that changes the state returns the
-- new one. A string is its bytes; an integer is its two's complement 64-bit pattern.
use kn_shim.Base.{ℕ, Bool, Option, [], ◌∷◌, ◌==◌, if◌then◌else◌}
use kn_shim.Dict.Blob.{Bytes}

pub record Lua : Type 1 where
  pub State : Type 0
  pub gettop : State → ℕ
  -- A number is converted to a string in place, so the state may change; NULL for other values.
  pub tolstring : State → ℕ → State × Option Bytes
  pub isstring : State → ℕ → Bool
  pub tointeger : State → ℕ → ℕ
  pub toboolean : State → ℕ → Bool
  pub pushnil : State → State
  pub pushboolean : State → Bool → State
  pub pushinteger : State → ℕ → State
  pub pushlstring : State → Bytes → State
  pub createtable : State → State
  -- The value on top of the stack under the key below it, in the table at an index.
  pub settable : State → ℕ → State

-- The bytes of a C string: those before the first NUL.
unfoldable pub c_string : Bytes → Bytes
c_string [] = []
c_string (b ∷ bs) = let rest = c_string bs in if b == 0 then [] else b ∷ rest
