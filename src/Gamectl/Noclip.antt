-- ===== src/Gamectl/Noclip.antt =====
-- Noclip of jni/gamectl.c, and the instruction that it patches.
use kn_shim.Base.{ℕ, ◌≡◌, ◌≢◌, refl, Bool, true, false, if◌then◌else◌, List, [], ◌∷◌, arith}
use kn_shim.Lua.{Lua}
use kn_shim.Gamectl.{GameState, noclip_is_on, swap_noclip_state, set_noclip, get_noclip}

-- The two words are the return instruction and the original one, in the order that the state says.
pub record IsNoclip (kn_ret original : ℕ) (on : Bool) (game : GameState) : Type 0 where
  pub code : game.hit_something ≡ (if on then kn_ret else original)
  pub kept : game.buffered ≡ (if on then original else kn_ret)

module _ (lua : Lua) (kn_ret original : ℕ) where
  open lua use {State, toboolean, pushboolean}

  -- `knSetNoclip` called with each of the script's states in turn.
  unfoldable pub set_noclips : List State → GameState → GameState
  unfolding set_noclip
  set_noclips [] game = game
  set_noclips (script ∷ scripts) game = set_noclips scripts (set_noclip lua kn_ret script game).2

  -- The last argument of these calls.
  unfoldable pub last_wanted : Bool → List State → Bool
  last_wanted on [] = on
  last_wanted on (script ∷ scripts) = last_wanted (toboolean script 1) scripts

  noclip_is_on-IsNoclip :
      (on : Bool) (game : GameState)
      → original ≢ kn_ret
      → IsNoclip kn_ret original on game
      → noclip_is_on kn_ret game ≡ on
  unfolding noclip_is_on
  noclip_is_on-IsNoclip true game differs is = ground (arith, is.kept, differs)
  noclip_is_on-IsNoclip false game differs is = ground (arith, is.kept)

  set_noclip-IsNoclip :
      (on wanted : Bool) (script : State) (game : GameState)
      → toboolean script 1 ≡ wanted
      → original ≢ kn_ret
      → IsNoclip kn_ret original on game
      → IsNoclip kn_ret original wanted (set_noclip lua kn_ret script game).2
  unfolding set_noclip swap_noclip_state
  set_noclip-IsNoclip true true script game e differs is =
      rw (noclip_is_on-IsNoclip true game differs is, e) is
  set_noclip-IsNoclip true false script game e differs is =
      rw (noclip_is_on-IsNoclip true game differs is, e) (record { code = is.kept; kept = is.code })
  set_noclip-IsNoclip false true script game e differs is =
      rw (noclip_is_on-IsNoclip false game differs is, e)
        (record { code = is.kept; kept = is.code })
  set_noclip-IsNoclip false false script game e differs is =
      rw (noclip_is_on-IsNoclip false game differs is, e) is

  -- After any calls of `knSetNoclip`, repeated ones included, `knGetNoclip` leaves the last
  -- argument; the game's function starts with a return instruction where that is true, and with
  -- its original instruction where it is false, provided that this one is no return.
  pub set_noclips-IsNoclip :
      (on : Bool) (scripts : List State) (game : GameState) (later : State)
      → original ≢ kn_ret
      → IsNoclip kn_ret original on game
      → IsNoclip kn_ret original (last_wanted on scripts) (set_noclips scripts game)
        × ((get_noclip lua kn_ret later (set_noclips scripts game)).1
            ≡ pushboolean later (last_wanted on scripts))
  unfolding set_noclips last_wanted get_noclip
  set_noclips-IsNoclip on [] game later differs is =
      (is, rw (noclip_is_on-IsNoclip on game differs is) refl)
  set_noclips-IsNoclip on (script ∷ scripts) game later differs is =
      set_noclips-IsNoclip (toboolean script 1) scripts (set_noclip lua kn_ret script game).2 later
        differs (set_noclip-IsNoclip on (toboolean script 1) script game refl differs is)
