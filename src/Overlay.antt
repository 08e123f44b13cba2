-- ===== src/Overlay.antt =====
-- The overlay of jni/overlay.c (the build with HYPERSPACE): a ZIP file whose files go before the
-- game's assets. The ZIP reader is miniz, third-party code, and a parameter, as are the functions
-- of the game that are hooked.
use kn_shim.Base.{
  ℕ, ◌%◌, ◌^◌, Bool, true, false, Option, none, some, [], ◌∷◌, ◌++◌, ltb, if◌then◌else◌,
}
use kn_shim.Dict.Blob.{Bytes}
use kn_shim.Lua.{Lua, c_string}

-- `mz_zip_reader_init_file`, `mz_zip_reader_extract_file_to_heap` and `mz_zip_reader_end`, on the
-- state of the files that the readers hold open.
pub record ZipReader : Type 1 where
  pub System : Type 0
  pub Zip : Type 0
  pub init_file : System → Bytes → System × Option Zip
  pub extract_file_to_heap : System → Zip → Bytes → Option Bytes
  pub reader_end : System → Zip → System

-- ".mp3".
abbrev pub mp3_suffix : Bytes
mp3_suffix = b'.' ∷ b'm' ∷ b'p' ∷ b'3' ∷ []

module _ (zip : ZipReader) where
  open zip use {System, Zip, init_file, extract_file_to_heap, reader_end}

  -- The global `gZip`; `none` is NULL. `alloc` says whether the allocation succeeds.
  unfoldable pub overlay_mount : Bool → System → Option Zip → Bytes → System × Option Zip × Bool
  overlay_mount alloc system (some z) path = (system, some z, false)
  overlay_mount false system none path = (system, none, false)
  overlay_mount true system none path =
      let (system', opened) = init_file system path in
      elim opened [ none ↦ (system', none, false) | some z ↦ (system', some z, true) ]

  unfoldable pub overlay_unmount : System → Option Zip → System × Option Zip × Bool
  overlay_unmount system none = (system, none, false)
  overlay_unmount system (some z) = (reader_end system z, none, true)

  unfoldable pub load_from_overlay_raw : System → Option Zip → Bytes → Option Bytes
  load_from_overlay_raw system none path = none
  load_from_overlay_raw system (some z) path = extract_file_to_heap system z path

  unfoldable pub load_from_overlay : System → Option Zip → Bytes → Option Bytes
  unfolding load_from_overlay_raw
  load_from_overlay system z path = elim (load_from_overlay_raw system z path) [
    | none ↦ load_from_overlay_raw system z (path ++ mp3_suffix)
    | some data' ↦ some data'
  ]

-- `ResMan::load` and `QiOutputStream::writeBuffer` of the game.
pub record Resources : Type 1 where
  pub Output : Type 0
  pub resman_load : Bytes → Output → Output × Bool
  pub write_buffer : Output → Bytes → Output

module _ (zip : ZipReader) (res : Resources) where
  open zip use {System, Zip}
  open res use {Output, resman_load, write_buffer}

  -- `KNResMan_load`, the hook of `ResMan::load`.
  unfoldable pub overlay_load : System → Option Zip → Bytes → Output → Output × Bool
  unfolding load_from_overlay
  overlay_load system z virt_path output = elim (load_from_overlay zip system z virt_path) [
    | some buffer ↦ (write_buffer output buffer, true)
    | none ↦ resman_load virt_path output
  ]

-- `zrBalls` and `zrStreak`, what a new game starts with; both numbers are `int`.
pub record ZeroState : Type 0 where
  pub zr_balls : ℕ
  pub zr_streak : ℕ

module _ (lua : Lua) (zip : ZipReader) where
  open lua use {State, gettop, tolstring, tointeger, pushboolean}
  open zip use {System, Zip}

  pub mount_overlay : Bool → State → System → Option Zip → ℕ × State × System × Option Zip
  unfolding overlay_mount
  mount_overlay alloc script system z =
      if ltb (gettop script) 1
      then (0, script, system, z)
      else (let (script1, path) = tolstring script 1 in
          elim path [
            | none ↦ (0, script1, system, z)
            | some p ↦
                let (system', z', status) = overlay_mount zip alloc system z (c_string p) in
                (1, pushboolean script1 status, system', z')
          ])

  pub unmount_overlay : State → System → Option Zip → ℕ × State × System × Option Zip
  unfolding overlay_unmount
  unmount_overlay script system z =
      let (system', z', status) = overlay_unmount zip system z in
      (1, pushboolean script status, system', z')

  unfoldable pub set_player_zero_state : State → ZeroState
  set_player_zero_state script = record {
    zr_balls = tointeger script 1 % 2 ^ 32;
    zr_streak = tointeger script 2 % 2 ^ 32;
  }

-- `knLoadTemplates`: `Game::loadTemplates` of `gGame`, where that is not NULL.
unfoldable pub load_templates {ℓ κ} :
    {S : Type ℓ} {Game : Type κ} → (Game → Game) → S → Option Game → ℕ × S × Option Game
load_templates game_load_templates script none = (0, script, none)
load_templates game_load_templates script (some game) = (0, script, some (game_load_templates game))
