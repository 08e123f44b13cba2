-- ===== src/LeafHook/Hooker/Symbols.antt =====
-- The places where the shim installs its hooks: `KNOverlayInit` of jni/overlay.c, `KNCipherInit` of
-- jni/obfuscate.c, the `KNInitLua` of jni/script.c with HYPERSPACE, and `knEnableReloading` of
-- jni/gamectl.c. `lookup` is `KNGetSymbolAddr` in the loaded game; the shim's own functions are
-- addresses.
use kn_shim.Base.{ℕ, ◌≡◌, refl, true, Option, none, some}
use Prim.Native.String.{String}
use kn_shim.LeafHook.{LhHooker}
use kn_shim.LeafHook.Hooker.{Pages, Target, aarch64, aarch32, other, hook_function}

-- `gHooker`, and the memory.
pub record HookState : Type 0 where
  pub hooker : Option LhHooker
  pub memory : ℕ → ℕ

module _ (pages : Pages) (target : Target) (lookup : String → ℕ) where
  -- A hook of the function with a symbol: the place for the original function's address is written
  -- where the hook makes a block, and otherwise keeps what it holds.
  unfoldable pub hook_symbol : HookState → String → ℕ → Option ℕ → HookState × Option ℕ
  hook_symbol s name hook old =
      let ((g, memory', place), success) =
        hook_function pages target s.memory s.hooker (lookup name) hook true in
      (record { hooker = g; memory = memory' }, elim place [ none ↦ old | some orig ↦ some orig ])

  -- The symbol of `QiOutputStream::writeBuffer`, which has the type of a size in it.
  unfoldable pub write_buffer_symbol : Target → Option ℕ → Option ℕ
  write_buffer_symbol aarch64 old = some (lookup "_ZN14QiOutputStream11writeBufferEPKvm")
  write_buffer_symbol aarch32 old = some (lookup "_ZN14QiOutputStream11writeBufferEPKvj")
  write_buffer_symbol other old = old

  -- The globals of the overlay that point to functions of the game.
  pub record OverlayPointers : Type 0 where
    pub write_buffer : Option ℕ
    pub load_templates : Option ℕ
    pub resman_load : Option ℕ
    pub player_zero : Option ℕ

  unfoldable pub overlay_init : HookState → OverlayPointers → ℕ → ℕ → HookState × OverlayPointers
  unfolding hook_symbol write_buffer_symbol
  overlay_init s p resman_hook zero_hook =
      let (s1, resman) =
        hook_symbol s "_ZN6ResMan4loadERK8QiStringR14QiOutputStream" resman_hook p.resman_load in
      let (s2, zero) = hook_symbol s1 "_ZN6Player4zeroEv" zero_hook p.player_zero in
      (
        s2,
        record {
          write_buffer = write_buffer_symbol target p.write_buffer;
          load_templates = some (lookup "_ZN4Game13loadTemplatesEv");
          resman_load = resman;
          player_zero = zero;
        },
      )

  -- The original function and `QiOutputStream::writeBuffer` of the cipher.
  unfoldable pub cipher_init : HookState → Option ℕ × Option ℕ → ℕ → HookState × Option ℕ × Option ℕ
  unfolding hook_symbol write_buffer_symbol
  cipher_init s (resman_load, write_buffer) resman_hook =
      let (s1, resman) =
        hook_symbol s "_ZN6ResMan4loadERK8QiStringR14QiOutputStream" resman_hook resman_load in
      (s1, resman, write_buffer_symbol target write_buffer)

  -- With the original `Script::load`.
  unfoldable pub init_lua_hyperspace : HookState → Option ℕ → ℕ → HookState × Option ℕ
  unfolding hook_symbol
  init_lua_hyperspace s script_load load_hook =
      hook_symbol s "_ZN6Script4loadERK8QiString" load_hook script_load

  -- `gWasKeyPressedFunc` is NULL until the hook is there.
  unfoldable pub enable_reloading : HookState → Option ℕ → ℕ → HookState × Option ℕ
  unfolding hook_symbol
  enable_reloading s (some was_key_pressed) key_hook = (s, some was_key_pressed)
  enable_reloading s none key_hook = hook_symbol s "_ZNK7QiInput13wasKeyPressedEi" key_hook none

  -- Once the hook is there, further calls of `knEnableReloading` change nothing.
  pub enable_reloading_twice :
      (s : HookState) (old : Option ℕ) (key_hook orig : ℕ)
      → (enable_reloading s old key_hook).1 ≡ some orig
      → let (s', once) = enable_reloading s old key_hook in
        enable_reloading s' once key_hook ≡ (s', some orig)
  enable_reloading_twice s old key_hook orig h =
      kept (enable_reloading s old key_hook).0 (enable_reloading s old key_hook).1 h
    where
      kept :
          (s' : HookState) (once : Option ℕ)
          → once ≡ some orig
          → enable_reloading s' once key_hook ≡ (s', some orig)
      kept s' once e = rw e (unfold enable_reloading in refl)
