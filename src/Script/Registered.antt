-- ===== src/Script/Registered.antt =====
-- The globals after the registration of the functions of the shim, of jni/script.c.
use kn_shim.Base.{
  ◌≡◌, refl, ap, ◌∙◌, Bool, true, false, Option, none, some, List, [], ◌∷◌, ◌++◌, if◌then◌else◌,
}
use text.Mathlib.Text.{◌==◌ as str_eq}
use Prim.Native.String.{String}
use kn_shim.Script.Functions.{
  ScriptFunction, spelled, in_overlay, mount_overlay, unmount_overlay, load_templates,
  set_player_zero_state, log,
}
use kn_shim.Script.{
  Global, function, number, Registration, register, integer, LogLevels, Globals, GlobalsLaws,
  log_globals, peek_poke_globals, http_globals, system_globals, registry_globals, database_globals,
  file_globals, gamectl_globals, overlay_globals, install, enable_modules, enable_overlay,
  load_lua_libs, script_load_hook,
}

or_else : Option Global → Option Global → Option Global
or_else none g = g
or_else (some f) g = some f

-- What a list of registrations leaves under a name: the last of that name.
last_of : String → List Registration → Option Global
unfolding or_else
last_of name [] = none
last_of name (register other f ∷ rest) =
    or_else (last_of name rest) (if str_eq other name then some (function f) else none)
last_of name (integer other n ∷ rest) =
    or_else (last_of name rest) (if str_eq other name then some (number n) else none)

modules : LogLevels → List Registration
modules levels =
    log_globals levels
    ++ peek_poke_globals
    ++ http_globals
    ++ system_globals
    ++ registry_globals
    ++ database_globals
    ++ file_globals
    ++ gamectl_globals

-- No name is registered for two functions.
last_of-spelled :
    (levels : LogLevels) (f : ScriptFunction)
    → in_overlay f ≡ false
    → last_of (spelled f) (modules levels) ≡ some (function f)
unfolding last_of spelled in_overlay modules
last_of-spelled levels mount_overlay h = absurd (cc)
last_of-spelled levels unmount_overlay h = absurd (cc)
last_of-spelled levels load_templates h = absurd (cc)
last_of-spelled levels set_player_zero_state h = absurd (cc)
last_of-spelled levels _ h = refl

last_of-spelled_all :
    (levels : LogLevels) (f : ScriptFunction)
    → last_of (spelled f) (modules levels ++ overlay_globals) ≡ some (function f)
unfolding last_of spelled modules
last_of-spelled_all levels log = refl
last_of-spelled_all levels _ = refl

or_else-step :
    (later : Option Global) (test : Bool) (f : Global) (g : Option Global)
    → or_else later (if test then some f else g)
      ≡ or_else (or_else later (if test then some f else none)) g
unfolding or_else
or_else-step none true f g = refl
or_else-step none false f g = refl
or_else-step (some x) test f g = refl

module _ (lua : Globals) (laws : GlobalsLaws lua) (levels : LogLevels) where
  open laws use {getglobal}

  getglobal-install :
      (regs : List Registration) (script : lua.State) (name : String)
      → getglobal (install lua levels regs script) name
        ≡ or_else (last_of name regs) (getglobal script name)
  unfolding install last_of or_else
  getglobal-install [] script name = refl
  getglobal-install (register other f ∷ rest) script name =
      getglobal-install rest (lua.register_function script other f) name
      ∙ ap (or_else (last_of name rest)) (laws.registered script other name f)
      ∙ or_else-step (last_of name rest) (str_eq other name) (function f) (getglobal script name)
  getglobal-install (integer other n ∷ rest) script name =
      getglobal-install rest (lua.set_integer script other n) name
      ∙ ap (or_else (last_of name rest)) (laws.set script other name n)
      ∙ or_else-step (last_of name rest) (str_eq other name) (number n) (getglobal script name)

  enable_modules-install :
      (script : lua.State)
      → enable_modules lua levels script ≡ install lua levels (modules levels) (lua.openlibs script)
  unfolding enable_modules modules
  enable_modules-install script = refl

  enable_overlay-install :
      (script : lua.State)
      → enable_overlay lua levels (enable_modules lua levels script)
        ≡ install lua levels (modules levels ++ overlay_globals) (lua.openlibs script)
  unfolding enable_modules enable_overlay modules
  enable_overlay-install script = refl

  -- After `load_lua_libs`, in the build without HYPERSPACE, the global with a function's name in
  -- the source is that function, for every function but those of the overlay.
  pub load_lua_libs-registers :
      (script : lua.State) (f : ScriptFunction)
      → in_overlay f ≡ false
      → getglobal (load_lua_libs lua levels script) (spelled f) ≡ some (function f)
  unfolding load_lua_libs or_else
  load_lua_libs-registers script f h =
      ap (λ s. getglobal s (spelled f)) (enable_modules-install script)
      ∙ getglobal-install (modules levels) (lua.openlibs script) (spelled f)
      ∙ ap (λ g. or_else g (getglobal (lua.openlibs script) (spelled f)))
          (last_of-spelled levels f h)

  -- With HYPERSPACE, after the hook of `Script::load` for "menu/main.lua" the global with the name
  -- of a function, of any of them, is that function; for another path the hook only loads.
  pub script_load_hook-registers :
      (script : lua.State) (f : ScriptFunction) (path : String)
      → str_eq path "menu/main.lua" ≡ false
      → (getglobal (script_load_hook lua levels script "menu/main.lua") (spelled f)
          ≡ some (function f))
        × (script_load_hook lua levels script path ≡ lua.script_load script path)
  unfolding script_load_hook or_else
  script_load_hook-registers script f path h =
      let loaded = lua.script_load script "menu/main.lua" in
      (
        ap (λ s. getglobal s (spelled f)) (enable_overlay-install loaded)
            ∙ getglobal-install (modules levels ++ overlay_globals) (lua.openlibs loaded)
                (spelled f)
            ∙ ap (λ g. or_else g (getglobal (lua.openlibs loaded) (spelled f)))
                (last_of-spelled_all levels f),
        rw h refl,
      )
