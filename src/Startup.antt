-- ===== src/Startup.antt =====
-- The start-up of the shim: `android_main` of jni/shim.c, and `KNInitLua` of jni/script.c in the
-- build without HYPERSPACE, on AArch64. The assets are Android's and the game's code is the file
-- that is loaded, so both are arguments.
pub mod Main
pub mod RegTable
use kn_shim.Base.{
  ℕ, ◌+◌, ◌%◌, ◌^◌, Bool, true, false, Option, none, some, List, [], ◌∷◌, ◌++◌, map, length, ◌==◌,
  if◌then◌else◌,
}
use kn_shim.Dict.Blob.{Bytes}
use kn_shim.Memory.Region.{store_number}
use kn_shim.Leaf.{LoadError, Outcome, done, error, fault, stuck, ◌>>=◌, access, Linker}
use kn_shim.Leaf.Symbols.{SymbolTable, symbol_addr}
use kn_shim.Leaf.Image.{Leaf, load_from_buffer}
use kn_shim.PeekPoke.{or_null}

-- "_ZTV17QiFileInputStream".
abbrev pub file_stream_vtable : Bytes
file_stream_vtable =
    b'_' ∷ b'Z' ∷ b'T' ∷ b'V' ∷ b'1' ∷ b'7' ∷ b'Q' ∷ b'i' ∷ b'F' ∷ b'i' ∷ b'l' ∷ b'e' ∷ b'I' ∷ b'n'
    ∷ b'p' ∷ b'u' ∷ b't' ∷ b'S' ∷ b't' ∷ b'r' ∷ b'e' ∷ b'a' ∷ b'm' ∷ []

-- The two entries of the table of libraries that `KNInitLua` writes: a name and a function each.
unfoldable pub write_entries : Bytes → ℕ → ℕ → ℕ → Outcome Bytes
unfolding store_number
write_entries memory table empty_string load_lua_libs = do
  memory1 ← access (store_number memory (table + 16) 8 empty_string)
  memory2 ← access (store_number memory1 (table + 24) 8 load_lua_libs)
  memory3 ← access (store_number memory2 (table + 32) 8 0)
  access (store_number memory3 (table + 40) 8 0)

-- `gAndroidInternalDataPath` and `gAndroidExternalDataPath`, `none` for NULL.
pub record DataPaths : Type 0 where
  pub internal : Option Bytes
  pub external : Option Bytes

-- `KNInitLua`, in memory whose addresses are those of its bytes; the addresses of "" and of
-- `load_lua_libs`, and the two data paths of the activity, are arguments, and the shim's copies of
-- the paths a result. The memory for the copies is taken to be there.
unfoldable pub init_lua :
    Bytes → SymbolTable → ℕ → ℕ → Bytes → Bytes → DataPaths → Outcome (Bytes × DataPaths)
unfolding symbol_addr write_entries or_null
init_lua memory leaf empty_string load_lua_libs internal external paths = do
  found ← symbol_addr memory leaf file_stream_vtable
  let table = (or_null found + 48) % 2 ^ 64
  let written : Outcome (Bytes × DataPaths) = (do
    memory' ← write_entries memory table empty_string load_lua_libs
    done (memory', record { internal = some internal; external = some external }))
  if table == 0 then done (memory, paths) else written

-- The functions of `gModuleInitFuncs`.
pub data Module : Type 0 where
  lua : Module
  database : Module
  cipher : Module
  overlay : Module

-- BUILD_CIPHER and HYPERSPACE.
pub record Build : Type 0 where
  pub build_cipher : Bool
  pub hyperspace : Bool

unfoldable pub module_init_funcs : Build → List Module
module_init_funcs build =
    lua
    ∷ database
    ∷ ((if build.build_cipher then cipher ∷ [] else [])
        ++ (if build.hyperspace then overlay ∷ [] else []))

-- What the start-up does that another part of the system sees.
pub data Event : Type 0 where
  closed_asset : Event
  initialised : Module → Event
  called_main : ℕ → Event

-- How it ends.
pub data End : Type 0 where
  leaf_init_failed : End
  no_asset : End
  load_failed : LoadError → End
  no_main : End
  main_returned : End

-- "android_main".
abbrev pub main_name : Bytes
main_name = b'a' ∷ b'n' ∷ b'd' ∷ b'r' ∷ b'o' ∷ b'i' ∷ b'd' ∷ b'_' ∷ b'm' ∷ b'a' ∷ b'i' ∷ b'n' ∷ []

-- What a module's function does to the loaded game is an argument.
module _ (linker : Linker) (init : Module → Leaf linker → Outcome (Leaf linker)) where
  -- The loop over `gModuleInitFuncs`.
  unfoldable pub init_modules :
      List Module → List Event → Leaf linker → Outcome (List Event × Leaf linker)
  init_modules [] events leaf = done (events, leaf)
  init_modules (m ∷ ms) events leaf = do
    leaf' ← init m leaf
    init_modules ms (events ++ initialised m ∷ []) leaf'

  -- The search for the game's `android_main`, and its call.
  unfoldable pub call_main : List Event → Leaf linker → Outcome (List Event × End)
  unfolding symbol_addr or_null
  call_main events leaf = do
    found ← symbol_addr leaf.blob leaf.table main_name
    let func = or_null found
    done (if func == 0 then (events, no_main) else (events ++ called_main func ∷ [], main_returned))

  -- After `LeafLoadFromBuffer`.
  unfoldable pub after_load : Build → Outcome (Leaf linker × List ℕ) → Outcome (List Event × End)
  unfolding init_modules call_main module_init_funcs
  after_load build (error e) = done ([], load_failed e)
  after_load build fault = fault
  after_load build stuck = stuck
  after_load build (done (leaf, calls)) = do
    (events, leaf') ← init_modules (module_init_funcs build) (closed_asset ∷ []) leaf
    call_main events leaf'

  -- `android_main`: whether `LeafInit` has its memory, and the contents of libsmashhit.so if
  -- `load_libsmashhit` finds it.
  unfoldable pub android_main : Build → Bool → Option Bytes → Outcome (List Event × End)
  unfolding after_load load_from_buffer
  android_main build false asset = done ([], leaf_init_failed)
  android_main build true none = done ([], no_asset)
  android_main build true (some contents) =
      after_load build (load_from_buffer linker contents (length contents))
