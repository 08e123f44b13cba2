-- ===== src/Tests/Starts.antt =====
-- The start-up and the registration of functions, with a list for the table of globals.
use kn_shim.Base.{
  ◌≡◌, refl, inl, true, false, Option, none, some, List, [], ◌∷◌, ◌++◌, replicate, length, arith,
  if◌then◌else◌,
}
use text.Mathlib.Text.{◌==◌ as str_eq}
use Prim.Native.String.{String}
use kn_shim.Dict.Blob.{Bytes, bytes_eq}
use kn_shim.Memory.Region.{bytes_of, number_of, load_number}
use kn_shim.Leaf.{Outcome, done}
use kn_shim.Leaf.Dynamic.{tag_of}
use kn_shim.Leaf.Symbols.{SymbolTable, strcmp, symbol_addr}
use kn_shim.Leaf.Image.{Leaf}
use kn_shim.Script.Functions.{spelled, in_overlay, get_balls, mount_overlay}
use kn_shim.Script.{
  Global, function, number, LogLevels, Globals, GlobalsLaws, load_lua_libs, script_load_hook,
}
use kn_shim.Script.Registered.{load_lua_libs-registers, script_load_hook-registers}
use kn_shim.Startup.{
  file_stream_vtable, DataPaths, init_lua, Module, Build, Event, closed_asset, initialised,
  called_main, main_returned, main_name, android_main,
}
use kn_shim.Startup.RegTable.{reg_entries, init_lua-entries}
use kn_shim.Startup.Main.{Ran, android_main-Ran}
use kn_shim.Overlay.{set_player_zero_state}
use kn_shim.Gamectl as Game
use kn_shim.Gamectl.{GameState}
use kn_shim.Gamectl.NewGame.{player_zero, player_zero-set_player_zero_state}
use kn_shim.Gamectl.Reload.{answers, with_one_r, answers-reload}
use kn_shim.Tests.Loader
use kn_shim.Tests.Loader.{test_linker, test_elf}
use kn_shim.Tests.Machine.{test_lua, Value, integer, test_zip}

abbrev Table : Type 0
Table = List (String × Global)

abbrev global_in : Table → String → Option Global
global_in [] name = none
global_in ((other, g) ∷ table) name = if str_eq other name then some g else global_in table name

abbrev test_globals : Globals
test_globals = record {
  State = Table;
  openlibs = λ s. s;
  register_function = λ s name f. (name, function f) ∷ s;
  set_integer = λ s name n. (name, number n) ∷ s;
  script_load = λ s path. s;
}

abbrev test_globals_laws : GlobalsLaws test_globals
test_globals_laws = record {
  getglobal = global_in;
  registered = λ s name other f. refl;
  set = λ s name other n. refl;
}

abbrev levels : LogLevels
levels = record { info = 4; warn = 5; error = 6 }

load_lua_libs-registers_example :
    global_in (load_lua_libs test_globals levels []) (spelled get_balls) ≡ some (function get_balls)
unfolding in_overlay
load_lua_libs-registers_example =
    load_lua_libs-registers test_globals test_globals_laws levels [] get_balls refl

script_load_hook-registers_example :
    (global_in (script_load_hook test_globals levels [] "menu/main.lua") (spelled mount_overlay)
      ≡ some (function mount_overlay))
    × (script_load_hook test_globals levels [] "hud.lua" ≡ [])
script_load_hook-registers_example =
    script_load_hook-registers test_globals test_globals_laws levels [] mount_overlay "hud.lua" refl

-- A symbol whose value is 64, its name, and the table of libraries from 112 on.
abbrev game_memory : Bytes
game_memory =
    Loader.symbol 1 5 64
    ++ 0
      ∷ (file_stream_vtable
          ++ (replicate 64 0 ++ (Loader.word 7 ++ (Loader.word 9 ++ replicate 32 0))))

abbrev game_symbols : SymbolTable
game_symbols = record { strtab = 24; symtab = 0; sym_count = 1 }

game_memory-symbol : symbol_addr game_memory game_symbols file_stream_vtable ≡ done (some 64)
unfolding symbol_addr strcmp load_number number_of bytes_of
game_memory-symbol = refl

game_memory-long : 160 ≡ length game_memory
unfolding bytes_of
game_memory-long = refl

game_memory-entry :
    (load_number game_memory 112 8 ≡ some 7) × (load_number game_memory 120 8 ≡ some 9)
unfolding load_number number_of bytes_of
game_memory-entry = (refl, refl)

abbrev no_paths : DataPaths
no_paths = record { internal = none; external = none }

init_lua-entries_example :
    (new : Bytes) × (init_lua game_memory game_symbols 0x1000 0x2000
        (b'i' ∷ [])
        (b'e' ∷ [])
        no_paths
      ≡ done (new, record { internal = some (b'i' ∷ []); external = some (b'e' ∷ []) }))
    × (reg_entries 3 new 112 ≡ some ((7, 9) ∷ (0x1000, 0x2000) ∷ []))
    × (load_number new 0 8 ≡ load_number game_memory 0 8)
init_lua-entries_example =
    init_lua-entries game_memory game_symbols 64 0x1000 0x2000 0 0 8 (b'i' ∷ []) (b'e' ∷ [])
      no_paths game_memory-symbol (omega (arith, game_memory-long))
      (omega (arith, game_memory-long)) (omega arith) (omega arith) (omega arith)
      game_memory-entry.0 game_memory-entry.1 (omega arith) (inl (omega arith))

-- A module's function that leaves a game in memory with one symbol, `android_main` at 64.
abbrev with_main : Module → Leaf test_linker → Outcome (Leaf test_linker)
with_main m leaf =
    done (record leaf {
      blob = Loader.symbol 1 5 64 ++ 0 ∷ (main_name ++ 0 ∷ []);
      table = game_symbols;
    })

abbrev plain_build : Build
plain_build = record { build_cipher = false; hyperspace = true }

abbrev start_events : List Event
start_events =
    closed_asset
    ∷ initialised Module.lua
    ∷ initialised Module.database
    ∷ initialised Module.overlay
    ∷ called_main 64
    ∷ []

start_runs :
    android_main test_linker with_main plain_build true (some test_elf)
    ≡ done (start_events, main_returned)
unfolding android_main bytes_eq tag_of strcmp load_number number_of bytes_of
start_runs = refl

android_main-Ran_example : Ran test_linker with_main plain_build (some test_elf) start_events
android_main-Ran_example =
    android_main-Ran test_linker with_main plain_build true (some test_elf) start_runs

abbrev idle_game : GameState
idle_game = record { balls = 1; streak = 2; hit_something = 3; buffered = 4; wants_reload = false }

abbrev fifty : List Value
fifty = integer 50 ∷ integer 3 ∷ []

new_game_numbers :
    let started = player_zero (λ g. g) (set_player_zero_state test_lua test_zip fifty) idle_game in
    ((Game.get_balls test_lua [] started).1 ≡ integer 50 ∷ [])
    × ((Game.get_streak test_lua [] started).1 ≡ integer 3 ∷ [])
new_game_numbers =
    player_zero-set_player_zero_state test_lua test_zip (λ g. g) fifty [] idle_game
      (inl (omega arith)) (inl (omega arith))

answers-reload_example :
    (answers (λ ch. false) (Game.reload test_lua [] idle_game).2 (b'a' ∷ b'r' ∷ b'r' ∷ [])
      ≡ with_one_r (λ ch. false) (b'a' ∷ b'r' ∷ b'r' ∷ []))
    × (answers
          (λ ch. false)
          (Game.reload test_lua [] (Game.reload test_lua [] idle_game).2).2
          (b'a' ∷ b'r' ∷ b'r' ∷ [])
        ≡ with_one_r (λ ch. false) (b'a' ∷ b'r' ∷ b'r' ∷ []))
answers-reload_example =
    answers-reload (λ ch. false) test_lua [] idle_game (b'a' ∷ b'r' ∷ b'r' ∷ [])
