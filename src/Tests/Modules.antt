-- ===== src/Tests/Modules.antt =====
-- Files, HTTP requests, the overlay and game control at work.
use kn_shim.Base.{ℕ, ◌≡◌, refl, true, false, none, some, List, [], ◌∷◌, arith}
use kn_shim.Dict.Blob.{Bytes, bytes_eq}
use kn_shim.Lua.{c_string}
use kn_shim.Files.{write_file, read_file}
use kn_shim.Files.Effects.{read_file-write_file}
use kn_shim.Http.Handlers.{HttpWorld, http_release_context}
use kn_shim.Http.Release.{IsReleased, http_release_context-IsReleased}
use kn_shim.Gamectl.{GameState, get_noclip}
use kn_shim.Gamectl.Noclip.{IsNoclip, set_noclips, last_wanted, set_noclips-IsNoclip}
use kn_shim.Tests.Machine.{
  Stack, integer, boolean, string, userdata, test_lua, test_userdata, Files, test_io, test_laws,
  test-IsReliable, test_http,
}

-- `knWriteFile("f", "hi")`.
abbrev file_path : Bytes
file_path = b'f' ∷ []

abbrev text : Bytes
text = b'h' ∷ b'i' ∷ []

abbrev write_call : Stack
write_call = string file_path ∷ string text ∷ []

abbrev no_files : Files
no_files p = none

opened_again :
    test_io.fopen_rb (write_file test_lua test_io write_call no_files).2 (c_string file_path)
    ≡ some text
unfolding c_string write_file bytes_eq
opened_again = refl

read_file-write_file_example :
    ((write_file test_lua test_io write_call no_files).1 ≡ test_lua.pushboolean write_call true)
    × ((read_file test_lua test_io true
          (string file_path ∷ [])
          (write_file test_lua test_io write_call no_files).2).1
        ≡ test_lua.pushlstring (string file_path ∷ []) text)
read_file-write_file_example =
    read_file-write_file test_lua test_io test_laws test-IsReliable write_call
      (string file_path ∷ []) no_files file_path text (omega arith) refl refl (omega arith) refl
      refl refl opened_again

-- Two blocks, of which the second holds a request.
abbrev world : HttpWorld test_lua test_http
world = record { script = userdata 1 ∷ []; net = 5; blocks = none ∷ some 4 ∷ [] }

abbrev released : HttpWorld test_lua test_http
released = record { script = userdata 1 ∷ []; net = 5; blocks = none ∷ none ∷ [] }

release_runs : http_release_context test_lua test_userdata test_http world ≡ some (0, released)
unfolding http_release_context
release_runs = refl

http_release_context-IsReleased_example :
    IsReleased test_lua test_userdata test_http test_io
      (record released { script = userdata 1 ∷ integer 2 ∷ [] })
http_release_context-IsReleased_example =
    http_release_context-IsReleased test_lua test_userdata test_http test_io world released 0 1
      (userdata 1 ∷ integer 2 ∷ []) (omega arith) refl release_runs (omega arith) refl

-- The return instruction on AArch64, and another instruction.
abbrev kn_ret : ℕ
kn_ret = 0xd65f03c0

abbrev first_instruction : ℕ
first_instruction = 0xd10203ff

abbrev game : GameState
game = record {
  balls = 25;
  streak = 0;
  hit_something = first_instruction;
  buffered = kn_ret;
  wants_reload = false;
}

-- On, on, off, on.
abbrev scripts : List Stack
scripts =
    (boolean true ∷ []) ∷ (boolean true ∷ []) ∷ (boolean false ∷ []) ∷ (boolean true ∷ []) ∷ []

set_noclips-IsNoclip_example :
    IsNoclip kn_ret first_instruction
      (last_wanted test_lua kn_ret first_instruction false scripts)
      (set_noclips test_lua kn_ret first_instruction scripts game)
    × ((get_noclip test_lua kn_ret []
          (set_noclips test_lua kn_ret first_instruction scripts game)).1
        ≡ test_lua.pushboolean [] (last_wanted test_lua kn_ret first_instruction false scripts))
set_noclips-IsNoclip_example =
    set_noclips-IsNoclip test_lua kn_ret first_instruction false scripts game [] (λ h. omega arith)
      (record { code = refl; kept = refl })
