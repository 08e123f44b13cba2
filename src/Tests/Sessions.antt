-- ===== src/Tests/Sessions.antt =====
-- Sessions of the registry and of the hooker.
use kn_shim.Base.{ℕ, ◌+◌, ◌≡◌, refl, true, false, Option, none, some, List, [], ◌∷◌, arith}
use kn_shim.Dict.Table.{Dict}
use kn_shim.Registry.Effects.{RegistryModels}
use kn_shim.Registry.Session as Registry
use kn_shim.Registry.Session.{
  RegistryCall, call_set, call_get, call_has, call_delete, call_count, call_keys, expected,
  session-expected,
}
use kn_shim.LeafHook.{
  LhHooker, load, rewrite_instructions, rewrite_instruction, write_jump_back, long_bytes, make_br,
  make_ldr_literal, stream_write, stream_write32, stream_write64, ins_offset, is_aarch64_adr,
  is_aarch64_adrp, is_aarch64_ldr_literal, alloc_rwx,
}
use kn_shim.LeafHook.Hook.{read_block}
use kn_shim.LeafHook.Hooker.{Pages, hook_init, hook_with}
use kn_shim.Memory.{int_bytes}
use kn_shim.LeafHook.Hooker.Session.{HookCall, session, first_hooker, Stacked}
use kn_shim.LeafHook.Hooker.Session.Within.{session-Stacked}
use kn_shim.Tests.Machine.{string, test_lua}
use kn_shim.Tests.Table.{key, other}

-- The key is set twice, looked up, deleted and looked up again.
abbrev registry_calls : List (RegistryCall test_lua)
registry_calls =
    call_set (string key ∷ string other ∷ []) key other
    ∷ call_set (string key ∷ string key ∷ []) key key
    ∷ call_get (string key ∷ []) key
    ∷ call_keys []
    ∷ call_delete (string key ∷ []) key
    ∷ call_has (string key ∷ []) key
    ∷ call_count []
    ∷ []

session-expected_example :
    (registry : Option Dict) × (Registry.session test_lua registry_calls none
      ≡ some ((expected test_lua registry_calls []).0, registry))
    × RegistryModels (expected test_lua registry_calls []).1 registry
session-expected_example =
    session-expected test_lua registry_calls
      (
        (omega arith, refl, refl),
        (
          (omega arith, refl, refl),
          ((omega arith, refl), (tt, ((omega arith, refl), ((omega arith, refl), (tt, tt))))),
        ),
      )
      (omega arith)

abbrev no_memory : Pages
no_memory = record { has_memory = false; page_size = 4096; map_rwx_pages = λ size. 0x10000 }

abbrev pages : Pages
pages = record { has_memory = true; page_size = 4096; map_rwx_pages = λ size. 0x10000 }

abbrev moved_pages : Pages
moved_pages = record { has_memory = true; page_size = 4096; map_rwx_pages = λ size. 0x90000 }

-- The first call makes no hooker, the second does, and so the third does not.
abbrev hook_calls : List HookCall
hook_calls =
    record { pages = no_memory; function = 0x4000; hook = 0x5000; orig = true }
    ∷ record { pages = pages; function = 0x4000; hook = 0x5000; orig = true }
    ∷ record { pages = moved_pages; function = 0x4100; hook = 0x6000; orig = true }
    ∷ []

abbrev no_code : ℕ → ℕ
no_code address = 0

abbrev last_hooker : LhHooker
last_hooker = record { rwx_block = 0x10000; rwx_block_size = 40960; rwx_block_used = 64 }

hook_calls-end : (session hook_calls (none, no_code, [])).0 ≡ some last_hooker
unfolding session hook_init hook_with int_bytes read_block load rewrite_instructions
    rewrite_instruction write_jump_back long_bytes make_br make_ldr_literal stream_write
    stream_write32 stream_write64 ins_offset is_aarch64_adr is_aarch64_adrp is_aarch64_ldr_literal
    alloc_rwx
hook_calls-end = refl

session-Stacked_example :
    (first_hooker hook_calls ≡ some (record last_hooker { rwx_block_used = 0 }))
    × Stacked 0x10000 (session hook_calls (none, no_code, [])).2 (0x10000 + 40960)
session-Stacked_example = session-Stacked hook_calls no_code hook_calls-end (omega arith)
