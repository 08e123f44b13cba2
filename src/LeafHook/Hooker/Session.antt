-- ===== src/LeafHook/Hooker/Session.antt =====
-- A whole session of hooks by `KNHookFunction` on AArch64, from the start of the program on.
pub mod Advance
pub mod Within
use kn_shim.Base.{
  ℕ, ◌+◌, ◌*◌, ◌%◌, ◌≤◌, ◌≡◌, refl, sym, ap, ◌∙◌, Bool, true, false, Option, none, some, List, [],
  ◌∷◌, length, ◌==◌, if◌then◌else◌, arith, bit_and, bit_and-mask, Option-cases, inl, inr,
}
use kn_shim.LeafHook.{LhHooker, alloc_rwx, rewrite_aarch64_block}
use kn_shim.LeafHook.Block.{rewrite_aarch64_block-IsBlock, rewrite_aarch64_block-alloc_rwx}
use kn_shim.LeafHook.Hook.{hook_aarch64_function, make_original, new_block, read_block}
use kn_shim.LeafHook.Hooker.{
  Pages, aarch64, hooker_create, hooker_hook_function, hook_init, hook_with, hook_first,
  hook_function,
}

-- A call of `KNHookFunction`, with what the system would answer.
pub record HookCall : Type 0 where
  pub pages : Pages
  pub function : ℕ
  pub hook : ℕ
  pub orig : Bool

-- `gHooker`, the memory, and the new blocks, the last one first: their addresses and lengths.
abbrev pub Session : Type 0
Session = Option LhHooker × (ℕ → ℕ) × List (ℕ × ℕ)

-- The block of a hook, if one was made.
abbrev pub placed : (ℕ → ℕ) → ℕ → Option LhHooker → Option ℕ → List (ℕ × ℕ) → List (ℕ × ℕ)
placed memory function (some self) (some start) blocks =
    (start, length (new_block memory self function).1) ∷ blocks
placed memory function g place blocks = blocks

unfoldable pub hook_call : HookCall → Session → Session
unfolding hook_function
hook_call call (g, memory, blocks) =
    let ((g', memory', place), success) =
      hook_function call.pages aarch64 memory g call.function call.hook call.orig in
    (g', memory', placed memory call.function g' place blocks)

unfoldable pub session : List HookCall → Session → Session
unfolding hook_call
session [] s = s
session (call ∷ calls) s = session calls (hook_call call s)

abbrev pub first_of : Option LhHooker → Option LhHooker → Option LhHooker
first_of none later = later
first_of (some self) later = some self

-- The hooker of the first call at which one can be made.
unfoldable pub first_hooker : List HookCall → Option LhHooker
unfolding first_of
first_hooker [] = none
first_hooker (call ∷ calls) =
    let later = first_hooker calls in first_of (hook_init call.pages).0 later

-- Blocks one above the other, from `base` to `top` at most.
abbrev pub Stacked : ℕ → List (ℕ × ℕ) → ℕ → Type 0
Stacked base [] top = base ≤ top
Stacked base ((start, size) ∷ blocks) top = Stacked base blocks start × (start + size ≤ top)
