-- ===== src/LeafHook/Hooker.antt =====
-- The life of a hooker: `LHHookerCreate`, `LHHookerRelease` and `LHHookerHookFunction` of
-- jni/leafhook.h, and `KNHookFunction` of jni/util.c with its global `gHooker`. malloc, mmap and
-- the size of a page are the system's, and arguments.
pub mod Session
pub mod Symbols
use kn_shim.Base.{ℕ, ◌*◌, Bool, true, false, Option, none, some, List, [], ◌∷◌, ◌==◌, if◌then◌else◌}
use kn_shim.LeafHook.{LhHooker}
use kn_shim.LeafHook.Hook.{hook_aarch64_function}
use kn_shim.LeafHook.Arm.{hook_aarch32_function}

-- What the system answers: whether malloc has memory, the size of a page, and the address that
-- mmap gives to a mapping of a size (NULL is 0).
pub record Pages : Type 0 where
  pub has_memory : Bool
  pub page_size : ℕ
  pub map_rwx_pages : ℕ → ℕ

-- What is given back: mapped pages by their address and size, and the hooker itself.
pub data Freed : Type 0 where
  unmapped : ℕ → ℕ → Freed
  hooker : Freed

unfoldable pub hooker_release : Option LhHooker → List Freed
hooker_release none = []
hooker_release (some self) =
    if self.rwx_block == 0
    then hooker ∷ []
    else unmapped self.rwx_block self.rwx_block_size ∷ hooker ∷ []

-- The hooker, and what was given back on the way.
unfoldable pub hooker_create : Pages → Option LhHooker × List Freed
unfolding hooker_release
hooker_create pages =
    let size = 10 * pages.page_size in
    let self : LhHooker = record {
      rwx_block = pages.map_rwx_pages size;
      rwx_block_size = size;
      rwx_block_used = 0;
    } in
    if pages.has_memory
    then if self.rwx_block == 0 then (none, hooker_release (some self)) else (some self, [])
    else (none, [])

-- The architecture that the shim is built for.
pub data Target : Type 0 where
  aarch64 : Target
  aarch32 : Target
  other : Target

-- `LHHookerHookFunction`: the hooker, the memory, the original function's address where it is
-- asked for, and the success.
unfoldable pub hooker_hook_function :
    Target → (ℕ → ℕ) → LhHooker → ℕ → ℕ → Bool → (LhHooker × (ℕ → ℕ) × Option ℕ) × Bool
unfolding hook_aarch64_function hook_aarch32_function
hooker_hook_function aarch64 memory self function hook orig =
    (hook_aarch64_function memory self function hook orig, true)
hooker_hook_function aarch32 memory self function hook orig =
    (hook_aarch32_function memory self function hook orig, true)
hooker_hook_function other memory self function hook orig = ((self, memory, none), false)

-- `KNHookInit`: `gHooker`, and whether it is there.
unfoldable pub hook_init : Pages → Option LhHooker × Bool
unfolding hooker_create
hook_init pages = elim (hooker_create pages).0 [
  | none ↦ (none, false)
  | some self ↦ (some self, true)
]

-- The hooking by a hooker that is there.
unfoldable pub hook_with :
    Target → (ℕ → ℕ) → LhHooker → ℕ → ℕ → Bool → (Option LhHooker × (ℕ → ℕ) × Option ℕ) × Bool
unfolding hooker_hook_function
hook_with target memory self function hook orig =
    let ((self', memory', place), success) =
      hooker_hook_function target memory self function hook orig in
    ((some self', memory', place), success)

-- The hooking after `KNHookInit`.
unfoldable pub hook_first :
    Target
    → (ℕ → ℕ)
    → Option LhHooker × Bool
    → ℕ
    → ℕ
    → Bool
    → (Option LhHooker × (ℕ → ℕ) × Option ℕ) × Bool
hook_first target memory (none, success) function hook orig = ((none, memory, none), success)
hook_first target memory (some self, success) function hook orig =
    hook_with target memory self function hook orig

-- `KNHookFunction`.
unfoldable pub hook_function :
    Pages
    → Target
    → (ℕ → ℕ)
    → Option LhHooker
    → ℕ
    → ℕ
    → Bool
    → (Option LhHooker × (ℕ → ℕ) × Option ℕ) × Bool
unfolding hook_first
hook_function pages target memory (some self) function hook orig =
    hook_with target memory self function hook orig
hook_function pages target memory none function hook orig =
    hook_first target memory (hook_init pages) function hook orig
