-- ===== src/LeafHook/Hooker/Session/Advance.antt =====
-- What one hook does to the hooker and to the stack of its blocks.
use kn_shim.Base.{
  ℕ, ◌+◌, ◌%◌, ◌≤◌, ◌≡◌, refl, ap, ◌∙◌, Bool, true, false, Option, some, List, ◌∷◌, length, arith,
  bit_and, bit_and-mask,
}
use kn_shim.LeafHook.{LhHooker, alloc_rwx, rewrite_aarch64_block}
use kn_shim.LeafHook.Block.{rewrite_aarch64_block-IsBlock, rewrite_aarch64_block-alloc_rwx}
use kn_shim.LeafHook.Hook.{make_original, new_block, read_block}
use kn_shim.LeafHook.Hooker.{aarch64, hook_with}
use kn_shim.LeafHook.Hooker.Session.{placed, Stacked}

alloc_rwx-whole :
    (self : LhHooker) (size : ℕ)
    → size % 4 ≡ 0
    → alloc_rwx self size ≡ (
      record self { rwx_block_used = self.rwx_block_used + size },
      self.rwx_block + self.rwx_block_used,
    )
unfolding alloc_rwx
alloc_rwx-whole self size h = let low : bit_and size 3 ≡ 0 = bit_and-mask 2 size ∙ h in rw low refl

-- A new block has at most 64 bytes, and its allocation is of as many.
new_block-alloc :
    (memory : ℕ → ℕ) (self : LhHooker) (function : ℕ)
    → let size = length (new_block memory self function).1 in
      (size ≤ 64)
      × ((make_original memory self function).0
          ≡ record self { rwx_block_used = self.rwx_block_used + size })
      × ((make_original memory self function).2 ≡ self.rwx_block + self.rwx_block_used)
unfolding make_original new_block read_block
new_block-alloc memory self function =
    let block =
      rewrite_aarch64_block-IsBlock memory self function (read_block memory function 4)
        (omega arith) in
    let size = length (new_block memory self function).1 in
    let whole : size % 4 ≡ 0 = omega (arith, block.target) in
    let made =
      rewrite_aarch64_block-alloc_rwx memory self function (read_block memory function 4)
      ∙ alloc_rwx-whole self size whole in
    (omega (arith, block.small), ap (λ r. r.0) made, ap (λ r. r.1) made)

-- What a hook does to a hooker that is there, and to the stack of its blocks.
pub record Advances (self self' : LhHooker) (blocks blocks' : List (ℕ × ℕ)) : Type 0 where
  pub same_block : self'.rwx_block ≡ self.rwx_block
  pub same_size : self'.rwx_block_size ≡ self.rwx_block_size
  pub used : self'.rwx_block_used ≤ self.rwx_block_used + 64
  pub stacked :
      Stacked self.rwx_block blocks (self.rwx_block + self.rwx_block_used)
      → Stacked self'.rwx_block blocks' (self'.rwx_block + self'.rwx_block_used)

-- A hook with an original gives a hooker and a place.
hook_with-orig :
    (memory : ℕ → ℕ) (self : LhHooker) (function hook : ℕ)
    → ((hook_with aarch64 memory self function hook true).0.0
        ≡ some (make_original memory self function).0)
      × ((hook_with aarch64 memory self function hook true).0.2
          ≡ some (make_original memory self function).2)
unfolding hook_with
hook_with-orig memory self function hook = (refl, refl)

new_block-bytes :
    (memory : ℕ → ℕ) (self self' : LhHooker) (function : ℕ)
    → (new_block memory self function).1 ≡ (new_block memory self' function).1
unfolding new_block rewrite_aarch64_block
new_block-bytes memory self self' function = refl

placed-some :
    (memory : ℕ → ℕ) (function : ℕ) (self : LhHooker) (start : ℕ) {g : Option LhHooker}
    {place : Option ℕ} (blocks : List (ℕ × ℕ))
    → g ≡ some self
    → place ≡ some start
    → placed memory function g place blocks
      ≡ (start, length (new_block memory self function).1) ∷ blocks
placed-some memory function self start blocks e f = rw (e, f)

hook_with-alone :
    (memory : ℕ → ℕ) (self : LhHooker) (function hook : ℕ) (blocks : List (ℕ × ℕ))
    → let ((g, memory', place), success) = hook_with aarch64 memory self function hook false in
      (self' : LhHooker) × (g ≡ some self')
      × Advances self self' blocks (placed memory function g place blocks)
unfolding hook_with
hook_with-alone memory self function hook blocks = (
  self,
  refl,
  record { same_block = refl; same_size = refl; used = omega arith; stacked = λ s. s },
)

pub hook_with-Advances :
    (memory : ℕ → ℕ) (self : LhHooker) (function hook : ℕ) (orig : Bool) (blocks : List (ℕ × ℕ))
    → let ((g, memory', place), success) = hook_with aarch64 memory self function hook orig in
      (self' : LhHooker) × (g ≡ some self')
      × Advances self self' blocks (placed memory function g place blocks)
hook_with-Advances memory self function hook false blocks =
    hook_with-alone memory self function hook blocks
hook_with-Advances memory self function hook true blocks =
    let (small, made, place) = new_block-alloc memory self function in
    let (hooker, there) = hook_with-orig memory self function hook in
    let size = length (new_block memory self function).1 in
    let self' : LhHooker = record self { rwx_block_used = self.rwx_block_used + size } in
    let start = self.rwx_block + self.rwx_block_used in
    let e : (hook_with aarch64 memory self function hook true).0.0 ≡ some self' =
      hooker ∙ ap some made in
    let bytes = ap length (new_block-bytes memory self' self function) in
    (
      self',
      e,
      rw (placed-some memory function self' start blocks e (there ∙ ap some place)) (record {
        same_block = refl;
        same_size = refl;
        used = omega arith;
        stacked = λ s. (s, omega (arith, bytes));
      }),
    )
