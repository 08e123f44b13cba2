-- ===== src/LeafHook/Hooker/Session/Within.antt =====
-- Where the new blocks of a session of `KNHookFunction` lie.
use kn_shim.Base.{
  ℕ, ◌+◌, ◌*◌, ◌≤◌, ◌≡◌, refl, sym, ap, ◌∙◌, Bool, Option, none, some, List, [], ◌∷◌, length, arith,
  Option-cases, inl, inr,
}
use kn_shim.LeafHook.{LhHooker}
use kn_shim.LeafHook.Hooker.{Pages, aarch64, hook_init, hook_with, hook_first, hook_function}
use kn_shim.LeafHook.Hooker.Session.{HookCall, placed, hook_call, session, first_hooker, Stacked}
use kn_shim.LeafHook.Hooker.Session.Advance.{hook_with-Advances}

Stacked-le :
    (base : ℕ) (blocks : List (ℕ × ℕ)) (top top' : ℕ)
    → Stacked base blocks top
    → top ≤ top'
    → Stacked base blocks top'
Stacked-le base [] top top' s h = omega arith
Stacked-le base ((start, size) ∷ blocks) top top' s h = (s.0, omega (arith, s.1))

-- A whole session where there is a hooker.
session-Advances :
    (calls : List HookCall) (memory : ℕ → ℕ) (self : LhHooker) (blocks : List (ℕ × ℕ)) (n : ℕ)
    → self.rwx_block_used ≤ 64 * n
    → Stacked self.rwx_block blocks (self.rwx_block + self.rwx_block_used)
    → let (g, memory', blocks') = session calls (some self, memory, blocks) in
      (self' : LhHooker) × (g ≡ some self')
      × (self'.rwx_block ≡ self.rwx_block)
      × (self'.rwx_block_size ≡ self.rwx_block_size)
      × (self'.rwx_block_used ≤ 64 * (n + length calls))
      × Stacked self'.rwx_block blocks' (self'.rwx_block + self'.rwx_block_used)
unfolding session hook_call
session-Advances [] memory self blocks n used stacked =
    (self, refl, refl, refl, omega arith, stacked)
session-Advances (call ∷ calls) memory self blocks n used stacked =
    let ((g, memory', place), success) =
      hook_with aarch64 memory self call.function call.hook call.orig in
    let blocks' = placed memory call.function g place blocks in
    let (self', there, step) =
      hook_with-Advances memory self call.function call.hook call.orig blocks in
    let (last, e, block, size, used', stacked') =
      session-Advances calls memory' self' blocks' (n + 1) (omega (arith, step.used))
        (step.stacked stacked) in
    let p = ap (λ x. session calls (x, memory', blocks')) there in
    (
      last,
      ap (λ r. r.0) p ∙ e,
      block ∙ step.same_block,
      size ∙ step.same_size,
      omega arith,
      rw (ap (λ r. r.2) p) stacked',
    )

-- A hooker that was just made has no bytes in use.
hook_init-unused :
    (pages : Pages) {self : LhHooker} → (hook_init pages).0 ≡ some self → self.rwx_block_used ≡ 0
unfolding hook_init
hook_init-unused pages {self} h = ground arith

-- The first call at which a hooker can be made is as a call with that hooker.
hook_first-made :
    (call : HookCall) (memory : ℕ → ℕ) (made : Option LhHooker × Bool) {self : LhHooker}
    → made.0 ≡ some self
    → hook_first aarch64 memory made call.function call.hook call.orig
      ≡ hook_with aarch64 memory self call.function call.hook call.orig
unfolding hook_first
hook_first-made call memory (none, success) h = absurd (cc)
hook_first-made call memory (some first, success) {self} h =
    let same : first ≡ self = cc in
    ap (λ f. hook_with aarch64 memory f call.function call.hook call.orig) same

hook_call-made :
    (call : HookCall) (memory : ℕ → ℕ) {self : LhHooker}
    → (hook_init call.pages).0 ≡ some self
    → hook_call call (none, memory, []) ≡ hook_call call (some self, memory, [])
unfolding hook_call hook_function
hook_call-made call memory h =
    ap (λ r. (r.0.0, r.0.1, placed memory call.function r.0.0 r.0.2 []))
      (hook_first-made call memory (hook_init call.pages) h)

hook_first-not_made :
    (call : HookCall) (memory : ℕ → ℕ) (made : Option LhHooker × Bool)
    → made.0 ≡ none
    → (hook_first aarch64 memory made call.function call.hook call.orig).0 ≡ (none, memory, none)
unfolding hook_first
hook_first-not_made call memory (none, success) h = refl
hook_first-not_made call memory (some first, success) h = absurd (cc)

hook_call-not_made :
    (call : HookCall) (memory : ℕ → ℕ)
    → (hook_init call.pages).0 ≡ none
    → hook_call call (none, memory, []) ≡ (none, memory, [])
unfolding hook_call hook_function
hook_call-not_made call memory h =
    ap (λ r. (r.0, r.1, placed memory call.function r.0 r.2 []))
      (hook_first-not_made call memory (hook_init call.pages) h)

fields :
    (made self : LhHooker)
    → made.rwx_block_used ≡ 0
    → made.rwx_block ≡ self.rwx_block
    → made.rwx_block_size ≡ self.rwx_block_size
    → made ≡ record self { rwx_block_used = 0 }
fields made self unused block size =
    λ i. record { rwx_block = block i; rwx_block_size = size i; rwx_block_used = unused i }

-- Of a session from the start of the program: the hooker is that of the first call at which one
-- can be made; none is made again.
session-first :
    (calls : List HookCall) (memory : ℕ → ℕ) {self : LhHooker}
    → (session calls (none, memory, [])).0 ≡ some self
    → (first_hooker calls ≡ some (record self { rwx_block_used = 0 }))
      × (self.rwx_block_used ≤ 64 * length calls)
      × Stacked self.rwx_block
          (session calls (none, memory, [])).2
          (self.rwx_block + self.rwx_block_used)
unfolding session first_hooker
session-first [] memory h = absurd (cc)
session-first (call ∷ calls) memory {self} h = elim (Option-cases (hook_init call.pages).0) [
  | inl e ↦
      let p = ap (session calls) (hook_call-not_made call memory e) in
      let (first, used, stacked) = session-first calls memory (ap (λ r. r.0) (sym p) ∙ h) in
      (rw e first, omega arith, rw p stacked)
  | inr (made, e) ↦
      let p = ap (session calls) (hook_call-made call memory e) in
      let unused = hook_init-unused call.pages e in
      let (last, there, block, size, used, stacked) =
        session-Advances (call ∷ calls) memory made [] 0 (omega arith) (omega arith) in
      let same : last ≡ self = cc (sym there ∙ ap (λ r. r.0) (sym p) ∙ h) in
      let first : made ≡ record self { rwx_block_used = 0 } =
        fields made self unused (sym block ∙ ap (λ l. l.rwx_block) same)
          (sym size ∙ ap (λ l. l.rwx_block_size) same) in
      (
        rw e (ap some first),
        omega (arith, ap (λ l. l.rwx_block_used) same),
        rw (← same) (rw p stacked),
      )
]

-- Of a session of `KNHookFunction` calls on AArch64 from the start of the program, where 64 bytes
-- for each call fit into the mapped pages: the hooker is the one of the first call at which one can
-- be made, and is not made again; the new blocks lie in its pages and none overlaps another.
pub session-Stacked :
    (calls : List HookCall) (memory : ℕ → ℕ) {self : LhHooker}
    → (session calls (none, memory, [])).0 ≡ some self
    → 64 * length calls ≤ self.rwx_block_size
    → (first_hooker calls ≡ some (record self { rwx_block_used = 0 }))
      × Stacked self.rwx_block
          (session calls (none, memory, [])).2
          (self.rwx_block + self.rwx_block_size)
session-Stacked calls memory {self} h few =
    let (first, used, stacked) = session-first calls memory h in
    (
      first,
      Stacked-le self.rwx_block (session calls (none, memory, [])).2 _ _ stacked (omega arith),
    )
