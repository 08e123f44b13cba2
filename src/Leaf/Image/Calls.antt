-- ===== src/Leaf/Image/Calls.antt =====
-- The order of the calls into the loaded program.
use kn_shim.Base.{
  ℕ, zero, suc, ◌+◌, ◌-◌, ◌*◌, ◌≤◌, ◌≡◌, refl, sym, ◌∙◌, inl, inr, ap, Bool-cases, List, [], ◌∷◌,
  ◌++◌, append-nil, append_assoc, length, take, drop, ◌==◌, arith, if◌then◌else◌,
}
use kn_shim.Dict.Blob.{Bytes}
use kn_shim.Memory.Region.{number_of, load_number_lem}
use kn_shim.Leaf.{done, Linker}
use kn_shim.Leaf.Image.{init_calls, Leaf, finish_loop, finish}

abbrev pub reverse : List ℕ → List ℕ
reverse [] = []
reverse (x ∷ xs) = reverse xs ++ (x ∷ [])

-- A pointer in an array, and its call, if it is not NULL.
abbrev pub pointer : ℕ → Bytes → ℕ → ℕ
pointer array blob i = number_of (take 8 (drop (array + 8 * i) blob))

unfoldable pub called : ℕ → List ℕ
called func = if func == 0 then [] else func ∷ []

-- The calls of `n` pointers of an array, from number `i` on, in their order.
unfoldable pub in_order : ℕ → ℕ → ℕ → Bytes → List ℕ
in_order zero i array blob = []
in_order (suc n) i array blob = called (pointer array blob i) ++ in_order n (i + 1) array blob

reverse-called : (xs : List ℕ) (f : ℕ) → reverse (xs ++ called f) ≡ called f ++ reverse xs
unfolding called
reverse-called [] f = elim (Bool-cases (f == 0)) [ inl e ↦ rw e refl | inr e ↦ rw e refl ]
reverse-called (x ∷ xs) f =
    ap (λ l. l ++ (x ∷ [])) (reverse-called xs f) ∙ append_assoc (called f) (reverse xs) (x ∷ [])

in_order-last :
    (n i array : ℕ) (blob : Bytes)
    → in_order (suc n) i array blob ≡ in_order n i array blob ++ called (pointer array blob (i + n))
unfolding in_order
in_order-last zero i array blob =
    let e : i + 0 ≡ i = omega arith in rw e (append-nil (called (pointer array blob i)))
in_order-last (suc n) i array blob =
    let e : i + 1 + n ≡ i + suc n = omega arith in
    ap (λ l. called (pointer array blob i) ++ l)
      (in_order-last n (i + 1) array blob
        ∙ ap (λ k. in_order n (i + 1) array blob ++ called (pointer array blob k)) e)
    ∙ sym (
        append_assoc (called (pointer array blob i)) (in_order n (i + 1) array blob)
          (called (pointer array blob (i + suc n))))

cons-called : (f : ℕ) (xs : List ℕ) → (if f == 0 then xs else f ∷ xs) ≡ called f ++ xs
unfolding called
cons-called f xs = elim (Bool-cases (f == 0)) [ inl e ↦ rw e refl | inr e ↦ rw e refl ]

init_calls-in_order :
    (n i array : ℕ) (blob : Bytes)
    → array + 8 * (i + n) ≤ length blob
    → init_calls n i array blob ≡ done (in_order n i array blob)
unfolding init_calls in_order
init_calls-in_order zero i array blob h = refl
init_calls-in_order (suc n) i array blob h =
    rw
      (
        load_number_lem blob (array + 8 * i) 8 (omega arith),
        init_calls-in_order n (i + 1) array blob (omega arith),
      )
      (ap done (cons-called _ _))

module _ (linker : Linker) where
  finish_loop-reverse :
      (n i : ℕ) (self : Leaf linker)
      → self.fini_count + 1 ≡ i + n
      → 1 ≤ i
      → self.fini_array + 8 * self.fini_count ≤ length self.blob
      → finish_loop linker n i self ≡ done (reverse (in_order n 0 self.fini_array self.blob))
  unfolding finish_loop in_order
  finish_loop-reverse zero i self e pos h = refl
  finish_loop-reverse (suc n) i self e pos h =
      let index : self.fini_count - i ≡ n = omega arith in
      let from_zero : 0 + n ≡ n = omega arith in
      let last = in_order-last n 0 self.fini_array self.blob in
      rw
        (
          index,
          load_number_lem self.blob (self.fini_array + 8 * n) 8 (omega arith),
          finish_loop-reverse n (i + 1) self (omega arith) (omega arith) h,
          last,
          from_zero,
          reverse-called,
        )
        (ap done (cons-called _ _))

  -- Where the array of fini functions is in the mapped memory, `LeafFinish` calls the functions
  -- that are not NULL in the reverse of their order in the array, which is the order that
  -- `LeafLoadFromBuffer` would call them in if they were init functions.
  pub finish-reverses :
      (self : Leaf linker)
      → self.fini_array + 8 * self.fini_count ≤ length self.blob
      → (init_calls self.fini_count 0 self.fini_array self.blob
          ≡ done (in_order self.fini_count 0 self.fini_array self.blob))
        × (finish linker self
            ≡ done (reverse (in_order self.fini_count 0 self.fini_array self.blob)))
  unfolding finish
  finish-reverses self h = (
    init_calls-in_order self.fini_count 0 self.fini_array self.blob (omega arith),
    finish_loop-reverse self.fini_count 1 self (omega arith) (omega arith) h,
  )
