-- ===== src/Leaf/Symbols/Search.antt =====
-- The two lookups by name of jni/andrleaf.h.
use kn_shim.Base.{
  ℕ, zero, suc, ◌+◌, ◌<◌, ◌≡◌, refl, ◌∙◌, inl, inr, ap, true, false, Option, none, some, arith,
}
use kn_shim.Dict.Blob.{Bytes}
use kn_shim.Memory.Region.{load_number}
use kn_shim.Leaf.{Outcome, Outcome-cases, done, ◌>>=◌, access}
use kn_shim.Leaf.Symbols.{
  SymbolTable, sym_at, has_name, symbol_info, symbol_info_loop, symbol_addr, symbol_addr_loop,
}

-- The `st_value` of a symbol that was found.
pub value_of : Bytes → SymbolTable → Option ℕ → Outcome (Option ℕ)
value_of blob t none = done none
value_of blob t (some i) = do v ← access (load_number blob (sym_at t i + 8) 8); done (some v)

symbol_addr_loop_lem :
    (rounds i : ℕ) (blob : Bytes) (t : SymbolTable) (name : Bytes)
    → symbol_addr_loop rounds i blob t name
      ≡ (symbol_info_loop rounds i blob t name >>= value_of blob t)
unfolding symbol_addr_loop symbol_info_loop value_of
symbol_addr_loop_lem zero i blob t name = refl
symbol_addr_loop_lem (suc rounds) i blob t name =
    let ih = symbol_addr_loop_lem rounds (i + 1) blob t name in
    elim (Outcome-cases (has_name blob t name i)) [
      | inl (true, e) ↦ rw e refl
      | inl (false, e) ↦ rw e ih
      | inr (inl (_, e)) ↦ rw e refl
      | inr (inr (inl e)) ↦ rw e refl
      | inr (inr (inr e)) ↦ rw e refl
    ]

symbol_info_loop-first :
    (before rounds i : ℕ) (blob : Bytes) (t : SymbolTable) (name : Bytes)
    → before < rounds
    → ((j : ℕ) → j < before → has_name blob t name (i + j) ≡ done false)
    → has_name blob t name (i + before) ≡ done true
    → symbol_info_loop rounds i blob t name ≡ done (some (i + before))
unfolding symbol_info_loop
symbol_info_loop-first before zero i blob t name h none_before found = absurd (omega arith)
symbol_info_loop-first zero (suc rounds) i blob t name h none_before found =
    let e : i + 0 ≡ i = omega arith in
    let here : has_name blob t name i ≡ done true = rw e at found in rw (here, e) refl
symbol_info_loop-first (suc before) (suc rounds) i blob t name h none_before found =
    let e : i + 0 ≡ i = omega arith in
    let here : has_name blob t name i ≡ done false = rw e at (none_before 0 (omega arith)) in
    let shift : (j : ℕ) → i + 1 + j ≡ i + suc j = λ j. omega arith in
    rw here (
      symbol_info_loop-first before rounds (i + 1) blob t name (omega arith)
        (λ j lt. rw (shift j) (none_before (suc j) (omega arith))) (rw (shift before) found)
      ∙ ap (λ k. done (some k)) (shift before))

-- `LeafSymbolInfo` finds the first symbol of the name, where every name before it can be read.
pub symbol_info-first :
    (i : ℕ) (blob : Bytes) (t : SymbolTable) (name : Bytes)
    → i < t.sym_count
    → ((j : ℕ) → j < i → has_name blob t name j ≡ done false)
    → has_name blob t name i ≡ done true
    → symbol_info blob t name ≡ done (some i)
unfolding symbol_info
symbol_info-first i blob t name h none_before found =
    let e : (j : ℕ) → 0 + j ≡ j = λ j. omega arith in
    symbol_info_loop-first i t.sym_count 0 blob t name h (λ j lt. rw (e j) (none_before j lt))
      (rw (e i) found)
    ∙ ap (λ k. done (some k)) (e i)

-- `LeafSymbolAddr` answers the `st_value` of the symbol that `LeafSymbolInfo` finds, NULL where it
-- finds none, and is undefined where that is.
pub symbol_addr-symbol_info :
    (blob : Bytes) (t : SymbolTable) (name : Bytes)
    → symbol_addr blob t name ≡ (symbol_info blob t name >>= value_of blob t)
unfolding symbol_addr symbol_info
symbol_addr-symbol_info blob t name = symbol_addr_loop_lem t.sym_count 0 blob t name
