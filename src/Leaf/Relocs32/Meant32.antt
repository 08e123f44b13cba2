-- ===== src/Leaf/Relocs32/Meant32.antt =====
-- What the 32-bit relocations are to store, by the numbers of their types.
use kn_shim.Base.{
  ℕ, ◌+◌, ◌-◌, ◌*◌, ◌/◌, ◌%◌, ◌^◌, ◌≤◌, ◌≡◌, ◌≢◌, refl, sym, ap, ◌∙◌, ◌⊎◌, inl, inr, Bool-cases,
  true, false, none, some, take, drop, length, ◌==◌, ==_iff, arith, List, [], ◌∷◌,
}
use kn_shim.Dict.Blob.{Bytes}
use kn_shim.Memory.Region.{number_of, load_number, load_number_lem}
use kn_shim.Leaf.{done}
use kn_shim.Leaf.Relocs32.{Target, arm, i386, Rel, kind_of_rel, rel_value, thumb_value}
use kn_shim.Leaf.Relocs32.Applied32.{
  Table32, no_entry, entry, Holds32, unchanged, stored, AllHold32,
}

-- The number of the type, and the value and the kind of the symbol.
abbrev pub type_of : Rel → ℕ
type_of r = r.r_info % 2 ^ 8

abbrev pub symbol_value_at : ℕ → Rel → ℕ
symbol_value_at symtab r = symtab + 16 * (r.r_info / 2 ^ 8) + 4

abbrev pub symbol_kind_at : ℕ → Rel → ℕ
symbol_kind_at symtab r = symtab + 16 * (r.r_info / 2 ^ 8) + 12

-- What memory holds at the place of a relocation, by its type: on ARM 23 is R_ARM_RELATIVE, 22
-- R_ARM_JUMP_SLOT and 21 R_ARM_GLOB_DAT; on i386 8 is R_386_RELATIVE, 6 R_386_GLOB_DAT and 7
-- R_386_JMP_SLOT; a symbol of kind 2 is a function, of Thumb code where its value is odd. `a` is
-- the addend, which was at the place.
pub data IsRelocated (base symtab : ℕ) (orig new : Bytes) (r : Rel) : Target → Type 0 where
  arm_relative :
      (a : ℕ)
      → type_of r ≡ 23
      → load_number orig r.r_offset 4 ≡ some a
      → load_number new r.r_offset 4 ≡ some ((base + a) % 2 ^ 32)
      → IsRelocated base symtab orig new r arm
  arm_jump_slot :
      (s : ℕ)
      → type_of r ≡ 22
      → load_number orig (symbol_value_at symtab r) 4 ≡ some s
      → load_number new r.r_offset 4 ≡ some (s % 2 ^ 32)
      → IsRelocated base symtab orig new r arm
  arm_glob_dat :
      (a s t : ℕ)
      → type_of r ≡ 21
      → load_number orig r.r_offset 4 ≡ some a
      → load_number orig (symbol_value_at symtab r) 4 ≡ some s
      → load_number orig (symbol_kind_at symtab r) 1 ≡ some t
      → (t % 16 ≢ 2) ⊎ (s % 2 ≢ 1)
      → load_number new r.r_offset 4 ≡ some ((a + (s - s % 2)) % 2 ^ 32)
      → IsRelocated base symtab orig new r arm
  arm_thumb_function :
      (a s t : ℕ)
      → type_of r ≡ 21
      → load_number orig r.r_offset 4 ≡ some a
      → load_number orig (symbol_value_at symtab r) 4 ≡ some s
      → load_number orig (symbol_kind_at symtab r) 1 ≡ some t
      → t % 16 ≡ 2
      → s % 2 ≡ 1
      → load_number new r.r_offset 4 ≡ some ((a + (s - 1)) % 2 ^ 32 / 2 * 2 + 1)
      → IsRelocated base symtab orig new r arm
  arm_other :
      (type_of r ≢ 23) × (type_of r ≢ 22) × (type_of r ≢ 21)
      → load_number new r.r_offset 4 ≡ load_number orig r.r_offset 4
      → IsRelocated base symtab orig new r arm
  i386_relative :
      (a : ℕ)
      → type_of r ≡ 8
      → load_number orig r.r_offset 4 ≡ some a
      → load_number new r.r_offset 4 ≡ some ((base + a) % 2 ^ 32)
      → IsRelocated base symtab orig new r i386
  i386_symbol :
      (s : ℕ)
      → (type_of r ≡ 6) ⊎ (type_of r ≡ 7)
      → load_number orig (symbol_value_at symtab r) 4 ≡ some s
      → load_number new r.r_offset 4 ≡ some (s % 2 ^ 32)
      → IsRelocated base symtab orig new r i386
  i386_other :
      (type_of r ≢ 8) × (type_of r ≢ 6) × (type_of r ≢ 7)
      → load_number new r.r_offset 4 ≡ load_number orig r.r_offset 4
      → IsRelocated base symtab orig new r i386

held :
    {target : Target} {base symtab : ℕ} {orig new : Bytes} {r : Rel} (v : ℕ)
    → Holds32 target base symtab orig new r
    → rel_value (kind_of_rel target (type_of r)) base symtab orig r ≡ done (some v)
    → load_number new r.r_offset 4 ≡ some v
held v (unchanged h l) e = absurd (cc)
held v (stored {v = w} h l) e = let same : w ≡ v = cc in l ∙ ap some same

kept :
    {target : Target} {base symtab : ℕ} {orig new : Bytes} {r : Rel}
    → Holds32 target base symtab orig new r
    → rel_value (kind_of_rel target (type_of r)) base symtab orig r ≡ done none
    → load_number new r.r_offset 4 ≡ load_number orig r.r_offset 4
kept (unchanged h l) e = l
kept (stored h l) e = absurd (cc)

is : {a b : ℕ} → (a == b) ≡ true → a ≡ b
is {a} {b} h = (==_iff a b).0 h

is_not : {a b : ℕ} → (a == b) ≡ false → a ≢ b
is_not {a} {b} h e = cc (sym h ∙ (==_iff a b).1 e)

module _ (base symtab : ℕ) (orig new : Bytes) (r : Rel)
    (there : symtab + 16 * (r.r_info / 2 ^ 8) + 16 ≤ length orig)
    (place : r.r_offset + 4 ≤ length orig) where
  a : ℕ
  a = number_of (take 4 (drop r.r_offset orig))

  s : ℕ
  s = number_of (take 4 (drop (symbol_value_at symtab r) orig))

  t : ℕ
  t = number_of (take 1 (drop (symbol_kind_at symtab r) orig))

  at_place : load_number orig r.r_offset 4 ≡ some a
  unfolding a
  at_place = load_number_lem orig r.r_offset 4 place

  at_value : load_number orig (symbol_value_at symtab r) 4 ≡ some s
  unfolding s
  at_value = load_number_lem orig (symbol_value_at symtab r) 4 (omega arith)

  at_kind : load_number orig (symbol_kind_at symtab r) 1 ≡ some t
  unfolding t
  at_kind = load_number_lem orig (symbol_kind_at symtab r) 1 (omega arith)

  glob_dat :
      Holds32 arm base symtab orig new r
      → (type_of r == 23) ≡ false
      → (type_of r == 21) ≡ true
      → IsRelocated base symtab orig new r arm
  unfolding kind_of_rel rel_value thumb_value
  glob_dat h e1 e2 = elim (Bool-cases (s % 2 == 1)) [
    | inr even ↦
        let whole : s ≡ s - s % 2 = omega (arith, is_not even) in
        let same = ap (λ x. done (some ((a + x) % 2 ^ 32))) whole in
        arm_glob_dat a s t (is e2) at_place at_value at_kind (inr (is_not even)) (
          held _ h (elim (Bool-cases (t % 16 == 2)) [
            | inl k ↦ rw (e1, e2, at_place, at_value, at_kind, even, k) same
            | inr k ↦ rw (e1, e2, at_place, at_value, at_kind, even, k) same
          ]))
    | inl odd ↦ elim (Bool-cases (t % 16 == 2)) [
      | inl function ↦
          arm_thumb_function a s t (is e2) at_place at_value at_kind (is function) (is odd)
            (held _ h (rw (e1, e2, at_place, at_value, at_kind, odd, function) refl))
      | inr object ↦
          let less : s - 1 ≡ s - s % 2 = omega (arith, is odd) in
          let same = ap (λ x. done (some ((a + x) % 2 ^ 32))) less in
          arm_glob_dat a s t (is e2) at_place at_value at_kind (inl (is_not object))
            (held _ h (rw (e1, e2, at_place, at_value, at_kind, odd, object) same))
    ]
  ]

  Holds32-IsRelocated :
      (target : Target)
      → Holds32 target base symtab orig new r
      → IsRelocated base symtab orig new r target
  unfolding kind_of_rel rel_value
  Holds32-IsRelocated arm h = elim (Bool-cases (type_of r == 23)) [
    | inl e ↦ arm_relative a (is e) at_place (held _ h (rw (e, at_place) refl))
    | inr e1 ↦ elim (Bool-cases (type_of r == 21)) [
      | inl e ↦ glob_dat h e1 e
      | inr e2 ↦ elim (Bool-cases (type_of r == 22)) [
        | inl e ↦ arm_jump_slot s (is e) at_value (held _ h (rw (e1, e2, e, at_value) refl))
        | inr e3 ↦ arm_other (is_not e1, is_not e3, is_not e2) (kept h (rw (e1, e2, e3) refl))
      ]
    ]
  ]
  Holds32-IsRelocated i386 h = elim (Bool-cases (type_of r == 8)) [
    | inl e ↦ i386_relative a (is e) at_place (held _ h (rw (e, at_place) refl))
    | inr e1 ↦ elim (Bool-cases (type_of r == 6)) [
      | inl e ↦ i386_symbol s (inl (is e)) at_value (held _ h (rw (e1, e, at_value) refl))
      | inr e2 ↦ elim (Bool-cases (type_of r == 7)) [
        | inl e ↦ i386_symbol s (inr (is e)) at_value (held _ h (rw (e1, e2, e, at_value) refl))
        | inr e3 ↦ i386_other (is_not e1, is_not e2, is_not e3) (kept h (rw (e1, e2, e3) refl))
      ]
    ]
  ]

-- The relocations of a table.
abbrev pub AllRelocated : Target → ℕ → ℕ → Bytes → Bytes → List Rel → Type 0
AllRelocated target base symtab orig new [] = Unit
AllRelocated target base symtab orig new (r ∷ rs) =
    IsRelocated base symtab orig new r target × AllRelocated target base symtab orig new rs

pub AllHold32-AllRelocated :
    (target : Target) (base : ℕ) (new : Bytes) {symtab limit relocs : ℕ} {orig : Bytes} {i : ℕ}
    {rs : List Rel}
    → limit ≤ length orig
    → Table32 symtab limit relocs orig i rs
    → AllHold32 target base symtab orig new rs
    → AllRelocated target base symtab orig new rs
AllHold32-AllRelocated target base new top no_entry h = tt
AllHold32-AllRelocated target base new {symtab = symtab} {orig = orig} {rs = r ∷ rs} top
      (entry at below there above inside apart table) h =
    (
      Holds32-IsRelocated base symtab orig new r (omega arith) inside target h.0,
      AllHold32-AllRelocated target base new top table h.1,
    )
