-- ===== src/Dict/Vacate.antt =====
-- The fix-up of the slots in `KH_DictRemove` of jni/hashtable.h.
use kn_shim.Base.{
  ℕ, suc, ◌+◌, ◌-◌, ◌<◌, ◌≡◌, refl, ◌∙◌, ◌≢◌, ◌⊎◌, true, List, [], ◌∷◌, map, get_or, length-map,
  get_or-map, ltb, ◌==◌, if◌then◌else◌, arith,
}
use kn_shim.Dict.Slots.{hash_empty, hash_deleted, is_free}
use kn_shim.Dict.Table.{fix_slot}
use kn_shim.Dict.Probe.{occupied, count, Reach, Slotted}

-- The index that a remaining pair had.
abbrev pub before_removal : ℕ → ℕ → ℕ
before_removal j i = if ltb i j then i else i + 1

-- Every slot is free or below `c`.
abbrev AreBounded : ℕ → List ℕ → Type 0
AreBounded c slots =
    (p : ℕ) → (is_free (get_or slots p hash_empty) ≡ true) ⊎ (get_or slots p hash_empty < c)

module _ (j c : ℕ) (small : c < hash_deleted) (in_use : j < c) where
  fix_slot_bounded :
      (s : ℕ)
      → (is_free s ≡ true) ⊎ (s < c)
      → (is_free (fix_slot j s) ≡ true) ⊎ (fix_slot j s < c - 1)
  unfolding fix_slot
  fix_slot_bounded s h = ground arith

  fix_slot-before_removal : (i : ℕ) → i < c - 1 → fix_slot j (before_removal j i) ≡ i
  unfolding fix_slot
  fix_slot-before_removal i h = ground arith

  fix_slot-ne-empty :
      (s : ℕ) → (is_free s ≡ true) ⊎ (s < c) → s ≢ hash_empty → fix_slot j s ≢ hash_empty
  unfolding fix_slot
  fix_slot-ne-empty s h ne = ground arith

  fix_slot_hit :
      (s i : ℕ)
      → (is_free s ≡ true) ⊎ (s < c)
      → i < c - 1
      → (fix_slot j s == i) ≡ (s == before_removal j i)
  unfolding fix_slot
  fix_slot_hit s i h lt = ground arith

  fix_slot_occupied :
      (s : ℕ)
      → (is_free s ≡ true) ⊎ (s < c)
      → (if is_free (fix_slot j s) then 0 else 1) + (if s == j then 1 else 0)
        ≡ (if is_free s then 0 else 1)
  unfolding fix_slot
  fix_slot_occupied s h = ground arith

  occupied-fix_slot :
      (slots : List ℕ)
      → AreBounded c slots
      → occupied (map (fix_slot j) slots) + count j slots ≡ occupied slots
  unfolding occupied count
  occupied-fix_slot [] h = refl
  occupied-fix_slot (s ∷ slots) h =
      omega (arith, fix_slot_occupied s (h 0), occupied-fix_slot slots (λ p. h (suc p)))

  count-fix_slot :
      (slots : List ℕ) (i : ℕ)
      → AreBounded c slots
      → i < c - 1
      → count i (map (fix_slot j) slots) ≡ count (before_removal j i) slots
  unfolding count
  count-fix_slot [] i h lt = refl
  count-fix_slot (s ∷ slots) i h lt =
      rw (fix_slot_hit s i (h 0) lt, count-fix_slot slots i (λ p. h (suc p)) lt)

  get_or-fix_slot :
      (slots : List ℕ) (p : ℕ)
      → get_or (map (fix_slot j) slots) p hash_empty ≡ fix_slot j (get_or slots p hash_empty)
  unfolding fix_slot
  get_or-fix_slot slots p = get_or-map (fix_slot j) slots p hash_empty

  pub fix_slots-Slotted :
      {n : ℕ} {hash_of : ℕ → ℕ} {slots : List ℕ}
      → Slotted n hash_of slots c
      → Slotted n (λ i. hash_of (before_removal j i)) (map (fix_slot j) slots) (c - 1)
  fix_slots-Slotted {n} {hash_of} {slots} s = record {
    width = length-map (fix_slot j) slots ∙ s.width;
    bounded = λ p. rw (get_or-fix_slot slots p) (fix_slot_bounded _ (s.bounded p));
    filled = omega (arith, occupied-fix_slot slots s.bounded, s.single j in_use, s.filled);
    single =
        λ i h. count-fix_slot slots i s.bounded h ∙ s.single (before_removal j i) (ground arith);
    reach = λ i h. moved i h (s.reach (before_removal j i) (ground arith));
  }
    where
      moved :
          (i : ℕ)
          → i < c - 1
          → {hash : ℕ} → Reach n hash slots (before_removal j i)
          → Reach n hash (map (fix_slot j) slots) i
      moved i h r = record {
        offset = r.offset;
        near = r.near;
        holds = rw (get_or-fix_slot slots, r.holds) (fix_slot-before_removal i h);
        used = λ e lt. rw (get_or-fix_slot slots) (fix_slot-ne-empty _ (s.bounded _) (r.used e lt));
      }
