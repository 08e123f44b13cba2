-- ===== src/Dict/Insert.antt =====
-- `KH_InsertSlot` of jni/hashtable.h on a slot array that is not full.
use native.Mathlib.Nat.{mod-lt, mod-eq_of_lt, mod-add-mod, add-mod-mod}
use kn_shim.Base.{
  ℕ, zero, suc, ◌+◌, ◌-◌, ◌%◌, ◌^◌, ◌<◌, ◌≡◌, refl, sym, ap, ◌∙◌, inl, inr, true, false, some, List,
  length, get_elem?, get_or, set, length-set, get_elem?-eq-get_or, get_or-set_self, get_or-set_ne,
  arith, Bool-cases, ℕ_discrete, Returns,
}
use kn_shim.Dict.Slots.{
  hash_empty, hash_deleted, is_free, mask, starting_index, insert_slot_loop, insert_slot,
}
use kn_shim.Dict.Probe.{
  IsCapacity, mask-mod, starting_index-mod, occupied, count, Reach, Slotted, count-zero, count-set,
  occupied-set, free_slot,
}

-- Where the walk from `hash` stops: the first free slot.
pub record FirstFree (n : ℕ) (hash : ℕ) (slots : List ℕ) (d : ℕ) : Type 0 where
  pub near : d < n
  pub free : is_free (get_or slots ((hash + d) % n) hash_empty) ≡ true
  pub taken : (e : ℕ) → e < d → is_free (get_or slots ((hash + e) % n) hash_empty) ≡ false

pub next_position : (hash d n : ℕ) → ((hash + d) % n + 1) % n ≡ (hash + suc d) % n
next_position hash d n = mod-add-mod (hash + d) n 1 ∙ ap (λ t. t % n) (omega arith)

-- A position is reached from every start.
pub offset_of : (hash n p : ℕ) → p < n → (d : ℕ) × (d < n) × ((hash + d) % n ≡ p)
offset_of hash n p h =
    let start = hash % n in
    let lt : start < n = mod-lt hash (omega arith) in
    (
      (p + n - start) % n,
      mod-lt (p + n - start) (omega arith),
      add-mod-mod hash (p + n - start) n
          ∙ sym (mod-add-mod hash n (p + n - start))
          ∙ ap (λ t. t % n) e
          ∙ wrap,
    )
  where
    e : hash % n + (p + n - hash % n) ≡ p + n
    e = omega (arith, mod-lt hash {m = n} (omega arith))

    wrap : (p + n) % n ≡ p
    wrap = grind arith

insert_slot_loop_stop :
    (fuel n i index s : ℕ) (slots : List ℕ)
    → get_elem? slots i ≡ some s
    → is_free s ≡ true
    → insert_slot_loop (suc fuel) slots n i index ≡ some (set slots i index)
unfolding insert_slot_loop
insert_slot_loop_stop fuel n i index s slots e free = ground arith

insert_slot_loop_next :
    (fuel n i index s : ℕ) (slots : List ℕ)
    → get_elem? slots i ≡ some s
    → is_free s ≡ false
    → insert_slot_loop (suc fuel) slots n i index
      ≡ insert_slot_loop fuel slots n (mask (i + 1) n % 2 ^ 32) index
unfolding insert_slot_loop
insert_slot_loop_next fuel n i index s slots e taken = ground arith

module _ {n : ℕ} (cap : IsCapacity n) (hash index : ℕ) (slots : List ℕ)
    (width : length slots ≡ n) where
  insert_slot_loop_walk :
      (fuel d : ℕ)
      → d + fuel ≡ n
      → ((e : ℕ) → e < d → is_free (get_or slots ((hash + e) % n) hash_empty) ≡ false)
      → (d' : ℕ) → d' < n
      → is_free (get_or slots ((hash + d') % n) hash_empty) ≡ true
      → Returns
          (insert_slot_loop fuel slots n ((hash + d) % n) index)
          λ r. (d : ℕ) × FirstFree n hash slots d × (r ≡ set slots ((hash + d) % n) index)
  insert_slot_loop_walk zero d e taken d' near free =
      unfold insert_slot_loop in absurd (ground (arith, taken d'))
  insert_slot_loop_walk (suc fuel) d e taken d' near free =
      let p = (hash + d) % n in
      let here : p < length slots = omega (arith, mod-lt (hash + d) {m = n} (omega arith), width) in
      elim (Bool-cases (is_free (get_or slots p hash_empty))) [
        | inl yes' ↦ (
          set slots p index,
          insert_slot_loop_stop fuel n p index _ slots (get_elem?-eq-get_or slots p hash_empty here)
              yes',
          (d, record { near = omega arith; free = yes'; taken = taken }, refl),
        )
        | inr no' ↦
            let (r, run, found) =
              insert_slot_loop_walk fuel (suc d) (omega arith)
                (λ k lt. elim (ℕ_discrete k d) [
                  | yes same ↦ rw same no'
                  | no other ↦ taken k (omega arith)
                ])
                d' near free in
            (
              r,
              insert_slot_loop_next fuel n p index _ slots
                    (get_elem?-eq-get_or slots p hash_empty here) no'
                  ∙ rw (step d) run,
              found,
            )
      ]
    where
      step : (d : ℕ) → mask ((hash + d) % n + 1) n % 2 ^ 32 ≡ (hash + suc d) % n
      step d =
          let e : mask ((hash + d) % n + 1) n ≡ (hash + suc d) % n =
            mask-mod ((hash + d) % n + 1) cap ∙ next_position hash d n in
          rw e (
            mod-eq_of_lt
              (omega (arith, mod-lt (hash + suc d) {m = n} (omega (arith, cap.least)), cap.most)))

  pub insert_slot-FirstFree :
      index < 2 ^ 32
      → occupied slots < n
      → Returns
          (insert_slot slots n hash index)
          λ r. (d : ℕ) × FirstFree n hash slots d × (r ≡ set slots ((hash + d) % n) index)
  unfolding insert_slot
  insert_slot-FirstFree small room =
      let (p, lt, free) = free_slot slots (omega (arith, width)) in
      let (d, near, at) = offset_of hash n p (omega (arith, width)) in
      let start : starting_index hash n ≡ (hash + 0) % n =
        starting_index-mod hash cap ∙ ap (λ t. t % n) (omega arith) in
      rw (start, mod-eq_of_lt small)
        (insert_slot_loop_walk n 0 (omega arith) (λ e h. absurd (omega arith)) d near (rw at free))

-- A slot array that leads to `c` pairs leads to one more afterwards.
pub insert_slot-Slotted :
    {n : ℕ} {hash_of : ℕ → ℕ} {slots : List ℕ} {c : ℕ}
    → IsCapacity n
    → Slotted n hash_of slots c
    → c < n
    → c < hash_deleted
    → Returns (insert_slot slots n (hash_of c) c) λ r. Slotted n hash_of r (suc c)
insert_slot-Slotted {n} {hash_of} {slots} {c} cap s room small =
    let (r, run, (d, first, e)) =
      insert_slot-FirstFree cap (hash_of c) c slots s.width (omega arith)
        (omega (arith, s.filled)) in
    (r, run, rw e (extended d first))
  where
    fresh : count c slots ≡ 0
    fresh = count-zero slots c (λ p lt. ground (arith, s.bounded p))

    newest :
        (d : ℕ)
        → FirstFree n (hash_of c) slots d
        → (hash_of c + d) % n < length slots
        → Reach n (hash_of c) (set slots ((hash_of c + d) % n) c) c
    newest d first here = record {
      offset = d;
      near = first.near;
      holds = get_or-set_self slots ((hash_of c + d) % n) c hash_empty here;
      used = λ e lt. elim (ℕ_discrete ((hash_of c + d) % n) ((hash_of c + e) % n)) [
        | yes same ↦
            rw (← same, get_or-set_self slots ((hash_of c + d) % n) c hash_empty here) (omega arith)
        | no other ↦ rw (get_or-set_ne slots c hash_empty other) (ground (arith, first.taken e))
      ];
    }

    older :
        (d : ℕ)
        → FirstFree n (hash_of c) slots d
        → (hash_of c + d) % n < length slots
        → {hash j : ℕ} → Reach n hash slots j
        → j < c
        → Reach n hash (set slots ((hash_of c + d) % n) c) j
    older d first here {hash} {j} r lt = record {
      offset = r.offset;
      near = r.near;
      holds = elim (ℕ_discrete ((hash_of c + d) % n) ((hash + r.offset) % n)) [
        | yes same ↦ absurd (ground (arith, first.free, r.holds, same))
        | no other ↦ rw (get_or-set_ne slots c hash_empty other) r.holds
      ];
      used = λ e lt. elim (ℕ_discrete ((hash_of c + d) % n) ((hash + e) % n)) [
        | yes same ↦
            rw (← same, get_or-set_self slots ((hash_of c + d) % n) c hash_empty here) (omega arith)
        | no other ↦ rw (get_or-set_ne slots c hash_empty other) (r.used e lt)
      ];
    }

    extended :
        (d : ℕ)
        → FirstFree n (hash_of c) slots d
        → Slotted n hash_of (set slots ((hash_of c + d) % n) c) (suc c)
    extended d first =
        let p = (hash_of c + d) % n in
        let here : p < length slots =
          omega (arith, mod-lt (hash_of c + d) {m = n} (omega arith), s.width) in
        record {
          width = length-set slots p c ∙ s.width;
          bounded = λ q. elim (ℕ_discrete p q) [
            | yes same ↦ inr (rw (← same, get_or-set_self slots p c hash_empty here) (omega arith))
            | no other ↦ rw (get_or-set_ne slots c hash_empty other) (ground (arith, s.bounded q))
          ];
          filled = ground (arith, occupied-set slots p c here first.free, s.filled);
          single = λ j h. elim (ℕ_discrete j c) [
            | yes same ↦ rw same (ground (arith, count-set slots p c c here, fresh, first.free))
            | no other ↦
                ground (arith, count-set slots p c j here, s.single j (omega arith), first.free)
          ];
          reach = λ j h. elim (ℕ_discrete j c) [
            | yes same ↦ rw same (newest d first here)
            | no other ↦ older d first here (s.reach j (omega arith)) (omega arith)
          ];
        }
