-- ===== src/Dict/Lookup.antt =====
-- `KH_DictLookupIndex` of jni/hashtable.h and the entries.
use native.Mathlib.Nat.{mod-lt, mod-add-mod}
use kn_shim.Base.{
  ℕ, zero, suc, ◌+◌, ◌%◌, ◌≤◌, ◌<◌, ◌≡◌, refl, sym, ap, ◌∙◌, ◌≢◌, ◌⊎◌, inl, inr, true, false, none,
  some, [], ◌∷◌, length, get_elem?, get_or, get_elem?-eq-get_or, arith, Bool-cases, Option-cases,
  ℕ_discrete,
}
use kn_shim.Dict.Blob.{
  Bytes, bytes_eq, bytes_eq_sound, kh_hash, create_blob, blob_equal-create_blob,
}
use kn_shim.Dict.Slots.{hash_empty, hash_deleted, is_free, mask}
use kn_shim.Dict.Table.{Dict, lookup_loop, lookup_index, threshold}
use kn_shim.Dict.Assoc.{
  Entries, index_of, key_at, value_of, index_of-none_at, index_of-some_at, index_of_unique,
}
use kn_shim.Dict.Probe.{IsCapacity, mask-mod, starting_index-mod, Reach}
use kn_shim.Dict.Models.{Models, get_elem?-cells, load-lt}

module _ {m : Entries} {d : Dict} (models : Models m d) (cap : IsCapacity d.data_alloced)
    (q : Bytes) where
  slot_at : ℕ → ℕ
  slot_at i = get_or d.slots ((kh_hash q + i) % d.data_alloced) hash_empty

  read_slot :
      (i : ℕ)
      → get_elem? d.slots (mask (kh_hash q % d.data_alloced + i) d.data_alloced) ≡ some (slot_at i)
  unfolding slot_at
  read_slot i =
      let s = models.slotted in
      let e : mask (kh_hash q % d.data_alloced + i) d.data_alloced
          ≡ (kh_hash q + i) % d.data_alloced =
        mask-mod (kh_hash q % d.data_alloced + i) cap ∙ mod-add-mod (kh_hash q) d.data_alloced i in
      rw e (
        get_elem?-eq-get_or d.slots ((kh_hash q + i) % d.data_alloced) hash_empty (
          omega (
            arith,
            s.width,
            cap.least,
            mod-lt (kh_hash q + i) {m = d.data_alloced} (omega (arith, cap.least)),
          )))

  read_pair :
      (s : ℕ)
      → s < length m
      → get_elem? d.pairs s ≡ some (some (create_blob (key_at m s), create_blob (value_of m s)))
  read_pair s h = rw models.stored (get_elem?-cells m models.rest s h)

  -- A round at an unused slot, at a deleted one, at the key's, and at another key's.
  round_empty :
      (rounds i : ℕ)
      → slot_at i ≡ hash_empty
      → lookup_loop (suc rounds) i d (kh_hash q % d.data_alloced) (create_blob q) ≡ some none
  unfolding lookup_loop
  round_empty rounds i e = rw (read_slot i, e)

  round_hit :
      (rounds i : ℕ)
      → slot_at i < length m
      → is_free (slot_at i) ≡ false
      → bytes_eq q (key_at m (slot_at i)) ≡ true
      → lookup_loop (suc rounds) i d (kh_hash q % d.data_alloced) (create_blob q)
        ≡ some (some (slot_at i))
  unfolding lookup_loop
  round_hit rounds i lt used e = ground (
    arith,
    read_slot i,
    read_pair (slot_at i) lt,
    blob_equal-create_blob q (key_at m (slot_at i)),
  )

  round_miss :
      (rounds i : ℕ)
      → slot_at i ≢ hash_empty
      → (slot_at i ≡ hash_deleted)
        ⊎ ((slot_at i < length m) × (bytes_eq q (key_at m (slot_at i)) ≡ false))
      → lookup_loop (suc rounds) i d (kh_hash q % d.data_alloced) (create_blob q)
        ≡ lookup_loop rounds (i + 1) d (kh_hash q % d.data_alloced) (create_blob q)
  unfolding lookup_loop
  round_miss rounds i ne (inl gone) = rw (read_slot i, gone)
  round_miss rounds i ne (inr (lt, e)) = ground (
    arith,
    read_slot i,
    read_pair (slot_at i) lt,
    blob_equal-create_blob q (key_at m (slot_at i)),
  )

  sort_slot :
      (i : ℕ)
      → (slot_at i ≡ hash_empty)
        ⊎ ((slot_at i ≢ hash_empty)
            × ((slot_at i ≡ hash_deleted)
                ⊎ ((slot_at i < length m) × (is_free (slot_at i) ≡ false))))
  unfolding slot_at
  sort_slot i = ground (
    arith,
    models.slotted.bounded ((kh_hash q + i) % d.data_alloced),
    models.load,
    load-lt cap,
    cap.most,
  )

  lookup_loop_absent :
      index_of q m ≡ none
      → (rounds i : ℕ)
      → lookup_loop rounds i d (kh_hash q % d.data_alloced) (create_blob q) ≡ some none
  lookup_loop_absent h zero i = unfold lookup_loop in refl
  lookup_loop_absent h (suc rounds) i = elim (sort_slot i) [
    | inl e ↦ round_empty rounds i e
    | inr (ne, inl gone) ↦ round_miss rounds i ne (inl gone) ∙ lookup_loop_absent h rounds (i + 1)
    | inr (ne, inr (lt, used)) ↦
        round_miss rounds i ne (inr (lt, index_of-none_at q m (slot_at i) h lt))
        ∙ lookup_loop_absent h rounds (i + 1)
  ]

  module _ {j : ℕ} (here : index_of q m ≡ some j)
      (r : Reach d.data_alloced (kh_hash q) d.slots j) where
    at_offset : slot_at r.offset ≡ j
    unfolding slot_at
    at_offset = r.holds

    before_offset : (e : ℕ) → e < r.offset → slot_at e ≢ hash_empty
    unfolding slot_at
    before_offset = r.used

    lookup_loop_present :
        (rounds i : ℕ)
        → i + rounds ≡ d.data_alloced
        → i ≤ r.offset
        → lookup_loop rounds i d (kh_hash q % d.data_alloced) (create_blob q) ≡ some (some j)
    lookup_loop_present zero i e le = absurd (omega (arith, r.near))
    lookup_loop_present (suc rounds) i e le =
        let found = index_of-some_at q m j here in
        elim (ℕ_discrete i r.offset) [
          | yes at ↦
              let now : slot_at i ≡ j = rw at at_offset in
              round_hit rounds i (rw now found.0)
                (rw now (ground (arith, models.load, load-lt cap, cap.most))) (rw now found.1)
              ∙ ap (λ t. some (some t)) now
          | no early ↦
              let later = lookup_loop_present rounds (i + 1) (omega arith) (omega arith) in
              elim (sort_slot i) [
                | inl e ↦ absurd (before_offset i (omega arith) e)
                | inr (ne, inl gone) ↦ round_miss rounds i ne (inl gone) ∙ later
                | inr (ne, inr (lt, used)) ↦ elim (Bool-cases (bytes_eq q (key_at m (slot_at i)))) [
                  | inl same ↦
                      let now : slot_at i ≡ j =
                        ground (arith, index_of_unique q m (slot_at i) models.distinct lt) in
                      round_hit rounds i lt used same ∙ ap (λ t. some (some t)) now
                  | inr other ↦ round_miss rounds i ne (inr (lt, other)) ∙ later
                ]
              ]
        ]

  lookup_index_capacity : lookup_index d (create_blob q) ≡ some (index_of q m)
  unfolding lookup_index create_blob
  lookup_index_capacity =
      rw (starting_index-mod (kh_hash q) cap) (elim (Option-cases (index_of q m)) [
        | inl e ↦ rw e (lookup_loop_absent e d.data_alloced 0)
        | inr (j, e) ↦
            let (lt, same) = index_of-some_at q m j e in
            let key : kh_hash (key_at m j) ≡ kh_hash q =
              ap kh_hash (sym (bytes_eq_sound q (key_at m j) same)) in
            rw e (
              lookup_loop_present e (rw key at (models.slotted.reach j lt)) d.data_alloced 0
                (omega arith) (omega arith))
      ])

lookup_index_unset :
    (m : Entries) (d : Dict) (q : Bytes)
    → d.data_alloced ≡ 0
    → length m ≤ threshold d.data_alloced
    → lookup_index d (create_blob q) ≡ some (index_of q m)
unfolding lookup_index lookup_loop index_of
lookup_index_unset [] d q e h = rw (e, lookup_loop)
lookup_index_unset (_ ∷ m) d q e h = absurd (omega arith)

-- `KH_DictLookupIndex` is defined on every table that stands for entries, and answers the place
-- of the key among them.
pub lookup_index-index_of :
    {m : Entries} {d : Dict} (q : Bytes)
    → Models m d
    → lookup_index d (create_blob q) ≡ some (index_of q m)
lookup_index-index_of {m} {d} q models = elim models.capacity [
  | inr cap ↦ lookup_index_capacity models cap q
  | inl unset ↦ lookup_index_unset m d q unset models.load
]
