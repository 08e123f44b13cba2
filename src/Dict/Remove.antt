-- ===== src/Dict/Remove.antt =====
-- `KH_DictRemove` of jni/hashtable.h and the entries.
use kn_shim.Base.{
  ℕ, zero, suc, ◌+◌, ◌-◌, ◌≤◌, ◌<◌, ◌≡◌, refl, sym, ap, ◌∙◌, none, some, List, [], ◌∷◌, ◌++◌, map,
  length, get_or, length-append, length-map, append_assoc, arith, Returns,
}
use kn_shim.Dict.Blob.{Bytes, kh_hash}
use kn_shim.Dict.Slots.{hash_deleted}
use kn_shim.Dict.Table.{Cell, Dict, shift_pairs, fix_slot, dict_remove, threshold}
use kn_shim.Dict.Assoc.{
  Entries, index_of, erase, key_at, Split, index_of-Split, index_of-some_at, erase-IsDistinct,
}
use kn_shim.Dict.Probe.{Slotted-congr}
use kn_shim.Dict.Vacate.{before_removal, fix_slots-Slotted}
use kn_shim.Dict.Models.{Models, cell, hash_at}
use kn_shim.Dict.Cells.{map-append, shift_pairs_lem, last_of}

key_at-erase :
    (q : Bytes) (m : Entries) (j i : ℕ)
    → index_of q m ≡ some j
    → key_at (erase q m) i ≡ key_at m (before_removal j i)
unfolding index_of erase
key_at-erase q [] j i h = cc
key_at-erase q ((k, v) ∷ m) zero i h = ground arith
key_at-erase q ((k, v) ∷ m) (suc j) zero h = ground arith
key_at-erase q ((k, v) ∷ m) (suc j) (suc i) h = ground (arith, key_at-erase q m j i)

dict_remove_step :
    (d : Dict) (j : ℕ) (pairs : List Cell)
    → shift_pairs (d.data_count - (j + 1)) (j + 1) d.pairs ≡ some pairs
    → dict_remove d j
      ≡ some (record d {
        slots = map (fix_slot j) d.slots;
        pairs = pairs;
        data_count = d.data_count - 1;
      })
unfolding dict_remove
dict_remove_step d j pairs e = rw e

cells_around :
    (a b : Entries) (x : Cell) (rest : List Cell)
    → map cell (a ++ b) ++ (x ∷ rest) ≡ map cell a ++ (map cell b ++ (x ∷ rest))
cells_around a b x rest =
    rw (map-append cell a b) (append_assoc (map cell a) (map cell b) (x ∷ rest))

pub dict_remove-Models :
    {m : Entries} {d : Dict} (q : Bytes) (j : ℕ)
    → Models m d
    → threshold d.data_alloced < hash_deleted
    → index_of q m ≡ some j
    → Returns (dict_remove d j) λ d'. Models (erase q m) d' × (d'.data_alloced ≡ d.data_alloced)
dict_remove-Models {m} {d} q j models few here = (_, dict_remove_step d j _ shifted, (result, refl))
  where
    s : Split q m j
    s = index_of-Split q m j here

    lt : j < length m
    lt = (index_of-some_at q m j here).0

    e : Bytes × Bytes
    e = (key_at m j, s.value)

    around : length m ≡ length s.before + suc (length s.after)
    around = ap length s.whole ∙ length-append s.before (e ∷ s.after)

    shorter : length (erase q m) + 1 ≡ length m
    shorter = omega (arith, around, ap length s.erased, length-append s.before s.after)

    pairs : List Cell
    pairs =
        map cell s.before
        ++ (map cell s.after ++ (last_of (cell e) (map cell s.after) ∷ models.rest))

    old : d.pairs ≡ map cell s.before ++ (cell e ∷ (map cell s.after ++ models.rest))
    old =
        models.stored
        ∙ ap (λ t. map cell t ++ models.rest) s.whole
        ∙ ap (λ t. t ++ models.rest) (map-append cell s.before (e ∷ s.after))
        ∙ append_assoc (map cell s.before) (cell e ∷ map cell s.after) models.rest

    rounds : d.data_count - (j + 1) ≡ length (map cell s.after)
    rounds = omega (arith, models.counted, around, s.place, length-map cell s.after)

    shifted : shift_pairs (d.data_count - (j + 1)) (j + 1) d.pairs ≡ some pairs
    shifted =
        rw (old, rounds)
          (shift_pairs_lem (map cell s.before) (map cell s.after) models.rest (cell e) (j + 1)
            (omega (arith, s.place, length-map cell s.before)))

    result : Models (erase q m) (record d {
      slots = map (fix_slot j) d.slots;
      pairs = pairs;
      data_count = d.data_count - 1;
    })
    result = record {
      capacity = models.capacity;
      counted = omega (arith, models.counted, shorter);
      load = omega (arith, models.load, shorter);
      rest = last_of (cell e) (map cell s.after) ∷ models.rest;
      stored = rw s.erased (sym (cells_around s.before s.after _ models.rest));
      room = omega (
        arith,
        models.room,
        ap length old,
        length-append (map cell s.before) (cell e ∷ (map cell s.after ++ models.rest)),
        length-append (map cell s.after) models.rest,
        length-append (map cell s.before)
            (map cell s.after ++ (last_of (cell e) (map cell s.after) ∷ models.rest)),
        length-append (map cell s.after) (last_of (cell e) (map cell s.after) ∷ models.rest),
      );
      clean = clean;
      slotted = rw less at (
          Slotted-congr (hash_at (erase q m)) (λ i _. ap kh_hash (sym (key_at-erase q m j i here)))
            (fix_slots-Slotted j (length m) (omega (arith, models.load)) lt models.slotted));
      distinct = erase-IsDistinct q m models.distinct;
    }
      where
        less : length m - 1 ≡ length (erase q m)
        less = omega (arith, shorter)

        clean :
            (i : ℕ)
            → threshold d.data_alloced ≤ length (erase q m) + i
            → get_or (last_of (cell e) (map cell s.after) ∷ models.rest) i none ≡ none
        clean zero h = absurd (omega (arith, models.load, shorter))
        clean (suc i) h = models.clean i (omega (arith, shorter))
