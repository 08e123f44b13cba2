-- ===== src/Dict/Assoc.antt =====
-- What a dictionary means: an association list of byte strings in the order of insertion, with
-- its operations and their laws.
use mathlib.Core.Option
use kn_shim.Base.{
  ◌≤◌, ◌+◌, ℕ, zero, suc, ◌<◌, ◌≡◌, refl, ap, Bool, true, false, Option, none, some, List, [], ◌∷◌,
  ◌++◌, length, if◌then◌else◌, arith, Bool-cases, inl, inr,
}
use kn_shim.Dict.Blob.{Bytes, bytes_eq, bytes_eq_sound, bytes_eq_refl}

abbrev pub Entries : Type 0
Entries = List (Bytes × Bytes)

-- The place of a key.
unfoldable pub index_of : Bytes → Entries → Option ℕ
index_of q [] = none
index_of q ((k, v) ∷ m) = if bytes_eq q k then some 0 else Option.map suc (index_of q m)

unfoldable pub find : Bytes → Entries → Option Bytes
find q [] = none
find q ((k, v) ∷ m) = if bytes_eq q k then some v else find q m

-- Overwrite in place, or append.
unfoldable pub assign : Bytes → Bytes → Entries → Entries
assign q w [] = (q, w) ∷ []
assign q w ((k, v) ∷ m) = if bytes_eq q k then (k, w) ∷ m else (k, v) ∷ assign q w m

unfoldable pub erase : Bytes → Entries → Entries
erase q [] = []
erase q ((k, v) ∷ m) = if bytes_eq q k then m else (k, v) ∷ erase q m

abbrev pub is_some {ℓ} : {A : Type ℓ} → Option A → Bool
is_some none = false
is_some (some _) = true

-- No key stands twice.
abbrev pub IsDistinct : Entries → Type 0
IsDistinct [] = Unit {0}
IsDistinct ((k, v) ∷ m) = (index_of k m ≡ none) × IsDistinct m

abbrev pub key_at : Entries → ℕ → Bytes
key_at [] i = []
key_at ((k, v) ∷ m) zero = k
key_at ((k, v) ∷ m) (suc i) = key_at m i

abbrev pub value_of : Entries → ℕ → Bytes
value_of [] i = []
value_of ((k, v) ∷ m) zero = v
value_of ((k, v) ∷ m) (suc i) = value_of m i

pub index_of-none_at :
    (q : Bytes) (m : Entries) (s : ℕ)
    → index_of q m ≡ none
    → s < length m
    → bytes_eq q (key_at m s) ≡ false
unfolding index_of
index_of-none_at q [] s h lt = absurd (omega arith)
index_of-none_at q ((k, v) ∷ m) zero h lt = ground arith
index_of-none_at q ((k, v) ∷ m) (suc s) h lt = ground (arith, index_of-none_at q m s)

pub index_of-some_at :
    (q : Bytes) (m : Entries) (j : ℕ)
    → index_of q m ≡ some j
    → (j < length m) × (bytes_eq q (key_at m j) ≡ true)
unfolding index_of
index_of-some_at q [] j h = cc
index_of-some_at q ((k, v) ∷ m) zero h = ground arith
index_of-some_at q ((k, v) ∷ m) (suc j) h = ground (arith, index_of-some_at q m j)

pub index_of_unique :
    (q : Bytes) (m : Entries) (s : ℕ)
    → IsDistinct m
    → s < length m
    → bytes_eq q (key_at m s) ≡ true
    → index_of q m ≡ some s
unfolding index_of
index_of_unique q [] s d lt e = absurd (omega arith)
index_of_unique q ((k, v) ∷ m) zero d lt e = ground arith
index_of_unique q ((k, v) ∷ m) (suc s) d lt e =
    ground (arith, bytes_eq_sound q k, index_of-none_at k m s, index_of_unique q m s)

pub find-index_of : (q : Bytes) (m : Entries) → find q m ≡ Option.map (value_of m) (index_of q m)
unfolding index_of find
find-index_of q [] = refl
find-index_of q ((k, v) ∷ m) = ground (arith, find-index_of q m)

pub index_of-assign :
    (q k w : Bytes) (m : Entries)
    → bytes_eq q k ≡ false
    → index_of q m ≡ none
    → index_of q (assign k w m) ≡ none
unfolding index_of assign
index_of-assign q k w [] e h = ground arith
index_of-assign q k w ((j, v) ∷ m) e h = ground (arith, index_of-assign q k w m)

bytes_eq_symm : (a b : Bytes) → bytes_eq a b ≡ bytes_eq b a
bytes_eq_symm a b =
    ground (arith, bytes_eq_sound a b, bytes_eq_sound b a, bytes_eq_refl a, bytes_eq_refl b)

pub assign-IsDistinct : (q w : Bytes) (m : Entries) → IsDistinct m → IsDistinct (assign q w m)
unfolding index_of assign
assign-IsDistinct q w [] d = (refl, tt)
assign-IsDistinct q w ((k, v) ∷ m) d = elim (Bool-cases (bytes_eq q k)) [
  | inl e ↦ rw e d
  | inr e ↦
      rw e (
        index_of-assign k q w m (ground (arith, bytes_eq_symm q k)) d.0,
        assign-IsDistinct q w m d.1,
      )
]

index_of-erase : (q k : Bytes) (m : Entries) → index_of q m ≡ none → index_of q (erase k m) ≡ none
unfolding index_of erase
index_of-erase q k [] h = refl
index_of-erase q k ((j, v) ∷ m) h = ground (arith, index_of-erase q k m)

pub erase-IsDistinct : (q : Bytes) (m : Entries) → IsDistinct m → IsDistinct (erase q m)
unfolding erase
erase-IsDistinct q [] d = tt
erase-IsDistinct q ((k, v) ∷ m) d = elim (Bool-cases (bytes_eq q k)) [
  | inl e ↦ rw e d.1
  | inr e ↦ rw e (index_of-erase k q m d.0, erase-IsDistinct q m d.1)
]

pub assign_absent :
    (q w : Bytes) (m : Entries) → index_of q m ≡ none → assign q w m ≡ m ++ ((q, w) ∷ [])
unfolding index_of assign
assign_absent q w [] h = refl
assign_absent q w ((k, v) ∷ m) h = ground (arith, assign_absent q w m)

-- A key is not among the entries before it.
pub index_of-append :
    (k v : Bytes) (before after : Entries)
    → IsDistinct (before ++ ((k, v) ∷ after))
    → index_of k before ≡ none
unfolding index_of
index_of-append k v [] after d = refl
index_of-append k v ((j, w) ∷ before) after d = ground (
  arith,
  index_of-append k v before after,
  index_of_append_none j k v before after,
  bytes_eq_symm k j,
)
  where
    index_of_append_none :
        (q k v : Bytes) (before after : Entries)
        → index_of q (before ++ ((k, v) ∷ after)) ≡ none
        → bytes_eq q k ≡ false
    index_of_append_none q k v [] after h = ground arith
    index_of_append_none q k v ((i, u) ∷ before) after h =
        index_of_append_none q k v before after (ground arith)

pub erase_absent : (q : Bytes) (m : Entries) → index_of q m ≡ none → erase q m ≡ m
unfolding index_of erase
erase_absent q [] h = refl
erase_absent q ((k, v) ∷ m) h = ground (arith, erase_absent q m)

-- A key that is there splits the entries.
pub record Split (q : Bytes) (m : Entries) (j : ℕ) : Type 0 where
  pub before : Entries
  pub value : Bytes
  pub after : Entries
  pub whole : m ≡ before ++ ((key_at m j, value) ∷ after)
  pub place : length before ≡ j
  pub erased : erase q m ≡ before ++ after
  pub assigned : (w : Bytes) → assign q w m ≡ before ++ ((key_at m j, w) ∷ after)
  pub valued : value_of m j ≡ value

pub index_of-Split : (q : Bytes) (m : Entries) (j : ℕ) → index_of q m ≡ some j → Split q m j
unfolding index_of erase assign
index_of-Split q [] j h = absurd (cc)
index_of-Split q ((k, v) ∷ m) zero h = elim (Bool-cases (bytes_eq q k)) [
  | inl e ↦ record {
    before = [];
    value = v;
    after = m;
    whole = refl;
    place = refl;
    erased = rw e;
    assigned = λ w. rw e;
    valued = refl;
  }
  | inr e ↦ absurd (ground arith)
]
index_of-Split q ((k, v) ∷ m) (suc j) h = elim (Bool-cases (bytes_eq q k)) [
  | inl e ↦ absurd (ground arith)
  | inr e ↦
      let r = index_of-Split q m j (ground arith) in
      record {
        before = (k, v) ∷ r.before;
        value = r.value;
        after = r.after;
        whole = ap (λ t. (k, v) ∷ t) r.whole;
        place = ap suc r.place;
        erased = rw e (ap (λ t. (k, v) ∷ t) r.erased);
        assigned = λ w. rw e (ap (λ t. (k, v) ∷ t) (r.assigned w));
        valued = r.valued;
      }
]

pub length-assign-le : (k v : Bytes) (m : Entries) → length (assign k v m) ≤ length m + 1
unfolding assign
length-assign-le k v [] = omega arith
length-assign-le k v ((j, w) ∷ m) = ground (arith, length-assign-le k v m)

pub length-erase-le : (k : Bytes) (m : Entries) → length (erase k m) ≤ length m
unfolding erase
length-erase-le k [] = omega arith
length-erase-le k ((j, w) ∷ m) = ground (arith, length-erase-le k m)
