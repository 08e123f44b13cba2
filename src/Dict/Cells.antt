-- ===== src/Dict/Cells.antt =====
-- The pair array as a list of cells: writes at a known place.
use kn_shim.Base.{
  ℕ, zero, suc, ◌+◌, ◌-◌, ◌<◌, ◌≡◌, refl, sym, ap, ◌∙◌, some, List, [], ◌∷◌, ◌++◌, map, length,
  get_elem?, set, length-append, lt→ltb, arith, append_assoc,
}
use kn_shim.Dict.Blob.{Bytes}
use kn_shim.Dict.Table.{Cell, store, shift_pairs}
use kn_shim.Dict.Assoc.{Entries, key_at, value_of}
use kn_shim.Dict.Models.{cell}

module _ {ℓ} {A : Type ℓ} where
  set-length_append :
      (xs ys : List A) (x y : A) → set (xs ++ (x ∷ ys)) (length xs) y ≡ xs ++ (y ∷ ys)
  set-length_append [] ys x y = refl
  set-length_append (z ∷ xs) ys x y = ap (λ t. z ∷ t) (set-length_append xs ys x y)

  -- A write at the end of the first part.
  pub store-length_append :
      (xs ys : List A) (x y : A) (i : ℕ)
      → i ≡ length xs
      → store (xs ++ (x ∷ ys)) i y ≡ some (xs ++ (y ∷ ys))
  unfolding store
  store-length_append xs ys x y i e =
      let lt : i < length (xs ++ (x ∷ ys)) = omega (arith, length-append xs (x ∷ ys)) in
      rw (lt→ltb _ _ lt, e, set-length_append xs ys x y)

  pub get_elem?-length_append :
      (xs ys : List A) (x : A) (i : ℕ) → i ≡ length xs → get_elem? (xs ++ (x ∷ ys)) i ≡ some x
  get_elem?-length_append [] ys x i e = rw e
  get_elem?-length_append (z ∷ xs) ys x zero e = absurd (omega arith)
  get_elem?-length_append (z ∷ xs) ys x (suc i) e = get_elem?-length_append xs ys x i (omega arith)

  pub append_snoc : (xs ys : List A) (x : A) → (xs ++ (x ∷ [])) ++ ys ≡ xs ++ (x ∷ ys)
  append_snoc xs ys x = append_assoc xs (x ∷ []) ys

  -- The last of a list that is not empty.
  pub last_of : A → List A → A
  last_of x [] = x
  last_of x (y ∷ ys) = last_of y ys

pub map-append {ℓ κ} :
    {A : Type ℓ} {B : Type κ} (f : A → B) (xs ys : List A) → map f (xs ++ ys) ≡ map f xs ++ map f ys
map-append f [] ys = refl
map-append f (x ∷ xs) ys = ap (λ t. f x ∷ t) (map-append f xs ys)

pub cells_snoc :
    (m : Entries) (e : Bytes × Bytes) (rest : List Cell)
    → map cell m ++ (cell e ∷ rest) ≡ map cell (m ++ (e ∷ [])) ++ rest
cells_snoc m e rest =
    sym (append_snoc (map cell m) rest (cell e))
    ∙ ap (λ t. t ++ rest) (sym (map-append cell m (e ∷ [])))

pub key_at-append_left : (m m' : Entries) (i : ℕ) → i < length m → key_at (m ++ m') i ≡ key_at m i
key_at-append_left [] m' i h = absurd (omega arith)
key_at-append_left ((k, v) ∷ m) m' zero h = refl
key_at-append_left ((k, v) ∷ m) m' (suc i) h = key_at-append_left m m' i (omega arith)

pub key_at-length_append :
    (m m' : Entries) (k v : Bytes) → key_at (m ++ ((k, v) ∷ m')) (length m) ≡ k
key_at-length_append [] m' k v = refl
key_at-length_append ((j, w) ∷ m) m' k v = key_at-length_append m m' k v

-- The loop of `KH_DictRemove` closes the gap and leaves a second copy of the last pair.
pub shift_pairs_lem :
    (a b rest : List Cell) (x : Cell) (i : ℕ)
    → i ≡ length a + 1
    → shift_pairs (length b) i (a ++ (x ∷ (b ++ rest))) ≡ some (a ++ (b ++ (last_of x b ∷ rest)))
unfolding shift_pairs last_of
shift_pairs_lem a [] rest x i e = refl
shift_pairs_lem a (y ∷ b) rest x i e =
    let read : get_elem? (a ++ (x ∷ (y ∷ (b ++ rest)))) i ≡ some y =
      rw (← append_snoc a (y ∷ (b ++ rest)) x) (
        get_elem?-length_append (a ++ (x ∷ [])) (b ++ rest) y i
          (omega (arith, length-append a (x ∷ [])))) in
    let write : store (a ++ (x ∷ (y ∷ (b ++ rest)))) (i - 1) y
        ≡ some (a ++ (y ∷ (y ∷ (b ++ rest)))) =
      store-length_append a (y ∷ (b ++ rest)) x y (i - 1) (omega arith) in
    rw (read, write, ← append_snoc a (y ∷ (b ++ rest)) y)
      (shift_pairs_lem (a ++ (y ∷ [])) b rest y (i + 1) (omega (arith, length-append a (y ∷ [])))
        ∙ rw (append_snoc a (b ++ (last_of y b ∷ rest)) y))

pub value_of-length_append :
    (m m' : Entries) (k v : Bytes) → value_of (m ++ ((k, v) ∷ m')) (length m) ≡ v
value_of-length_append [] m' k v = refl
value_of-length_append ((j, w) ∷ m) m' k v = value_of-length_append m m' k v
