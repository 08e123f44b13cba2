-- ===== src/Dict/Probe.antt =====
-- The slot array: what it means that the first `c` pairs can be found through it, and that an
-- insertion and the fix-up of a deletion keep this.
use native.Mathlib.Nat.{mod-lt}
use native.Mathlib.Nat.{pow-suc}
use kn_shim.Base.{
  ℕ, zero, suc, ◌+◌, ◌-◌, ◌*◌, ◌%◌, ◌^◌, ◌≤◌, ◌<◌, ◌≡◌, refl, ◌≢◌, ◌⊎◌, inl, inr, true, false, List,
  [], ◌∷◌, length, get_or, set, replicate, length-replicate, get_or-replicate, ◌==◌, if◌then◌else◌,
  arith, Bool-cases, bit_and-mask,
}
use kn_shim.Dict.Slots.{hash_empty, is_free, mask, starting_index}

-- A capacity that the table takes on: a power of two, from 8 to 2 ^ 32.
pub record IsCapacity (n : ℕ) : Type 0 where
  pub exponent : ℕ
  pub power : n ≡ 2 ^ exponent
  pub least : 8 ≤ n
  pub most : n ≤ 2 ^ 32

pub IsCapacity-double : {n : ℕ} → IsCapacity n → n ≤ 2 ^ 31 → IsCapacity (2 * n)
IsCapacity-double {n} c h = record {
  exponent = suc c.exponent;
  power = omega (arith, c.power, pow-suc 2 c.exponent);
  least = omega (arith, c.least);
  most = omega arith;
}

pub IsCapacity-even : {n : ℕ} → IsCapacity n → n % 2 ≡ 0
IsCapacity-even {n} c = even c.exponent c.power
  where
    even : (k : ℕ) → n ≡ 2 ^ k → n % 2 ≡ 0
    even zero e = absurd (omega (arith, c.least))
    even (suc k) e = omega (arith, pow-suc 2 k)

-- Masking is the remainder.
pub mask-mod : {n : ℕ} (x : ℕ) → IsCapacity n → mask x n ≡ x % n
unfolding mask
mask-mod {n} x c =
    let e : (n + 2 ^ 64 - 1) % 2 ^ 64 ≡ 2 ^ c.exponent - 1 =
      omega (arith, c.power, c.least, c.most) in
    rw e (rw c.power (bit_and-mask c.exponent x))

pub starting_index-mod : {n : ℕ} (hash : ℕ) → IsCapacity n → starting_index hash n ≡ hash % n
unfolding starting_index
starting_index-mod {n} hash c =
    rw (mask-mod hash c) (omega (arith, mod-lt hash {m = n} (omega (arith, c.least)), c.most))

-- How many slots are in use, and how many hold `v`.
unfoldable pub occupied : List ℕ → ℕ
occupied [] = 0
occupied (s ∷ slots) = (if is_free s then 0 else 1) + occupied slots

unfoldable pub count : ℕ → List ℕ → ℕ
count v [] = 0
count v (s ∷ slots) = (if s == v then 1 else 0) + count v slots

-- The first `c` pairs, of hashes `hash_of`, are the ones in the slots, each once, and the walk
-- from the hash of each comes to it before any slot that was never used.
pub record Reach (n : ℕ) (hash : ℕ) (slots : List ℕ) (j : ℕ) : Type 0 where
  pub offset : ℕ
  pub near : offset < n
  pub holds : get_or slots ((hash + offset) % n) hash_empty ≡ j
  pub used : (e : ℕ) → e < offset → get_or slots ((hash + e) % n) hash_empty ≢ hash_empty

pub record Slotted (n : ℕ) (hash_of : ℕ → ℕ) (slots : List ℕ) (c : ℕ) : Type 0 where
  pub width : length slots ≡ n
  pub bounded :
      (p : ℕ) → (is_free (get_or slots p hash_empty) ≡ true) ⊎ (get_or slots p hash_empty < c)
  pub filled : occupied slots ≡ c
  pub single : (j : ℕ) → j < c → count j slots ≡ 1
  pub reach : (j : ℕ) → j < c → Reach n (hash_of j) slots j

pub Slotted-congr :
    {n c : ℕ} {f : ℕ → ℕ} {slots : List ℕ} (g : ℕ → ℕ)
    → ((j : ℕ) → j < c → f j ≡ g j)
    → Slotted n f slots c
    → Slotted n g slots c
Slotted-congr {n} {slots = slots} g e s = record {
  width = s.width;
  bounded = s.bounded;
  filled = s.filled;
  single = s.single;
  reach = λ j h. rw (e j h) at (s.reach j h);
}

occupied-replicate : (n : ℕ) → occupied (replicate n hash_empty) ≡ 0
unfolding occupied
occupied-replicate zero = refl
occupied-replicate (suc n) = omega (arith, occupied-replicate n)

pub replicate-Slotted : (n : ℕ) (f : ℕ → ℕ) → Slotted n f (replicate n hash_empty) 0
replicate-Slotted n f = record {
  width = length-replicate n hash_empty;
  bounded = λ p. inl (rw (get_or-replicate n p hash_empty));
  filled = occupied-replicate n;
  single = λ j h. absurd (omega arith);
  reach = λ j h. absurd (omega arith);
}

pub nil-Slotted : (f : ℕ → ℕ) → Slotted 0 f [] 0
nil-Slotted f = replicate-Slotted 0 f

pub occupied-set :
    (slots : List ℕ) (p v : ℕ)
    → p < length slots
    → is_free (get_or slots p hash_empty) ≡ true
    → is_free v ≡ false
    → occupied (set slots p v) ≡ occupied slots + 1
unfolding occupied
occupied-set [] p v h free used = absurd (omega arith)
occupied-set (s ∷ slots) zero v h free used = rw (free, used) (omega arith)
occupied-set (s ∷ slots) (suc p) v h free used = omega (arith, occupied-set slots p v)

pub count-set :
    (slots : List ℕ) (p v j : ℕ)
    → p < length slots
    → count j (set slots p v) + (if get_or slots p hash_empty == j then 1 else 0)
      ≡ count j slots + (if v == j then 1 else 0)
unfolding count
count-set [] p v j h = absurd (omega arith)
count-set (s ∷ slots) zero v j h = omega arith
count-set (s ∷ slots) (suc p) v j h = omega (arith, count-set slots p v j)

-- No slot holds a number past the pairs.
pub count-zero :
    (slots : List ℕ) (j : ℕ)
    → ((p : ℕ) → p < length slots → get_or slots p hash_empty ≢ j)
    → count j slots ≡ 0
unfolding count
count-zero [] j h = refl
count-zero (s ∷ slots) j h =
    ground (arith, h 0 (omega arith), count-zero slots j (λ p lt. h (suc p) (omega arith)))

-- A free slot, where not all are occupied.
pub free_slot :
    (slots : List ℕ)
    → occupied slots < length slots
    → (p : ℕ) × (p < length slots) × (is_free (get_or slots p hash_empty) ≡ true)
unfolding occupied
free_slot [] h = absurd (omega arith)
free_slot (s ∷ slots) h = elim (Bool-cases (is_free s)) [
  | inl e ↦ (0, omega arith, e)
  | inr e ↦
      let rest : occupied slots < length slots = omega (arith, rw e at h) in
      let (p, lt, free) = free_slot slots rest in (suc p, omega arith, free)
]
