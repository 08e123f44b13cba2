-- ===== src/Leaf/Finishes.antt =====
-- The steps of the loader that are not out of fuel.
use kn_shim.Base.{
  ℕ, ◌+◌, ◌≤◌, ◌≢◌, Bool, true, false, Option, none, some, length, leb, leb→le, Bool-cases,
  if◌then◌else◌, inl, inr,
}
use kn_shim.Dict.Blob.{Bytes}
use kn_shim.Memory.Region.{load_number}
use kn_shim.Leaf.{
  LoadError, Outcome, done, error, fault, stuck, ◌>>=◌, access, found, require, LeafStream,
  stream_read_into,
}

pub data Finishes {ℓ} {A : Type ℓ} : Outcome A → Type ℓ where
  done_ends : (a : A) → Finishes (done a)
  error_ends : (e : LoadError) → Finishes (error e)
  fault_ends : Finishes fault

pub not_stuck {ℓ} : {A : Type ℓ} {m : Outcome A} → Finishes m → m ≢ stuck
not_stuck (done_ends a) = λ e. cc
not_stuck (error_ends e) = λ p. cc
not_stuck fault_ends = λ e. cc

module _ {ℓ κ} {A : Type ℓ} {B : Type κ} where
  pub bind-Finishes :
      {m : Outcome A} (f : A → Outcome B)
      → Finishes m
      → ((a : A) → Finishes (f a))
      → Finishes (m >>= f)
  bind-Finishes f (done_ends a) k = k a
  bind-Finishes f (error_ends e) k = error_ends e
  bind-Finishes f fault_ends k = fault_ends

  pub access-Finishes :
      (o : Option A) (f : A → Outcome B) → ((a : A) → Finishes (f a)) → Finishes (access o >>= f)
  access-Finishes none f k = fault_ends
  access-Finishes (some a) f k = k a

pub access_last-Finishes {ℓ} : {A : Type ℓ} (o : Option A) → Finishes (access o)
access_last-Finishes none = fault_ends
access_last-Finishes (some a) = done_ends a

-- A number is only read where there are bytes.
pub load-Finishes {κ} :
    {B : Type κ} (b : Bytes) (p n : ℕ) (f : ℕ → Outcome B)
    → (p + n ≤ length b → (v : ℕ) → Finishes (f v))
    → Finishes (access (load_number b p n) >>= f)
unfolding load_number
load-Finishes b p n f k = elim (Bool-cases (leb (p + n) (length b))) [
  | inl e ↦ rw e (k (leb→le (p + n) (length b) e) _)
  | inr e ↦ rw e fault_ends
]

pub require-Finishes : (b : Bool) (e : LoadError) → Finishes (require b e)
require-Finishes true e = done_ends tt
require-Finishes false e = error_ends e

pub if-Finishes {ℓ} :
    {A : Type ℓ} (b : Bool) {x y : Outcome A}
    → Finishes x
    → Finishes y
    → Finishes (if b then x else y)
if-Finishes true h k = h
if-Finishes false h k = k

pub stream_read-Finishes : (s : LeafStream) (n : ℕ) → Finishes (stream_read_into s n)
unfolding stream_read_into
stream_read-Finishes s n = if-Finishes _ (done_ends _) (access-Finishes _ _ λ b. done_ends _)

pub found-Finishes {ℓ} : {A : Type ℓ} (o : Option A) (e : LoadError) → Finishes (found o e)
found-Finishes none e = error_ends e
found-Finishes (some a) e = done_ends a

pub ruleset ends = (
  done_ends, error_ends, fault_ends, bind-Finishes, access-Finishes, access_last-Finishes,
  require-Finishes, if-Finishes, found-Finishes, stream_read-Finishes,
)
