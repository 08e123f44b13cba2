-- ===== src/Leaf.antt =====
-- The ELF loader of jni/andrleaf.h, on a 64-bit AArch64 target: what its parts share.
-- The file is the list of its bytes, and so is the memory that the segments are mapped to: an
-- address in it is `base`, which mmap chose, and an offset. The layout of the ELF structures is
-- that of <elf.h>; the structures are read field by field. The address sums that the loader
-- compares with NULL are taken to be no multiples of 2 ^ 64.
pub mod Header
pub mod Segments
pub mod Dynamic
pub mod Symbols
pub mod Relocs
pub mod Relocs32
pub mod Image
pub mod Finishes
use kn_shim.Base.{
  ℕ, ◌+◌, ◌%◌, ◌^◌, ◌≡◌, refl, ◌⊎◌, inl, inr, Bool, Option, none, some, List, ltb, if◌then◌else◌,
}
use kn_shim.Dict.Blob.{Bytes}
use kn_shim.Memory.Region.{slice}

-- The strings that explain an error, but for that of a failed mapping.
pub data LoadError : Type 0 where
  failed_header : LoadError
  invalid_elf : LoadError
  wrong_class : LoadError
  big_endian : LoadError
  wrong_version : LoadError
  not_shared : LoadError
  failed_program_header : LoadError
  map_failed : LoadError
  no_dynamic : LoadError
  no_string_table : LoadError
  no_relocs : LoadError
  no_symbol_table : LoadError
  no_plt_relocs : LoadError
  no_init_array : LoadError
  no_fini_array : LoadError
  no_symbol_count : LoadError
  could_not_open : LoadError
  no_memory_for_file : LoadError
  failed_read : LoadError

-- `fault` is undefined behaviour: an access outside of the file or of the mapped memory, the use
-- of a number that was never set, a division by zero. `stuck` is a loop out of fuel.
pub data Outcome {ℓ} (A : Type ℓ) : Type ℓ where
  done : A → Outcome A
  error : LoadError → Outcome A
  fault : Outcome A
  stuck : Outcome A

pub Outcome-cases {ℓ} :
    {A : Type ℓ} (m : Outcome A)
    → ((a : A) × (m ≡ done a)) ⊎ ((e : LoadError) × (m ≡ error e)) ⊎ (m ≡ fault) ⊎ (m ≡ stuck)
Outcome-cases (done a) = inl (a, refl)
Outcome-cases (error e) = inr (inl (e, refl))
Outcome-cases fault = inr (inr (inl refl))
Outcome-cases stuck = inr (inr (inr refl))

infixl 5 ◌>>=◌ ◌>>◌
abbrev pub ◌>>=◌ {ℓ κ} : {A : Type ℓ} {B : Type κ} → Outcome A → (A → Outcome B) → Outcome B
done a >>= f = f a
error e >>= f = error e
fault >>= f = fault
stuck >>= f = stuck

abbrev pub ◌>>◌ {ℓ κ} : {A : Type ℓ} {B : Type κ} → Outcome A → Outcome B → Outcome B
m >> k = m >>= λ _. k

-- A memory access.
abbrev pub access {ℓ} : {A : Type ℓ} → Option A → Outcome A
access none = fault
access (some a) = done a

-- A pointer that must not be NULL for the loader to go on.
abbrev pub found {ℓ} : {A : Type ℓ} → Option A → LoadError → Outcome A
found none e = error e
found (some a) e = done a

-- A test that must hold for the loader to go on.
abbrev pub require : Bool → LoadError → Outcome (Unit {0})
require b e = if b then done tt else error e

-- `LeafStream`; `size` is the length that `LeafLoadFromBuffer` was given.
pub record LeafStream : Type 0 where
  pub bytes : Bytes
  pub size : ℕ
  pub pos : ℕ

abbrev pub stream_init : Bytes → ℕ → LeafStream
stream_init buffer size = record { bytes = buffer; size = size; pos = 0 }

abbrev pub set_pos : LeafStream → ℕ → LeafStream
set_pos self pos = record self { pos = pos }

-- `LeafStreamReadInto`, with the bytes that it copies: none where it returns 0 for a read past the
-- end. The sum wraps around.
unfoldable pub stream_read_into : LeafStream → ℕ → Outcome (Option Bytes × LeafStream)
unfolding slice
stream_read_into self count =
    let past = (self.pos + count) % 2 ^ 64 in
    let copied : Outcome (Option Bytes × LeafStream) = (do
      b ← access (slice self.bytes self.pos count)
      done (some b, record self { pos = past })) in
    if ltb self.size past then done (none, self) else copied

-- `LeafStreamRead`, whose allocation succeeds. NULL past the end.
abbrev pub stream_read : LeafStream → ℕ → Outcome (Option Bytes × LeafStream)
stream_read self count = stream_read_into self count

-- The dynamic linker and the mapping of memory.
pub record Linker : Type 1 where
  pub Handle : Type 0
  -- The address of so many bytes of zeros.
  pub map_rwx : ℕ → Option ℕ
  pub dlopen : Bytes → Option Handle
  -- 0 is NULL.
  pub dlsym : Handle → Bytes → ℕ
  -- The address of `Leaf__cxa_atexit`.
  pub atexit_stub : ℕ
