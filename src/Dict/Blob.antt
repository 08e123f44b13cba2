-- ===== src/Dict/Blob.antt =====
-- Blobs: `KH_Blob`, `KH_Hash`, `KH_CreateBlob` and `KH_BlobEqual` of jni/hashtable.h.
-- A blob is a value here, so the pointer comparison that `KH_BlobEqual` starts with has no
-- counterpart: one blob compared with itself has equal hashes, lengths and bytes.
use mathlib.Core.List.{foldl}
use kn_shim.Base.{
  ℕ, ◌+◌, ◌*◌, ◌%◌, ◌^◌, bit_xor, ◌≡◌, refl, Bool, true, false, ◌&&◌, ◌||◌, not, List, [], ◌∷◌,
  length, ◌==◌, if◌then◌else◌, arith, ap,
}

abbrev pub Bytes : Type 0
Bytes = List ℕ

-- `memcmp(…) == 0` over two buffers of one length.
unfoldable pub bytes_eq : Bytes → Bytes → Bool
bytes_eq [] [] = true
bytes_eq [] (b ∷ bs) = false
bytes_eq (a ∷ as') [] = false
bytes_eq (a ∷ as') (b ∷ bs) = a == b && bytes_eq as' bs

pub bytes_eq_sound : (a b : Bytes) → bytes_eq a b ≡ true → a ≡ b
unfolding bytes_eq
bytes_eq_sound [] [] h = refl
bytes_eq_sound [] (b ∷ bs) h = cc
bytes_eq_sound (a ∷ as') [] h = cc
bytes_eq_sound (a ∷ as') (b ∷ bs) h = ground (arith, bytes_eq_sound as' bs)

pub bytes_eq_refl : (a : Bytes) → bytes_eq a a ≡ true
unfolding bytes_eq
bytes_eq_refl [] = refl
bytes_eq_refl (a ∷ as') = ground (arith, bytes_eq_refl as')

pub record Blob : Type 0 where
  pub hash : ℕ
  pub bytes : Bytes

-- One round of the loop, in `uint32_t`.
unfoldable pub hash_step : ℕ → ℕ → ℕ
hash_step hash byte = bit_xor ((hash * 2 ^ 5 % 2 ^ 32 + hash) % 2 ^ 32) byte

unfoldable pub kh_hash : Bytes → ℕ
unfolding hash_step
kh_hash buffer = foldl hash_step 5381 buffer

-- The allocation is taken to succeed.
unfoldable pub create_blob : Bytes → Blob
create_blob buffer = record { hash = kh_hash buffer; bytes = buffer }

unfoldable pub blob_equal : Blob → Blob → Bool
blob_equal blob1 blob2 =
    if not (blob1.hash == blob2.hash) || not (length blob1.bytes == length blob2.bytes)
    then false
    else bytes_eq blob1.bytes blob2.bytes

-- Blobs made by `KH_CreateBlob` are equal exactly when their bytes are: the hash and the length
-- are tested first, and never change the answer.
pub blob_equal-create_blob :
    (a b : Bytes) → blob_equal (create_blob a) (create_blob b) ≡ bytes_eq a b
unfolding blob_equal create_blob
blob_equal-create_blob a b =
    ground (arith, bytes_eq_sound a b, (λ (e : a ≡ b). ap kh_hash e), (λ (e : a ≡ b). ap length e))
