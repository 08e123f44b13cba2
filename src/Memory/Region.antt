-- ===== src/Memory/Region.antt =====
-- A region of memory as the list of its bytes: numbers of any width, reads of a range, and writes.
-- `none` is an access outside of the region.
use native.Mathlib.Nat.{pow-suc}
use kn_shim.Base.{
  ℕ, zero, suc, ◌+◌, ◌*◌, ◌/◌, ◌%◌, ◌^◌, ◌≤◌, ◌<◌, ◌≡◌, refl, ap, ◌∙◌, ◌⊎◌, Option, none, some, [],
  ◌∷◌, length, take, drop, leb, if◌then◌else◌, arith,
}
use kn_shim.Dict.Blob.{Bytes}

-- Little endian, in `count` bytes.
unfoldable pub bytes_of : ℕ → ℕ → Bytes
bytes_of zero n = []
bytes_of (suc count) n = n % 256 ∷ bytes_of count (n / 256)

unfoldable pub number_of : Bytes → ℕ
number_of [] = 0
number_of (b ∷ bs) = b + 256 * number_of bs

pub length-bytes_of : (count n : ℕ) → length (bytes_of count n) ≡ count
unfolding bytes_of
length-bytes_of zero n = refl
length-bytes_of (suc count) n = ap suc (length-bytes_of count (n / 256))

pub number_of-bytes_of : (count n : ℕ) → n < 256 ^ count → number_of (bytes_of count n) ≡ n
unfolding bytes_of number_of
number_of-bytes_of zero n h = omega arith
number_of-bytes_of (suc count) n h =
    omega (arith, number_of-bytes_of count (n / 256) (omega (arith, pow-suc 256 count)))

-- The memory of `n` bytes from an offset.
unfoldable pub slice : Bytes → ℕ → ℕ → Option Bytes
slice base pos n = if leb (pos + n) (length base) then some (take n (drop pos base)) else none

-- The bytes `b` over those from an offset; what does not fit is lost.
unfoldable pub patch : Bytes → ℕ → Bytes → Bytes
patch [] p b = []
patch (x ∷ xs) zero [] = x ∷ xs
patch (x ∷ xs) zero (y ∷ ys) = y ∷ patch xs zero ys
patch (x ∷ xs) (suc p) b = x ∷ patch xs p b

unfoldable pub splice : Bytes → ℕ → Bytes → Option Bytes
unfolding patch
splice base pos b = if leb (pos + length b) (length base) then some (patch base pos b) else none

unfoldable pub load_number : Bytes → ℕ → ℕ → Option ℕ
unfolding slice number_of
load_number base pos n =
    if leb (pos + n) (length base) then some (number_of (take n (drop pos base))) else none

pub load_number_lem :
    (b : Bytes) (p n : ℕ)
    → p + n ≤ length b
    → load_number b p n ≡ some (number_of (take n (drop p b)))
unfolding load_number
load_number_lem b p n h = ground arith

unfoldable pub store_number : Bytes → ℕ → ℕ → ℕ → Option Bytes
unfolding splice bytes_of
store_number base pos n number = splice base pos (bytes_of n number)

pub store_number_lem :
    (b : Bytes) (p n v : ℕ)
    → p + n ≤ length b
    → store_number b p n v ≡ some (patch b p (bytes_of n v))
unfolding store_number splice
store_number_lem b p n v h = ground (arith, length-bytes_of n v)

pub length-patch : (xs : Bytes) (p : ℕ) (b : Bytes) → length (patch xs p b) ≡ length xs
unfolding patch
length-patch [] p b = refl
length-patch (x ∷ xs) zero [] = refl
length-patch (x ∷ xs) zero (y ∷ ys) = ap suc (length-patch xs zero ys)
length-patch (x ∷ xs) (suc p) b = ap suc (length-patch xs p b)

pub slice-patch_self :
    (xs : Bytes) (p : ℕ) (b : Bytes)
    → p + length b ≤ length xs
    → take (length b) (drop p (patch xs p b)) ≡ b
unfolding patch
slice-patch_self [] zero [] h = refl
slice-patch_self [] zero (y ∷ ys) h = absurd (omega arith)
slice-patch_self [] (suc p) b h = absurd (omega arith)
slice-patch_self (x ∷ xs) zero [] h = refl
slice-patch_self (x ∷ xs) zero (y ∷ ys) h =
    ap (λ t. y ∷ t) (slice-patch_self xs zero ys (omega arith))
slice-patch_self (x ∷ xs) (suc p) b h = slice-patch_self xs p b (omega arith)

-- A range that ends before the write, or starts behind it.
pub slice-patch_other :
    (xs : Bytes) (p q n : ℕ) (b : Bytes)
    → (q + n ≤ p) ⊎ (p + length b ≤ q)
    → take n (drop q (patch xs p b)) ≡ take n (drop q xs)
unfolding patch
slice-patch_other [] p q n b h = refl
slice-patch_other (x ∷ xs) zero q n [] h = refl
slice-patch_other (x ∷ xs) zero zero zero (y ∷ ys) h = refl
slice-patch_other (x ∷ xs) zero zero (suc n) (y ∷ ys) h = absurd (ground arith)
slice-patch_other (x ∷ xs) zero (suc q) n (y ∷ ys) h =
    slice-patch_other xs zero q n ys (ground arith)
slice-patch_other (x ∷ xs) (suc p) zero zero b h = refl
slice-patch_other (x ∷ xs) (suc p) zero (suc n) b h =
    ap (λ t. x ∷ t) (slice-patch_other xs p zero n b (ground arith))
slice-patch_other (x ∷ xs) (suc p) (suc q) n b h = slice-patch_other xs p q n b (ground arith)

-- A write over one of the same length.
pub patch_twice :
    (xs : Bytes) (p : ℕ) (b c : Bytes)
    → length b ≡ length c
    → patch (patch xs p b) p c ≡ patch xs p c
unfolding patch
patch_twice [] p b c h = refl
patch_twice (x ∷ xs) zero [] c h = refl
patch_twice (x ∷ xs) zero (y ∷ ys) [] h = absurd (omega arith)
patch_twice (x ∷ xs) zero (y ∷ ys) (z ∷ zs) h =
    ap (λ t. z ∷ t) (patch_twice xs zero ys zs (omega arith))
patch_twice (x ∷ xs) (suc p) b c h = ap (λ t. x ∷ t) (patch_twice xs p b c h)

-- A number written to memory is read back.
pub load_number-patch :
    (memory : Bytes) (a n v : ℕ)
    → a + n ≤ length memory
    → v < 256 ^ n
    → load_number (patch memory a (bytes_of n v)) a n ≡ some v
load_number-patch memory a n v room small =
    let size = length-bytes_of n v in
    let long = length-patch memory a (bytes_of n v) in
    let there : take n (drop a (patch memory a (bytes_of n v))) ≡ bytes_of n v =
      rw size at (slice-patch_self memory a (bytes_of n v) (rw size room)) in
    load_number_lem (patch memory a (bytes_of n v)) a n (omega arith)
    ∙ ap (λ b. some (number_of b)) there
    ∙ ap some (number_of-bytes_of n v small)

-- A number that is apart from the one written stays.
pub load_number-patch_other :
    (memory : Bytes) (a count v q n : ℕ)
    → (q + n ≤ a) ⊎ (a + count ≤ q)
    → load_number (patch memory a (bytes_of count v)) q n ≡ load_number memory q n
unfolding load_number
load_number-patch_other memory a count v q n apart =
    let size = length-bytes_of count v in
    let kept = slice-patch_other memory a q n (bytes_of count v) (rw size apart) in
    rw (length-patch memory a (bytes_of count v), kept) refl
