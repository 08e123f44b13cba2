-- ===== src/NxArchive/Reading.antt =====
-- What the extractor reads where it stands before known bytes.
use kn_shim.Base.{
  ℕ, zero, suc, ◌+◌, ◌≤◌, ◌<◌, ◌^◌, ◌≡◌, refl, sym, ap, ◌∙◌, false, some, [], ◌∷◌, ◌++◌, length,
  append_assoc, length-append, take, drop, take-length_append, drop-length_append, length-drop, ltb,
  get_elem?, arith,
}
use kn_shim.Dict.Blob.{Bytes}
use kn_shim.Memory.{int_bytes, int_of_bytes-int_bytes, length-int_bytes}
use kn_shim.Memory.Region.{slice}
use kn_shim.NxArchive.{
  Extractor, add_size, sub_size, read_into_buf, read_int, get_pointer, get_string_pointer,
}
use kn_shim.NxArchive.Bounds.{InBounds, slice-in_bounds}

-- The extractor stands before the rest of the archive.
pub record At (this : Extractor) (rest : Bytes) : Type 0 where
  pub bounds : InBounds this
  pub ahead : drop this.pos this.base ≡ rest

-- Moved on by some bytes.
abbrev pub moved_on : Extractor → ℕ → Extractor
moved_on this n = record this { pos = add_size this.pos n }

drop-nil : (n : ℕ) → drop {A = ℕ} n [] ≡ []
drop-nil zero = refl
drop-nil (suc n) = refl

drop-drop : (m n : ℕ) (xs : Bytes) → drop (m + n) xs ≡ drop n (drop m xs)
drop-drop zero n xs = let e : 0 + n ≡ n = omega arith in rw e refl
drop-drop (suc m) n [] = drop-nil (suc m + n) ∙ sym (drop-nil n)
drop-drop (suc m) n (x ∷ xs) =
    let e : suc m + n ≡ suc (m + n) = omega arith in rw e (drop-drop m n xs)

-- As many bytes are left.
pub At-room :
    {this : Extractor} (b rest : Bytes) → At this (b ++ rest) → this.pos + length b ≤ this.size
At-room {this} b rest a = omega (
  arith,
  a.bounds.sized,
  a.bounds.within,
  length-drop this.pos this.base,
  ap length a.ahead,
  length-append b rest,
)

pub At-moved :
    {this : Extractor} (b rest : Bytes) → At this (b ++ rest) → At (moved_on this (length b)) rest
At-moved {this} b rest a =
    let room = At-room b rest a in
    let e : add_size this.pos (length b) ≡ this.pos + length b = omega (arith, a.bounds.small) in
    record {
      bounds = record {
        sized = a.bounds.sized;
        within = omega (arith, a.bounds.small);
        small = a.bounds.small;
      };
      ahead = rw e (
          drop-drop this.pos (length b) this.base
          ∙ ap (drop (length b)) a.ahead
          ∙ drop-length_append b rest);
    }

pub slice-At :
    {this : Extractor} (b rest : Bytes)
    → At this (b ++ rest)
    → slice this.base this.pos (length b) ≡ some b
slice-At {this} b rest a =
    let room = At-room b rest a in
    slice-in_bounds this.base this.pos (length b) (omega (arith, a.bounds.sized))
    ∙ ap (λ t. some (take (length b) t)) a.ahead
    ∙ ap some (take-length_append b rest)

-- A number below 2 ^ 32.
pub read_int-At :
    {this : Extractor} (n : ℕ) (rest : Bytes)
    → n < 2 ^ 32
    → At this (int_bytes n ++ rest)
    → (read_int this ≡ some (n, moved_on this 4)) × At (moved_on this 4) rest
unfolding read_int read_into_buf
read_int-At {this} n rest small a =
    let four = length-int_bytes n in
    let room : this.pos + 4 ≤ this.size = omega (arith, At-room (int_bytes n) rest a, four) in
    let fits : ltb this.size (add_size this.pos 4) ≡ false = ground (arith, a.bounds.small) in
    let copied : slice this.base this.pos 4 ≡ some (int_bytes n) =
      rw four at (slice-At (int_bytes n) rest a) in
    (
      rw (fits, copied, int_of_bytes-int_bytes n small) refl,
      rw four at (At-moved (int_bytes n) rest a),
    )

-- A buffer.
pub get_pointer-At :
    {this : Extractor} (b rest : Bytes)
    → At this (b ++ rest)
    → get_pointer this (length b) ≡ (some this.pos, moved_on this (length b))
unfolding get_pointer
get_pointer-At {this} b rest a =
    let room = At-room b rest a in
    let fits : ltb (sub_size this.size this.pos) (length b) ≡ false =
      ground (arith, a.bounds.small) in
    rw fits refl

get_elem?-drop : (n : ℕ) (xs : Bytes) → get_elem? xs n ≡ get_elem? (drop n xs) 0
get_elem?-drop zero xs = refl
get_elem?-drop (suc n) [] = refl
get_elem?-drop (suc n) (x ∷ xs) = get_elem?-drop n xs

-- A text with its NUL.
pub get_string_pointer-At :
    {this : Extractor} (name rest : Bytes)
    → At this ((name ++ 0 ∷ []) ++ rest)
    → get_string_pointer this (length name + 1)
      ≡ some (some this.pos, moved_on this (length name + 1))
unfolding get_string_pointer
get_string_pointer-At {this} name rest a =
    let size = length-append name (0 ∷ []) in
    let room : this.pos + (length name + 1) ≤ this.size =
      omega (arith, At-room (name ++ 0 ∷ []) rest a, size) in
    let fits : ltb (sub_size this.size this.pos) (length name + 1) ≡ false =
      ground (arith, a.bounds.small) in
    let last : sub_size (add_size this.pos (length name + 1)) 1 ≡ this.pos + length name =
      omega (arith, a.bounds.small) in
    let nul : get_elem? this.base (this.pos + length name) ≡ some 0 =
      get_elem?-drop (this.pos + length name) this.base
      ∙ ap (λ t. get_elem? t 0)
          (drop-drop this.pos (length name) this.base
            ∙ ap (drop (length name)) (a.ahead ∙ append_assoc name (0 ∷ []) rest)
            ∙ drop-length_append name (0 ∷ rest)) in
    rw (fits, last, nul) refl
