-- ===== src/NxArchive/Bounds.antt =====
-- The reads of the extractor of jni/nxarchive.c, and the bounds of its buffer.
use kn_shim.Base.{
  ℕ, ◌+◌, ◌≤◌, ◌<◌, ◌^◌, ◌≡◌, refl, ◌⊎◌, inl, inr, none, some, length, get_elem?, get_or, take,
  drop, length-take, length-drop, get_elem?-eq-get_or, ltb, ◌==◌, arith, Bool-cases, Returns,
}
use kn_shim.Dict.Blob.{Bytes}
use kn_shim.Memory.{int_of_bytes_four}
use kn_shim.Memory.Region.{slice}
use kn_shim.NxArchive.{
  Extractor, add_size, sub_size, from_buffer, read_into_buf, get_pointer, get_string_pointer,
  read_int,
}

-- The position is within an archive whose size is right, and below half the address space.
pub record InBounds (this : Extractor) : Type 0 where
  pub sized : this.size ≡ length this.base
  pub within : this.pos ≤ this.size
  pub small : this.size < 2 ^ 63

pub from_buffer-InBounds :
    (buf : Bytes) → length buf < 2 ^ 63 → InBounds (from_buffer (length buf) buf)
unfolding from_buffer
from_buffer-InBounds buf h = record { sized = refl; within = omega arith; small = h }

-- Moved on by `n` bytes, over the same archive.
pub record Moved (this : Extractor) (n : ℕ) (this' : Extractor) : Type 0 where
  pub bounds : InBounds this'
  pub same : this'.base ≡ this.base
  pub far : this'.pos ≡ this.pos + n

slice_lem :
    (base : Bytes) (pos n : ℕ)
    → pos + n ≤ length base
    → (slice base pos n ≡ some (take n (drop pos base))) × (length (take n (drop pos base)) ≡ n)
unfolding slice
slice_lem base pos n h =
    (ground arith, omega (arith, length-take n (drop pos base), length-drop pos base))

pub slice-in_bounds :
    (base : Bytes) (pos n : ℕ)
    → pos + n ≤ length base
    → slice base pos n ≡ some (take n (drop pos base))
slice-in_bounds base pos n h = (slice_lem base pos n h).0

moved :
    {this : Extractor} (n : ℕ)
    → InBounds this
    → this.pos + n ≤ this.size
    → Moved this n (record this { pos = add_size this.pos n })
moved n b h = record {
  bounds = record { sized = b.sized; within = omega (arith, b.small); small = b.small };
  same = refl;
  far = omega (arith, b.small);
}

-- `NXReadInt` reads a number and moves on by four bytes, or answers 0 and stays.
pub read_int-Moved :
    {this : Extractor}
    → InBounds this
    → Returns (read_int this) λ r. Moved this 4 r.1 ⊎ ((r.0 ≡ 0) × (r.1 ≡ this))
unfolding read_int read_into_buf
read_int-Moved {this} b = elim (Bool-cases (ltb this.size (add_size this.pos 4))) [
  | inl past ↦ ((0, this), rw past, inr (refl, refl))
  | inr fits ↦
      let room : this.pos + 4 ≤ this.size = ground (arith, b.within, b.small) in
      let (copy, four) = slice_lem this.base this.pos 4 (omega (arith, b.sized)) in
      let (n, e) = int_of_bytes_four (take 4 (drop this.pos this.base)) four in
      ((n, _), rw (fits, copy, e), inl (moved 4 b room))
]

-- `NXGetPointer` answers the position, with as many bytes there as asked for, and moves on by
-- them; or it answers NULL.
pub get_pointer-Moved :
    {this : Extractor} (n : ℕ)
    → InBounds this
    → ((this.pos + n ≤ this.size)
        × ((get_pointer this n).0 ≡ some this.pos)
        × Moved this n (get_pointer this n).1)
      ⊎ ((get_pointer this n).0 ≡ none)
unfolding get_pointer
get_pointer-Moved {this} n b = elim (Bool-cases (ltb (sub_size this.size this.pos) n)) [
  | inl past ↦ inr (rw past)
  | inr fits ↦
      let room : this.pos + n ≤ this.size = ground (arith, b.within, b.small) in
      inl (room, rw fits, rw fits (moved n b room))
]

-- `NXGetStringPointer`, past the start of the archive, reads inside it. It answers the position,
-- with as many bytes there as asked for, and moves on by them; or it answers NULL.
pub get_string_pointer-Moved :
    {this : Extractor} (n : ℕ)
    → InBounds this
    → 0 < this.pos
    → Returns
        (get_string_pointer this n)
        λ r. ((this.pos + n ≤ this.size) × (r.0 ≡ some this.pos) × Moved this n r.1) ⊎ (r.0 ≡ none)
unfolding get_string_pointer
get_string_pointer-Moved {this} n b start =
    elim (Bool-cases (ltb (sub_size this.size this.pos) n)) [
      | inl past ↦ ((none, this), rw past, inr refl)
      | inr fits ↦
          let room : this.pos + n ≤ this.size = ground (arith, b.within, b.small) in
          let i = sub_size (add_size this.pos n) 1 in
          let last = get_or this.base i 0 in
          let read : get_elem? this.base i ≡ some last =
            get_elem?-eq-get_or this.base i 0 (omega (arith, b.sized, b.small)) in
          elim (Bool-cases (last == 0)) [
            | inl nul ↦ ((some this.pos, _), rw (fits, read, nul), inl (room, refl, moved n b room))
            | inr other ↦ ((none, this), rw (fits, read, other), inr refl)
          ]
    ]
