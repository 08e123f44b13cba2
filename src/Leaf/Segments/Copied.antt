-- ===== src/Leaf/Segments/Copied.antt =====
-- What the mapped memory holds after the copying.
use kn_shim.Base.{
  ℕ, ◌+◌, ◌%◌, ◌^◌, ◌≤◌, ◌<◌, ◌≡◌, ◌≢◌, refl, ◌∙◌, ◌⊎◌, inl, inr, Bool-cases, Option, some, List,
  [], ◌∷◌, ◌++◌, length, take, drop, length-take, length-drop, ltb, leb, true, false, ◌==◌, arith,
}
use kn_shim.Dict.Blob.{Bytes}
use kn_shim.Memory.Region.{slice, splice, patch, length-patch, slice-patch_self, slice-patch_other}
use kn_shim.Leaf.{done, LeafStream, set_pos, stream_read_into}
use kn_shim.Leaf.Segments.{Phdr, pt_load, pt_dynamic, put_segment, copy_segment, copy_segments}

-- The segment's part of the file is there, and so is its place in a memory of `top` bytes.
pub record InFile (s : LeafStream) (top : ℕ) (p : Phdr) : Type 0 where
  pub read : p.p_offset + p.p_filesz ≤ length s.bytes
  pub placed : p.p_vaddr + p.p_filesz ≤ top

pub data Placed (s : LeafStream) (top : ℕ) : List Phdr → Type 0 where
  nothing : Placed s top []
  segment :
      {p : Phdr} {ps : List Phdr}
      → p.p_type ≡ pt_load
      → InFile s top p
      → Placed s top ps
      → Placed s top (p ∷ ps)
  skipped :
      {p : Phdr} {ps : List Phdr} → p.p_type ≢ pt_load → Placed s top ps → Placed s top (p ∷ ps)

-- No loadable segment of the list is copied to the `n` bytes from `q`.
pub data Clear (q n : ℕ) : List Phdr → Type 0 where
  no_more : Clear q n []
  apart :
      {p : Phdr} {ps : List Phdr}
      → (q + n ≤ p.p_vaddr) ⊎ (p.p_vaddr + p.p_filesz ≤ q)
      → Clear q n ps
      → Clear q n (p ∷ ps)
  unloaded : {p : Phdr} {ps : List Phdr} → p.p_type ≢ pt_load → Clear q n ps → Clear q n (p ∷ ps)

-- A stream whose size is that of the file, which has less than 2 ^ 63 bytes.
pub record Whole (s : LeafStream) : Type 0 where
  pub sized : s.size ≡ length s.bytes
  pub small : s.size < 2 ^ 63

-- The bytes of the segment in the file.
abbrev pub image_of : LeafStream → Phdr → Bytes
image_of s p = take p.p_filesz (drop p.p_offset s.bytes)

length-image_of :
    (s : LeafStream) (p : Phdr)
    → p.p_offset + p.p_filesz ≤ length s.bytes
    → length (image_of s p) ≡ p.p_filesz
length-image_of s p h =
    omega (arith, length-take p.p_filesz (drop p.p_offset s.bytes), length-drop p.p_offset s.bytes)

stream_read_into_lem :
    {s : LeafStream} (n : ℕ)
    → Whole s
    → s.pos + n ≤ length s.bytes
    → (s' : LeafStream) × (stream_read_into s n ≡ done (some (take n (drop s.pos s.bytes)), s'))
unfolding stream_read_into slice
stream_read_into_lem {s} n w h =
    let below : ltb s.size ((s.pos + n) % 2 ^ 64) ≡ false = ground (arith, w.sized, w.small) in
    let room : leb (s.pos + n) (length s.bytes) ≡ true = ground arith in
    (record s { pos = (s.pos + n) % 2 ^ 64 }, rw (below, room))

-- A loadable segment.
copy_segment-loaded :
    {s : LeafStream} {p : Phdr} (blob : Bytes) (dyns : Option ℕ)
    → Whole s
    → p.p_type ≡ pt_load
    → InFile s (length blob) p
    → copy_segment s p (blob, dyns) ≡ done (patch blob p.p_vaddr (image_of s p), dyns)
unfolding copy_segment put_segment splice
copy_segment-loaded {s} {p} blob dyns w load f =
    let same : (p.p_type == pt_load) ≡ true = ground arith in
    let (s', read) =
      stream_read_into_lem {s = set_pos s p.p_offset} p.p_filesz
        (record { sized = w.sized; small = w.small }) f.read in
    let room : leb (p.p_vaddr + length (image_of s p)) (length blob) ≡ true =
      rw (length-image_of s p f.read) (ground (arith, f.placed)) in
    rw (same, read, room) refl

copy_segment-other :
    (s : LeafStream) (p : Phdr) (blob : Bytes) (dyns : Option ℕ)
    → p.p_type ≢ pt_load
    → (dyns' : Option ℕ) × (copy_segment s p (blob, dyns) ≡ done (blob, dyns'))
unfolding copy_segment
copy_segment-other s p blob dyns other =
    let differs : (p.p_type == pt_load) ≡ false = ground arith in
    elim (Bool-cases (p.p_type == pt_dynamic)) [
      | inl e ↦ (some p.p_offset, rw (differs, e))
      | inr e ↦ (dyns, rw (differs, e))
    ]

Clear-head :
    {q n : ℕ} {p : Phdr} {ps : List Phdr}
    → p.p_type ≡ pt_load
    → Clear q n (p ∷ ps)
    → (q + n ≤ p.p_vaddr) ⊎ (p.p_vaddr + p.p_filesz ≤ q)
Clear-head load (apart h c) = h
Clear-head load (unloaded other c) = absurd (other load)

Clear-tail : {q n : ℕ} {p : Phdr} {ps : List Phdr} → Clear q n (p ∷ ps) → Clear q n ps
Clear-tail (apart h c) = c
Clear-tail (unloaded other c) = c

-- A memory that has the same length, and the same bytes where no segment of the list goes.
record Kept (ps : List Phdr) (old new : Bytes) : Type 0 where
  as_long : length new ≡ length old
  kept : (q n : ℕ) → Clear q n ps → take n (drop q new) ≡ take n (drop q old)

moved : {s : LeafStream} {ps : List Phdr} {m n : ℕ} → m ≡ n → Placed s n ps → Placed s m ps
moved e placed = rw e placed

-- The copying succeeds.
copy_segments-defined :
    {s : LeafStream} {ps : List Phdr} (blob : Bytes) (dyns : Option ℕ)
    → Whole s
    → Placed s (length blob) ps
    → (r : Bytes × Option ℕ) × (copy_segments s ps (blob, dyns) ≡ done r) × Kept ps blob r.0
unfolding copy_segments
copy_segments-defined blob dyns w nothing =
    ((blob, dyns), refl, record { as_long = refl; kept = λ q n c. refl })
copy_segments-defined {s} {ps = p ∷ ps} blob dyns w (skipped other placed) =
    let (dyns', e) = copy_segment-other s p blob dyns other in
    let (r, copied, k) = copy_segments-defined blob dyns' w placed in
    (r, rw e copied, record { as_long = k.as_long; kept = λ q n c. k.kept q n (Clear-tail c) })
copy_segments-defined {s} {ps = p ∷ ps} blob dyns w (segment load f placed) =
    let blob' = patch blob p.p_vaddr (image_of s p) in
    let same : length blob' ≡ length blob = length-patch blob p.p_vaddr (image_of s p) in
    let (r, copied, k) = copy_segments-defined blob' dyns w (moved same placed) in
    let other : (q n : ℕ) → Clear q n (p ∷ ps) → take n (drop q blob') ≡ take n (drop q blob) =
      λ q n c.
        slice-patch_other blob p.p_vaddr q n (image_of s p)
          (rw (length-image_of s p f.read) (Clear-head load c)) in
    (
      r,
      rw (copy_segment-loaded blob dyns w load f) copied,
      record {
        as_long = k.as_long ∙ same;
        kept = λ q n c. k.kept q n (Clear-tail c) ∙ other q n c;
      },
    )

-- Where every loadable segment is in the file and in the mapped memory, the copying succeeds; and a
-- segment that no later one overlaps is then at its address as it is in the file.
pub copy_segments-copied :
    {s : LeafStream} (earlier later : List Phdr) (p : Phdr) (blob : Bytes) (dyns : Option ℕ)
    → Whole s
    → Placed s (length blob) (earlier ++ p ∷ later)
    → p.p_type ≡ pt_load
    → Clear p.p_vaddr p.p_filesz later
    → (r : Bytes × Option ℕ) × (copy_segments s (earlier ++ p ∷ later) (blob, dyns) ≡ done r)
      × (take p.p_filesz (drop p.p_vaddr r.0) ≡ take p.p_filesz (drop p.p_offset s.bytes))
unfolding copy_segments
copy_segments-copied [] later p blob dyns w (skipped other placed) load c = absurd (other load)
copy_segments-copied {s} [] later p blob dyns w (segment load' f placed) load c =
    let blob' = patch blob p.p_vaddr (image_of s p) in
    let size = length-image_of s p f.read in
    let same : length blob' ≡ length blob = length-patch blob p.p_vaddr (image_of s p) in
    let (r, copied, k) = copy_segments-defined blob' dyns w (moved same placed) in
    let put : take p.p_filesz (drop p.p_vaddr blob') ≡ image_of s p =
      rw size at (slice-patch_self blob p.p_vaddr (image_of s p) (rw size f.placed)) in
    (r, rw (copy_segment-loaded blob dyns w load f) copied, k.kept _ _ c ∙ put)
copy_segments-copied {s} (x ∷ xs) later p blob dyns w (skipped other placed) load c =
    let (dyns', e) = copy_segment-other s x blob dyns other in
    let (r, copied, there) = copy_segments-copied xs later p blob dyns' w placed load c in
    (r, rw e copied, there)
copy_segments-copied {s} (x ∷ xs) later p blob dyns w (segment load' f placed) load c =
    let blob' = patch blob x.p_vaddr (image_of s x) in
    let same : length blob' ≡ length blob = length-patch blob x.p_vaddr (image_of s x) in
    let (r, copied, there) =
      copy_segments-copied xs later p blob' dyns w (moved same placed) load c in
    (r, rw (copy_segment-loaded blob dyns w load' f) copied, there)
