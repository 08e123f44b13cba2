-- ===== src/Leaf/Segments.antt =====
-- The program headers, the mapping, and the copying of the segments.
pub mod Copied
use kn_shim.Base.{
  ℕ, zero, suc, ◌+◌, ◌%◌, ◌^◌, Option, none, some, List, [], ◌∷◌, length, replicate, ltb, ◌==◌,
  if◌then◌else◌,
}
use kn_shim.Dict.Blob.{Bytes}
use kn_shim.Memory.Region.{load_number, splice}
use kn_shim.Leaf.{
  LoadError, failed_program_header, map_failed, no_dynamic, Outcome, done, error, ◌>>=◌, ◌>>◌,
  access, found, LeafStream, set_pos, stream_read, stream_read_into, Linker,
}

pub record Phdr : Type 0 where
  pub p_type : ℕ
  pub p_offset : ℕ
  pub p_vaddr : ℕ
  pub p_filesz : ℕ
  pub p_memsz : ℕ

-- `Elf64_Phdr`, in a block that may be shorter than it.
unfoldable pub parse_phdr : Bytes → Outcome Phdr
unfolding load_number
parse_phdr b = do
  p_type ← access (load_number b 0 4)
  p_offset ← access (load_number b 8 8)
  p_vaddr ← access (load_number b 16 8)
  p_filesz ← access (load_number b 32 8)
  p_memsz ← access (load_number b 40 8)
  done (record {
    p_type = p_type;
    p_offset = p_offset;
    p_vaddr = p_vaddr;
    p_filesz = p_filesz;
    p_memsz = p_memsz;
  })

-- The loop that reads the program headers, with so many left.
unfoldable pub read_phdrs : ℕ → ℕ → LeafStream → Outcome (List Phdr × LeafStream)
unfolding stream_read_into parse_phdr
read_phdrs zero phentsize stream = done ([], stream)
read_phdrs (suc left) phentsize stream = do
  (read, stream1) ← stream_read stream phentsize
  b ← found read failed_program_header
  phdr ← parse_phdr b
  (phdrs, stream2) ← read_phdrs left phentsize stream1
  done (phdr ∷ phdrs, stream2)

abbrev pub pt_load : ℕ
pt_load = 1

abbrev pub pt_dynamic : ℕ
pt_dynamic = 2

-- The end of the last loadable segment.
unfoldable pub highest : ℕ → List Phdr → ℕ
highest so_far [] = so_far
highest so_far (p ∷ ps) =
    highest (if p.p_type == pt_load then (p.p_vaddr + p.p_memsz) % 2 ^ 64 else so_far) ps

-- What `LeafStreamReadInto` copies to an address; a segment that is not in the file leaves the
-- memory as it is.
unfoldable pub put_segment : ℕ → Option Bytes → Bytes → Outcome Bytes
unfolding splice
put_segment vaddr none blob = done blob
put_segment vaddr (some b) blob = access (splice blob vaddr b)

-- One round of the copying: the mapped memory, and where in the file the dynamic entries are.
unfoldable pub copy_segment : LeafStream → Phdr → Bytes × Option ℕ → Outcome (Bytes × Option ℕ)
unfolding stream_read_into put_segment
copy_segment stream p (blob, dyns) =
    let loaded : Outcome (Bytes × Option ℕ) = (do
      (read, _) ← stream_read_into (set_pos stream p.p_offset) p.p_filesz
      blob' ← put_segment p.p_vaddr read blob
      done (blob', dyns)) in
    if p.p_type == pt_load
    then loaded
    else if p.p_type == pt_dynamic
    then done (blob, some p.p_offset)
    else done (blob, dyns)

unfoldable pub copy_segments :
    LeafStream → List Phdr → Bytes × Option ℕ → Outcome (Bytes × Option ℕ)
unfolding copy_segment
copy_segments stream [] state = done state
copy_segments stream (p ∷ ps) state = copy_segment stream p state >>= copy_segments stream ps

module _ (linker : Linker) where
  -- The mapping's address, the memory, and the place of the dynamic entries.
  unfoldable pub load_segments : LeafStream → List Phdr → Outcome (ℕ × Bytes × ℕ)
  unfolding highest copy_segments
  load_segments stream phdrs = do
    let top = highest 0 phdrs
    base ← found (linker.map_rwx top) map_failed
    (blob, dyns) ← copy_segments stream phdrs (replicate top 0, none)
    pos ← found dyns no_dynamic
    done (base, blob, pos)
