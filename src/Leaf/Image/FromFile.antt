-- ===== src/Leaf/Image/FromFile.antt =====
-- `LeafLoadFromFile` of jni/andrleaf.h. Whether malloc finds the memory for the file is an
-- argument; the memory and the file are given back on every path, which is not modelled.
use kn_shim.Base.{
  ℕ, ◌≡◌, refl, sym, ap, ◌∙◌, Bool, true, false, Option, none, some, List, length, take, ◌==◌,
  ==_refl, take_all, arith, if◌then◌else◌,
}
use kn_shim.Dict.Blob.{Bytes}
use kn_shim.Leaf.{Outcome, error, could_not_open, no_memory_for_file, failed_read, Linker}
use kn_shim.Leaf.Image.{Leaf, load_from_buffer}
use kn_shim.Stdio.{Stdio, StdioLaws, IsReliable}

module _ (linker : Linker) (io : Stdio) where
  open io use {Disk, Source, fopen_rb, fsize, fread}

  -- The read, once there is memory for it.
  unfoldable pub load_read : ℕ → Bytes → Outcome (Leaf linker × List ℕ)
  unfolding load_from_buffer
  load_read size data' =
      if length data' == size then load_from_buffer linker data' size else error failed_read

  -- An open file, and whether there is memory for its contents.
  unfoldable pub load_opened : Bool → Source → Outcome (Leaf linker × List ℕ)
  unfolding load_read
  load_opened false file = error no_memory_for_file
  load_opened true file = load_read (fsize file) (fread file (fsize file)).1

  unfoldable pub load_found : Bool → Option Source → Outcome (Leaf linker × List ℕ)
  unfolding load_opened
  load_found alloc none = error could_not_open
  load_found alloc (some file) = load_opened alloc file

  unfoldable pub load_from_file : Bool → Disk → Bytes → Outcome (Leaf linker × List ℕ)
  unfolding load_found
  load_from_file alloc disk path = load_found alloc (fopen_rb disk path)

  -- A file that can be opened, with memory for its contents, is loaded as the buffer of its
  -- contents.
  pub load_from_file-load_from_buffer :
      (laws : StdioLaws io) (sure : IsReliable io laws) (disk : Disk) (path contents : Bytes)
      {file : Source}
      → fopen_rb disk path ≡ some file
      → laws.contents disk path ≡ some contents
      → load_from_file true disk path ≡ load_from_buffer linker contents (length contents)
  unfolding load_from_file load_found load_opened load_read
  load_from_file-load_from_buffer laws sure disk path contents {file} found holds =
      let said : some contents ≡ some (laws.left file) =
        sym holds ∙ laws.opened_rb disk path found in
      let same : laws.left file ≡ contents = cc said in
      let size : fsize file ≡ length contents = laws.sized disk path found ∙ ap length same in
      let text : (fread file (length contents)).1 ≡ contents =
        sure.read file (length contents) (omega (arith, ap length same))
        ∙ ap (take (length contents)) same
        ∙ take_all contents in
      rw (found, size, text, ==_refl (length contents)) refl
