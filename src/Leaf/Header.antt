-- ===== src/Leaf/Header.antt =====
-- The ELF header and the tests on it.
pub mod Checks
use kn_shim.Base.{
  ℕ, ◌+◌, Bool, true, false, not, Option, none, some, List, [], ◌∷◌, take, ◌==◌, if◌then◌else◌,
}
use kn_shim.Dict.Blob.{Bytes, bytes_eq}
use kn_shim.Memory.Region.{load_number}
use kn_shim.Leaf.{
  LoadError, failed_header, invalid_elf, wrong_class, big_endian, wrong_version, not_shared,
  Outcome, done, error, ◌>>=◌, ◌>>◌, access, found, require, LeafStream, stream_read,
  stream_read_into,
}

abbrev pub elf_signature : Bytes
elf_signature = 0x7f ∷ b'E' ∷ b'L' ∷ b'F' ∷ []

-- `Elf64_Ehdr` has 64 bytes.
abbrev pub ehdr_size : ℕ
ehdr_size = 64

-- The fields that are used.
pub record Ehdr : Type 0 where
  pub ident : Bytes
  pub class : ℕ
  pub encoding : ℕ
  pub version : ℕ
  pub e_type : ℕ
  pub phoff : ℕ
  pub phentsize : ℕ
  pub phnum : ℕ

unfoldable pub parse_ehdr : Bytes → Outcome Ehdr
unfolding load_number
parse_ehdr b = do
  class ← access (load_number b 4 1)
  encoding ← access (load_number b 5 1)
  version ← access (load_number b 6 1)
  e_type ← access (load_number b 16 2)
  phoff ← access (load_number b 32 8)
  phentsize ← access (load_number b 54 2)
  phnum ← access (load_number b 56 2)
  done (record {
    ident = take 4 b;
    class = class;
    encoding = encoding;
    version = version;
    e_type = e_type;
    phoff = phoff;
    phentsize = phentsize;
    phnum = phnum;
  })

-- LEAF_CURRENT_CLASS is 2 here; ET_DYN is 3.
unfoldable pub check_ehdr : Ehdr → Outcome (Unit {0})
check_ehdr h = do
  require (bytes_eq h.ident elf_signature) invalid_elf
  require (h.class == 2) wrong_class
  require (h.encoding == 1) big_endian
  require (h.version == 1) wrong_version
  require (h.e_type == 3) not_shared

unfoldable pub read_ehdr : LeafStream → Outcome (Ehdr × LeafStream)
unfolding stream_read_into parse_ehdr check_ehdr
read_ehdr stream = do
  (read, stream') ← stream_read stream ehdr_size
  b ← found read failed_header
  ehdr ← parse_ehdr b
  check_ehdr ehdr
  done (ehdr, stream')
