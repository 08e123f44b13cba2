-- ===== src/Leaf/Header/Checks.antt =====
-- What the tests on the ELF header accept, and what they say otherwise.
use kn_shim.Base.{
  ℕ, ◌^◌, ◌≤◌, ◌<◌, ◌≡◌, ◌≢◌, ◌⊎◌, inl, inr, Bool-cases, length, take, drop, length-take, ltb, leb,
  true, false, ◌==◌, arith,
}
use kn_shim.Dict.Blob.{Bytes, bytes_eq}
use kn_shim.Memory.Region.{slice, number_of, load_number_lem}
use kn_shim.Leaf.{
  LoadError, failed_header, invalid_elf, wrong_class, big_endian, wrong_version, not_shared, done,
  error, stream_init, set_pos, stream_read_into,
}
use kn_shim.Leaf.Header.{Ehdr, elf_signature, parse_ehdr, check_ehdr, read_ehdr}

-- A 64-bit, little-endian shared object.
pub record Loadable (h : Ehdr) : Type 0 where
  pub signature : bytes_eq h.ident elf_signature ≡ true
  pub class : h.class ≡ 2
  pub encoding : h.encoding ≡ 1
  pub version : h.version ≡ 1
  pub shared : h.e_type ≡ 3

-- What is wrong with a header that an error is about.
pub data Defect (h : Ehdr) : LoadError → Type 0 where
  no_signature : bytes_eq h.ident elf_signature ≡ false → Defect h invalid_elf
  other_class : h.class ≢ 2 → Defect h wrong_class
  other_encoding : h.encoding ≢ 1 → Defect h big_endian
  other_version : h.version ≢ 1 → Defect h wrong_version
  no_library : h.e_type ≢ 3 → Defect h not_shared

check_ehdr_lem :
    (h : Ehdr)
    → ((check_ehdr h ≡ done tt) × Loadable h)
      ⊎ ((e : LoadError) × (check_ehdr h ≡ error e) × Defect h e)
unfolding check_ehdr
check_ehdr_lem h = elim (Bool-cases (bytes_eq h.ident elf_signature)) [
  | inr e1 ↦ inr (invalid_elf, rw e1, no_signature e1)
  | inl e1 ↦ elim (Bool-cases (h.class == 2)) [
    | inr e2 ↦ inr (wrong_class, rw (e1, e2), other_class (ground arith))
    | inl e2 ↦ elim (Bool-cases (h.encoding == 1)) [
      | inr e3 ↦ inr (big_endian, rw (e1, e2, e3), other_encoding (ground arith))
      | inl e3 ↦ elim (Bool-cases (h.version == 1)) [
        | inr e4 ↦ inr (wrong_version, rw (e1, e2, e3, e4), other_version (ground arith))
        | inl e4 ↦ elim (Bool-cases (h.e_type == 3)) [
          | inr e5 ↦ inr (not_shared, rw (e1, e2, e3, e4, e5), no_library (ground arith))
          | inl e5 ↦ inl (
            rw (e1, e2, e3, e4, e5),
            record {
              signature = e1;
              class = ground arith;
              encoding = ground arith;
              version = ground arith;
              shared = ground arith;
            },
          )
        ]
      ]
    ]
  ]
]

parse_ehdr-defined : (b : Bytes) → length b ≡ 64 → (h : Ehdr) × (parse_ehdr b ≡ done h)
unfolding parse_ehdr
parse_ehdr-defined b e =
    let word : ℕ → ℕ → ℕ = λ p n. number_of (take n (drop p b)) in
    let h : Ehdr = record {
      ident = take 4 b;
      class = word 4 1;
      encoding = word 5 1;
      version = word 6 1;
      e_type = word 16 2;
      phoff = word 32 8;
      phentsize = word 54 2;
      phnum = word 56 2;
    } in
    (
      h,
      rw (
        load_number_lem b 4 1 (omega arith),
        load_number_lem b 5 1 (omega arith),
        load_number_lem b 6 1 (omega arith),
        load_number_lem b 16 2 (omega arith),
        load_number_lem b 32 8 (omega arith),
        load_number_lem b 54 2 (omega arith),
        load_number_lem b 56 2 (omega arith),
      ),
    )

-- A file that is shorter than a header is an error. Otherwise the header is that of the first 64
-- bytes, and either it is that of a 64-bit little-endian shared object and the stream stands behind
-- it, or the error names a defect that it has.
pub Verdict : Bytes → Type 0
Verdict contents =
    let stream = stream_init contents (length contents) in
    ((length contents < 64) × (read_ehdr stream ≡ error failed_header))
    ⊎ ((h : Ehdr) × (parse_ehdr (take 64 contents) ≡ done h)
        × (((read_ehdr stream ≡ done (h, set_pos stream 64)) × Loadable h)
            ⊎ ((e : LoadError) × (read_ehdr stream ≡ error e) × Defect h e)))

-- The header of a file of less than 2 ^ 63 bytes is read without undefined behaviour, and judged
-- rightly: a file too short is an error, a header that is loadable is answered, with the stream
-- behind it, and any other is the error of a defect that it has.
pub read_ehdr-Verdict : (contents : Bytes) → length contents < 2 ^ 63 → Verdict contents
unfolding Verdict read_ehdr stream_read_into slice
read_ehdr-Verdict contents small = elim (Bool-cases (ltb (length contents) 64)) [
  | inl short ↦ inl (ground arith, rw short)
  | inr long ↦
      let room : 64 ≤ length contents = ground arith in
      let fits : leb 64 (length contents) ≡ true = ground arith in
      let (h, parsed) =
        parse_ehdr-defined (take 64 contents) (omega (arith, length-take 64 contents)) in
      inr (
        h,
        parsed,
        elim (check_ehdr_lem h) [
          | inl (passed, loadable) ↦ inl (rw (long, fits, parsed, passed), loadable)
          | inr (e, failed, defect) ↦ inr (e, rw (long, fits, parsed, failed), defect)
        ],
      )
]
