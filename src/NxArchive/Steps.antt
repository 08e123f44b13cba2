-- ===== src/NxArchive/Steps.antt =====
-- The steps of the extractor: the path's buffer, the version, and the names.
use kn_shim.Base.{
  ℕ, ◌+◌, ◌≤◌, ◌<◌, ◌≡◌, refl, ap, ◌∙◌, ◌⊎◌, inl, inr, true, Option, some, ◌++◌, length, take, drop,
  length-append, take-length_append, ltb, ◌==◌, arith, Bool-cases, Option-cases, ◌>>=◌, Returns,
}
use kn_shim.Dict.Blob.{Bytes}
use kn_shim.Lua.{c_string}
use kn_shim.Stdio.{Stdio}
use kn_shim.NxArchive.{
  Extractor, path_max, format_version, strcpy_s, strcat_s, NxError, invalid_archive_format,
  Progress, go_on, return, read_name, restore_path, start_command,
}
use kn_shim.NxArchive.Bounds.{InBounds, Moved, read_int-Moved, get_string_pointer-Moved}

pub strcat_s-append :
    (dest src : Bytes) (n : ℕ) {path : Bytes}
    → strcat_s dest n src ≡ some path
    → (path ≡ dest ++ src) × (length path < n)
unfolding strcat_s
strcat_s-append dest src n h = ground (arith, length-append dest src)

pub strcpy_s-eq :
    (n : ℕ) (src : Bytes) {copied : Bytes} → strcpy_s n src ≡ some copied → copied ≡ src
unfolding strcpy_s
strcpy_s-eq n src h = ground arith

module _ (io : Stdio) where
  open io use {Disk, mkdir}

  -- The extractor returns, or goes on past `this` with the same path.
  abbrev pub Advances : Extractor → Bytes → Progress io → Type 0
  Advances this tmp_path (return error disk) = Unit {0}
  Advances this tmp_path (go_on this' tmp_path' disk) =
      InBounds this' × (this.pos < this'.pos) × (this'.size ≡ this.size) × (tmp_path' ≡ tmp_path)

  pub same_size :
      {this this' : Extractor}
      → InBounds this
      → InBounds this'
      → this'.base ≡ this.base
      → this'.size ≡ this.size
  same_size b b' e = omega (arith, b.sized, b'.sized, ap length e)

  pub restore_path_lem :
      (location_size : ℕ) (tmp_path name : Bytes)
      → length tmp_path ≡ location_size + 1
      → length tmp_path < path_max
      → restore_path io location_size (tmp_path ++ name) ≡ some tmp_path
  restore_path_lem location_size tmp_path name e lt =
      let test : ltb (location_size + 1) path_max ≡ true = ground arith in
      unfold restore_path in rw (test, ← e, take-length_append tmp_path name)

  pub start_command-Advances :
      {this : Extractor} (tmp_path : Bytes) (disk : Disk)
      → InBounds this
      → Returns (start_command io this tmp_path disk) λ p.
        (p ≡ return (some invalid_archive_format) disk)
        ⊎ ((this' : Extractor) × (p ≡ go_on this' tmp_path disk)
            × InBounds this'
            × (this'.size ≡ this.size)
            × (this.pos ≤ this'.pos))
  unfolding start_command
  start_command-Advances {this} tmp_path disk b =
      let (r, run, moved) = read_int-Moved b in
      elim (Bool-cases (r.0 == format_version)) [
        | inr other ↦ (_, rw (run, other), inl refl)
        | inl right ↦ elim moved [
          | inl m ↦ (
            _,
            rw (run, right),
            inr (r.1, refl, m.bounds, same_size b m.bounds m.same, omega (arith, m.far)),
          )
          | inr (zero', _) ↦ absurd (ground arith)
        ]
      ]

  -- Reading a name ends in an error, or goes on with a longer path.
  pub read_name-Returns :
      {this : Extractor} (P : Progress io → Type 0) (no_name no_room : NxError) (tmp_path : Bytes)
      (disk : Disk) (next : Extractor → Bytes → Option (Progress io))
      → InBounds this
      → 0 < this.pos
      → ((e : NxError) → P (return (some e) disk))
      → ((this2 : Extractor) (name : Bytes)
          → InBounds this2
          → this.pos ≤ this2.pos
          → this2.size ≡ this.size
          → Returns (next this2 (tmp_path ++ name)) P)
      → Returns (read_name io no_name no_room this tmp_path disk next) P
  unfolding read_name
  read_name-Returns {this} P no_name no_room tmp_path disk next b start stop go =
      let (r, run, moved) = read_int-Moved b in
      let (b1, ahead, same) = stepped r.1 moved in
      let (s, run2, found) = get_string_pointer-Moved r.0 b1 (omega arith) in
      elim found [
        | inr null ↦ (return (some no_name) disk, rw (run, ◌>>=◌, run2, ◌>>=◌, null), stop no_name)
        | inl (room, at, m) ↦
            let name = c_string (take r.0 (drop r.1.pos s.1.base)) in
            elim (Bool-cases (r.0 == 0)) [
              | inl empty ↦ (
                return (some no_name) disk,
                rw (run, ◌>>=◌, run2, ◌>>=◌, at, empty),
                stop no_name,
              )
              | inr some' ↦ elim (Option-cases (strcat_s tmp_path path_max name)) [
                | inl full ↦ (
                  return (some no_room) disk,
                  rw (run, ◌>>=◌, run2, ◌>>=◌, at, some', full),
                  stop no_room,
                )
                | inr (path, e) ↦
                    let (p, run3, done) =
                      go s.1 name m.bounds (omega (arith, m.far))
                        (same_size b1 m.bounds m.same ∙ same) in
                    (
                      p,
                      rw
                          (
                            run,
                            ◌>>=◌,
                            run2,
                            ◌>>=◌,
                            at,
                            some',
                            e,
                            (strcat_s-append tmp_path name path_max e).0,
                          )
                          run3,
                      done,
                    )
              ]
            ]
      ]
    where
      stepped :
          (this1 : Extractor) {n : ℕ}
          → Moved this 4 this1 ⊎ ((n ≡ 0) × (this1 ≡ this))
          → InBounds this1 × (this.pos ≤ this1.pos) × (this1.size ≡ this.size)
      stepped this1 (inl m) = (m.bounds, omega (arith, m.far), same_size b m.bounds m.same)
      stepped this1 (inr (_, e)) = rw e (b, omega arith, refl)
