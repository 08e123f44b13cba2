-- ===== src/Stdio.antt =====
-- The C library's files as the shim uses them. The library is not the repository's, so its types
-- and calls are parameters, and the laws state what it documents for the calls that are made.
-- A stream that is written is a buffer for one file, which reaches the disk when it is closed (the
-- code never looks at the disk in between); the status of `fclose`, which no caller looks at,
-- is left out. A stream that is read is
-- what is left of the file. The mode "wb" or "rb" is part of a call's name.
use kn_shim.Base.{ℕ, ◌≤◌, ◌≡◌, ◌≢◌, Bool, true, false, Option, some, [], ◌++◌, length, take, drop}
use kn_shim.Dict.Blob.{Bytes}

pub record Stdio : Type 1 where
  pub Disk : Type 0
  pub Sink : Type 0
  pub Source : Type 0
  -- `fopen(path, "wb")`, `fwrite(buffer, size, count, file)`, `fclose`.
  pub fopen_wb : Disk → Bytes → Option Sink
  pub fwrite : Sink → Bytes → ℕ → ℕ → Sink × ℕ
  pub fclose : Disk → Sink → Disk
  -- `fopen(path, "rb")`, `fread(buffer, 1, size, file)` with the bytes that were read.
  pub fopen_rb : Disk → Bytes → Option Source
  pub fread : Source → ℕ → Source × Bytes
  -- `fseek(file, 0, SEEK_END)`, `ftell`, and `fseek` back to the start.
  pub fsize : Source → ℕ
  -- The status is compared with 0 by all callers, so it is a Boolean: success.
  pub rename : Disk → Bytes → Bytes → Disk × Bool
  pub remove : Disk → Bytes → Disk × Bool
  pub mkdir : Disk → Bytes → Disk × Bool

-- What the calls do to the contents of the files.
pub record StdioLaws (io : Stdio) : Type 1 where
  pub contents : io.Disk → Bytes → Option Bytes
  pub target : io.Sink → Bytes
  pub written : io.Sink → Bytes
  pub left : io.Source → Bytes
  pub opened :
      (d : io.Disk) (path : Bytes) {f : io.Sink}
      → io.fopen_wb d path ≡ some f
      → (target f ≡ path) × (written f ≡ [])
  pub writes_to :
      (f : io.Sink) (buffer : Bytes) (size count : ℕ)
      → target (io.fwrite f buffer size count).0 ≡ target f
  -- One item, and it was written.
  pub wrote_one :
      (f : io.Sink) (buffer : Bytes)
      → (io.fwrite f buffer (length buffer) 1).1 ≢ 0
      → written (io.fwrite f buffer (length buffer) 1).0 ≡ written f ++ buffer
  -- "If size or nmemb is zero, fwrite returns zero."
  pub wrote_nothing :
      (f : io.Sink) (buffer : Bytes) (count : ℕ) → (io.fwrite f buffer 0 count).1 ≡ 0
  -- Items of one byte, all of which were written.
  pub wrote_all :
      (f : io.Sink) (buffer : Bytes)
      → (io.fwrite f buffer 1 (length buffer)).1 ≡ length buffer
      → written (io.fwrite f buffer 1 (length buffer)).0 ≡ written f ++ buffer
  pub closed_other :
      (d : io.Disk) (f : io.Sink) (path : Bytes)
      → path ≢ target f
      → contents (io.fclose d f) path ≡ contents d path
  pub opened_rb :
      (d : io.Disk) (path : Bytes) {f : io.Source}
      → io.fopen_rb d path ≡ some f
      → contents d path ≡ some (left f)
  pub sized :
      (d : io.Disk) (path : Bytes) {f : io.Source}
      → io.fopen_rb d path ≡ some f
      → io.fsize f ≡ length (left f)
  pub renamed :
      (d : io.Disk) (old new : Bytes)
      → (io.rename d old new).1 ≡ true
      → contents (io.rename d old new).0 new ≡ contents d old
  pub not_renamed :
      (d : io.Disk) (old new path : Bytes)
      → (io.rename d old new).1 ≡ false
      → contents (io.rename d old new).0 path ≡ contents d path

-- No `fclose` and no `fread` fails. The library does not promise this, and the code does not look
-- at the result of `fclose`, so a theorem that needs it has it among its hypotheses: a stream that
-- is closed has all that was written to it in its file, and a read gives what it asks for where
-- that is left.
pub record IsReliable (io : Stdio) (laws : StdioLaws io) : Type 0 where
  pub closed :
      (d : io.Disk) (f : io.Sink)
      → laws.contents (io.fclose d f) (laws.target f) ≡ some (laws.written f)
  pub read :
      (f : io.Source) (n : ℕ) → n ≤ length (laws.left f) → (io.fread f n).1 ≡ take n (laws.left f)
  pub read_left :
      (f : io.Source) (n : ℕ)
      → n ≤ length (laws.left f)
      → laws.left (io.fread f n).0 ≡ drop n (laws.left f)
