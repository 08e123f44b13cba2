-- ===== src/Files/Effects.antt =====
-- What the script functions on files do to the contents of the disk.
use kn_shim.Base.{
  if◌then◌else◌, ◌≤◌, ◌≡◌, refl, sym, ap, ◌∙◌, Bool, true, false, Bool-cases, some, [], ◌∷◌, ◌++◌,
  ltb, ◌==◌, length, take, arith, ==_refl, ==_iff, take_all, ◌⊎◌, inl, inr,
}
use kn_shim.Dict.Blob.{Bytes, bytes_eq}
use kn_shim.Lua.{Lua, c_string}
use kn_shim.Stdio.{Stdio, StdioLaws, IsReliable}
use kn_shim.Files.{write_file, read_file, FileReply}

length-zero : (xs : Bytes) → (length xs == 0) ≡ true → [] ≡ xs
length-zero [] h = refl
length-zero (x ∷ xs) h = ground arith

module _ (lua : Lua) (io : Stdio) (laws : StdioLaws io) where
  open lua use {State, gettop, tolstring, pushboolean, pushlstring}
  open io use {Disk, fopen_wb, fwrite, fclose, fopen_rb, fsize, fread}
  open laws use {contents, target, written, left}

  -- A file was written: the script is told whether all of it was, and where it was the path holds
  -- the text. The other files are kept.
  pub record Written (disk : Disk) (script : State) (path text : Bytes) (r : FileReply lua io)
      : Type 0 where
    pub stored : Bool
    pub told : (r.0 ≡ 1) × (r.1 ≡ pushboolean script stored)
    pub file : (stored ≡ false) ⊎ (contents r.2 path ≡ some text)
    pub others :
        (other : Bytes)
        → contents r.2 other
          ≡ (if bytes_eq other path then contents r.2 path else contents disk other)

  write_file-opened :
      (script : State) (disk : Disk) (path text : Bytes) {g : io.Sink}
      → 2 ≤ gettop script
      → (tolstring script 1).1 ≡ some path
      → (tolstring (tolstring script 1).0 2).1 ≡ some text
      → fopen_wb disk (c_string path) ≡ some g
      → write_file lua io script disk ≡ (
        1,
        pushboolean
            (tolstring (tolstring script 1).0 2).0
            ((fwrite g text 1 (length text)).1 == length text),
        fclose disk (fwrite g text 1 (length text)).0,
      )
  unfolding write_file
  write_file-opened script disk path text two key value opened =
      let test : ltb (gettop script) 2 ≡ false = ground arith in rw (test, key, value, opened) refl

  -- The stream leads to the path, and where all is written the file holds it.
  closes :
      (sure : IsReliable io laws) (disk : Disk) (path text : Bytes) {g : io.Sink}
      → fopen_wb disk path ≡ some g
      → (target (fwrite g text 1 (length text)).0 ≡ path)
        × ((((fwrite g text 1 (length text)).1 == length text) ≡ false)
            ⊎ (contents (fclose disk (fwrite g text 1 (length text)).0) path ≡ some text))
  closes sure disk path text {g} opened =
      let count = (fwrite g text 1 (length text)).1 in
      let g' = (fwrite g text 1 (length text)).0 in
      let aim : target g' ≡ path =
        laws.writes_to g text 1 (length text) ∙ (laws.opened disk path opened).0 in
      (
        aim,
        elim (Bool-cases (count == length text)) [
          | inr short ↦ inl short
          | inl all ↦ inr (
              rw aim at (sure.closed disk g')
              ∙ ap some (
                  laws.wrote_all g text ((==_iff count (length text)).0 all)
                  ∙ ap (λ t. t ++ text) (laws.opened disk path opened).1))
        ],
      )

  -- Where no `fread` fails: `knReadFile` of a file that it can open leaves its contents to the
  -- byte, empty ones included, where the memory for them is there.
  pub read_file-contents :
      (sure : IsReliable io laws) (script : State) (disk : Disk) (path text : Bytes) {f : io.Source}
      → 1 ≤ gettop script
      → (tolstring script 1).1 ≡ some path
      → fopen_rb disk (c_string path) ≡ some f
      → contents disk (c_string path) ≡ some text
      → read_file lua io true script disk ≡ (1, pushlstring (tolstring script 1).0 text, disk)
  unfolding read_file
  read_file-contents sure script disk path text {f} one key opened holds =
      let test : ltb (gettop script) 1 ≡ false = ground arith in
      let same : some text ≡ some (left f) =
        sym holds ∙ laws.opened_rb disk (c_string path) opened in
      let rest : left f ≡ text = cc same in
      let size : fsize f ≡ length text = laws.sized disk (c_string path) opened ∙ ap length rest in
      let bytes : (fread f (length text)).1 ≡ text =
        sure.read f (length text) (omega (arith, ap length rest))
        ∙ ap (take (length text)) rest
        ∙ take_all text in
      elim (Bool-cases (length text == 0)) [
        | inl empty ↦
            rw (test, key, opened, size, empty)
              (ap (λ t. (1, pushlstring (tolstring script 1).0 t, disk)) (length-zero text empty))
        | inr full ↦ rw (test, key, opened, size, full, bytes, ==_refl (length text))
      ]

  -- Where no `fclose` and no `fread` fails: where `knWriteFile` can open the file and all is
  -- written, it leaves true, and a `knReadFile` of the same path, where it can open the file and
  -- has the memory, leaves the same text to the byte.
  pub read_file-write_file :
      (sure : IsReliable io laws) (script later : State) (disk : Disk) (path text : Bytes)
      {g : io.Sink} {f : io.Source}
      → 2 ≤ gettop script
      → (tolstring script 1).1 ≡ some path
      → (tolstring (tolstring script 1).0 2).1 ≡ some text
      → 1 ≤ gettop later
      → (tolstring later 1).1 ≡ some path
      → fopen_wb disk (c_string path) ≡ some g
      → (fwrite g text 1 (length text)).1 ≡ length text
      → fopen_rb (write_file lua io script disk).2 (c_string path) ≡ some f
      → ((write_file lua io script disk).1
          ≡ pushboolean (tolstring (tolstring script 1).0 2).0 true)
        × ((read_file lua io true later (write_file lua io script disk).2).1
            ≡ pushlstring (tolstring later 1).0 text)
  read_file-write_file sure script later disk path text {g} two key value one key' opened all
        again =
      let run = write_file-opened script disk path text two key value opened in
      let full : ((fwrite g text 1 (length text)).1 == length text) ≡ true =
        rw all (==_refl (length text)) in
      let holds : contents (write_file lua io script disk).2 (c_string path) ≡ some text =
        elim (closes sure disk (c_string path) text opened).1 [
          | inl short ↦ absurd (cc (short, full))
          | inr there ↦ ap (λ r. contents r.2 (c_string path)) run ∙ there
        ] in
      (
        ap (λ r. r.1) run ∙ ap (pushboolean (tolstring (tolstring script 1).0 2).0) full,
        ap (λ r. r.1)
            (read_file-contents sure later (write_file lua io script disk).2 path text one key'
              again holds),
      )
