-- ===== src/Database/Script/Session/Whole.antt =====
-- The file of the database of jni/reg.c after a session.
use kn_shim.Base.{
  ℕ, ◌⊎◌, ◌+◌, ◌-◌, ◌≤◌, ◌^◌, ◌≡◌, refl, ap, ◌∙◌, Option, some, inl, inr, List, [], ◌∷◌, ◌++◌,
  length, Returns,
}
use kn_shim.Dict.Blob.{Bytes}
use kn_shim.Dict.Table.{Dict}
use kn_shim.Dict.Assoc.{Entries}
use kn_shim.Lua.{Lua}
use kn_shim.Stdio.{Stdio, StdioLaws, IsReliable}
use kn_shim.Database.Format.{encode}
use kn_shim.Database.Script.Session.{
  DbCall, AllHaveArguments, session, Store, Step, set_stored, set_lost, got, had, delete_stored,
  delete_lost, Run, ended, next, Holds,
}
use kn_shim.Database.Script.Session.Runs.{session-Run}

module _ (lua : Lua) (io : Stdio) (laws : StdioLaws io) (path : Bytes) where
  open lua use {State}
  open laws use {contents}

  abbrev Calls : Type 0
  Calls = List (DbCall lua io path)

  abbrev File : Type 0
  File = Option Bytes

  Step-file :
      {call : DbCall lua io path} {s1 s2 : Store lua io laws path} {answer : ℕ × State}
      → Step lua io laws path call s1 answer s2
      → (s2.1 ≡ s1.1) ⊎ (s2.1 ≡ some (encode s2.0))
  Step-file (set_stored stored short) = inr stored
  Step-file (set_lost same) = inl same
  Step-file got = inl refl
  Step-file had = inl refl
  Step-file (delete_stored stored short) = inr stored
  Step-file (delete_lost same) = inl same

  -- After the first of the calls memory held the entries `held`, and the file holds them.
  pub record HeldOnce (calls : Calls) (before : Store lua io laws path) (file : File) : Type 0 where
    pub first : Calls
    pub later : Calls
    pub order : calls ≡ first ++ later
    pub answers : List (ℕ × State)
    pub held : Entries
    pub reached : Run lua io laws path first before answers (held, file)
    pub whole : file ≡ some (encode held)

  Run-file :
      {calls : Calls} {s1 s2 : Store lua io laws path} {answers : List (ℕ × State)}
      → Run lua io laws path calls s1 answers s2
      → (s2.1 ≡ s1.1) ⊎ HeldOnce calls s1 s2.1
  Run-file ended = inl refl
  Run-file (next {call = call} {calls = calls} {s2 = s2} {answer = answer} step run) =
      elim (Run-file run) [
        | inl same ↦ elim (Step-file step) [
          | inl kept ↦ inl (same ∙ kept)
          | inr stored ↦ inr (
              rw same (record {
                first = call ∷ [];
                later = calls;
                order = refl;
                answers = answer ∷ [];
                held = s2.0;
                reached = next step ended;
                whole = stored;
              }))
        ]
        | inr once ↦ inr (record {
          first = call ∷ once.first;
          later = once.later;
          order = ap (λ rest. call ∷ rest) once.order;
          answers = answer ∷ once.answers;
          held = once.held;
          reached = next step once.reached;
          whole = once.whole;
        })
      ]

  -- After any session, as in `session-Run`, the file is what it was at first, or holds exactly the
  -- entries that were in memory after some of the calls: a failure of `fopen`, `fwrite` or `rename`
  -- never leaves another file.
  pub session-whole :
      (sure : IsReliable io laws) (calls : Calls) (m : Entries) (disk : io.Disk)
      (database : Option Dict)
      → AllHaveArguments lua io path calls
      → length m + length calls ≤ 2 ^ 29 - 2
      → Holds lua io laws path m disk database
      → Returns (session lua io path calls disk database) λ r.
        (contents r.1 path ≡ contents disk path)
        ⊎ HeldOnce calls (m, contents disk path) (contents r.1 path)
  session-whole sure calls m disk database given few h =
      let (r, run, (m', steps, _)) =
        session-Run lua io laws path sure calls m disk database given few h in
      (r, run, Run-file steps)
