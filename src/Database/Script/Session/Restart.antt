-- ===== src/Database/Script/Session/Restart.antt =====
-- The database of jni/reg.c at the start of the game after a session.
use kn_shim.Base.{
  ℕ, ◌+◌, ◌≤◌, ◌<◌, ◌^◌, ◌≡◌, refl, sym, ap, ◌∙◌, Option, none, some, inl, inr, List, [], ◌∷◌, ◌++◌,
  length, length-append, arith, Bool-cases,
}
use kn_shim.Dict.Blob.{Bytes, bytes_eq}
use kn_shim.Dict.Table.{Dict}
use kn_shim.Dict.Assoc.{
  Entries, IsDistinct, assign, erase, assign-IsDistinct, erase-IsDistinct, length-assign-le,
  length-erase-le,
}
use kn_shim.Lua.{Lua}
use kn_shim.Stdio.{Stdio, StdioLaws, IsReliable}
use kn_shim.Database.{get_db}
use kn_shim.Database.Format.{AreShort, encode}
use kn_shim.Database.Load.{load_dict-encode}
use kn_shim.Database.Script.Session.{
  DbCall, call_set, call_get, call_has, call_delete, AllHaveArguments, session, Store, Step,
  set_stored, set_lost, got, had, delete_stored, delete_lost, Run, ended, next, Holds,
}
use kn_shim.Database.Script.Session.Whole.{HeldOnce, session-whole}

assign-AreShort :
    (k v : Bytes) (m : Entries)
    → length k < 2 ^ 32
    → length v < 2 ^ 32
    → AreShort m
    → AreShort (assign k v m)
unfolding assign
assign-AreShort k v [] hk hv short = (hk, hv, tt)
assign-AreShort k v ((j, w) ∷ m) hk hv short = elim (Bool-cases (bytes_eq k j)) [
  | inl e ↦ rw e (short.0, hv, short.2)
  | inr e ↦ rw e (short.0, short.1, assign-AreShort k v m hk hv short.2)
]

erase-AreShort : (k : Bytes) (m : Entries) → AreShort m → AreShort (erase k m)
unfolding erase
erase-AreShort k [] short = tt
erase-AreShort k ((j, w) ∷ m) short = elim (Bool-cases (bytes_eq k j)) [
  | inl e ↦ rw e short.2
  | inr e ↦ rw e (short.0, short.1, erase-AreShort k m short.2)
]

module _ (lua : Lua) (io : Stdio) (laws : StdioLaws io) (path : Bytes) where
  open lua use {State}
  open laws use {contents}

  abbrev Calls : Type 0
  Calls = List (DbCall lua io path)

  -- What the calls store has lengths that fit 32 bits.
  abbrev pub AllStoreShort : Calls → Type 0
  AllStoreShort [] = Unit
  AllStoreShort (call_set script k v ∷ calls) =
      (length k < 2 ^ 32) × (length v < 2 ^ 32) × AllStoreShort calls
  AllStoreShort (call_get script k ∷ calls) = AllStoreShort calls
  AllStoreShort (call_has script k ∷ calls) = AllStoreShort calls
  AllStoreShort (call_delete script k ∷ calls) = AllStoreShort calls

  -- Entries that a file can hold, at most `n` of them.
  pub record IsSound (n : ℕ) (m : Entries) : Type 0 where
    pub distinct : IsDistinct m
    pub short : AreShort m
    pub few : length m ≤ n

  more : {m : Entries} (n : ℕ) → IsSound n m → IsSound (n + 1) m
  more n s = record { distinct = s.distinct; short = s.short; few = omega (arith, s.few) }

  assign-IsSound :
      {m : Entries} (n : ℕ) (k v : Bytes)
      → length k < 2 ^ 32
      → length v < 2 ^ 32
      → IsSound n m
      → IsSound (n + 1) (assign k v m)
  assign-IsSound {m} n k v hk hv s = record {
    distinct = assign-IsDistinct k v m s.distinct;
    short = assign-AreShort k v m hk hv s.short;
    few = omega (arith, s.few, length-assign-le k v m);
  }

  erase-IsSound : {m : Entries} (n : ℕ) (k : Bytes) → IsSound n m → IsSound (n + 1) (erase k m)
  erase-IsSound {m} n k s = record {
    distinct = erase-IsDistinct k m s.distinct;
    short = erase-AreShort k m s.short;
    few = omega (arith, s.few, length-erase-le k m);
  }

  Step-IsSound :
      {call : DbCall lua io path} {s1 s2 : Store lua io laws path} {answer : ℕ × State} (n : ℕ)
      (later : Calls)
      → Step lua io laws path call s1 answer s2
      → AllStoreShort (call ∷ later)
      → IsSound n s1.0
      → IsSound (n + 1) s2.0 × AllStoreShort later
  Step-IsSound n later (set_stored {k = k} {v = v} stored whole) (hk, hv, rest) s =
      (assign-IsSound n k v hk hv s, rest)
  Step-IsSound n later (set_lost {k = k} {v = v} same) (hk, hv, rest) s =
      (assign-IsSound n k v hk hv s, rest)
  Step-IsSound n later got rest s = (more n s, rest)
  Step-IsSound n later had rest s = (more n s, rest)
  Step-IsSound n later (delete_stored {k = k} stored whole) rest s = (erase-IsSound n k s, rest)
  Step-IsSound n later (delete_lost {k = k} same) rest s = (erase-IsSound n k s, rest)

  Run-IsSound :
      {calls : Calls} {s1 s2 : Store lua io laws path} {answers : List (ℕ × State)} (n : ℕ)
      (later : Calls)
      → Run lua io laws path calls s1 answers s2
      → AllStoreShort (calls ++ later)
      → IsSound n s1.0
      → IsSound (n + length calls) s2.0
  Run-IsSound n later ended short s = record {
    distinct = s.distinct;
    short = s.short;
    few = omega (arith, s.few);
  }
  Run-IsSound n later (next {call = call} {calls = calls} step run) short s =
      let (s', short') = Step-IsSound n (calls ++ later) step short s in
      let e : n + 1 + length calls ≡ n + length (call ∷ calls) = omega arith in
      rw e at (Run-IsSound (n + 1) later run short' s')

  -- A file with sound entries, that opens: its database is ready at the next start.
  pub restart-Holds :
      (sure : IsReliable io laws) (m : Entries) (disk : io.Disk) {f : io.Source}
      → IsSound (2 ^ 28) m
      → contents disk path ≡ some (encode m)
      → io.fopen_rb disk path ≡ some f
      → Holds lua io laws path m disk none
  unfolding get_db
  restart-Holds sure m disk s stored opened =
      let (r, run, (success, models, slots)) =
        load_dict-encode io laws sure disk path m s.distinct s.few s.short stored opened in
      record {
        held = r.0;
        ready = rw run refl;
        models = models;
        slots = omega (arith, slots, s.few);
      }

  -- Where no `fclose` and no `fread` fails: a session that starts from a file with all entries,
  -- with strings of lengths that fit 32 bits and room for at most 2 ^ 28 entries, and after which
  -- the file can be opened: the next start of the game has the database as it was after some of the
  -- calls, namely with the entries that the file now holds.
  pub session-restart :
      (sure : IsReliable io laws) (calls : Calls) (m : Entries) (disk : io.Disk)
      (database : Option Dict) {answers : List (ℕ × State)} {disk' : io.Disk}
      {database' : Option Dict} {f : io.Source}
      → AllHaveArguments lua io path calls
      → AllStoreShort calls
      → AreShort m
      → length m + length calls ≤ 2 ^ 28
      → Holds lua io laws path m disk database
      → contents disk path ≡ some (encode m)
      → session lua io path calls disk database ≡ some (answers, disk', database')
      → io.fopen_rb disk' path ≡ some f
      → (once : HeldOnce lua io laws path calls (m, contents disk path) (contents disk' path))
        × Holds lua io laws path once.held disk' none
  session-restart sure calls m disk database {disk' = disk'} given short short_m few h stored ran
        opened =
      let (r, run, outcome) =
        session-whole lua io laws path sure calls m disk database given (omega arith) h in
      let same : r.1 ≡ disk' = cc in
      let start : IsSound (length m) m = record {
        distinct = h.models.distinct;
        short = short_m;
        few = omega arith;
      } in
      let once : HeldOnce lua io laws path calls (m, contents disk path) (contents disk' path) =
        elim outcome [
          | inl kept ↦
              let kept' : contents disk' path ≡ contents disk path =
                ap (λ d. contents d path) (sym same) ∙ kept in
              rw kept' (record {
                first = [];
                later = calls;
                order = refl;
                answers = [];
                held = m;
                reached = ended;
                whole = stored;
              })
          | inr once ↦ rw same at once
        ] in
      let end : IsSound (length m + length once.first) once.held =
        Run-IsSound (length m) once.later once.reached (rw once.order at short) start in
      let sound : IsSound (2 ^ 28) once.held = record {
        distinct = end.distinct;
        short = end.short;
        few = omega (arith, end.few, ap length once.order, length-append once.first once.later);
      } in
      (once, restart-Holds sure once.held disk' sound once.whole opened)
