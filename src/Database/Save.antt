-- ===== src/Database/Save.antt =====
-- `SaveDict` of jni/reg.c: what it writes, and what it does to the files.
use kn_shim.Base.{
  ◌⊎◌, ℕ, ◌+◌, ◌<◌, ◌≡◌, refl, sym, ap, ◌∙◌, ◌≢◌, ◌⊎◌, inl, inr, Bool, true, false, ◌||◌, some, [],
  ◌∷◌, ◌++◌, append_assoc, append-nil, length, length-append, ◌==◌, arith, Bool-cases, Option-cases,
  Returns,
}
use kn_shim.Dict.Blob.{Bytes, Blob, create_blob}
use kn_shim.Dict.Table.{Dict}
use kn_shim.Dict.Assoc.{Entries, key_at, value_of}
use kn_shim.Dict.Models.{Models}
use kn_shim.Dict.Refine.{dict_iter-Models}
use kn_shim.Dict.Cells.{key_at-length_append, value_of-length_append}
use kn_shim.Memory.{int_bytes}
use kn_shim.Stdio.{Stdio, StdioLaws, IsReliable}
use kn_shim.Database.{database_magic, new_suffix, write_blob, write_pairs, write_dict, save_dict}
use kn_shim.Database.Format.{encode_blob, encode_pairs, encode}

module _ (io : Stdio) (laws : StdioLaws io) where
  open io use {Disk, Sink, fopen_wb, fwrite, fclose, rename}
  open laws use {contents, target, written}

  -- From `f` with the error so far to `out`, `bytes` were written, unless there was an error.
  record Wrote (f : Sink × Bool) (bytes : Bytes) (out : Sink × Bool) : Type 0 where
    aim : target out.0 ≡ target f.0
    sticky : f.1 ≡ true → out.1 ≡ true
    text : out.1 ≡ false → written out.0 ≡ written f.0 ++ bytes

  Wrote-nothing : (f : Sink × Bool) → Wrote f [] f
  Wrote-nothing f = record {
    aim = refl;
    sticky = λ h. h;
    text = λ h. sym (append-nil (written f.0));
  }

  Wrote-trans : {f g h : Sink × Bool} (a b : Bytes) → Wrote f a g → Wrote g b h → Wrote f (a ++ b) h
  Wrote-trans {f} {g} {h} a b p q = record {
    aim = q.aim ∙ p.aim;
    sticky = λ e. q.sticky (p.sticky e);
    text = λ e.
        let clean : g.1 ≡ false = elim (Bool-cases g.1) [
          | inl bad ↦ cc (q.sticky bad)
          | inr good ↦ good
        ] in
        q.text e ∙ ap (λ t. t ++ b) (p.text clean) ∙ append_assoc (written f.0) a b;
  }

  -- One call of `fwrite` for one item, with the error so far.
  write_one : Sink × Bool → Bytes → Sink × Bool
  write_one f buffer =
      let (f', count) = fwrite f.0 buffer (length buffer) 1 in (f', f.1 || (count == 0))

  write_one-Wrote : (f : Sink × Bool) (buffer : Bytes) → Wrote f buffer (write_one f buffer)
  unfolding write_one
  write_one-Wrote f buffer = record {
    aim = laws.writes_to f.0 buffer (length buffer) 1;
    sticky = λ e. rw e;
    text = λ e. laws.wrote_one f.0 buffer (ground arith);
  }

  write_one-empty : (f : Sink × Bool) → (write_one f []).1 ≡ true
  unfolding write_one
  write_one-empty f = rw (laws.wrote_nothing f.0 [] 1) (ground arith)

  write_blob-write_one :
      (f : Sink × Bool) (b : Blob)
      → write_blob io f b ≡ write_one (write_one f (int_bytes (length b.bytes))) b.bytes
  unfolding write_blob write_one int_bytes
  write_blob-write_one (f, e) b = refl

  write_blob-Wrote :
      (f : Sink × Bool) (b : Bytes) → Wrote f (encode_blob b) (write_blob io f (create_blob b))
  unfolding encode_blob create_blob
  write_blob-Wrote f b = rw (write_blob-write_one f (create_blob b)) (
      Wrote-trans (int_bytes (length b)) b (write_one-Wrote f (int_bytes (length b)))
        (write_one-Wrote _ b))

  write_blob-empty : (f : Sink × Bool) → (write_blob io f (create_blob [])).1 ≡ true
  unfolding create_blob
  write_blob-empty f = rw (write_blob-write_one f (create_blob [])) (write_one-empty _)

  -- Some key or value is empty.
  abbrev pub HasEmpty : Entries → Type 0
  HasEmpty [] = ⊥
  HasEmpty ((k, v) ∷ m) = (k ≡ []) ⊎ (v ≡ []) ⊎ HasEmpty m

  write_pair-empty :
      (f : Sink × Bool) (k v : Bytes)
      → (k ≡ []) ⊎ (v ≡ [])
      → (write_blob io (write_blob io f (create_blob k)) (create_blob v)).1 ≡ true
  write_pair-empty f k v (inl e) =
      (write_blob-Wrote (write_blob io f (create_blob k)) v).sticky (rw e (write_blob-empty f))
  write_pair-empty f k v (inr e) = rw e (write_blob-empty _)

  write_pairs-Wrote :
      (whole before m : Entries) (i : ℕ) (dict : Dict) (f : Sink × Bool)
      → Models whole dict
      → whole ≡ before ++ m
      → i ≡ length before
      → Returns
          (write_pairs io (length m) i dict f)
          λ out. Wrote f (encode_pairs m) out × (HasEmpty m → out.1 ≡ true)
  unfolding write_pairs encode_pairs
  write_pairs-Wrote whole before [] i dict f models e place =
      (f, refl, (Wrote-nothing f, λ h. absurd h))
  write_pairs-Wrote whole before ((k, v) ∷ m) i dict f models e place =
      let lt : i < length whole = omega (arith, ap length e, length-append before ((k, v) ∷ m)) in
      let key : key_at whole i ≡ k = rw (e, place) (key_at-length_append before m k v) in
      let value : value_of whole i ≡ v = rw (e, place) (value_of-length_append before m k v) in
      let (is_key, is_value) = (dict_iter-Models i models).1 lt in
      let g = write_blob io f (create_blob k) in
      let h = write_blob io g (create_blob v) in
      let (out, run, (wrote, empty)) =
        write_pairs-Wrote whole (before ++ ((k, v) ∷ [])) m (i + 1) dict h models
          (e ∙ sym (append_assoc before ((k, v) ∷ []) m))
          (omega (arith, length-append before ((k, v) ∷ []))) in
      (
        out,
        rw (is_key, is_value, key, value) run,
        (
          Wrote-trans (encode_blob k) (encode_blob v ++ encode_pairs m) (write_blob-Wrote f k)
              (Wrote-trans (encode_blob v) (encode_pairs m) (write_blob-Wrote g v) wrote),
          λ h. some_empty out empty wrote h,
        ),
      )
    where
      some_empty :
          (out : Sink × Bool)
          → (HasEmpty m → out.1 ≡ true)
          → Wrote
              (write_blob io (write_blob io f (create_blob k)) (create_blob v))
              (encode_pairs m)
              out
          → HasEmpty ((k, v) ∷ m)
          → out.1 ≡ true
      some_empty out empty wrote (inl here) = wrote.sticky (write_pair-empty f k v (inl here))
      some_empty out empty wrote (inr (inl here)) = wrote.sticky (write_pair-empty f k v (inr here))
      some_empty out empty wrote (inr (inr later)) = empty later

  write_dict-Wrote :
      (m : Entries) (dict : Dict) (f : Sink)
      → Models m dict
      → Returns
          (write_dict io f dict)
          λ out. Wrote (f, false) (encode m) out × (HasEmpty m → out.1 ≡ true)
  unfolding write_dict encode write_one int_bytes
  write_dict-Wrote m dict f models =
      let n = (dict_iter-Models 0 models).0 in
      let f1 = write_one (f, false) (int_bytes database_magic) in
      let f2 = write_one f1 (int_bytes (length m)) in
      let (out, run, (wrote, empty)) = write_pairs-Wrote m [] m 0 dict f2 models refl refl in
      (
        out,
        rw n run,
        (
          Wrote-trans (int_bytes database_magic) (int_bytes (length m) ++ encode_pairs m)
              (write_one-Wrote (f, false) (int_bytes database_magic))
              (Wrote-trans (int_bytes (length m)) (encode_pairs m)
                (write_one-Wrote f1 (int_bytes (length m))) wrote),
          empty,
        ),
      )

  path-ne-temp : (path : Bytes) → path ≢ path ++ new_suffix
  path-ne-temp path e = absurd (omega (arith, ap length e, length-append path new_suffix))

  -- Success, the file holds the entries, and no key or value is empty; or failure, and the file
  -- holds what it held before.
  abbrev pub Saved : Disk → Entries → Bytes → Disk × Bool → Type 0
  Saved disk m path r =
      ((r.1 ≡ true) × (contents r.0 path ≡ some (encode m)) × (¬ HasEmpty m))
      ⊎ ((r.1 ≡ false) × (contents r.0 path ≡ contents disk path))

  -- Where no `fclose` fails, `SaveDict` of a table that stands for entries is defined. Where it
  -- returns true the file holds the entries and no key or value is empty; where it returns false
  -- the file is what it was.
  pub save_dict-Saved :
      (sure : IsReliable io laws) (disk : Disk) (dict : Dict) (path : Bytes) (m : Entries)
      → Models m dict
      → Returns (save_dict io disk dict path) (Saved disk m path)
  unfolding save_dict
  save_dict-Saved sure disk dict path m models =
      elim (Option-cases (fopen_wb disk (path ++ new_suffix))) [
        | inl e ↦ ((disk, false), rw (save_dict, e), inr (refl, refl))
        | inr (f, e) ↦
            let temp = path ++ new_suffix in
            let ((f', error), run, (wrote, empty)) = write_dict-Wrote m dict f models in
            let aim : target f' ≡ temp = wrote.aim ∙ (laws.opened disk temp e).0 in
            let old : contents (fclose disk f') path ≡ contents disk path =
              laws.closed_other disk f' path (λ same. path-ne-temp path (same ∙ aim)) in
            elim (Bool-cases error) [
              | inl bad ↦ ((fclose disk f', false), rw (save_dict, e, run, bad), inr (refl, old))
              | inr good ↦
                  let new : contents (fclose disk f') temp ≡ some (encode m) =
                    rw aim at (sure.closed disk f')
                    ∙ ap some
                        (wrote.text good ∙ ap (λ t. t ++ encode m) (laws.opened disk temp e).1) in
                  (
                    rename (fclose disk f') temp path,
                    rw (save_dict, e, run, good),
                    elim (Bool-cases (rename (fclose disk f') temp path).1) [
                      | inl h ↦ inl (
                        h,
                        laws.renamed (fclose disk f') temp path h ∙ new,
                        λ some_empty. cc (empty some_empty),
                      )
                      | inr h ↦ inr (h, laws.not_renamed (fclose disk f') temp path path h ∙ old)
                    ],
                  )
            ]
      ]
