-- ===== src/Database/Load.antt =====
-- `LoadDict` of jni/reg.c on a file in the format.
use kn_shim.Base.{
  ℕ, suc, ◌+◌, ◌*◌, ◌≤◌, ◌<◌, ◌^◌, ◌≡◌, refl, sym, ap, ◌∙◌, Bool, true, none, some, [], ◌∷◌, ◌++◌,
  append_assoc, append-nil, length, length-append, take, drop, take-length_append,
  drop-length_append, arith, Returns,
}
use kn_shim.Dict.Blob.{Bytes, create_blob}
use kn_shim.Dict.Table.{Dict, create_dict, dict_set}
use kn_shim.Dict.Assoc.{Entries, index_of, IsDistinct, assign_absent, index_of-append}
use kn_shim.Dict.Models.{Models, create_dict-Models}
use kn_shim.Dict.Refine.{dict_set-Models}
use kn_shim.Memory.{int_bytes, length-int_bytes, int_of_bytes-int_bytes}
use kn_shim.Stdio.{Stdio, StdioLaws, IsReliable}
use kn_shim.Database.{database_magic, read_int, read_data, load_pair, load_pairs, load_dict}
use kn_shim.Database.Format.{encode_blob, encode_pairs, encode, AreShort}

module _ (io : Stdio) (laws : StdioLaws io) (sure : IsReliable io laws) where
  open io use {Disk, Source, fopen_rb, fread}
  open laws use {contents, left}

  fread_front :
      (f : Source) (front rest : Bytes)
      → left f ≡ front ++ rest
      → ((fread f (length front)).1 ≡ front) × (left (fread f (length front)).0 ≡ rest)
  fread_front f front rest e = (
    sure.read f (length front) (omega (arith, ap length e, length-append front rest))
        ∙ ap (take (length front)) e
        ∙ take-length_append front rest,
    sure.read_left f (length front) (omega (arith, ap length e, length-append front rest))
        ∙ ap (drop (length front)) e
        ∙ drop-length_append front rest,
  )

  read_int_lem :
      (f : Source) (n : ℕ) (rest : Bytes)
      → n < 2 ^ 32
      → left f ≡ int_bytes n ++ rest
      → Returns (read_int io f) λ r. (r.1 ≡ n) × (left r.0 ≡ rest)
  unfolding read_int
  read_int_lem f n rest h e =
      let (bytes, next) = fread_front f (int_bytes n) rest e in
      ((_, n), rw (← length-int_bytes n, bytes, int_of_bytes-int_bytes n h), (refl, next))

  read_data_lem :
      (f : Source) (b rest : Bytes)
      → left f ≡ b ++ rest
      → ((read_data io f (length b)).1 ≡ some b) × (left (read_data io f (length b)).0 ≡ rest)
  unfolding read_data
  read_data_lem f b rest e =
      let (bytes, next) = fread_front f b rest e in (rw bytes (ground arith), next)

  read_blob :
      (f : Source) (b rest : Bytes)
      → length b < 2 ^ 32
      → left f ≡ encode_blob b ++ rest
      → Returns (read_int io f) λ r.
        (r.1 ≡ length b)
        × ((read_data io r.0 (length b)).1 ≡ some b)
        × (left (read_data io r.0 (length b)).0 ≡ rest)
  unfolding encode_blob
  read_blob f b rest h e =
      let (r, run, (number, next)) =
        read_int_lem f (length b) (b ++ rest) h (e ∙ append_assoc (int_bytes (length b)) b rest) in
      let (bytes, last) = read_data_lem r.0 b rest next in (r, run, (number, bytes, last))

  load_pair_lem :
      (f : Source) (k v rest : Bytes) (dict : Dict) {out : Bool × Dict}
      → length k < 2 ^ 32
      → length v < 2 ^ 32
      → left f ≡ encode_blob k ++ (encode_blob v ++ rest)
      → dict_set true dict (create_blob k) (create_blob v) ≡ some out
      → Returns (load_pair io true f dict) λ r. (r.1 ≡ out.1) × (left r.0 ≡ rest)
  unfolding load_pair
  load_pair_lem f k v rest dict {out} hk hv e set =
      let (r, run, (n, key, next)) = read_blob f k (encode_blob v ++ rest) hk e in
      let (s, run2, (n2, value, last)) = read_blob (read_data io r.0 (length k)).0 v rest hv next in
      (
        ((read_data io s.0 (length v)).0, out.1),
        rw (run, n, run2, n2, key, value, set),
        (refl, last),
      )

  -- The capacity stays within 8 + 4 · the number of entries.
  load_pairs_lem :
      (whole before m : Entries) (f : Source) (dict : Dict)
      → whole ≡ before ++ m
      → IsDistinct whole
      → length whole ≤ 2 ^ 28
      → AreShort m
      → left f ≡ encode_pairs m
      → Models before dict
      → dict.data_alloced ≤ 8 + 4 * length whole
      → Returns
          (load_pairs io (length m) true f dict)
          λ d. Models whole d × (d.data_alloced ≤ 8 + 4 * length whole)
  unfolding load_pairs encode_pairs
  load_pairs_lem whole before [] f dict e distinct few short text models small =
      (dict, refl, (rw (e ∙ append-nil before) models, small))
  load_pairs_lem whole before ((k, v) ∷ m) f dict e distinct few short text models small =
      let n : length whole ≡ length before + suc (length m) =
        ap length e ∙ length-append before ((k, v) ∷ m) in
      let new : index_of k before ≡ none = index_of-append k v before m (rw e at distinct) in
      let (out, set, (_, models', bound)) = dict_set-Models k v models (omega arith) in
      let (r, run, (same, next)) =
        load_pair_lem f k v (encode_pairs m) dict short.0 short.1 text set in
      let (d, run2, done) =
        load_pairs_lem whole (before ++ ((k, v) ∷ [])) m r.0 r.1
          (e ∙ sym (append_assoc before ((k, v) ∷ []) m)) distinct few short.2 next
          (rw (same, ← assign_absent k v before new) models') (rw same (omega arith)) in
      (d, rw run run2, done)

  -- `LoadDict` of a file in the format, into a new dictionary, is defined, returns true, and gives
  -- a table that stands for the entries, in at most eight slots more than four for each: for up to
  -- 2 ^ 28 entries with distinct keys, of lengths that fit 32 bits.
  pub load_dict-encode :
      (disk : Disk) (path : Bytes) (m : Entries) {f : Source}
      → IsDistinct m
      → length m ≤ 2 ^ 28
      → AreShort m
      → contents disk path ≡ some (encode m)
      → fopen_rb disk path ≡ some f
      → Returns
          (load_dict io true disk create_dict path)
          λ r. (r.1 ≡ true) × Models m r.0 × (r.0.data_alloced ≤ 8 + 4 * length m)
  unfolding encode load_dict
  load_dict-encode disk path m {f} distinct few short stored opened =
      let text : left f ≡ int_bytes database_magic ++ (int_bytes (length m) ++ encode_pairs m) =
        cc (laws.opened_rb disk path opened) in
      let (r, run, (magic, next)) =
        read_int_lem f database_magic (int_bytes (length m) ++ encode_pairs m) (omega arith) text in
      let (s, run2, (count, last)) =
        read_int_lem r.0 (length m) (encode_pairs m) (omega arith) next in
      let (d, run3, (models, slots)) =
        load_pairs_lem m [] m s.0 create_dict refl distinct few short last create_dict-Models
          (unfold create_dict in omega arith) in
      ((d, true), rw (load_dict, opened, run, magic, run2, count, run3), (refl, models, slots))
