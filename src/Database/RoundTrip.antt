-- ===== src/Database/RoundTrip.antt =====
-- `SaveDict` and then `LoadDict`, of jni/reg.c.
use kn_shim.Base.{◌≤◌, ◌^◌, ◌≡◌, true, some, inl, inr, length, Returns}
use kn_shim.Dict.Blob.{Bytes}
use kn_shim.Dict.Table.{Dict, create_dict}
use kn_shim.Dict.Assoc.{Entries}
use kn_shim.Dict.Models.{Models}
use kn_shim.Stdio.{Stdio, StdioLaws, IsReliable}
use kn_shim.Database.{save_dict, load_dict}
use kn_shim.Database.Format.{AreShort, encode}
use kn_shim.Database.Save.{save_dict-Saved}
use kn_shim.Database.Load.{load_dict-encode}

module _ (io : Stdio) (laws : StdioLaws io) (sure : IsReliable io laws) where
  open io use {Disk, Source, fopen_rb}

  -- A table that `SaveDict` saved with success, and that `LoadDict` then opens, comes back as a
  -- table that stands for the same entries in the same order: for up to 2 ^ 28 entries, of lengths
  -- that fit 32 bits.
  pub load_dict-save_dict :
      (disk : Disk) (dict : Dict) (path : Bytes) (m : Entries) {disk' : Disk} {f : Source}
      → Models m dict
      → length m ≤ 2 ^ 28
      → AreShort m
      → save_dict io disk dict path ≡ some (disk', true)
      → fopen_rb disk' path ≡ some f
      → Returns (load_dict io true disk' create_dict path) λ r. (r.1 ≡ true) × Models m r.0
  load_dict-save_dict disk dict path m {disk'} models few short saved opened =
      let (r, run, outcome) = save_dict-Saved io laws sure disk dict path m models in
      let same : some r ≡ some (disk', true) = cc in
      let stored : laws.contents disk' path ≡ some (encode m) = elim outcome [
        | inl (_, holds, _) ↦ cc
        | inr (failed, _) ↦ absurd cc
      ] in
      let (loaded, done, (success, models', _)) =
        load_dict-encode io laws sure disk' path m models.distinct few short stored opened in
      (loaded, done, (success, models'))
