-- ===== src/NxArchive/Total.antt =====
-- The loop of the extractor of jni/nxarchive.c, and its end.
use kn_shim.Base.{ℕ, ◌+◌, ◌<◌, ◌≡◌, length}
use kn_shim.Dict.Blob.{Bytes}
use kn_shim.Stdio.{Stdio}
use kn_shim.NxArchive.{Extractor, path_max, Progress}
use kn_shim.NxArchive.Steps.{Advances}

module _ (io : Stdio) where
  open io use {Disk, mkdir}

  module _ (location_size : ℕ) (tmp_path : Bytes) (long : length tmp_path ≡ location_size + 1)
      (short : length tmp_path < path_max) where
    -- Past the command, so that the position is not 0.
    AdvancesFrom : Extractor → Progress io → Type 0
    AdvancesFrom this p =
        (prior : Extractor)
        → prior.pos < this.pos
        → prior.size ≡ this.size
        → Advances io prior tmp_path p
