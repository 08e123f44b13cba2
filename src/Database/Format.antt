-- ===== src/Database/Format.antt =====
-- The format of the database file: the magic number, the number of entries, then for each entry
-- the lengths and the bytes of its key and its value.
use kn_shim.Base.{◌^◌, ◌<◌, [], ◌∷◌, ◌++◌, length}
use kn_shim.Dict.Blob.{Bytes}
use kn_shim.Dict.Assoc.{Entries}
use kn_shim.Memory.{int_bytes}
use kn_shim.Database.{database_magic}

unfoldable pub encode_blob : Bytes → Bytes
encode_blob b = int_bytes (length b) ++ b

unfoldable pub encode_pairs : Entries → Bytes
encode_pairs [] = []
encode_pairs ((k, v) ∷ m) = encode_blob k ++ (encode_blob v ++ encode_pairs m)

unfoldable pub encode : Entries → Bytes
encode m = int_bytes database_magic ++ (int_bytes (length m) ++ encode_pairs m)

-- All lengths fit 32 bits.
abbrev pub AreShort : Entries → Type 0
AreShort [] = Unit {0}
AreShort ((k, v) ∷ m) = (length k < 2 ^ 32) × (length v < 2 ^ 32) × AreShort m
