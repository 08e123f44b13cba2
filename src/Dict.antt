-- ===== src/Dict.antt =====
-- The blob-to-blob hash table of jni/hashtable.h.
pub mod Blob
pub mod Slots
pub mod Table
pub mod Assoc
pub mod Probe
pub mod Insert
pub mod Vacate
pub mod Models
pub mod Lookup
pub mod Cells
pub mod Resize
pub mod Append
pub mod Change
pub mod Remove
pub mod Refine
pub mod Laws
