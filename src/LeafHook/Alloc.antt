-- ===== src/LeafHook/Alloc.antt =====
-- `LHHookerAllocRwx` of jni/leafhook.h.
use kn_shim.Base.{ℕ, ◌+◌, ◌%◌, ◌≤◌, ◌≡◌, arith, bit_and, bit_and-mask}
use kn_shim.LeafHook.{LhHooker, alloc_rwx}

-- A second allocation begins past the first, and both addresses are multiples of four, where the
-- block is one and so are the bytes in use.
pub alloc_rwx-disjoint :
    (self : LhHooker) (size size' : ℕ)
    → self.rwx_block % 4 ≡ 0
    → self.rwx_block_used % 4 ≡ 0
    → ((alloc_rwx self size).1 % 4 ≡ 0)
      × ((alloc_rwx (alloc_rwx self size).0 size').1 % 4 ≡ 0)
      × ((alloc_rwx self size).1 + size ≤ (alloc_rwx (alloc_rwx self size).0 size').1)
      × ((alloc_rwx (alloc_rwx self size).0 size').1 ≤ (alloc_rwx self size).1 + size + 3)
unfolding alloc_rwx
alloc_rwx-disjoint self size size' block used =
    let low : bit_and size 3 ≡ size % 4 = bit_and-mask 2 size in rw low (ground arith)
