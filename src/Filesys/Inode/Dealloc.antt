-- ===== src/Filesys/Inode/Dealloc.antt =====
-- pintos/src/filesys/inode.c, deallocate_inode: the sectors of a removed file go back to the free
-- map. `address` is where the inode lies on the kernel's stack.
pub mod Release
use cs162_group13_clone.Base.{
  ℕ, zero, suc, ◌+◌, ◌-◌, ◌*◌, ◌/◌, ◌==◌, true, false, min, Outcome, ok, ◌>>=◌, ltb, if◌then◌else◌,
}
use cs162_group13_clone.Base.Int.{ℤ, pos, negsuc}
use cs162_group13_clone.Devices.Block.{Sector}
use cs162_group13_clone.Filesys.Cache.{Cache, cache_read, block_sector_size}
use cs162_group13_clone.Filesys.FreeMap.{FreeMap, FileWrite, free_map_release}
use cs162_group13_clone.Filesys.Inode.{word, inode_disk, direct_cnt, pointer_cnt}

-- `total_sectors`; of a negative length it is not positive, which counts as 0 here.
unfoldable pub total_sectors : ℤ → ℕ
total_sectors (pos n) =
    let total = n / block_sector_size in
    if ltb (total * block_sector_size) n then total + 1 else total
total_sectors (negsuc n) = 0

module _ (write : FileWrite) where
  -- n rounds of a loop that releases the sectors that the pointers name, from the j-th on.
  unfoldable pub release_pointers : Cache → FreeMap → Sector → ℕ → ℕ → Outcome (FreeMap × Cache)
  release_pointers c m pointers zero j = ok (m, c)
  release_pointers c m pointers (suc n) j = do
    (m', c') ← free_map_release write c m (word pointers j) 1
    release_pointers c' m' pointers n (j + 1)

  -- n rounds of the loop over the doubly indirect block.
  unfoldable pub release_blocks : Cache → FreeMap → Sector → ℕ → ℕ → ℕ → Outcome (FreeMap × Cache)
  release_blocks c m blocks zero j remaining = ok (m, c)
  release_blocks c m blocks (suc n) j remaining = elim (remaining == 0) [
    | true ↦ ok (m, c)
    | false ↦ (do
      r ← cache_read c (word blocks j)
      (m1, c1) ← release_pointers r.cache m r.data_out (min remaining pointer_cnt) 0
      (m2, c2) ← free_map_release write c1 m1 (word blocks j) 1
      release_blocks c2 m2 blocks n (j + 1) (remaining - pointer_cnt))
  ]

  -- The part for the doubly indirect block.
  unfoldable pub release_doubly : ℕ → Cache → FreeMap → Sector → ℕ → Outcome (FreeMap × Cache)
  release_doubly address c m bytes remaining = if remaining == 0 then ok (m, c) else (do
    r ← cache_read c (address + 500)
    (m1, c1) ← release_blocks r.cache m r.data_out pointer_cnt 0 remaining
    free_map_release write c1 m1 (inode_disk bytes).doubly_indirect 1)

  -- The part for the indirect block: the code reads the sector `&disk_inode->indirect`, the
  -- member's address, and not the one that the member names.
  unfoldable pub release_indirect : ℕ → Cache → FreeMap → Sector → ℕ → Outcome (FreeMap × Cache)
  release_indirect address c m bytes remaining = if remaining == 0 then ok (m, c) else (do
    r ← cache_read c (address + 496)
    (m1, c1) ← release_pointers r.cache m r.data_out (min remaining pointer_cnt) 0
    (m2, c2) ← free_map_release write c1 m1 (inode_disk bytes).indirect 1
    release_doubly address c2 m2 bytes (remaining - pointer_cnt))

  unfoldable pub deallocate_inode : ℕ → Cache → FreeMap → Sector → Outcome (FreeMap × Cache)
  deallocate_inode address c m bytes =
      let total = total_sectors (inode_disk bytes).length in
      if total == 0 then ok (m, c) else (do
        (m', c') ← release_pointers c m bytes (min total direct_cnt) 0
        release_indirect address c' m' bytes (total - direct_cnt))
