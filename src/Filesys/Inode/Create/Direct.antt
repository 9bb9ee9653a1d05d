-- ===== src/Filesys/Inode/Create/Direct.antt =====
-- inode_create for files that need no indirect block.
use cs162_group13_clone.Base.{
  ℕ, ◌+◌, ◌*◌, ◌≤◌, ◌<◌, ◌≡◌, ◌≢◌, ◌⊎◌, refl, Bool, true, false, ◌||◌, ok, length, min, ltb, ◌==◌,
  arith,
}
use cs162_group13_clone.Base.Int.{pos}
use cs162_group13_clone.Devices.Block.{Sector}
use cs162_group13_clone.Kernel.Bitmap.Bits.{IsValid, get}
use cs162_group13_clone.Filesys.Cache.{Cache, cache_write}
use cs162_group13_clone.Filesys.FreeMap.{FreeMap, FileWrite}
use cs162_group13_clone.Filesys.Inode.{word, inode_disk}
use cs162_group13_clone.Filesys.Inode.Dealloc.{total_sectors}
use cs162_group13_clone.Filesys.Inode.Data.File.{Holds, data_sector}
use cs162_group13_clone.Filesys.Inode.Grow.{zeros, Disk}
use cs162_group13_clone.Filesys.Inode.Grow.Fill.{IsFresh, Full, FellShort}
use cs162_group13_clone.Filesys.Inode.Create.{
  blank_inode, create_direct, create_indirect, create_doubly, inode_create,
}

-- What the loop reports from `success` on: a pointer has got a sector; or none has.
pub data Reports (d d' : Disk) (j n : ℕ) (success b : Bool) : Type 0 where
  before : b ≡ true → success ≡ true → Reports d d' j n success b
  here :
      (i : ℕ)
      → b ≡ true
      → j ≤ i
      → i < j + n
      → IsFresh d.map d'.map (word d'.pointers i)
      → Reports d d' j n success b
  nowhere :
      b ≡ false
      → success ≡ false
      → ((i : ℕ) → j ≤ i → i < j + n → word d'.pointers i ≡ word d.pointers i)
      → Reports d d' j n success b

-- What a new file of n bytes has: its length; for each of its sectors a pointer that names a sector
-- which was free, is in use now and holds zeros, no two of them the same, or one that is 0, where no
-- sector was left or a write of the free map fell short; and all sectors that were in use as before,
-- but for its inode's and those of the free map's file. The result is true if the file is empty or
-- has got a sector, and false if it has got none.
pub record Created (write : FileWrite) (own : ℕ → Bool) (a : ℕ → Sector) (m : FreeMap)
    (size sector n : ℕ) (b : Bool) (c' : Cache) (m' : FreeMap) : Type 0 where
  pub sectors : ℕ → Sector
  pub holds : Holds c' sectors size
  pub valid : IsValid m'.map
  pub length_eq : (inode_disk (sectors sector)).length ≡ pos n
  pub got :
      (i : ℕ)
      → i * 512 < n
      → ((data_sector sectors sector i ≡ 0) × (Full m' ⊎ FellShort write size m))
        ⊎ (IsFresh m m' (data_sector sectors sector i)
            × (sectors (data_sector sectors sector i) ≡ zeros))
  pub apart :
      (i k : ℕ)
      → i < k
      → k * 512 < n
      → data_sector sectors sector i ≢ 0
      → data_sector sectors sector k ≢ 0
      → data_sector sectors sector i ≢ data_sector sectors sector k
  pub kept : (s : ℕ) → get m.map s ≡ true → own s ≡ false → s ≢ sector → sectors s ≡ a s
  pub success :
      ((b ≡ true)
        × ((n ≡ 0) ⊎ ((i : ℕ) × (i * 512 < n) × IsFresh m m' (data_sector sectors sector i))))
      ⊎ ((b ≡ false) × ((i : ℕ) → i * 512 < n → data_sector sectors sector i ≡ 0))
  pub full : ((i : ℕ) → length (a i) ≡ 512) → (i : ℕ) → length (sectors i) ≡ 512

module _ (write : FileWrite) (stale : ℕ → ℕ) (garbage : Sector) (garbage' : ℕ → Sector) where
  run :
      (c : Cache) (m : FreeMap) (sector n : ℕ) (d : Disk) (s : Bool) {c' : Cache}
      → create_direct write
          (record { cache = c; map = m; pointers = blank_inode n })
          (min (total_sectors (pos n)) 124)
          0
          false
        ≡ ok (s, d)
      → ltb 124 (total_sectors (pos n)) ≡ false
      → cache_write d.cache sector d.pointers ≡ ok c'
      → inode_create write true stale garbage garbage' c m sector n
        ≡ ok (s || false || false || total_sectors (pos n) == 0, c', d.map)
  unfolding inode_create create_indirect create_doubly
  run c m sector n d s e few e' =
      let far : ltb 252 (total_sectors (pos n)) ≡ false = ground arith in rw (e, few, far, e') refl
