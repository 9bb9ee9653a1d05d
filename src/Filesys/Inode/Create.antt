-- ===== src/Filesys/Inode/Create.antt =====
-- pintos/src/filesys/inode.c, inode_create. `mem` says whether `calloc` succeeds, `garbage` is what an array
-- on the stack holds before it is filled, `stale` the words behind the array of pointers to blocks.
pub mod Direct
pub mod Ready
use cs162_group13_clone.Base.{
  ℕ, zero, suc, ◌+◌, ◌-◌, ◌==◌, Bool, true, false, not, ◌||◌, Option, none, some, Outcome, ok,
  ◌>>=◌, min, ltb, if◌then◌else◌,
}
use cs162_group13_clone.Base.Int.{pos}
use cs162_group13_clone.Devices.Block.{Sector}
use cs162_group13_clone.Filesys.Cache.{Cache, cache_write}
use cs162_group13_clone.Filesys.FreeMap.{FreeMap, FileWrite, free_map_allocate}
use cs162_group13_clone.Filesys.Inode.{word, bounced, direct_cnt, pointer_cnt}
use cs162_group13_clone.Filesys.Inode.Dealloc.{total_sectors}
use cs162_group13_clone.Filesys.Inode.Grow.{
  set_word, put_word, zeros, Disk, allocate_word, clear_sector, fill_array, write_array,
}

abbrev pub inode_magic : ℕ
inode_magic = 1229868868

abbrev pub is_given : Option ℕ → Bool
is_given none = false
is_given (some s) = true

-- `calloc`, then the members that do not depend on the sectors.
abbrev pub blank_inode : ℕ → Sector
blank_inode length = set_word (set_word zeros 126 length) 127 inode_magic

module _ (write : FileWrite) where
  -- n rounds of "Allocate direct inodes" from the j-th on, with `success`.
  unfoldable pub create_direct : Disk → ℕ → ℕ → Bool → Outcome (Bool × Disk)
  create_direct d zero j success = ok (success, d)
  create_direct d (suc n) j success = do
    (got, d1) ← allocate_word write d j
    d2 ← clear_sector write d1 got
    create_direct d2 n (j + 1) (success || is_given got)

  abbrev pub fill_indirect : Sector → ℕ → Disk → Option ℕ → Outcome (Bool × Disk)
  fill_indirect garbage sector_count d none = ok (false, d)
  fill_indirect garbage sector_count d (some sector) = do
    (blocks, d1) ← fill_array write d garbage (min pointer_cnt (sector_count - direct_cnt)) 0
    d2 ← write_array write d1 sector blocks
    ok (true, d2)

  -- "Allocate indirect inode"
  unfoldable pub create_indirect : Sector → Disk → ℕ → Outcome (Bool × Disk)
  create_indirect garbage d sector_count =
      if ltb direct_cnt sector_count
      then (do (got, d') ← allocate_word write d 124; fill_indirect garbage sector_count d' got)
      else ok (false, d)

  -- One block: `doubly_indirect_blocks[k]` is written where k is the number of its pointers.
  abbrev pub fill_block : (ℕ → ℕ) → Sector → Disk → Sector → ℕ → Option ℕ → Outcome (ℕ × Disk)
  fill_block stale garbage d blocks left none = ok (left, d)
  fill_block stale garbage d blocks left (some sector) = do
    let k = min left pointer_cnt
    (inner, d1) ← fill_array write d garbage k 0
    d2 ← write_array write d1 (bounced stale blocks k) inner
    ok (left - k, d2)

  -- n rounds of "Fill doubly indirect inode", from the j-th block on.
  unfoldable pub create_blocks :
      (ℕ → ℕ) → (ℕ → Sector) → Disk → Sector → ℕ → ℕ → ℕ → Outcome (Sector × Disk)
  create_blocks stale garbage d blocks zero j left = ok (blocks, d)
  create_blocks stale garbage d blocks (suc n) j left = if left == 0 then ok (blocks, d) else (do
    (got, m, c) ← free_map_allocate write d.cache d.map 1
    let blocks' = put_word blocks j got
    (left', d') ← fill_block stale (garbage j) (record d { cache = c; map = m }) blocks' left got
    create_blocks stale garbage d' blocks' n (j + 1) left')

  abbrev pub fill_doubly :
      (ℕ → ℕ) → Sector → (ℕ → Sector) → ℕ → Disk → Option ℕ → Outcome (Bool × Disk)
  fill_doubly stale garbage garbage' sector_count d none = ok (false, d)
  fill_doubly stale garbage garbage' sector_count d (some sector) = do
    (blocks, d1) ←
        create_blocks stale garbage' d garbage pointer_cnt 0
          (sector_count - direct_cnt - pointer_cnt)
    d2 ← write_array write d1 sector blocks
    ok (true, d2)

  -- "Allocate doubly indirect inode"
  unfoldable pub create_doubly : (ℕ → ℕ) → Sector → (ℕ → Sector) → Disk → ℕ → Outcome (Bool × Disk)
  create_doubly stale garbage garbage' d sector_count =
      if ltb (direct_cnt + pointer_cnt) sector_count
      then (do
        (got, d') ← allocate_word write d 125
        fill_doubly stale garbage garbage' sector_count d' got)
      else ok (false, d)

  unfoldable pub inode_create :
      Bool
      → (ℕ → ℕ)
      → Sector
      → (ℕ → Sector)
      → Cache
      → FreeMap
      → ℕ
      → ℕ
      → Outcome (Bool × Cache × FreeMap)
  inode_create mem stale garbage garbage' c m sector length =
      if not mem then ok (false, c, m) else (do
        let sector_count = total_sectors (pos length)
        let new : Disk = record { cache = c; map = m; pointers = blank_inode length }
        (direct, d1) ← create_direct new (min sector_count direct_cnt) 0 false
        (indirect, d2) ← create_indirect garbage d1 sector_count
        (doubly, d3) ← create_doubly stale garbage garbage' d2 sector_count
        c' ← cache_write d3.cache sector d3.pointers
        ok (direct || indirect || doubly || sector_count == 0, c', d3.map))
