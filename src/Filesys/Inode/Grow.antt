-- ===== src/Filesys/Inode/Grow.antt =====
-- pintos/src/filesys/inode.c, files that grow: add_inode and inode_write_at.
-- Lengths, offsets and sizes are not negative. The inode in memory is the list of its bytes; `mem`
-- is as in the loop of inode_write_at. `garbage` is what an array on the kernel's stack holds before it is filled,
-- `zeros_address` where the array of zeros lies.
pub mod Words
pub mod Within
pub mod RoundTrip
pub mod Fill
pub mod Doubly
use cs162_group13_clone.Base.{
  ℕ, zero, suc, ◌+◌, ◌-◌, ◌*◌, ◌/◌, ◌%◌, ◌==◌, Bool, true, false, not, ◌&&◌, ◌||◌, List, [], ◌∷◌,
  Option, none, some, Outcome, ok, panic, ◌>>=◌, min, ltb, leb, if◌then◌else◌, replicate,
}
use cs162_group13_clone.Base.Int.{ℤ, pos, negsuc, pos_part, ◌-ℤ◌, ltb_ℤ, leb_ℤ}
use cs162_group13_clone.Devices.Block.{Sector}
use cs162_group13_clone.Filesys.Cache.{Cache, block_sector_size, cache_read, cache_write}
use cs162_group13_clone.Filesys.FreeMap.{FreeMap, FileWrite, word_bytes, free_map_allocate}
use cs162_group13_clone.Filesys.Inode.{word, inode_disk, direct_cnt, pointer_cnt}
use cs162_group13_clone.Filesys.Inode.Dealloc.{total_sectors}
use cs162_group13_clone.Filesys.Inode.Data.{overwrite, write_rounds}
use cs162_group13_clone.Filesys.Inode.Open.{Inode}

-- An assignment to the i-th word of a structure or an array.
unfoldable pub set_word : Sector → ℕ → ℕ → Sector
set_word b i w = overwrite b (4 * i) (word_bytes w)

-- What `free_map_allocate` puts into a word: nothing if it fails.
abbrev pub put_word : Sector → ℕ → Option ℕ → Sector
put_word b i none = b
put_word b i (some w) = set_word b i w

abbrev pub zeros : Sector
zeros = replicate block_sector_size 0

-- The cache, the free map, and the inode or the array of pointers that gets sectors.
pub record Disk : Type 0 where
  pub cache : Cache
  pub map : FreeMap
  pub pointers : Sector

-- The inode that grows, with the counters of `add_inode`.
pub record Growth : Type 0 where
  pub disk : Disk
  pub current_sectors : ℕ
  pub new_sectors : ℤ

module _ (write : FileWrite) where
  -- `free_map_allocate (1, &pointers[j])`
  unfoldable pub allocate_word : Disk → ℕ → Outcome (Option ℕ × Disk)
  allocate_word d j = do
    (got, m, c) ← free_map_allocate write d.cache d.map 1
    ok (got, record d { cache = c; map = m; pointers = put_word d.pointers j got })

  abbrev pub clear_sector : Disk → Option ℕ → Outcome Disk
  clear_sector d none = ok d
  clear_sector d (some s) = do c ← cache_write d.cache s zeros; ok (record d { cache = c })

  -- n rounds of a loop that allocates a sector for a pointer and fills it with zeros, from the j-th
  -- pointer on.
  unfoldable pub fill_pointers : Disk → ℕ → ℕ → Outcome Disk
  fill_pointers d zero j = ok d
  fill_pointers d (suc n) j = do
    (got, d1) ← allocate_word d j
    d2 ← clear_sector d1 got
    fill_pointers d2 n (j + 1)

  -- The same on another array: the pointers that it is left with, and the cache and the map.
  abbrev pub fill_array : Disk → Sector → ℕ → ℕ → Outcome (Sector × Disk)
  fill_array d array n j = do
    d' ← fill_pointers (record d { pointers = array }) n j
    ok (d'.pointers, record d' { pointers = d.pointers })

  abbrev pub write_array : Disk → ℕ → Sector → Outcome Disk
  write_array d sector array = do c ← cache_write d.cache sector array; ok (record d { cache = c })

  abbrev pub read_array : Disk → ℕ → Outcome (Sector × Disk)
  read_array d sector = do
    r ← cache_read d.cache sector
    ok (r.data_out, record d { cache = r.cache })

  -- "Allocate direct inodes"
  unfoldable pub grow_direct : Growth → ℕ → Outcome Growth
  grow_direct g total =
      let current = g.current_sectors in
      let rounds = min total direct_cnt - current in
      if ltb current direct_cnt
      then (do
        d ← fill_pointers g.disk rounds current
        ok (record {
          disk = d;
          current_sectors = current + rounds;
          new_sectors =
              if ltb direct_cnt total then g.new_sectors -ℤ pos (direct_cnt - current) else pos 0;
        }))
      else ok g

  -- The array that is filled, from the stack or from the disk.
  unfoldable pub indirect_array : Sector → Disk → ℕ → Outcome (Sector × Disk)
  indirect_array garbage d current =
      if current == direct_cnt
      then (do (got, d') ← allocate_word d 124; ok (garbage, d'))
      else read_array d (word d.pointers 124)

  -- "Fill indirect inode"; `new_sectors` loses 128 less all the sectors that there are.
  unfoldable pub grow_indirect : Sector → Growth → ℕ → Outcome Growth
  grow_indirect garbage g total =
      let current = g.current_sectors in
      let rounds = min total (direct_cnt + pointer_cnt) - current in
      if ltb_ℤ (pos 0) g.new_sectors && ltb current (direct_cnt + pointer_cnt)
      then (do
        (blocks, d1) ← indirect_array garbage g.disk current
        (blocks', d2) ← fill_array d1 blocks rounds (current - direct_cnt)
        d3 ← write_array d2 (word d2.pointers 124) blocks'
        ok (record {
          disk = d3;
          current_sectors = current + rounds;
          new_sectors =
              if ltb (direct_cnt + pointer_cnt) total
              then g.new_sectors -ℤ (pos pointer_cnt -ℤ pos current)
              else pos 0;
        }))
      else ok g

  -- The array of pointers to blocks; for a new one the code reads the sector whose number is the
  -- address of the array of zeros.
  unfoldable pub doubly_array : ℕ → Disk → ℕ → Outcome (Sector × Disk)
  doubly_array zeros_address d current =
      if current == direct_cnt + pointer_cnt
      then (do (got, d1) ← allocate_word d 125; read_array d1 zeros_address)
      else read_array d (word d.pointers 125)

  -- The array of the j-th block, which is new only if it starts where the file now ends.
  unfoldable pub inner_array : Sector → Disk → Sector → ℕ → ℕ → Outcome (Sector × Sector × Disk)
  inner_array garbage d blocks current j =
      if current == direct_cnt + pointer_cnt + pointer_cnt * j
      then (do
        (got, m, c) ← free_map_allocate write d.cache d.map 1
        ok (garbage, put_word blocks j got, record d { cache = c; map = m }))
      else (do (inner, d') ← read_array d (word blocks j); ok (inner, blocks, d'))

  -- n rounds of "Fill doubly indirect inode", for the blocks from the j-th on; `left` is
  -- `new_sectors`, and `current_sectors` no longer changes.
  unfoldable pub grow_blocks :
      (ℕ → Sector) → Disk → Sector → ℕ → ℕ → ℕ → ℕ → ℕ → Outcome (Sector × Disk)
  grow_blocks garbage d blocks current zero j inner_start left = ok (blocks, d)
  grow_blocks garbage d blocks current (suc n) j inner_start left =
      if left == 0 then ok (blocks, d) else (do
        let rounds = min left (pointer_cnt - inner_start)
        (inner, blocks1, d1) ← inner_array (garbage j) d blocks current j
        (inner', d2) ← fill_array d1 inner rounds inner_start
        d3 ← write_array d2 (word blocks1 j) inner'
        grow_blocks garbage d3 blocks1 current n (j + 1) 0 (left - rounds))

  unfoldable pub grow_doubly : (ℕ → Sector) → ℕ → Growth → Outcome Disk
  grow_doubly garbage zeros_address g =
      let beyond = g.current_sectors - direct_cnt - pointer_cnt in
      let outer_start = beyond / pointer_cnt in
      if ltb_ℤ (pos 0) g.new_sectors
      then (do
        (blocks, d1) ← doubly_array zeros_address g.disk g.current_sectors
        (blocks', d2) ←
            grow_blocks garbage d1 blocks g.current_sectors (pointer_cnt - outer_start) outer_start
              (beyond % pointer_cnt) (pos_part g.new_sectors)
        write_array d2 (word d2.pointers 125) blocks')
      else ok g.disk

  abbrev pub with_length : Disk → ℕ → Disk
  with_length d length = record d { pointers = set_word d.pointers 126 length }

  unfoldable pub add_inode : Sector → (ℕ → Sector) → ℕ → Disk → ℕ → Outcome Disk
  add_inode garbage garbage' zeros_address d new_length =
      let old_length = pos_part (inode_disk d.pointers).length in
      let total = total_sectors (pos new_length) in
      let current = total_sectors (pos old_length) in
      if leb total current
      then ok (with_length d (if ltb old_length new_length then new_length else old_length))
      else (do
        let start : Growth = record {
          disk = d;
          current_sectors = current;
          new_sectors = pos total -ℤ pos current;
        }
        g1 ← grow_direct start total
        g2 ← grow_indirect garbage g1 total
        d' ← grow_doubly garbage' zeros_address g2
        ok (with_length d' new_length))

  -- The bytes written, the cache and the free map.
  unfoldable pub inode_write_at :
      (ℕ → ℕ)
      → (ℕ → Bool × Bool)
      → Sector
      → (ℕ → Sector)
      → ℕ
      → Cache
      → FreeMap
      → Inode
      → List ℕ
      → ℕ
      → ℕ
      → Outcome (ℕ × Cache × FreeMap)
  inode_write_at beyond mem garbage garbage' zeros_address c m inode buffer size offset =
      if not (leb_ℤ inode.deny_write_cnt (pos 0) && leb_ℤ (pos 0) inode.deny_write_cnt)
      then ok (0, c, m)
      else (do
        r ← cache_read c inode.sector
        let read : Disk = record { cache = r.cache; map = m; pointers = r.data_out }
        d ← add_inode garbage garbage' zeros_address read (size + offset)
        c1 ← cache_write d.cache inode.sector d.pointers
        (cnt, c2) ← write_rounds beyond mem (size + 1) c1 inode.sector buffer size offset
        c3 ← cache_write c2 inode.sector d.pointers
        ok (cnt, c3, d.map))
