-- ===== src/Filesys/Inode.antt =====
-- pintos/src/filesys/inode.c, from the position in a file to the sector that holds it:
-- `struct inode_disk`, byte_to_sector, read_sector, inode_length. `malloc` is taken to succeed, and
-- positions are not negative.
pub mod BlockMap
pub mod Dealloc
pub mod Open
pub mod Data
pub mod Grow
pub mod Create
pub mod TestMap
mod Tests
mod FileTests
use cs162_group13_clone.Base.{
  ℕ, ◌+◌, ◌-◌, ◌*◌, ◌/◌, ◌^◌, Outcome, ok, ◌>>=◌, ltb, if◌then◌else◌, get_or,
}
use cs162_group13_clone.Base.Int.{ℤ, pos, ltb_ℤ, to_int32}
use cs162_group13_clone.Devices.Block.{Sector}
use cs162_group13_clone.Filesys.Cache.{Cache, block_sector_size, cache_read}

-- The i-th 32-bit word of a sector, whose bytes are stored low byte first.
unfoldable pub word : Sector → ℕ → ℕ
word b i =
    get_or b (4 * i) 0
    + 256 * get_or b (4 * i + 1) 0
    + 65536 * get_or b (4 * i + 2) 0
    + 16777216 * get_or b (4 * i + 3) 0

pub record InodeDisk : Type 0 where
  pub direct : ℕ → ℕ
  pub indirect : ℕ
  pub doubly_indirect : ℕ
  pub length : ℤ
  pub magic : ℕ

abbrev pub direct_cnt : ℕ
direct_cnt = 124

abbrev pub pointer_cnt : ℕ
pointer_cnt = 128

-- The words of the sector, in the order of the structure's members.
abbrev pub inode_disk : Sector → InodeDisk
inode_disk b = record {
  direct = word b;
  indirect = word b 124;
  doubly_indirect = word b 125;
  length = to_int32 (pos (word b 126));
  magic = word b 127;
}

-- What the heap holds from the start of the buffer that `read_sector` allocates: the sector's 128
-- words, then whatever lies behind them.
abbrev pub bounced : (ℕ → ℕ) → Sector → ℕ → ℕ
bounced beyond b i = if ltb i pointer_cnt then word b i else beyond i

-- `bounce + sector_ofs` counts in words, so `offset` is the index of a pointer.
unfoldable pub read_sector : (ℕ → ℕ) → Cache → ℕ → ℕ → Outcome (ℕ × Cache)
read_sector beyond c sector offset = do
  r ← cache_read c sector
  ok (bounced beyond r.data_out offset, r.cache)

-- The three ways to a sector, by the position.
unfoldable pub find_sector : (ℕ → ℕ) → Cache → InodeDisk → ℕ → Outcome (ℕ × Cache)
find_sector beyond c disk_inode position =
    if ltb position (direct_cnt * block_sector_size)
    then ok (disk_inode.direct (position / block_sector_size), c)
    else if ltb position ((direct_cnt + pointer_cnt) * block_sector_size)
    then read_sector beyond c disk_inode.indirect (position / block_sector_size - direct_cnt)
    else do
      let outer = (position / block_sector_size - direct_cnt - pointer_cnt) / 128
      (inner_indirect_sector, c') ← read_sector beyond c disk_inode.doubly_indirect outer
      read_sector beyond c' inner_indirect_sector (position / block_sector_size - outer)

unfoldable pub byte_to_sector : (ℕ → ℕ) → Cache → ℕ → ℕ → Outcome (ℕ × Cache)
byte_to_sector beyond c sector position = do
  r ← cache_read c sector
  let disk_inode = inode_disk r.data_out
  if ltb_ℤ (pos position) disk_inode.length
      then find_sector beyond r.cache disk_inode position
      else ok (2 ^ 32 - 1, r.cache)

unfoldable pub inode_length : Cache → ℕ → Outcome (ℤ × Cache)
inode_length c sector = do r ← cache_read c sector; ok ((inode_disk r.data_out).length, r.cache)
