-- ===== src/Filesys/FreeMap.antt =====
-- pintos/src/filesys/free-map.c: the sectors of the file system, one bit each.
-- `file_open` says whether `free_map_file` is set. Writing to this file leads through file.c back to
-- inode_write_at, and through the cache to sectors; `file_write_at` is an argument, any function from
-- what is written and a cache to a cache. FreeMap.MapFile says what is asked of it.
pub mod MapFile
pub mod Alloc
mod Tests
use cs162_group13_clone.Base.{
  ℕ, ◌%◌, ◌/◌, ◌==◌, Bool, true, false, List, [], ◌∷◌, ◌++◌, Option, none, some, Outcome, ok, panic,
  assert, ◌>>=◌, ◌>>◌, if◌then◌else◌,
}
use cs162_group13_clone.Kernel.Bitmap.{
  Bitmap, byte_cnt, bitmap_error, bitmap_create, bitmap_mark, bitmap_all, bitmap_set_multiple,
  bitmap_scan_and_flip,
}
use cs162_group13_clone.Filesys.Cache.{Cache}

abbrev pub free_map_sector : ℕ
free_map_sector = 0

abbrev pub root_dir_sector : ℕ
root_dir_sector = 1

pub record FreeMap : Type 0 where
  pub map : Bitmap
  pub file_open : Bool

-- A failed `bitmap_create` is a PANIC.
abbrev pub or_panic {ℓ} : {A : Type ℓ} → Option A → Outcome A
or_panic none = panic
or_panic (some a) = ok a

unfoldable pub free_map_init : (mem mem_bits : Bool) → List ℕ → ℕ → Outcome FreeMap
free_map_init mem mem_bits garbage sectors = do
  created ← bitmap_create mem mem_bits garbage sectors
  map ← or_panic created
  ok (record {
    map = bitmap_mark (bitmap_mark map free_map_sector) root_dir_sector;
    file_open = false;
  })

-- The bytes of a 32-bit word, low byte first.
abbrev pub word_bytes : ℕ → List ℕ
word_bytes w = (w % 256) ∷ (w / 256 % 256) ∷ (w / 65536 % 256) ∷ (w / 16777216 % 256) ∷ []

abbrev pub elem_bytes : List ℕ → List ℕ
elem_bytes [] = []
elem_bytes (w ∷ ws) = word_bytes w ++ elem_bytes ws

-- `file_write_at` on `free_map_file`, of a buffer, a size and an offset, through the cache: the number
-- of bytes written, and the cache.
abbrev pub FileWrite : Type 0
FileWrite = List ℕ → ℕ → ℕ → Cache → Outcome (ℕ × Cache)

module _ (file_write_at : FileWrite) where
  unfoldable pub bitmap_write : Bitmap → Cache → Outcome (Bool × Cache)
  bitmap_write b c = do
    (written, c') ← file_write_at (elem_bytes b.bits) (byte_cnt b.bit_cnt) 0 c
    ok (written == byte_cnt b.bit_cnt, c')

  -- The map is taken back if it could not be written.
  abbrev pub take_back :
      FreeMap → ℕ → ℕ → Bitmap → Bool × Cache → Outcome (Option ℕ × FreeMap × Cache)
  take_back m cnt sector map (true, c) = ok (some sector, record m { map = map }, c)
  take_back m cnt sector map (false, c) = do
    map' ← bitmap_set_multiple map sector cnt false
    ok (none, record m { map = map' }, c)

  -- What follows the scan. The result is the sector put into `*sectorp`, or none.
  unfoldable pub commit : Cache → FreeMap → ℕ → ℕ → Bitmap → Outcome (Option ℕ × FreeMap × Cache)
  commit c m cnt sector map =
      if sector == bitmap_error
      then ok (none, record m { map = map }, c)
      else if m.file_open
      then (do result ← bitmap_write map c; take_back m cnt sector map result)
      else ok (some sector, record m { map = map }, c)

  unfoldable pub free_map_allocate : Cache → FreeMap → ℕ → Outcome (Option ℕ × FreeMap × Cache)
  free_map_allocate c m cnt = do
    (sector, map) ← bitmap_scan_and_flip m.map 0 cnt false
    commit c m cnt sector map

  -- Whether the map could be written does not matter here, but a `free_map_file` that is not set is a
  -- null pointer, and its use a fault.
  unfoldable pub free_map_release : Cache → FreeMap → ℕ → ℕ → Outcome (FreeMap × Cache)
  free_map_release c m sector cnt = do
    held ← bitmap_all m.map sector cnt
    assert held
    map ← bitmap_set_multiple m.map sector cnt false
    assert m.file_open
    (written, c') ← bitmap_write map c
    ok (record m { map = map }, c')
