-- ===== src/Filesys/Cache.antt =====
-- pintos/src/filesys/inode.c, the buffer cache: cache_init, cache_read, cache_write, cache_sync.
-- A call runs alone: each lock is free when it is taken, and is free again at the end.
-- `cache_entrys` is a list of CACHE_SIZE entries; the loops run over its first `entry_num`.
-- `ref_count` is a C `int`, which wraps here where the C overflow is undefined.
pub mod View
pub mod Scan
pub mod Victim
pub mod Slots
pub mod Write
pub mod Read
pub mod Refine
mod Tests
use cs162_group13_clone.Base.{
  ℕ, zero, suc, ◌+◌, ◌-◌, ◌^◌, ◌==◌, Bool, true, false, List, [], ◌∷◌, Option, none, some, Outcome,
  ok, ◌>>=◌, ltb, if◌then◌else◌, replicate, get_or, set,
}
use cs162_group13_clone.Base.Int.{ℤ, pos, ◌+ℤ◌, ◌-ℤ◌, ltb_ℤ, to_int32}
use cs162_group13_clone.Devices.Block.{Sector, Block, block_read, block_write}

abbrev pub cache_size : ℕ
cache_size = 32

abbrev pub block_sector_size : ℕ
block_sector_size = 512

pub record Entry : Type 0 where
  pub sector : ℕ
  pub ref_count : ℤ
  pub write : Bool
  pub bytes : Sector

-- `struct block_cache`, and the device `fs_device` that it stands before.
pub record Cache : Type 0 where
  pub entry_num : ℕ
  pub entries : List Entry
  pub device : Block

-- `sector` is (block_sector_t) -1; the bytes of a static array are 0.
abbrev pub empty_entry : Entry
empty_entry = record {
  sector = 2 ^ 32 - 1;
  ref_count = pos 0;
  write = false;
  bytes = replicate block_sector_size 0;
}

unfoldable pub cache_init : Block → Cache
cache_init device = record {
  entry_num = 0;
  entries = replicate cache_size empty_entry;
  device = device;
}

abbrev pub bump : ℤ → ℤ
bump r = to_int32 (r +ℤ pos 1)

-- The aging that both scans do: an entry of `sector` gets 0, any other one more.
abbrev pub touch_entry : ℕ → Entry → Entry
touch_entry sector e = record e {
  ref_count = if e.sector == sector then pos 0 else bump e.ref_count;
}

-- The first loop of `cache_read`. The option is what `data` holds, once `found`: each match is
-- copied over the one before.
unfoldable pub read_scan : ℕ → List Entry → ℕ → Option Sector → List Entry × Option Sector
read_scan zero es sector out = (es, out)
read_scan (suc n) [] sector out = ([], out)
read_scan (suc n) (e ∷ es) sector out =
    let (es', out') = read_scan n es sector (if e.sector == sector then some e.bytes else out) in
    (touch_entry sector e ∷ es', out')

-- Its second loop, on a miss: `ref_count -= 1`.
unfoldable pub age_back : ℕ → List Entry → List Entry
age_back zero es = es
age_back (suc n) [] = []
age_back (suc n) (e ∷ es) = record e { ref_count = to_int32 (e.ref_count -ℤ pos 1) } ∷ age_back n es

-- The variables of the first loop of `cache_write`; `replace` is set once `found`.
pub record Choice : Type 0 where
  pub replace : Option ℕ
  pub max : ℤ
  pub max_index : ℕ

abbrev pub consider : ℕ → ℕ → Entry → Choice → Choice
consider sector i e c =
    if e.sector == sector
    then record c { replace = some i }
    else if ltb_ℤ c.max (bump e.ref_count)
    then record c { max = bump e.ref_count; max_index = i }
    else c

unfoldable pub write_scan : ℕ → ℕ → List Entry → ℕ → Choice → List Entry × Choice
write_scan zero i es sector c = (es, c)
write_scan (suc n) i [] sector c = ([], c)
write_scan (suc n) i (e ∷ es) sector c =
    let (es', c') = write_scan n (i + 1) es sector (consider sector i e c) in
    (touch_entry sector e ∷ es', c')

abbrev pub written : ℕ → Sector → Entry
written sector bytes = record { sector = sector; ref_count = pos 0; write = true; bytes = bytes }

-- The last part of `cache_write`: the entry at `max_index` goes to the device and is replaced.
unfoldable pub evict : Cache → ℕ → ℕ → Sector → Outcome Cache
evict c max_index sector bytes = do
  let old = get_or c.entries max_index empty_entry
  device ← if old.write then block_write c.device old.sector old.bytes else ok c.device
  ok (record c { entries = set c.entries max_index (written sector bytes); device = device })

-- Its middle part: a free slot is filled.
unfoldable pub append_entry : Cache → ℕ → Sector → Cache
append_entry c sector bytes =
    if ltb c.entry_num cache_size
    then record c {
      entry_num = c.entry_num + 1;
      entries = set c.entries c.entry_num (written sector bytes);
    }
    else c

-- What `cache_write` does on a miss. The second test reads the new `entry_num`.
unfoldable pub write_miss : Cache → ℕ → ℕ → Sector → Outcome Cache
write_miss c max_index sector bytes =
    let c' = append_entry c sector bytes in
    if ltb c'.entry_num cache_size
    then ok c'
    else if c'.entry_num == cache_size
    then evict c' max_index sector bytes
    else ok c'

abbrev pub no_choice : Choice
no_choice = record { replace = none; max = pos 0; max_index = 0 }

-- What `cache_write` does after its loop: the entry found is overwritten, or none was.
unfoldable pub place_entry : Cache → ℕ → ℕ → Sector → Option ℕ → Outcome Cache
place_entry c max_index sector bytes (some i) =
    ok (record c { entries = set c.entries i (written sector bytes) })
place_entry c max_index sector bytes none = write_miss c max_index sector bytes

unfoldable pub cache_write : Cache → ℕ → Sector → Outcome Cache
cache_write c sector bytes =
    let (es, choice) = write_scan c.entry_num 0 c.entries sector no_choice in
    place_entry (record c { entries = es }) choice.max_index sector bytes choice.replace

pub record ReadResult : Type 0 where
  pub found : Bool
  pub data_out : Sector
  pub cache : Cache

unfoldable pub read_miss : Cache → ℕ → Outcome ReadResult
read_miss c sector = do
  (bytes, device) ← block_read c.device sector
  c' ← cache_write (record c { device = device }) sector bytes
  ok (record { found = false; data_out = bytes; cache = c' })

-- What `cache_read` does after its first loop.
unfoldable pub answer : Cache → ℕ → Option Sector → Outcome ReadResult
answer c sector (some bytes) = ok (record { found = true; data_out = bytes; cache = c })
answer c sector none = read_miss (record c { entries = age_back c.entry_num c.entries }) sector

unfoldable pub cache_read : Cache → ℕ → Outcome ReadResult
cache_read c sector =
    let (es, out) = read_scan c.entry_num c.entries sector none in
    answer (record c { entries = es }) sector out

unfoldable pub sync_entries : ℕ → List Entry → Block → Outcome Block
sync_entries zero es device = ok device
sync_entries (suc n) [] device = ok device
sync_entries (suc n) (e ∷ es) device = do
  device' ← block_write device e.sector e.bytes
  sync_entries n es device'

unfoldable pub cache_sync : Cache → Outcome Cache
cache_sync c = do
  device ← sync_entries c.entry_num c.entries c.device
  ok (record c { device = device })
