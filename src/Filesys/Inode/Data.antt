-- ===== src/Filesys/Inode/Data.antt =====
-- pintos/src/filesys/inode.c, the bytes of a file: cache_read_bytes, cache_write_bytes,
-- inode_read_at, and the loop of inode_write_at. Offsets and sizes are not negative. What a buffer
-- holds is the list of its bytes. `mem` says whether the two calls of `malloc` for a bounce buffer
-- succeed, for each offset at which a round of a loop starts.
pub mod Bytes
pub mod Chunk
pub mod File
pub mod ReadAt
pub mod Layout
pub mod WriteAt
use cs162_group13_clone.Base.{
  ℕ, zero, suc, ◌+◌, ◌-◌, ◌%◌, ◌==◌, Bool, true, false, ◌&&◌, ◌||◌, List, [], ◌∷◌, ◌++◌, Outcome,
  ok, panic, ◌>>=◌, ltb, if◌then◌else◌, get_or, set, length, replicate,
}
use cs162_group13_clone.Base.Int.{ℤ, pos, negsuc, pos_part, ◌-ℤ◌, ltb_ℤ, leb_ℤ, to_int32}
use cs162_group13_clone.Devices.Block.{Sector}
use cs162_group13_clone.Filesys.Cache.{Cache, block_sector_size, cache_read, cache_write}
use cs162_group13_clone.Filesys.Inode.{inode_disk, byte_to_sector, inode_length}

-- The n bytes of b from the i-th on.
abbrev pub slice : List ℕ → ℕ → ℕ → List ℕ
slice b i zero = []
slice b i (suc n) = get_or b i 0 ∷ slice b (i + 1) n

-- b with the bytes put in from the i-th on.
abbrev pub overwrite : List ℕ → ℕ → List ℕ → List ℕ
overwrite b i [] = b
overwrite b i (x ∷ xs) = overwrite (set b i x) (i + 1) xs

-- What `buff` holds then in its first `size` bytes, and the cache. A second `malloc` is tried where
-- the first one fails; without memory `buff` stays as it is.
unfoldable pub cache_read_bytes :
    Bool × Bool → Cache → ℕ → List ℕ → ℕ → ℕ → Outcome (List ℕ × Cache)
cache_read_bytes mem c sector_idx buff offset size =
    if mem.0 || mem.1
    then (do r ← cache_read c sector_idx; ok (slice r.data_out offset size, r.cache))
    else ok (slice buff 0 size, c)

-- What the bounce buffer holds before the copy.
unfoldable pub bounce_for : Cache → ℕ → Bool → Outcome (Sector × Cache)
bounce_for c sector_idx partial =
    if partial
    then (do r ← cache_read c sector_idx; ok (r.data_out, r.cache))
    else ok (replicate block_sector_size 0, c)

-- The second `malloc` is made whether or not the first one succeeds, and its result is the one that
-- counts; without memory nothing is written.
unfoldable pub cache_write_bytes :
    Bool × Bool → Cache → ℕ → List ℕ → ℕ → ℕ → ℕ → Outcome (Bool × Cache)
cache_write_bytes mem c sector_idx buffer sector_ofs chunk_size sector_left =
    if mem.1
    then (do
      (bounce, c1) ← bounce_for c sector_idx (ltb 0 sector_ofs || ltb chunk_size sector_left)
      c2 ← cache_write c1 sector_idx (overwrite bounce sector_ofs (slice buffer 0 chunk_size))
      ok (true, c2))
    else ok (false, c)

abbrev pub sector_left : ℕ → ℕ
sector_left offset = block_sector_size - offset % block_sector_size

-- `chunk_size` of both loops.
unfoldable pub chunk_size : ℤ → ℕ → ℕ → ℤ
chunk_size inode_length size offset =
    let inode_left = to_int32 (inode_length -ℤ pos offset) in
    let min_left =
      if ltb_ℤ inode_left (pos (sector_left offset))
      then inode_left
      else pos (sector_left offset) in
    if ltb_ℤ (pos size) min_left then pos size else min_left

unfoldable pub read_chunk : Bool × Bool → Cache → ℕ → List ℕ → ℕ → ℕ → Outcome (List ℕ × Cache)
read_chunk mem c sector_idx buff sector_ofs chunk =
    if (sector_ofs == 0) && (chunk == block_sector_size)
    then (do r ← cache_read c sector_idx; ok (r.data_out, r.cache))
    else cache_read_bytes mem c sector_idx buff sector_ofs chunk

-- The loop of `inode_read_at`; `buffer` is what is left of the buffer, and the result what the bytes
-- that are counted as read hold then. `fuel` bounds its rounds.
unfoldable pub read_rounds :
    (ℕ → ℕ) → (ℕ → Bool × Bool) → ℕ → Cache → ℕ → List ℕ → ℕ → ℕ → Outcome (List ℕ × Cache)
read_rounds beyond mem zero c sector buffer size offset = panic
read_rounds beyond mem (suc fuel) c sector buffer size offset =
    if size == 0 then ok ([], c) else (do
      (sector_idx, c1) ← byte_to_sector beyond c sector offset
      (length, c2) ← inode_length c1 sector
      let chunk = chunk_size length size offset
      if leb_ℤ chunk (pos 0) then ok ([], c2) else (do
        (bytes, c3) ←
            read_chunk (mem offset) c2 sector_idx buffer (offset % block_sector_size)
              (pos_part chunk)
        (rest, c4) ←
            read_rounds beyond mem fuel c3 sector
              (slice buffer (pos_part chunk) (size - pos_part chunk)) (size - pos_part chunk)
              (offset + pos_part chunk)
        ok (bytes ++ rest, c4)))

-- `size` bytes from the array of zeros on, `past` what lies behind its 512 bytes.
abbrev pub zeros_from : (ℕ → ℕ) → ℕ → ℕ → List ℕ
zeros_from past i zero = []
zeros_from past i (suc size) =
    (if ltb i block_sector_size then 0 else past i) ∷ zeros_from past (i + 1) size

-- What `inode_read_at` returns, the buffer, and the cache.
unfoldable pub inode_read_at :
    (ℕ → ℕ)
    → (ℕ → ℕ)
    → (ℕ → Bool × Bool)
    → Cache
    → ℕ
    → List ℕ
    → ℕ
    → ℕ
    → Outcome (ℤ × List ℕ × Cache)
inode_read_at beyond past mem c sector buffer size offset =
    if ltb 20000000 sector then ok (negsuc 0, buffer, c) else (do
      r ← cache_read c sector
      let zeroed =
          if leb_ℤ (inode_disk r.data_out).length (pos offset)
          then overwrite buffer 0 (zeros_from past 0 size)
          else buffer
      (bytes, c') ← read_rounds beyond mem (size + 1) r.cache sector zeroed size offset
      ok (pos (length bytes), overwrite zeroed 0 bytes, c'))

-- The result of `cache_write_bytes` is not used.
unfoldable pub write_chunk : Bool × Bool → Cache → ℕ → List ℕ → ℕ → ℕ → ℕ → Outcome Cache
write_chunk mem c sector_idx buffer sector_ofs chunk left =
    if (sector_ofs == 0) && (chunk == block_sector_size)
    then cache_write c sector_idx (slice buffer 0 block_sector_size)
    else (do (written, c') ← cache_write_bytes mem c sector_idx buffer sector_ofs chunk left; ok c')

-- The loop of `inode_write_at`; `buffer` is what is left to write, and the result the number of
-- bytes counted as written.
unfoldable pub write_rounds :
    (ℕ → ℕ) → (ℕ → Bool × Bool) → ℕ → Cache → ℕ → List ℕ → ℕ → ℕ → Outcome (ℕ × Cache)
write_rounds beyond mem zero c sector buffer size offset = panic
write_rounds beyond mem (suc fuel) c sector buffer size offset =
    if size == 0 then ok (0, c) else (do
      (sector_idx, c1) ← byte_to_sector beyond c sector offset
      (length, c2) ← inode_length c1 sector
      let chunk = chunk_size length size offset
      if leb_ℤ chunk (pos 0) then ok (0, c2) else (do
        c3 ←
            write_chunk (mem offset) c2 sector_idx buffer (offset % block_sector_size)
              (pos_part chunk) (sector_left offset)
        (cnt, c4) ←
            write_rounds beyond mem fuel c3 sector
              (slice buffer (pos_part chunk) (size - pos_part chunk)) (size - pos_part chunk)
              (offset + pos_part chunk)
        ok (pos_part chunk + cnt, c4)))
