-- ===== src/Filesys/Inode/Data/Chunk.antt =====
-- The size of a chunk: no more than is left to copy, of the file and of the sector.
use cs162_group13_clone.Base.{ℕ, ◌-◌, ◌%◌, ◌≤◌, ◌<◌, ◌≡◌, min, true, arith}
use cs162_group13_clone.Base.Int.{pos, ◌-ℤ◌, leb_ℤ, to_int32}
use cs162_group13_clone.Filesys.Inode.Data.{chunk_size}

left_in_file :
    (n offset : ℕ) → n < 2147483648 → offset < n → to_int32 (pos n -ℤ pos offset) ≡ pos (n - offset)
unfolding to_int32 ◌-ℤ◌
left_in_file n offset h l = ground arith

pub chunk_size-inside :
    (n size offset : ℕ)
    → n < 2147483648
    → offset < n
    → chunk_size (pos n) size offset ≡ pos (min size (min (n - offset) (512 - offset % 512)))
unfolding chunk_size
chunk_size-inside n size offset h l = rw (left_in_file n offset h l) (ground arith)

pub chunk_size-outside :
    (n size offset : ℕ)
    → n ≤ offset
    → offset < 2147483648
    → leb_ℤ (chunk_size (pos n) size offset) (pos 0) ≡ true
unfolding chunk_size to_int32 ◌-ℤ◌
chunk_size-outside n size offset h l = ground arith
