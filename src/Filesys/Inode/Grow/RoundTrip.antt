-- ===== src/Filesys/Inode/Grow/RoundTrip.antt =====
-- Reading back what was written.
use cs162_group13_clone.Filesys.Cache.{Cache}
use cs162_group13_clone.Filesys.FreeMap.{FreeMap}
use cs162_group13_clone.Filesys.Inode.Open.{Inode}
