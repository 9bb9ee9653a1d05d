-- ===== src/Filesys.antt =====
-- pintos/src/filesys: the buffer cache and what stands on it.
pub mod Cache
pub mod FreeMap
pub mod Inode
