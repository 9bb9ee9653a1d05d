-- ===== src/Filesys/Inode/Grow/Doubly.antt =====
-- A file that outgrows its indirect block.
