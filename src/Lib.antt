-- ===== src/Lib.antt =====
-- Pintos: the core of a small operating system for the 80x86, as extended by a CS 162 group with a
-- write-back buffer cache and growing files. Paths below are from the repository's root.
--
-- The parts that are modelled, bottom up:
--   - Base: shared names; lists and Boolean tests over the native numbers; `Outcome`, the result of
--     kernel code, where a failed ASSERT and a PANIC are `panic`; C's signed 32-bit integers
--     (Base.Int); the binary digits of words (Base.Bits).
--   - Devices.Block: pintos/src/devices/block.c, `block_read` and `block_write` over a map from
--     sectors to bytes.
--   - Kernel.Bitmap: pintos/src/lib/kernel/bitmap.c. One function for each C function, with its name;
--     each loop is a function of its own (`set_from`, `contains_from`, `count_from`, `scan_from`) that
--     recurs on the number of rounds left.
--   - Kernel.LinkedList: pintos/src/lib/kernel/list.c on a heap of links, where an element is its
--     address and 0 the null pointer. A loop over a list recurs on fuel, one more than the list has
--     elements. Kernel.LinkedList.Nodes says when the links form a list (`IsList`),
--     Kernel.LinkedList.Order has the functions that compare elements, Kernel.LinkedList.Sort the merge
--     sort. The comparison is an argument, the caller's function, which reads no links.
--   - Filesys.Cache: the buffer cache of pintos/src/filesys/inode.c (`cache_read`, `cache_write`,
--     `cache_sync`). The state is the array of CACHE_SIZE entries, `entry_num` and the device below.
--     Filesys.Cache.Refine compares it with an array of sectors.
--   - Filesys.FreeMap: pintos/src/filesys/free-map.c over Kernel.Bitmap. `file_write_at` on the free map
--     file, through which `bitmap_write` of bitmap.c writes the map into the cache, is an argument:
--     pintos/src/filesys/file.c is not modelled, and leads back to `inode_write_at`.
--     Filesys.FreeMap.MapFile has what theorems ask of it (`SavesMap`, `KeepsCache`).
--   - Filesys.Inode: from pintos/src/filesys/inode.c, `byte_to_sector` with its helper `read_sector`
--     over the cache, and `deallocate_inode` over the cache and the free map (Filesys.Inode.Dealloc).
--     What lies in memory behind a buffer is an argument, since the code reads it.
--     Filesys.Inode.Open has the table of open inodes, named by their pointers. Filesys.Inode.Data has
--     `inode_read_at` and the loop of `inode_write_at`, with a file as a list of bytes in
--     Filesys.Inode.Data.File; their loops recur on fuel, one more than the bytes asked for, which is
--     enough since each round copies a byte or ends. Filesys.Inode.Grow has `add_inode` and the whole of
--     `inode_write_at`, Filesys.Inode.Create `inode_create`; arrays on the kernel's stack that the code
--     does not set are arguments, and so are the results of `malloc` and `calloc`, but for the bounce
--     buffer of `read_sector`, which is taken to be there.
--   - Strings: pintos/src/lib/string.c over a memory of bytes, with 0 as the null pointer. A loop that
--     runs to the end of a string recurs on fuel; more fuel than the strings have characters is
--     enough. Strings.Texts says when the memory holds a string.
--   - Threads.FixedPoint: pintos/src/threads/fixed-point.h.
--   - Threads.Scheduler: pintos/src/threads/thread.c on one CPU. The state holds the ready list, the
--     current thread, and each thread's status and place (`Code`). The code after `switch_threads` is
--     that of the thread switched to, so `schedule` ends in that thread.
--   - Threads.Synch: semaphores and locks of pintos/src/threads/synch.c over the scheduler. Where the
--     code has interrupts on in the middle of a call, the call is cut there and `resume` is its rest.
--     Threads.Synch.Events makes histories of calls, preemptions and interrupts (`Event`, `perform`,
--     `Reaches`), and Threads.Synch.Guarantees and Threads.Synch.Liveness say what holds in all of them.
--
-- State is passed explicitly: a function that changes a C structure returns the new one. A counted
-- loop recurs on its rounds and needs no fuel. Words are native numbers with the wrap at 2 ^ 32
-- written out; a C `int` is an integer with `to_int32` where it is stored.
--
-- Not modelled: directories; condition variables;
-- thread ids and the list of all threads; `process_exit`; hardware drivers, boot and interrupt entry;
-- printing. The cache's own locks are not tied to Threads.Synch: a call of the cache runs alone, and
-- finds its locks free.
pub mod Base
pub mod Devices
pub mod Filesys
pub mod Kernel
pub mod Strings
pub mod Threads
