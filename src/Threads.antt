-- ===== src/Threads.antt =====
-- pintos/src/threads: the kernel's core.
pub mod FixedPoint
pub mod Scheduler
pub mod Synch
