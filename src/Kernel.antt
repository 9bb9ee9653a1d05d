-- ===== src/Kernel.antt =====
-- pintos/src/lib/kernel: the kernel's data structures.
pub mod Bitmap
pub mod LinkedList
