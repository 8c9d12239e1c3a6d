-- ===== src/Tools.antt =====
-- source/kernel/tools: the bitmap, the intrusive list and the library routines of the kernel.
pub mod Klib
pub mod LinkedList
pub mod Log
pub mod Bitmap
