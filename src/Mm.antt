-- ===== src/Mm.antt =====
-- mm/: the page allocator, the virtual range allocator and the areas of a process.
pub mod Bitmap
pub mod Buddy
pub mod Vma
pub mod Vmalloc
