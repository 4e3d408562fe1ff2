-- ===== src/Tests.antt =====
-- Concrete runs, and the theorems at concrete inputs.
mod Buddy
mod Cache
mod Kmsg
mod Locks
mod Net
mod Pipe
mod Sched
mod Signal
mod Vfs
mod Vma
mod Vmalloc
