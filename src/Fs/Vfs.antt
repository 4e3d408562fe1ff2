-- ===== src/Fs/Vfs.antt =====
-- fs/vfs.c: the paths that a call resolves and the mount table.
pub mod Path
pub mod Mounts
pub mod Cwd
pub mod Files
