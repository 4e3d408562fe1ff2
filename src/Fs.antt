-- ===== src/Fs.antt =====
-- fs/: pipes, file locks and the virtual file system.
pub mod Errno
pub mod Pipe
pub mod Locks
pub mod Vfs
