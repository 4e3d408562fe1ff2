-- ===== src/Net.antt =====
-- net/: the protocol layer that answers in the kernel.
pub mod Checksum
pub mod Proto
pub mod Core
