-- ===== src/Driver.antt =====
-- The block drivers' cache.
pub mod Cache
