-- ===== src/Driver/Cache/Calls.antt =====
-- driver/block/cache.c: the calls of the block cache, as steps.
use scepter.Driver.Cache.{Cache}
