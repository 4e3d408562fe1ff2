-- ===== src/Tests/Cache.antt =====
-- driver/block/cache.c at two blocks.
use scepter.Base.Int.{pos}
use scepter.Driver.Cache.{Cache, find_entry, Key, cache_lookup}
use scepter.Base.{◌≡◌, refl, some, [], true, false, ◌∷◌, Bool}

abbrev first_block : Key
first_block = record { prim_id = pos 3; scnd_id = pos 0; offset = 1 }

abbrev second_block : Key
second_block = record { prim_id = pos 3; scnd_id = pos 0; offset = 2 }

abbrev works : Key → Bool
works k = true

abbrev two_blocks : Cache
two_blocks = record {
  lru =
      record { key = second_block; block = 9 ∷ []; dirty = true }
      ∷ record { key = first_block; block = 7 ∷ []; dirty = false }
      ∷ [];
  num_entries = 2;
  hits = 0;
  misses = 0;
  disk = [];
}

looks_up_first : (cache_lookup first_block two_blocks).0 ≡ some (7 ∷ [])
unfolding cache_lookup find_entry
looks_up_first = refl
