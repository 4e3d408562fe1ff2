-- ===== src/Driver/Cache.antt =====
-- driver/block/cache.c: the cache of disk blocks, a list from the most to the least recently used.
-- `accepts` says for which blocks `bwrite` succeeds; the disk is the list of the writes that it
-- accepted, the last one first. `kalloc` may fail: a flag for each call says that it does not.
pub mod Entries
pub mod Invariant
pub mod Calls
use scepter.Base.Int.{ℤ, eqb_ℤ}
use scepter.Base.{
  ℕ, Bool, ◌&&◌, ◌%◌, ◌^◌, ◌∷◌, ◌==◌, true, [], none, not, if◌then◌else◌, ◌-◌, ◌+◌, List, some, ltb,
  Option, false,
}

abbrev pub cache_max_entries : ℕ
cache_max_entries = 64

pub record Key : Type 0 where
  pub prim_id : ℤ
  pub scnd_id : ℤ
  pub offset : ℕ

-- `cache_entry_t`; `block` is its data.
pub record Entry : Type 0 where
  pub key : Key
  pub block : List ℕ
  pub dirty : Bool

pub record Cache : Type 0 where
  pub lru : List Entry
  pub num_entries : ℕ
  pub hits : ℕ
  pub misses : ℕ
  pub disk : List (Key × List ℕ)

abbrev pub same_key : Key → Key → Bool
same_key a b = eqb_ℤ a.prim_id b.prim_id && eqb_ℤ a.scnd_id b.scnd_id && a.offset == b.offset

-- Counters are uint32_t.
abbrev pub inc : ℕ → ℕ
inc n = (n + 1) % 2 ^ 32

abbrev pub dec : ℕ → ℕ
dec n = (n + 2 ^ 32 - 1) % 2 ^ 32

unfoldable pub find_entry : Key → List Entry → Option Entry
find_entry k [] = none
find_entry k (e ∷ es) = if same_key e.key k then some e else find_entry k es

-- `list_del` of the entry that `find_entry` found.
unfoldable pub remove_entry : Key → List Entry → List Entry
remove_entry k [] = []
remove_entry k (e ∷ es) = if same_key e.key k then es else e ∷ remove_entry k es

-- `list_last_entry`, and the list without it.
unfoldable pub last_entry : List Entry → Option Entry
last_entry [] = none
last_entry (e ∷ []) = some e
last_entry (e ∷ f ∷ es) = last_entry (f ∷ es)

unfoldable pub but_last : List Entry → List Entry
but_last [] = []
but_last (e ∷ []) = []
but_last (e ∷ f ∷ es) = e ∷ but_last (f ∷ es)

-- Whether it succeeded, the entry and the disk.
unfoldable pub writeback_entry :
    (accepts : Key → Bool) → Entry → List (Key × List ℕ) → Bool × Entry × List (Key × List ℕ)
writeback_entry accepts e disk =
    if not e.dirty
    then (true, e, disk)
    else if accepts e.key
    then (true, record e { dirty = false }, (e.key, e.block) ∷ disk)
    else (false, e, disk)

-- The victim goes even if it could not be written back.
unfoldable pub evict_lru : (accepts : Key → Bool) → Cache → Bool × Cache
unfolding writeback_entry
evict_lru accepts c = elim (last_entry c.lru) [
  | none ↦ (false, c)
  | some victim ↦ (
    true,
    record c {
      lru = but_last c.lru;
      num_entries = dec c.num_entries;
      disk = (writeback_entry accepts victim c.disk).2;
    },
  )
]

unfoldable pub cache_init : Cache → Cache
cache_init c = record c { lru = []; num_entries = 0; hits = 0; misses = 0 }

unfoldable pub cache_lookup : Key → Cache → Option (List ℕ) × Cache
cache_lookup k c = elim (find_entry k c.lru) [
  | none ↦ (none, record c { misses = inc c.misses })
  | some e ↦ (some e.block, record c { lru = e ∷ remove_entry k c.lru; hits = inc c.hits })
]

-- The part of `cache_insert` that makes the entry.
unfoldable pub add_entry : (entry_memory data_memory : Bool) → Key → List ℕ → Cache → Bool × Cache
add_entry entry_memory data_memory k block c =
    if not entry_memory then (false, c) else if not data_memory then (false, c) else (
      true,
      record c {
        lru = record { key = k; block = block; dirty = false } ∷ c.lru;
        num_entries = inc c.num_entries;
      },
    )

unfoldable pub cache_insert :
    (accepts : Key → Bool) → (entry_memory data_memory : Bool) → Key → List ℕ → Cache → Bool × Cache
unfolding evict_lru add_entry
cache_insert accepts entry_memory data_memory k block c = elim (find_entry k c.lru) [
  | some e ↦ (true, record c { lru = record e { block = block } ∷ remove_entry k c.lru })
  | none ↦
      if ltb c.num_entries cache_max_entries
      then add_entry entry_memory data_memory k block c
      else if (evict_lru accepts c).0
      then add_entry entry_memory data_memory k block (evict_lru accepts c).1
      else (false, c)
]

unfoldable pub cache_mark_dirty : Key → Cache → Bool × Cache
cache_mark_dirty k c = elim (find_entry k c.lru) [
  | none ↦ (false, c)
  | some e ↦ (true, record c { lru = record e { dirty = true } ∷ remove_entry k c.lru })
]

-- The entries, the disk and how many were written.
unfoldable pub flush_loop :
    (accepts : Key → Bool)
    → List Entry
    → List (Key × List ℕ)
    → (written : ℕ) → List Entry × List (Key × List ℕ) × ℕ
unfolding writeback_entry
flush_loop accepts [] disk written = ([], disk, written)
flush_loop accepts (e ∷ es) disk written =
    let (ok, e', disk') = writeback_entry accepts e disk in
    let (es', disk2, written') =
      flush_loop accepts es disk' (if e.dirty && ok then written + 1 else written) in
    (e' ∷ es', disk2, written')

unfoldable pub cache_flush : (accepts : Key → Bool) → Cache → ℕ × Cache
unfolding flush_loop
cache_flush accepts c =
    let (es, disk, written) = flush_loop accepts c.lru c.disk 0 in
    (written, record c { lru = es; disk = disk })

unfoldable pub cache_invalidate : (accepts : Key → Bool) → Key → Cache → Cache
unfolding writeback_entry
cache_invalidate accepts k c = elim (find_entry k c.lru) [
  | none ↦ c
  | some e ↦ record c {
    lru = remove_entry k c.lru;
    num_entries = dec c.num_entries;
    disk = (writeback_entry accepts e c.disk).2;
  }
]

-- The calls, for a history of them.
pub data Op : Type 0 where
  looks_up : Key → Op
  inserts : (entry_memory data_memory : Bool) → Key → List ℕ → Op
  marks : Key → Op
  flushes : Op
  invalidates : Key → Op

abbrev pub step : (accepts : Key → Bool) → Op → Cache → Cache
step accepts (looks_up k) c = (cache_lookup k c).1
step accepts (inserts a b k block) c = (cache_insert accepts a b k block c).1
step accepts (marks k) c = (cache_mark_dirty k c).1
step accepts flushes c = (cache_flush accepts c).1
step accepts (invalidates k) c = cache_invalidate accepts k c

-- Hits, misses and entries.
unfoldable pub cache_stats : Cache → ℕ × ℕ × ℕ
cache_stats c = (c.hits, c.misses, c.num_entries)
