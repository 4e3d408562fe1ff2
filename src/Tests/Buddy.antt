-- ===== src/Tests/Buddy.antt =====
-- mm/buddy.c at a small pool.
use scepter.Mm.Bitmap.Find.{FreeRun}
use scepter.Mm.Bitmap.{find_free, bitmap_test, set_range, bitmap_set, bitmap_clear}
use scepter.Arch.{i386, x86_64, null}
use scepter.Base.{ℕ, ◌≡◌, ◌≢◌, refl, arith, ◌∷◌, [], ◌⊎◌, ◌≤◌, ◌*◌, ◌<◌, ◌+◌, ◌^◌}
use scepter.Mm.Buddy.{
  Allocator, buddy_init, page_alloc_flags, page_free, pages_for, page_address, take_block, mem_map,
  mem_phy, page_size, free_phys, page_index,
}
use scepter.Mm.Buddy.Invariant.{IsValid, buddy_init-IsValid, test-zero_bitmap}
use scepter.Mm.Buddy.Alloc.{
  Outcome, Takes, page_alloc-Outcome, page_alloc-first_fit, pages_for-covers,
}
use scepter.Mm.Buddy.Free.{IsPlaced, Frees, page_free-Frees, page_free-page_alloc}

-- 100 pages from 1 MB on.
abbrev pool : Allocator
pool = buddy_init 0x100000 400

pool-IsValid : IsValid pool
pool-IsValid = (buddy_init-IsValid 0x100000 400).0

pool_pages : pool.total_pages ≡ 100
unfolding buddy_init
pool_pages = refl

-- 4 GB count as nothing, since the size in bytes is a uint32_t.
four_gigabytes : (buddy_init 0x100000 0x400000).total_pages ≡ 0
unfolding buddy_init
four_gigabytes = refl

abbrev small : Allocator
small = record { base_phys = 0x100000; total_pages = 64; free_pages = 62; bitmap = 5 ∷ 0 ∷ [] }

-- Pages 0 and 2 are in use, so two pages are found at page 3.
takes_two :
    page_alloc_flags i386 small 5000 mem_map
    ≡ (0xC0103000, record small { free_pages = 60; bitmap = 29 ∷ 0 ∷ [] })
unfolding page_alloc_flags pages_for find_free page_address take_block set_range bitmap_set
    bitmap_test
takes_two = refl

frees_one : page_free i386 small 0xC0102000 ≡ record small { free_pages = 63; bitmap = 1 ∷ 0 ∷ [] }
unfolding page_free free_phys page_index bitmap_test bitmap_clear
frees_one = refl

page_alloc-Outcome_example :
    Outcome i386 pool 5000 mem_map (page_alloc_flags i386 pool 5000 mem_map)
page_alloc-Outcome_example = page_alloc-Outcome i386 pool 5000 mem_map pool-IsValid

pool-FreeRun : (n : ℕ) → FreeRun pool.bitmap 0 n
unfolding buddy_init
pool-FreeRun n q lo hi = test-zero_bitmap q

page_alloc-first_fit_example :
    (r : ℕ) × (r ≤ 0)
    × (page_alloc_flags i386 pool 5000 mem_map
        ≡ (page_address i386 pool mem_map r, take_block pool r (pages_for i386 5000)))
    × Takes pool (take_block pool r (pages_for i386 5000)) r (pages_for i386 5000)
    × IsValid (take_block pool r (pages_for i386 5000))
unfolding buddy_init pages_for
page_alloc-first_fit_example =
    page_alloc-first_fit i386 pool 5000 mem_map 0 pool-IsValid (omega arith) (omega arith)
      (pool-FreeRun (pages_for i386 5000)) (omega arith)

page_free-Frees_example :
    ((page_free x86_64 pool 0x100000 ≡ pool)
      ⊎ Frees pool
          (page_free x86_64 pool 0x100000)
          (page_index x86_64 pool (free_phys x86_64 0x100000)))
    × IsValid (page_free x86_64 pool 0x100000)
page_free-Frees_example = page_free-Frees x86_64 pool 0x100000 pool-IsValid

pool-IsPlaced : IsPlaced x86_64 pool
unfolding buddy_init
pool-IsPlaced = omega arith

page_free-page_alloc_example :
    let r = page_alloc_flags x86_64 pool 512 mem_phy in
    let b = page_free x86_64 r.1 r.0 in
    (r.0 ≢ null)
    × (b.free_pages ≡ pool.free_pages)
    × ((q : ℕ) → bitmap_test b.bitmap q ≡ bitmap_test pool.bitmap q)
unfolding buddy_init
page_free-page_alloc_example =
    page_free-page_alloc x86_64 pool 512 mem_phy 0 pool-IsValid pool-IsPlaced (omega arith)
      (omega arith) (pool-FreeRun 1) (omega arith)

pages_for-covers_example :
    (5000 ≤ pages_for i386 5000 * page_size) × (pages_for i386 5000 * page_size < 5000 + page_size)
pages_for-covers_example = pages_for-covers i386 5000 (omega arith)

-- 16 TiB need no page.
cut_count : pages_for x86_64 (2 ^ 44) ≡ 0
unfolding pages_for
cut_count = refl
