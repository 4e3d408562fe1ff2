-- ===== src/Mm/Buddy/Invariant.antt =====
-- mm/buddy.c: the counters and the bitmap of the page allocator.
use scepter.Mm.Bitmap.{bitmap_test}
use scepter.Base.{
  false, ℕ, zero, suc, ◌+◌, ◌*◌, ◌/◌, ◌%◌, ◌^◌, ◌≤◌, ◌≡◌, refl, length, replicate, arith,
  length-replicate, min,
}
use scepter.Mm.Bitmap.Bits.{test-replicate}
use scepter.Mm.Bitmap.Count.{count_used}
use scepter.Mm.Buddy.{
  Allocator, zero_bitmap, max_pages, buddy_init, buddy_used_pages, buddy_free_pages,
}

pub record IsValid (a : Allocator) : Type 0 where
  pub words : 32 * length a.bitmap ≡ max_pages
  pub capped : a.total_pages ≤ max_pages
  pub counted : a.free_pages + count_used a.bitmap a.total_pages ≡ a.total_pages

count-replicate : (k n : ℕ) → count_used (replicate k 0) n ≡ 0
unfolding count_used
count-replicate k zero = refl
count-replicate k (suc n) = ground (arith, test-replicate k n, count-replicate k n)

pub length-zero_bitmap : length zero_bitmap ≡ max_pages / 32
unfolding zero_bitmap
length-zero_bitmap = length-replicate {A = ℕ} (max_pages / 32) 0

pub count-zero_bitmap : (n : ℕ) → count_used zero_bitmap n ≡ 0
unfolding zero_bitmap
count-zero_bitmap n = count-replicate (max_pages / 32) n

pub test-zero_bitmap : (p : ℕ) → bitmap_test zero_bitmap p ≡ false
unfolding zero_bitmap
test-zero_bitmap p = test-replicate (max_pages / 32) p

-- `buddy_init` sets up a valid allocator with no page in use, of `kb / 4` pages at most
-- `MAX_PAGES`; the size in KB counts modulo 2^22, since the size in bytes is a uint32_t.
pub buddy_init-IsValid :
    (base kb : ℕ)
    → IsValid (buddy_init base kb)
      × (buddy_used_pages (buddy_init base kb) ≡ 0)
      × (buddy_free_pages (buddy_init base kb) ≡ min (kb % 2 ^ 22 / 4) max_pages)
unfolding buddy_init buddy_used_pages buddy_free_pages
buddy_init-IsValid base kb =
    let a = buddy_init base kb in
    (
      record {
        words = omega (arith, length-zero_bitmap);
        capped = ground arith;
        counted = omega (arith, count-zero_bitmap a.total_pages);
      },
      ground arith,
      ground arith,
    )
