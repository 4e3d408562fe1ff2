-- ===== src/Mm/Bitmap/Count.antt =====
-- How many pages are in use.
use scepter.Base.{
  ℕ, zero, suc, ◌+◌, ◌*◌, ◌≤◌, ◌<◌, ◌≡◌, List, true, false, ltb, if◌then◌else◌, length, arith,
}
use scepter.Mm.Bitmap.{bitmap_test, bitmap_set, bitmap_clear, set_range, clear_range}
use scepter.Mm.Bitmap.Bits.{
  test-bitmap_set, test-bitmap_clear, test-set_range, test-clear_range, length-set_range,
  length-clear_range,
}
use scepter.Mm.Bitmap.Find.{FreeRun}

-- The pages below `n` that are in use.
unfoldable pub count_used : List ℕ → ℕ → ℕ
count_used bm zero = 0
count_used bm (suc n) = count_used bm n + (if bitmap_test bm n then 1 else 0)

pub count_used-le : (bm : List ℕ) (n : ℕ) → count_used bm n ≤ n
unfolding count_used
count_used-le bm zero = omega arith
count_used-le bm (suc n) = ground (arith, count_used-le bm n)

-- Setting the bit of a free page below `n` adds one.
pub count-bitmap_set :
    (bm : List ℕ) (n p : ℕ)
    → p < 32 * length bm
    → bitmap_test bm p ≡ false
    → count_used (bitmap_set bm p) n ≡ count_used bm n + (if ltb p n then 1 else 0)
unfolding count_used
count-bitmap_set bm zero p h free = ground arith
count-bitmap_set bm (suc n) p h free =
    ground (arith, count-bitmap_set bm n p h free, test-bitmap_set bm p n (omega arith))

pub count-bitmap_clear :
    (bm : List ℕ) (n p : ℕ)
    → p < 32 * length bm
    → bitmap_test bm p ≡ true
    → count_used (bitmap_clear bm p) n + (if ltb p n then 1 else 0) ≡ count_used bm n
unfolding count_used
count-bitmap_clear bm zero p h used = ground arith
count-bitmap_clear bm (suc n) p h used =
    ground (arith, count-bitmap_clear bm n p h used, test-bitmap_clear bm p n (omega arith))

-- Marking a free run below `total` adds its size.
pub count-set_range :
    (bm : List ℕ) (total s n : ℕ)
    → s + n ≤ total
    → total ≤ 32 * length bm
    → FreeRun bm s n
    → count_used (set_range bm s n) total ≡ count_used bm total + n
unfolding set_range
count-set_range bm total s zero fits room free = omega arith
count-set_range bm total s (suc n) fits room free = ground (
  arith,
  count-bitmap_set (set_range bm s n) total (s + n) (omega (arith, length-set_range bm s n)),
  test-set_range bm s n (s + n) (omega arith),
  free (s + n) (omega arith) (omega arith),
  count-set_range bm total s n (omega arith) room (λ q lo hi. free q lo (omega arith)),
)

-- Freeing a run in use below `total` takes its size off.
pub count-clear_range :
    (bm : List ℕ) (total s n : ℕ)
    → s + n ≤ total
    → total ≤ 32 * length bm
    → ((q : ℕ) → s ≤ q → q < s + n → bitmap_test bm q ≡ true)
    → count_used (clear_range bm s n) total + n ≡ count_used bm total
unfolding clear_range
count-clear_range bm total s zero fits room used = omega arith
count-clear_range bm total s (suc n) fits room used = ground (
  arith,
  count-bitmap_clear (clear_range bm s n) total (s + n) (omega (arith, length-clear_range bm s n)),
  test-clear_range bm s n (s + n) (omega arith),
  used (s + n) (omega arith) (omega arith),
  count-clear_range bm total s n (omega arith) room (λ q lo hi. used q lo (omega arith)),
)
