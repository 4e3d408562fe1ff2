-- ===== src/Mm/Bitmap.antt =====
-- The page bitmaps of mm/buddy.c and mm/vmalloc.c: arrays of uint32_t, one bit a page.
pub mod Bits
pub mod Find
pub mod Count
use scepter.Base.{
  ℕ, zero, suc, ◌+◌, ◌/◌, ◌%◌, List, Bool, true, false, Option, none, some, ◌==◌, if◌then◌else◌,
  get_or, set,
}
use scepter.Base.Bits.{test_bit, set_bit, clear_bit}

-- A read out of range gives 0; every access of the two files is in range.
unfoldable pub bitmap_test : List ℕ → ℕ → Bool
bitmap_test bm p = test_bit (get_or bm (p / 32) 0) (p % 32)

unfoldable pub bitmap_set : List ℕ → ℕ → List ℕ
bitmap_set bm p = set bm (p / 32) (set_bit (get_or bm (p / 32) 0) (p % 32))

unfoldable pub bitmap_clear : List ℕ → ℕ → List ℕ
bitmap_clear bm p = set bm (p / 32) (clear_bit (get_or bm (p / 32) 0) (p % 32))

-- `for (i = 0; i < n; i++) bitmap_set(start + i)`, from its last round to its first.
unfoldable pub set_range : List ℕ → ℕ → ℕ → List ℕ
set_range bm start zero = bm
set_range bm start (suc n) = bitmap_set (set_range bm start n) (start + n)

unfoldable pub clear_range : List ℕ → ℕ → ℕ → List ℕ
clear_range bm start zero = bm
clear_range bm start (suc n) = bitmap_clear (clear_range bm start n) (start + n)

-- The scan for `count` consecutive free pages: `left` rounds remain from page `i` on, and the
-- last `consecutive` pages were free, from `start` on.
unfoldable pub find_loop : List ℕ → (count left i consecutive start : ℕ) → Option ℕ
find_loop bm count zero i consecutive start = none
find_loop bm count (suc left) i consecutive start = elim (bitmap_test bm i) [
  | true ↦ find_loop bm count left (i + 1) 0 start
  | false ↦
      let start' = if consecutive == 0 then i else start in
      let rest = find_loop bm count left (i + 1) (consecutive + 1) start' in
      if consecutive + 1 == count then some start' else rest
]

-- `total` pages from page 0 on; `none` is the -1 (or the 0) of the source.
unfoldable pub find_free : List ℕ → (total count : ℕ) → Option ℕ
unfolding find_loop
find_free bm total count = find_loop bm count total 0 0 0
