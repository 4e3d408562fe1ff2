-- ===== src/Mm/Buddy.antt =====
-- mm/buddy.c: the page allocator, a bitmap with one bit for each page.
pub mod Invariant
pub mod Alloc
pub mod Free
use Prim.Native.Nat.{bit_and}
use scepter.Arch.{Arch, pointer_mod, kernel_vma, phys_to_virt, virt_to_phys, null}
use scepter.Base.{
  ℕ, ◌+◌, ◌-◌, ◌*◌, ◌/◌, ◌%◌, ◌^◌, List, Bool, not, none, some, ◌==◌, ◌!=◌, ltb, leb, if◌then◌else◌,
  replicate,
}
use scepter.Mm.Bitmap.{bitmap_test, bitmap_clear, set_range, find_free}

abbrev pub page_size : ℕ
page_size = 4096

abbrev pub max_pages : ℕ
max_pages = 262144

-- `page_allocator_t`.
pub record Allocator : Type 0 where
  pub base_phys : ℕ
  pub total_pages : ℕ
  pub free_pages : ℕ
  pub bitmap : List ℕ

-- The loop that clears all `MAX_PAGES / 32` words.
pub zero_bitmap : List ℕ
zero_bitmap = replicate (max_pages / 32) 0

-- `total_kb * 1024` is computed in 32 bits.
unfoldable pub buddy_init : ℕ → ℕ → Allocator
buddy_init base_phys total_kb =
    let total_bytes = total_kb * 1024 % 2 ^ 32 in
    let requested = total_bytes / page_size in
    let total = if ltb max_pages requested then max_pages else requested in
    record { base_phys = base_phys; total_pages = total; free_pages = total; bitmap = zero_bitmap }

-- MEM_PHY and MEM_MAP.
abbrev pub mem_phy : ℕ
mem_phy = 1

abbrev pub mem_map : ℕ
mem_map = 2

-- `(size + PAGE_SIZE - 1) >> PAGE_SHIFT`: a size_t sum, cut to a uint32_t.
unfoldable pub pages_for : Arch → ℕ → ℕ
pages_for arch size = (size + page_size - 1) % pointer_mod arch / page_size % 2 ^ 32

-- The block of `n` pages from page `start` on.
unfoldable pub take_block : Allocator → (start n : ℕ) → Allocator
take_block a start n = record a {
  free_pages = a.free_pages - n;
  bitmap = set_range a.bitmap start n;
}

-- The address that is returned for page `start`.
unfoldable pub page_address : Arch → Allocator → ℕ → ℕ → ℕ
page_address arch a flags start =
    let phys = (a.base_phys + start * page_size) % pointer_mod arch in
    if bit_and flags mem_phy != 0 then phys else phys_to_virt arch phys

unfoldable pub page_alloc_flags : Arch → Allocator → (size flags : ℕ) → ℕ × Allocator
page_alloc_flags arch a size flags =
    let needed = pages_for arch size in
    if size == 0
    then (null, a)
    else if ltb a.free_pages needed
    then (null, a)
    else elim (find_free a.bitmap a.total_pages needed) [
      | none ↦ (null, a)
      | some start ↦ (page_address arch a flags start, take_block a start needed)
    ]

-- `page_alloc` of include/mm/buddy.h.
abbrev pub page_alloc : Arch → Allocator → ℕ → ℕ × Allocator
page_alloc arch a size = page_alloc_flags arch a size mem_map

-- The page of an address; the offset is cut to 32 bits.
unfoldable pub page_index : Arch → Allocator → ℕ → ℕ
page_index arch a phys = (phys - a.base_phys) % 2 ^ 32 / page_size

unfoldable pub free_phys : Arch → ℕ → ℕ
free_phys arch addr = if leb (kernel_vma arch) addr then virt_to_phys arch addr else addr

-- The messages on a bad address and on a double free are not modelled.
unfoldable pub page_free : Arch → Allocator → ℕ → Allocator
page_free arch a addr =
    let phys = free_phys arch addr in
    let page = page_index arch a phys in
    if addr == null
    then a
    else if ltb phys a.base_phys
    then a
    else if leb a.total_pages page
    then a
    else if not (bitmap_test a.bitmap page)
    then a
    else record a { free_pages = (a.free_pages + 1) % 2 ^ 32; bitmap = bitmap_clear a.bitmap page }

unfoldable pub buddy_total_pages : Allocator → ℕ
buddy_total_pages a = a.total_pages

unfoldable pub buddy_free_pages : Allocator → ℕ
buddy_free_pages a = a.free_pages

unfoldable pub buddy_used_pages : Allocator → ℕ
buddy_used_pages a = (a.total_pages + 2 ^ 32 - a.free_pages) % 2 ^ 32
