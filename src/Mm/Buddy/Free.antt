-- ===== src/Mm/Buddy/Free.antt =====
-- mm/buddy.c: `page_free` and the addresses of pages.
use scepter.Mm.Buddy.Alloc.{page_alloc-first_fit, Takes}
use scepter.Mm.Bitmap.Bits.{test-bitmap_clear, length-bitmap_clear}
use scepter.Mm.Bitmap.Count.{count-bitmap_clear}
use scepter.Mm.Bitmap.Find.{FreeRun}
use scepter.Mm.Buddy.Invariant.{IsValid}
use scepter.Mm.Bitmap.{bitmap_test, bitmap_clear}
use scepter.Arch.{Arch, kernel_vma, pointer_mod, null, i386, x86_64}
use scepter.Mm.Buddy.{
  page_address, Allocator, free_phys, page_free, page_index, page_size, max_pages, page_alloc_flags,
  pages_for, take_block,
}
use scepter.Base.{
  ℕ, ◌<◌, ◌≡◌, ◌+◌, ◌*◌, true, ◌⊎◌, ◌≤◌, if◌then◌else◌, ◌≢◌, ◌==◌, false, arith, not, ◌%◌, ◌^◌, leb,
  length, Bool-cases, inl, inr, refl, ltb,
}

-- Where the pages lie: above address 0, and below the limit of the direct map, where physical
-- and virtual addresses do not wrap or overlap.
pub record IsPlaced (arch : Arch) (a : Allocator) : Type 0 where
  pub above_zero : 0 < a.base_phys
  pub no_wrap : a.base_phys + a.total_pages * page_size + kernel_vma arch ≤ pointer_mod arch
  pub below_vma : a.base_phys + a.total_pages * page_size ≤ kernel_vma arch

-- `b` is `a` with page `p`, which was in use, freed.
pub record Frees (a b : Allocator) (p : ℕ) : Type 0 where
  pub was_used : bitmap_test a.bitmap p ≡ true
  pub inside : p < a.total_pages
  pub same_base : b.base_phys ≡ a.base_phys
  pub same_total : b.total_pages ≡ a.total_pages
  pub more : b.free_pages ≡ a.free_pages + 1
  pub pages : (q : ℕ) → bitmap_test b.bitmap q ≡ (if p == q then false else bitmap_test a.bitmap q)

-- Clearing the bit of a page in use frees it, and keeps the invariant.
free_one-Frees :
    {a : Allocator} (p : ℕ)
    → IsValid a
    → p < a.total_pages
    → bitmap_test a.bitmap p ≡ true
    → let b = record a {
      free_pages = (a.free_pages + 1) % 2 ^ 32;
      bitmap = bitmap_clear a.bitmap p;
    } in
      Frees a b p × IsValid b
free_one-Frees {a} p v inside used =
    let near : p < 32 * length a.bitmap = omega (arith, v.words, v.capped) in
    let fewer = count-bitmap_clear a.bitmap a.total_pages p near used in
    let more : (a.free_pages + 1) % 2 ^ 32 ≡ a.free_pages + 1 =
      omega (arith, v.counted, v.capped) in
    (
      record {
        was_used = used;
        inside = inside;
        same_base = refl;
        same_total = refl;
        more = more;
        pages = λ q. test-bitmap_clear a.bitmap p q (omega arith);
      },
      record {
        words = omega (arith, length-bitmap_clear a.bitmap p, v.words);
        capped = v.capped;
        counted = ground (arith, v.counted, fewer, more);
      },
    )

module _ (arch : Arch) (a : Allocator) where
  -- In a valid allocator `page_free` either changes nothing, or frees exactly the page of the
  -- address, which was in use; the result is valid.
  pub page_free-Frees :
      (addr : ℕ)
      → IsValid a
      → ((page_free arch a addr ≡ a)
          ⊎ Frees a (page_free arch a addr) (page_index arch a (free_phys arch addr)))
        × IsValid (page_free arch a addr)
  unfolding page_free
  page_free-Frees addr v = elim (Bool-cases (addr == null)) [
    | inl nothing ↦ rw nothing (inl refl, v)
    | inr pointer ↦ elim (Bool-cases (ltb (free_phys arch addr) a.base_phys)) [
      | inl low ↦ rw (pointer, low) (inl refl, v)
      | inr above ↦
          elim (Bool-cases (leb a.total_pages (page_index arch a (free_phys arch addr)))) [
            | inl high ↦ rw (pointer, above, high) (inl refl, v)
            | inr below ↦ rw (pointer, above, below) (in_range below)
          ]
    ]
  ]
    where
      page : ℕ
      page = page_index arch a (free_phys arch addr)

      freed : Allocator
      freed = if not (bitmap_test a.bitmap page) then a else record a {
        free_pages = (a.free_pages + 1) % 2 ^ 32;
        bitmap = bitmap_clear a.bitmap page;
      }

      in_range : leb a.total_pages page ≡ false → ((freed ≡ a) ⊎ Frees a freed page) × IsValid freed
      in_range below = elim (Bool-cases (bitmap_test a.bitmap page)) [
        | inl used ↦
            let (frees, v') = free_one-Frees page v (ground arith) used in rw used (inr frees, v')
        | inr free ↦ rw free (inl refl, v)
      ]

-- An address that the allocator gives for page `s` leads back to page `s`.
page_address-index :
    (arch : Arch) (a : Allocator) (flags s : ℕ)
    → IsPlaced arch a
    → s < a.total_pages
    → a.total_pages ≤ max_pages
    → let addr = page_address arch a flags s in
      (addr ≢ null)
      × (a.base_phys ≤ free_phys arch addr)
      × (page_index arch a (free_phys arch addr) ≡ s)
unfolding page_address free_phys page_index
page_address-index i386 a flags s w h c = ground (arith, w.no_wrap, w.above_zero, w.below_vma)
page_address-index x86_64 a flags s w h c = ground (arith, w.no_wrap, w.above_zero, w.below_vma)

-- `page_free` on the address of a page in use clears that page.
page_free-page_address :
    (arch : Arch) (b : Allocator) (flags p : ℕ)
    → IsPlaced arch b
    → b.total_pages ≤ max_pages
    → p < b.total_pages
    → bitmap_test b.bitmap p ≡ true
    → page_free arch b (page_address arch b flags p)
      ≡ record b { free_pages = (b.free_pages + 1) % 2 ^ 32; bitmap = bitmap_clear b.bitmap p }
unfolding page_free
page_free-page_address arch b flags p w capped inside used =
    ground (arith, page_address-index arch b flags p w inside capped)

pages_for_one : (arch : Arch) (size : ℕ) → size ≢ 0 → size ≤ page_size → pages_for arch size ≡ 1
unfolding pages_for
pages_for_one i386 size ne small = omega arith
pages_for_one x86_64 size ne small = omega arith

-- Taking page `r` and freeing it by its address.
take_free :
    (arch : Arch) (a b : Allocator) (flags r : ℕ)
    → IsPlaced arch b
    → IsValid b
    → Takes a b r 1
    → let c = page_free arch b (page_address arch b flags r) in
      (page_address arch b flags r ≢ null)
      × (c.free_pages ≡ a.free_pages)
      × ((q : ℕ) → bitmap_test c.bitmap q ≡ bitmap_test a.bitmap q)
take_free arch a b flags r w v taken =
    let used : bitmap_test b.bitmap r ≡ true = ground (arith, taken.pages r) in
    let inside : r < b.total_pages = omega (arith, taken.inside, taken.same_total) in
    let (frees, _) = free_one-Frees r v inside used in
    rw (page_free-page_address arch b flags r w v.capped inside used) (
      (page_address-index arch b flags r w inside v.capped).0,
      omega (arith, frees.more, taken.fewer),
      λ q. ground (arith, frees.pages q, taken.pages q, taken.was_free q),
    )

module _ (arch : Arch) (a : Allocator) (size flags : ℕ) where
  -- In a valid allocator with a free page, whose pages lie above address 0 and below the kernel's
  -- base and whose virtual addresses do not wrap, a request of 1 to 4096 bytes succeeds, and
  -- freeing its page restores the state of every page and the count of free pages.
  pub page_free-page_alloc :
      (s : ℕ)
      → IsValid a
      → IsPlaced arch a
      → size ≢ 0
      → size ≤ page_size
      → FreeRun a.bitmap s 1
      → s < a.total_pages
      → let r = page_alloc_flags arch a size flags in
        let b = page_free arch r.1 r.0 in
        (r.0 ≢ null)
        × (b.free_pages ≡ a.free_pages)
        × ((q : ℕ) → bitmap_test b.bitmap q ≡ bitmap_test a.bitmap q)
  unfolding take_block page_address
  page_free-page_alloc s v w ne small run inside =
      let one = pages_for_one arch size ne small in
      let (r, first, e, taken, v') =
        page_alloc-first_fit arch a size flags s v ne (omega arith) (rw one run) (omega arith) in
      rw (e, one)
        (let t : Takes a (take_block a r 1) r 1 = rw (← one) taken in
          let u : IsValid (take_block a r 1) = rw (← one) v' in
          take_free arch a (take_block a r 1) flags r (block_placed r) u t)
    where
      block_placed : (r : ℕ) → IsPlaced arch (take_block a r 1)
      block_placed r = record {
        above_zero = w.above_zero;
        no_wrap = w.no_wrap;
        below_vma = w.below_vma;
      }
