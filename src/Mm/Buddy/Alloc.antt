-- ===== src/Mm/Buddy/Alloc.antt =====
-- mm/buddy.c: `page_alloc_flags`, and the pages of a request.
use scepter.Mm.Bitmap.Count.{count-set_range, count_used-le}
use scepter.Arch.{Arch, i386, x86_64, null}
use scepter.Mm.Buddy.Invariant.{IsValid}
use scepter.Base.{
  ◌^◌, ℕ, ◌+◌, ◌≤◌, ◌≡◌, ◌⊎◌, true, if◌then◌else◌, Bool-cases, ◌≢◌, ltb, arith, false, ◌<◌,
  ==_of_ne, ◌*◌, ◌==◌, refl, inl, inr, Option-cases,
}
use scepter.Mm.Bitmap.{bitmap_test, set_range, find_free}
use scepter.Mm.Bitmap.Bits.{within, test-set_range, length-set_range}
use scepter.Mm.Bitmap.Find.{FreeRun, find_free-first, find_free_sound}
use scepter.Mm.Buddy.{Allocator, pages_for, page_address, take_block, page_size, page_alloc_flags}

-- `b` is `a` with the free pages `[s, s + n)` taken.
pub record Takes (a b : Allocator) (s n : ℕ) : Type 0 where
  pub was_free : FreeRun a.bitmap s n
  pub inside : s + n ≤ a.total_pages
  pub same_base : b.base_phys ≡ a.base_phys
  pub same_total : b.total_pages ≡ a.total_pages
  pub fewer : b.free_pages + n ≡ a.free_pages
  pub pages :
      (q : ℕ) → bitmap_test b.bitmap q ≡ (if within s n q then true else bitmap_test a.bitmap q)

-- Marking a free block takes it, and keeps the invariant.
take_block-Takes :
    {a : Allocator} (s n : ℕ)
    → IsValid a
    → FreeRun a.bitmap s n
    → s + n ≤ a.total_pages
    → n ≤ a.free_pages
    → Takes a (take_block a s n) s n × IsValid (take_block a s n)
unfolding take_block
take_block-Takes {a} s n v free inside room = (
  record {
    was_free = free;
    inside = inside;
    same_base = refl;
    same_total = refl;
    fewer = omega arith;
    pages = λ q. test-set_range a.bitmap s n q (omega (arith, v.words, v.capped));
  },
  record {
    words = omega (arith, length-set_range a.bitmap s n, v.words);
    capped = v.capped;
    counted = omega (
      arith,
      v.counted,
      count-set_range a.bitmap a.total_pages s n inside (omega (arith, v.words, v.capped)) free,
    );
  },
)

-- A free run is no longer than the count of free pages.
FreeRun-le :
    {a : Allocator} (s : ℕ) {n : ℕ}
    → IsValid a
    → FreeRun a.bitmap s n
    → s + n ≤ a.total_pages
    → n ≤ a.free_pages
FreeRun-le {a} s {n} v free inside = omega (
  arith,
  v.words,
  v.capped,
  v.counted,
  count-set_range a.bitmap a.total_pages s n inside (omega (arith, v.words, v.capped)) free,
  count_used-le (set_range a.bitmap s n) a.total_pages,
)

leb→not-ltb : (m n : ℕ) → n ≤ m → ltb m n ≡ false
leb→not-ltb m n h = ground arith

module _ (arch : Arch) (a : Allocator) (size flags : ℕ) where
  -- The two outcomes of a call: nothing changes and NULL is returned, or a block is taken and
  -- its address is returned.
  abbrev pub Outcome : ℕ × Allocator → Type 0
  Outcome r =
      ((r.0 ≡ null) × (r.1 ≡ a))
      ⊎ ((s : ℕ) × (r.0 ≡ page_address arch a flags s)
          × Takes a r.1 s (pages_for arch size)
          × IsValid r.1)

  -- In a valid allocator `page_alloc_flags` either returns NULL and changes nothing, or returns
  -- the address of a block of the pages that `size` needs, all of which were free and are now in
  -- use, while no other page changes; the counters follow and the result is valid.
  pub page_alloc-Outcome : IsValid a → Outcome (page_alloc_flags arch a size flags)
  unfolding page_alloc_flags
  page_alloc-Outcome v = elim (Bool-cases (size == 0)) [
    | inl nothing ↦ rw nothing (inl (refl, refl))
    | inr some_size ↦ elim (Bool-cases (ltb a.free_pages (pages_for arch size))) [
      | inl short ↦ rw (some_size, short) (inl (refl, refl))
      | inr room ↦ elim (Option-cases (find_free a.bitmap a.total_pages (pages_for arch size))) [
        | inl full ↦ rw (some_size, room, full, page_alloc_flags) (inl (refl, refl))
        | inr (s, found) ↦
            let (free, inside) = find_free_sound a.bitmap a.total_pages _ found in
            let (taken, v') =
              take_block-Takes s (pages_for arch size) v free inside (ground arith) in
            rw (some_size, room, found, page_alloc_flags) (inr (s, refl, taken, v'))
      ]
    ]
  ]

  -- Whenever the pages that a request needs are free in a row, `page_alloc_flags` succeeds, with
  -- the address of a run that begins no later (first fit), which it takes; the result is valid.
  pub page_alloc-first_fit :
      (s : ℕ)
      → IsValid a
      → size ≢ 0
      → 0 < pages_for arch size
      → FreeRun a.bitmap s (pages_for arch size)
      → s + pages_for arch size ≤ a.total_pages
      → (r : ℕ) × (r ≤ s)
        × (page_alloc_flags arch a size flags
            ≡ (page_address arch a flags r, take_block a r (pages_for arch size)))
        × Takes a (take_block a r (pages_for arch size)) r (pages_for arch size)
        × IsValid (take_block a r (pages_for arch size))
  unfolding page_alloc_flags
  page_alloc-first_fit s v ne pos run fits =
      let (r, found, first) = find_free-first a.bitmap a.total_pages _ s pos run fits in
      let room = FreeRun-le s v run fits in
      let (free, inside) = find_free_sound a.bitmap a.total_pages _ found in
      let (taken, v') = take_block-Takes r (pages_for arch size) v free inside room in
      (r, first, rw (==_of_ne size 0 ne, leb→not-ltb _ _ room, found, page_alloc_flags), taken, v')

-- The sizes below which the page count of an architecture is exact: its sum must not wrap, and
-- the count must fit in 32 bits.
abbrev pub count_limit : Arch → ℕ
count_limit i386 = 2 ^ 32
count_limit x86_64 = 2 ^ 44

-- For sizes up to 4 GiB less a page on i386, and up to 16 TiB less a page on x86_64, the pages
-- that a request needs cover it, and no page of them is superfluous.
pub pages_for-covers :
    (arch : Arch) (size : ℕ)
    → size + page_size ≤ count_limit arch
    → (size ≤ pages_for arch size * page_size)
      × (pages_for arch size * page_size < size + page_size)
unfolding pages_for
pages_for-covers i386 size h = omega arith
pages_for-covers x86_64 size h = omega arith
