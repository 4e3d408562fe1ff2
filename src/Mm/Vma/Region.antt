-- ===== src/Mm/Vma/Region.antt =====
-- mm/vma.c: the search of `vma_find_free_region`, in steps of a page.
use scepter.Mm.Buddy.{page_size}
use scepter.Mm.Vma.{Vma, word, vma_overlaps}
use scepter.Base.{
  ℕ, leb, ◌*◌, false, ◌⊎◌, List, ◌≤◌, true, ◌+◌, ◌≡◌, ◌<◌, ◌||◌, ◌/◌, if◌then◌else◌, ◌!=◌, Bool,
  ◌∷◌, ltb, ◌&&◌, [],
}

module _ (len stop : ℕ) (vs : List Vma) (no_wrap : stop + page_size + len < word) where
  -- What the search comes to, from `c` on.
  abbrev pub Search : (fuel c r : ℕ) → Type 0
  Search fuel c r =
      ((r ≡ 0)
        × ((n : ℕ)
            → n < fuel
            → c + n * page_size + len ≤ stop
            → vma_overlaps (c + n * page_size) (c + n * page_size + len) vs ≡ true))
      ⊎ ((vma_overlaps r (r + len) vs ≡ false) × (c ≤ r) × (r + len ≤ stop))

-- The first candidate: the hint, rounded up to a page, where it lies in the mmap area, and else
-- the base of the area.
abbrev pub first_candidate : (base stop hint : ℕ) → ℕ
first_candidate base stop hint =
    if hint != 0 && leb base hint && ltb hint stop then (hint + 4095) / 4096 * 4096 else base

-- The address `b` lies in one of the regions.
abbrev pub in_region : ℕ → List Vma → Bool
in_region b [] = false
in_region b (v ∷ vs) = (leb v.vm_start b && ltb b v.vm_end) || in_region b vs

-- What a call must find: no region at all, or one that is free.
abbrev pub Found : (base hint len stop : ℕ) → List Vma → ℕ → Type 0
Found base hint len stop vs r =
    ((r ≡ 0)
      × ((n : ℕ)
          → first_candidate base stop hint + n * page_size + len ≤ stop
          → vma_overlaps (first_candidate base stop hint + n * page_size)
              (first_candidate base stop hint + n * page_size + len) vs
            ≡ true))
    ⊎ (((b : ℕ) → r ≤ b → b < r + len → in_region b vs ≡ false)
        × (base ≤ r)
        × (first_candidate base stop hint ≤ r)
        × (r + len ≤ stop))
