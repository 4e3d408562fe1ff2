-- ===== src/Mm/Vmalloc/Unmap.antt =====
-- mm/vmalloc.c: the address that `iounmap` is given, on x86_64.
use scepter.Mm.Bitmap.{find_free}
use scepter.Arch.{x86_64, pointer_mod}
use scepter.Mm.Buddy.{page_size}
use scepter.Mm.Vmalloc.{
  vmalloc_find_region, iounmap, vmalloc_add_region, VmallocRegion, Vmalloc, vmalloc_start, ioremap,
  vmalloc_mark_used, vmalloc_find_free, map_pages, vmalloc_pages,
}
use scepter.Base.{
  ℕ, Bool, ◌/◌, ◌≡◌, ◌^◌, none, List, inl, ◌∷◌, refl, [], Bool-cases, ◌&&◌, ◌%◌, arith, ◌==◌, inr,
  false, ◌⊎◌, ◌*◌, ◌≤◌, ◌+◌, if◌then◌else◌, Option-cases, true≢false, not, true, ◌-◌,
}

-- Every region in use lies in the upper half of a 64-bit address space.
abbrev pub InRange : List VmallocRegion → Type 0
InRange [] = Unit {0}
InRange (r ∷ rs) = ((r.in_use ≡ false) ⊎ (vmalloc_start x86_64 ≤ r.virt_addr)) × InRange rs

InRange-add_region :
    (virt phys count : ℕ) (rs : List VmallocRegion)
    → vmalloc_start x86_64 ≤ virt
    → InRange rs
    → InRange (vmalloc_add_region virt phys count rs)
unfolding vmalloc_add_region
InRange-add_region virt phys count [] le h = tt
InRange-add_region virt phys count (r ∷ rs) le (low, h) = elim (Bool-cases r.in_use) [
  | inl used ↦
      rw (vmalloc_add_region, used) (rw used at low, InRange-add_region virt phys count rs le h)
  | inr unused ↦ rw (vmalloc_add_region, unused) (inr le, h)
]

not_found : (virt : ℕ) (rs : List VmallocRegion) → InRange rs → vmalloc_find_region virt rs ≡ none
unfolding vmalloc_find_region
not_found virt [] h = refl
not_found virt (r ∷ rs) (low, h) =
    let miss : (r.in_use && r.virt_addr == virt / page_size * page_size % 2 ^ 32) ≡ false =
      ground arith in
    rw (vmalloc_find_region, miss) (not_found virt rs h)

find_free-above :
    (count : ℕ) (s : Vmalloc)
    → (vmalloc_find_free x86_64 count s == 0) ≡ false
    → vmalloc_start x86_64 ≤ vmalloc_find_free x86_64 count s
unfolding vmalloc_find_free
find_free-above count s h =
    elim (Option-cases (find_free s.used_bitmap (vmalloc_pages x86_64) count)) [
      | inl full ↦ absurd (true≢false (rw (vmalloc_find_free, full) at h))
      | inr (page, found) ↦ rw (vmalloc_find_free, found) (omega arith)
    ]

-- What a mapping leaves, from the tests that it made.
mapped-InRange :
    (a b c : Bool) (virt phys count back : ℕ) (s : Vmalloc)
    → (b ≡ false → vmalloc_start x86_64 ≤ virt)
    → InRange s.regions
    → let r : ℕ × Vmalloc =
        (if a then (0, s) else if b then (0, s) else if c then (0, s) else (
          back,
          record (vmalloc_mark_used x86_64 virt count s) {
            regions =
                vmalloc_add_region virt phys count (vmalloc_mark_used x86_64 virt count s).regions;
          },
        )) in
      InRange r.1.regions
unfolding vmalloc_mark_used
mapped-InRange true b c virt phys count back s above h = h
mapped-InRange false true c virt phys count back s above h = h
mapped-InRange false false true virt phys count back s above h = h
mapped-InRange false false false virt phys count back s above h =
    InRange-add_region virt phys count s.regions (above refl) h

-- While every region in use lies in the range for device memory of x86_64, `iounmap` changes
-- nothing for any address, and `ioremap` keeps every region in that range.
pub iounmap_none :
    (maps : ℕ → ℕ → Bool) (phys size virt : ℕ) (s : Vmalloc)
    → InRange s.regions
    → (iounmap x86_64 virt s ≡ s) × InRange (ioremap x86_64 maps phys size s).1.regions
unfolding iounmap ioremap
iounmap_none maps phys size virt s h = (unmapped, remapped)
  where
    remapped : InRange (ioremap x86_64 maps phys size s).1.regions
    remapped =
        let count =
          (size + phys % page_size + page_size - 1) % pointer_mod x86_64 / page_size % 2 ^ 32 in
        let virt = vmalloc_find_free x86_64 count s in
        mapped-InRange (size == 0) (virt == 0)
          (not (map_pages x86_64 maps virt (phys / page_size * page_size) 0 count)) virt
          (phys / page_size * page_size) count (virt + phys % page_size) s (find_free-above count s)
          h

    unmapped : iounmap x86_64 virt s ≡ s
    unmapped = elim (Bool-cases (virt == 0)) [
      | inl nil ↦ rw (iounmap, nil) refl
      | inr real ↦ rw (iounmap, real, not_found (virt / page_size * page_size) s.regions h) refl
    ]
