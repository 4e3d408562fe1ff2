-- ===== src/Tests/Vma.antt =====
-- mm/vma.c at a small address space.
use scepter.Mm.Vma.Insert.{InOrder, vma_insert-InOrder}
use scepter.Mm.Vma.{
  vma_find_free_region, Vma, search_region, vma_overlaps, vma_insert, overlaps_one,
}
use scepter.Base.{◌≡◌, refl, ◌∷◌, [], List, ◌||◌}

abbrev mapped : List Vma
mapped = record { vm_start = 0x40000000; vm_end = 0x40002000; vm_flags = 3; vm_type = 4 } ∷ []

skips_mapped : vma_find_free_region 0x40000000 0xBF000000 mapped 5000 0 ≡ 0x40002000
unfolding vma_find_free_region search_region vma_overlaps
skips_mapped = refl

-- A length just below 4 GB wraps around, and a region is found although none can be free.
wraps_around : vma_find_free_region 0x40000000 0xBF000000 mapped 0xFFFF0000 0 ≡ 0x40000000
unfolding vma_find_free_region search_region vma_overlaps
wraps_around = refl

abbrev lower : Vma
lower = record { vm_start = 0x08048000; vm_end = 0x08050000; vm_flags = 5; vm_type = 1 }

vma_insert-InOrder_example :
    InOrder (vma_insert lower mapped)
    × (vma_overlaps 0x08049000 0x0804A000 (vma_insert lower mapped)
        ≡ (overlaps_one 0x08049000 0x0804A000 lower || vma_overlaps 0x08049000 0x0804A000 mapped))
vma_insert-InOrder_example = vma_insert-InOrder lower mapped 0x08049000 0x0804A000 (tt, tt)

-- With a hint near the end of the area the search does not go back to its base.
late_hint : vma_find_free_region 0x40000000 0xBF000000 [] 0x2000 0xBEFFF000 ≡ 0
unfolding vma_find_free_region search_region vma_overlaps
late_hint = refl
