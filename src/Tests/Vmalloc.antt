-- ===== src/Tests/Vmalloc.antt =====
-- mm/vmalloc.c with one region.
use scepter.Mm.Vmalloc.Unmap.{InRange, iounmap_none}
use scepter.Arch.{x86_64, i386}
use scepter.Mm.Vmalloc.{iounmap, Vmalloc, vmalloc_find_region, vmalloc_mark_free, ioremap}
use scepter.Base.{ℕ, ◌≡◌, refl, true, Bool, arith, [], ◌∷◌, inr}

-- A page at the start of the range.
abbrev one_page : ℕ → Vmalloc
one_page virt = record {
  used_bitmap = 1 ∷ [];
  used_pages = 1;
  regions = record { virt_addr = virt; phys_addr = 0xFD000000; num_pages = 1; in_use = true } ∷ [];
}

unmaps_on_i386 : (iounmap i386 0xF8000010 (one_page 0xF8000000)).used_pages ≡ 0
unfolding iounmap vmalloc_find_region vmalloc_mark_free
unmaps_on_i386 = refl

stays_on_x86_64 : (iounmap x86_64 0xFFFFFFFFC0000010 (one_page 0xFFFFFFFFC0000000)).used_pages ≡ 1
unfolding iounmap vmalloc_find_region
stays_on_x86_64 = refl

abbrev always : ℕ → ℕ → Bool
always virt phys = true

iounmap_none_example :
    (iounmap x86_64 0xFFFFFFFFC0000010 (one_page 0xFFFFFFFFC0000000) ≡ one_page 0xFFFFFFFFC0000000)
    × InRange (ioremap x86_64 always 0xFE000000 4096 (one_page 0xFFFFFFFFC0000000)).1.regions
iounmap_none_example =
    iounmap_none always 0xFE000000 4096 0xFFFFFFFFC0000010 (one_page 0xFFFFFFFFC0000000)
      (inr (omega arith), tt)
