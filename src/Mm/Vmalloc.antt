-- ===== src/Mm/Vmalloc.antt =====
-- mm/vmalloc.c: the virtual range for device memory. The page tables have no part in the model:
-- `maps virt phys` says that `map_page` succeeds.
pub mod Unmap
use scepter.Mm.Buddy.{page_size}
use scepter.Mm.Bitmap.{find_free, clear_range, set_range}
use scepter.Arch.{Arch, i386, x86_64, pointer_mod}
use scepter.Base.{
  ℕ, Bool, ◌∷◌, List, suc, ◌&&◌, replicate, Option, ◌/◌, not, true, [], ◌^◌, some, ◌==◌, ◌-◌, none,
  zero, ◌%◌, false, if◌then◌else◌, ◌*◌, ◌+◌,
}

-- VMALLOC_START and VMALLOC_END.
abbrev pub vmalloc_start : Arch → ℕ
vmalloc_start i386 = 0xF8000000
vmalloc_start x86_64 = 0xFFFFFFFFC0000000

abbrev pub vmalloc_end : Arch → ℕ
vmalloc_end i386 = 0xFFBFFFFF
vmalloc_end x86_64 = 0xFFFFFFFFFFFFFFFF

abbrev pub vmalloc_pages : Arch → ℕ
vmalloc_pages arch = (vmalloc_end arch - vmalloc_start arch + 1) / page_size

pub record VmallocRegion : Type 0 where
  pub virt_addr : ℕ
  pub phys_addr : ℕ
  pub num_pages : ℕ
  pub in_use : Bool

pub record Vmalloc : Type 0 where
  pub used_bitmap : List ℕ
  pub used_pages : ℕ
  pub regions : List VmallocRegion

abbrev pub max_vmalloc_regions : ℕ
max_vmalloc_regions = 64

abbrev pub unused_region : VmallocRegion
unused_region = record { virt_addr = 0; phys_addr = 0; num_pages = 0; in_use = false }

unfoldable pub vmalloc_init : Arch → Vmalloc
vmalloc_init arch = record {
  used_bitmap = replicate (vmalloc_pages arch / 32) 0;
  used_pages = 0;
  regions = replicate max_vmalloc_regions unused_region;
}

-- The loop is that of `find_free_pages`, over all pages of the range; 0 is none.
unfoldable pub vmalloc_find_free : Arch → ℕ → Vmalloc → ℕ
vmalloc_find_free arch count s = elim (find_free s.used_bitmap (vmalloc_pages arch) count) [
  | none ↦ 0
  | some page ↦ vmalloc_start arch + page * page_size
]

-- The page of an address in the range.
abbrev pub range_page : Arch → ℕ → ℕ
range_page arch virt = (virt - vmalloc_start arch) / page_size % 2 ^ 32

unfoldable pub vmalloc_mark_used : Arch → (virt count : ℕ) → Vmalloc → Vmalloc
vmalloc_mark_used arch virt count s = record s {
  used_bitmap = set_range s.used_bitmap (range_page arch virt) count;
  used_pages = (s.used_pages + count) % 2 ^ 32;
}

unfoldable pub vmalloc_mark_free : Arch → (virt count : ℕ) → Vmalloc → Vmalloc
vmalloc_mark_free arch virt count s = record s {
  used_bitmap = clear_range s.used_bitmap (range_page arch virt) count;
  used_pages = (s.used_pages + 2 ^ 32 - count) % 2 ^ 32;
}

-- The first slot that is not in use; a full table stays as it is.
unfoldable pub vmalloc_add_region : (virt phys count : ℕ) → List VmallocRegion → List VmallocRegion
vmalloc_add_region virt phys count [] = []
vmalloc_add_region virt phys count (r ∷ rs) =
    if not r.in_use
    then record { virt_addr = virt; phys_addr = phys; num_pages = count; in_use = true } ∷ rs
    else r ∷ vmalloc_add_region virt phys count rs

-- The address is cut to a uint32_t.
unfoldable pub vmalloc_find_region : (virt : ℕ) → List VmallocRegion → Option VmallocRegion
vmalloc_find_region virt [] = none
vmalloc_find_region virt (r ∷ rs) =
    if r.in_use && r.virt_addr == virt / page_size * page_size % 2 ^ 32
    then some r
    else vmalloc_find_region virt rs

-- `region->in_use = 0` for the region that was found.
unfoldable pub vmalloc_remove_region : (virt : ℕ) → List VmallocRegion → List VmallocRegion
vmalloc_remove_region virt [] = []
vmalloc_remove_region virt (r ∷ rs) =
    if r.in_use && r.virt_addr == virt / page_size * page_size % 2 ^ 32
    then record r { in_use = false } ∷ rs
    else r ∷ vmalloc_remove_region virt rs

-- The loop that maps the pages, from page `i` on; a failure unmaps what was mapped.
unfoldable pub map_pages : Arch → (maps : ℕ → ℕ → Bool) → (virt phys i left : ℕ) → Bool
map_pages arch maps virt phys i zero = true
map_pages arch maps virt phys i (suc left) =
    maps ((virt + i * page_size) % pointer_mod arch) ((phys + i * page_size) % pointer_mod arch)
    && map_pages arch maps virt phys (suc i) left

unfoldable pub ioremap : Arch → (maps : ℕ → ℕ → Bool) → (phys size : ℕ) → Vmalloc → ℕ × Vmalloc
ioremap arch maps phys size s =
    let phys_base = phys / page_size * page_size in
    let page_offset = phys % page_size in
    let count = (size + page_offset + page_size - 1) % pointer_mod arch / page_size % 2 ^ 32 in
    let virt = vmalloc_find_free arch count s in
    let s' = vmalloc_mark_used arch virt count s in
    if size == 0
    then (0, s)
    else if virt == 0
    then (0, s)
    else if not (map_pages arch maps virt phys_base 0 count)
    then (0, s)
    else (
      virt + page_offset,
      record s' { regions = vmalloc_add_region virt phys_base count s'.regions },
    )

unfoldable pub iounmap : Arch → (virt : ℕ) → Vmalloc → Vmalloc
iounmap arch virt s =
    if virt == 0 then s else elim (vmalloc_find_region (virt / page_size * page_size) s.regions) [
      | none ↦ s
      | some r ↦
          let s' = vmalloc_mark_free arch (virt / page_size * page_size) r.num_pages s in
          record s' { regions = vmalloc_remove_region (virt / page_size * page_size) s'.regions }
    ]

unfoldable pub vmalloc_free_pages : Arch → Vmalloc → ℕ
vmalloc_free_pages arch s = (vmalloc_pages arch + 2 ^ 32 - s.used_pages) % 2 ^ 32
