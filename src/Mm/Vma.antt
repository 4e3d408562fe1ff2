-- ===== src/Mm/Vma.antt =====
-- mm/vma.c: the regions of a process's address space, a list in the order of their starts.
-- Addresses that the code keeps in a uint32_t wrap at 2 ^ 32, on both architectures.
pub mod Region
pub mod Insert
use scepter.Mm.Buddy.{page_size}
use scepter.Base.Bits.{test_bit}
use scepter.Arch.{Arch, pointer_mod}
use scepter.Base.{
  ℕ, Bool, ◌/◌, ◌+◌, true, leb, some, ◌^◌, ◌||◌, ◌!=◌, ◌-◌, List, Option, false, ltb, ◌*◌, [], zero,
  ◌%◌, ◌∷◌, suc, ◌&&◌, if◌then◌else◌, none, not,
}

abbrev pub word : ℕ
word = 2 ^ 32

-- VM_GROWSDOWN, by its bit.
abbrev pub vm_growsdown_bit : ℕ
vm_growsdown_bit = 4

-- The fields of `vma_t` that mm/vma.c reads.
pub record Vma : Type 0 where
  pub vm_start : ℕ
  pub vm_end : ℕ
  pub vm_flags : ℕ
  pub vm_type : ℕ

-- PAGE_ALIGN and PAGE_ALIGN_DOWN, in a word of the modulus `m`.
abbrev pub page_align : (m addr : ℕ) → ℕ
page_align m addr = (addr + page_size - 1) % m / page_size * page_size

abbrev pub page_align_down : ℕ → ℕ
page_align_down addr = addr / page_size * page_size

-- `none` when there is no memory for it.
unfoldable pub vma_create : Arch → (has_memory : Bool) → (start stop flags type : ℕ) → Option Vma
vma_create arch false start stop flags type = none
vma_create arch true start stop flags type = some (record {
  vm_start = page_align_down start;
  vm_end = page_align (pointer_mod arch) stop;
  vm_flags = flags;
  vm_type = type;
})

abbrev pub grows_down : Vma → Bool
grows_down v = test_bit v.vm_flags vm_growsdown_bit

abbrev pub stack_reach : ℕ
stack_reach = 8 * 1024 * 1024

-- Where a region begins for `vma_find`: a stack may grow by 8 MB. The limit is a uint32_t.
abbrev pub lowest : Vma → ℕ
lowest v =
    if grows_down v
    then (if ltb stack_reach v.vm_start then (v.vm_start - stack_reach) % word else 0)
    else v.vm_start

unfoldable pub vma_find : (addr : ℕ) → List Vma → Option Vma
vma_find addr [] = none
vma_find addr (v ∷ vs) =
    if leb (lowest v) addr && ltb addr v.vm_end then some v else vma_find addr vs

unfoldable pub vma_insert : Vma → List Vma → List Vma
vma_insert v [] = v ∷ []
vma_insert v (u ∷ us) = if ltb v.vm_start u.vm_start then v ∷ u ∷ us else u ∷ vma_insert v us

abbrev pub overlaps_one : (start stop : ℕ) → Vma → Bool
overlaps_one start stop v = ltb start v.vm_end && ltb v.vm_start stop

unfoldable pub vma_overlaps : (start stop : ℕ) → List Vma → Bool
vma_overlaps start stop [] = false
vma_overlaps start stop (v ∷ vs) = overlaps_one start stop v || vma_overlaps start stop vs

-- `none` is the result -1.
unfoldable pub vma_expand : (new_end : ℕ) → Vma → Option Vma
vma_expand new_end v =
    let aligned = page_align word new_end in
    if not (grows_down v)
    then (if ltb aligned v.vm_end then none else some (record v { vm_end = aligned }))
    else if ltb v.vm_start aligned
    then none
    else some (record v { vm_start = aligned })

-- The loop of `vma_find_free_region`, with fuel; 0 is no region.
unfoldable pub search_region : (fuel : ℕ) → (len stop candidate : ℕ) → List Vma → ℕ
search_region zero len stop candidate vs = 0
search_region (suc fuel) len stop candidate vs =
    let rest = search_region fuel len stop ((candidate + page_size) % word) vs in
    let upper = (candidate + len) % word in
    if leb upper stop
    then (if not (vma_overlaps candidate upper vs) then candidate else rest)
    else 0

-- One round for each page of the address space.
abbrev pub all_pages : ℕ
all_pages = 2 ^ 20

-- Where the search begins.
abbrev pub search_start : (mmap_base mmap_end hint : ℕ) → ℕ
search_start mmap_base mmap_end hint =
    if hint != 0 && (ltb hint mmap_base || leb mmap_end hint)
    then mmap_base % word
    else if hint != 0
    then page_align word hint
    else mmap_base % word

unfoldable pub vma_find_free_region : (mmap_base mmap_end : ℕ) → List Vma → (len hint : ℕ) → ℕ
vma_find_free_region mmap_base mmap_end vs len hint =
    search_region all_pages (page_align word len) (mmap_end % word)
      (search_start mmap_base mmap_end hint) vs
