-- ===== src/Arch.antt =====
-- arch/i386/include/arch/paging.h and arch/x86_64/include/arch/paging.h: the width of a pointer,
-- the kernel's virtual base, and the direct map. `null` is the NULL pointer.
use scepter.Base.{ℕ, ◌+◌, ◌-◌, ◌%◌, ◌^◌}

pub data Arch : Type 0 where
  i386 x86_64 : Arch

-- `sizeof(uintptr_t)`, and `sizeof(size_t)`, in bits.
abbrev pub pointer_bits : Arch → ℕ
pointer_bits i386 = 32
pointer_bits x86_64 = 64

abbrev pub pointer_mod : Arch → ℕ
pointer_mod arch = 2 ^ pointer_bits arch

abbrev pub kernel_vma : Arch → ℕ
kernel_vma i386 = 0xC0000000
kernel_vma x86_64 = 0xFFFFFFFF80000000

abbrev pub phys_to_virt : Arch → ℕ → ℕ
phys_to_virt arch phys = (phys + kernel_vma arch) % pointer_mod arch

-- Unsigned subtraction wraps.
abbrev pub virt_to_phys : Arch → ℕ → ℕ
virt_to_phys arch virt = (virt + pointer_mod arch - kernel_vma arch) % pointer_mod arch

abbrev pub null : ℕ
null = 0
