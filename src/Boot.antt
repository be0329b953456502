-- ===== src/Boot.antt =====
-- What `kmain` of kernel/src/main.c does to memory: it hands on the memory map of the boot loader,
-- starts the memory managers, maps the registers of the local interrupt controller and makes the
-- heap. The parts that it starts in between do not touch memory.
use bethany.Prelude.{ℕ, ◌+◌, List, [], ◌∷◌, Option, none, some, wrap64}
use bethany.Memory.Regions.{
  MemoryType, memory_usable, memory_reserved, memory_acpi_reclaimable, memory_acpi_nvs,
  memory_bootloader_reclaimable, memory_kernel, memory_framebuffer, memory_bad_memory,
  memory_unknown, MemoryRegion, memory_init,
}
use bethany.Memory.Pmm.{pmm_init}
use bethany.Memory.Heap.{Heap, heap_init}
use bethany.Memory.Vmm.{Vmm, vmm_init, vmm_map}
use bethany.Memory.Vmm.Alloc.{vmm_mapper}

infixl 5 ◌>>=◌
abbrev pub ◌>>=◌ : {A B : Type 0} → Option A → (A → Option B) → Option B
none >>= f = none
some a >>= f = f a

-- The types of the boot loader's entries by the names that `kmain` uses, and all others.
pub data LimineType : Type 0 where
  limine_usable limine_reserved limine_acpi_reclaimable limine_acpi_nvs : LimineType
  limine_bad_memory limine_bootloader_reclaimable limine_executable_and_modules : LimineType
  limine_framebuffer limine_other : LimineType

pub record LimineEntry : Type 0 where
  pub base : ℕ
  pub length : ℕ
  pub type : LimineType

-- The `switch` over the type of an entry.
abbrev pub memory_type : LimineType → MemoryType
memory_type limine_usable = memory_usable
memory_type limine_reserved = memory_reserved
memory_type limine_acpi_reclaimable = memory_acpi_reclaimable
memory_type limine_acpi_nvs = memory_acpi_nvs
memory_type limine_bad_memory = memory_bad_memory
memory_type limine_bootloader_reclaimable = memory_bootloader_reclaimable
memory_type limine_executable_and_modules = memory_kernel
memory_type limine_framebuffer = memory_framebuffer
memory_type limine_other = memory_unknown

-- The loop that fills `regions`.
abbrev pub boot_regions : List LimineEntry → List MemoryRegion
boot_regions [] = []
boot_regions (e ∷ es) =
    record { base = e.base; length = e.length; type = memory_type e.type } ∷ boot_regions es

abbrev pub lapic_base : ℕ
lapic_base = 0xfee0_0000

-- `PAGE_PRESENT | PAGE_WRITABLE | PAGE_CACHE_DISABLE`
abbrev pub lapic_flags : ℕ
lapic_flags = 0x13

-- `vmm_map` of the local interrupt controller, and `heap_init`.
pub finish_memory : ℕ → Vmm → Heap × Vmm
finish_memory hhdm v =
    heap_init vmm_mapper (vmm_map (wrap64 (hhdm + lapic_base)) lapic_base lapic_flags v)

-- `memmap` and `hhdm` are null if the boot loader did not answer. `none` is a halt, or a memory map
-- with more than 256 entries, which is written past the end of the array. `bitmap` is what the bytes
-- of the bitmap hold before, `memory` what the words of memory hold, and `cr3` the address of the
-- page tables that the boot loader made.
pub boot_memory : Option (List LimineEntry) → Option ℕ → (ℕ → ℕ) → (ℕ → ℕ) → ℕ → Option (Heap × Vmm)
unfolding finish_memory
boot_memory memmap hhdm bitmap memory cr3 = do
  entries ← memmap
  offset ← hhdm
  regions ← memory_init (boot_regions entries)
  pmm ← pmm_init offset bitmap regions
  some (finish_memory offset (vmm_init pmm memory cr3 offset))
