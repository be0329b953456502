-- ===== src/Memory/Regions.antt =====
-- The memory map that the boot loader hands over, kernel/src/memory/memory.c. The static array and
-- its count are one list.
mod Tests
pub mod Totals
use bethany.Prelude.{
  ℕ, zero, suc, ◌+◌, Bool, List, [], ◌∷◌, Option, none, some, ltb, leb, ◌==◌, if◌then◌else◌, wrap64,
  length, get_elem?,
}

pub data MemoryType : Type 0 where
  memory_usable memory_reserved memory_acpi_reclaimable memory_acpi_nvs : MemoryType
  memory_bootloader_reclaimable memory_kernel memory_framebuffer : MemoryType
  memory_bad_memory memory_unknown : MemoryType

pub record MemoryRegion : Type 0 where
  pub base : ℕ
  pub length : ℕ
  pub type : MemoryType

-- The number of the constructor in the source's `enum`.
abbrev pub type_code : MemoryType → ℕ
type_code memory_usable = 0
type_code memory_reserved = 1
type_code memory_acpi_reclaimable = 2
type_code memory_acpi_nvs = 3
type_code memory_bootloader_reclaimable = 4
type_code memory_kernel = 5
type_code memory_framebuffer = 6
type_code memory_bad_memory = 7
type_code memory_unknown = 8

abbrev pub same_type : MemoryType → MemoryType → Bool
same_type s t = type_code s == type_code t

-- The array holds 256 regions; `none` is a write past its end.
unfoldable pub memory_init : List MemoryRegion → Option (List MemoryRegion)
memory_init src = if leb (length src) 256 then some src else none

pub memory_region_count : List MemoryRegion → ℕ
memory_region_count regions = length regions

pub memory_region : List MemoryRegion → ℕ → Option MemoryRegion
unfolding memory_region_count
memory_region regions index =
    if leb (memory_region_count regions) index then none else get_elem? regions index

-- The loops of the three queries, over the regions that are left.
pub total_loop : ℕ → List MemoryRegion → ℕ
total_loop total [] = total
total_loop total (r ∷ rs) = total_loop (wrap64 (total + r.length)) rs

pub memory_total : List MemoryRegion → ℕ
unfolding total_loop
memory_total regions = total_loop 0 regions

pub amount_loop : MemoryType → ℕ → List MemoryRegion → ℕ
amount_loop type total [] = total
amount_loop type total (r ∷ rs) =
    amount_loop type (if same_type r.type type then wrap64 (total + r.length) else total) rs

pub memory_amount : List MemoryRegion → MemoryType → ℕ
unfolding amount_loop
memory_amount regions type = amount_loop type 0 regions

pub highest_loop : ℕ → List MemoryRegion → ℕ
highest_loop highest [] = highest
highest_loop highest (r ∷ rs) =
    let end = wrap64 (r.base + r.length) in
    highest_loop (if ltb highest end then end else highest) rs

pub memory_highest_address : List MemoryRegion → ℕ
unfolding highest_loop
memory_highest_address regions = highest_loop 0 regions
