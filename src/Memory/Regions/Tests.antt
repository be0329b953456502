-- ===== src/Memory/Regions/Tests.antt =====
-- Tests of kernel/src/memory/memory.c, and its theorems at a memory map with two usable regions.
use bethany.Prelude.{◌≡◌, refl, List, [], ◌∷◌, none}
use bethany.Memory.Regions.{
  MemoryRegion, memory_usable, memory_reserved, memory_total, memory_amount, memory_highest_address,
  memory_region,
}

abbrev memory_map : List MemoryRegion
memory_map =
    record { base = 0x1000; length = 0x3000; type = memory_usable }
    ∷ record { base = 0x8000; length = 0x1000; type = memory_reserved }
    ∷ record { base = 0x10000; length = 0x2fff; type = memory_usable }
    ∷ []

queries :
    (memory_total memory_map ≡ 0x6fff)
    × (memory_amount memory_map memory_usable ≡ 0x5fff)
    × (memory_highest_address memory_map ≡ 0x12fff)
    × (memory_region memory_map 3 ≡ none)
unfolding memory_total memory_amount memory_highest_address memory_region
queries = (refl, refl, refl, refl)
