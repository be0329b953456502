-- ===== src/Memory/Pmm/Tests.antt =====
-- Tests of kernel/src/memory/pmm.c, and its theorems at a machine with two usable regions.
use bethany.Prelude.{suc, ℕ, ◌≡◌, ◌≢◌, refl, List, [], ◌∷◌, ◌==◌, some, arith, if◌then◌else◌}
use mathlib.Core.Option
use bethany.Memory.Regions.{MemoryRegion, memory_usable, memory_reserved}
use bethany.Memory.Pmm.{
  PmmRegion, Pmm, page_address, usable_regions, pmm_init, pmm_alloc_page, pmm_free_page, pmm_print,
  bitmap_set, bitmap_test,
}
use bethany.Memory.Pmm.Bitmap.{in_use}
use bethany.Memory.Pmm.Address.{WellPlaced}
use bethany.Memory.Pmm.Alloc.{IsValid, Outcome, pmm_alloc_page_lem}
use bethany.Memory.Pmm.Laws.{
  pmm_alloc_page-IsValid, pmm_free_page-IsValid, pmm_free_page-pmm_alloc_page,
}
use bethany.Memory.Pmm.Count.{free-pmm_alloc_page}

abbrev memory_map : List MemoryRegion
memory_map =
    record { base = 0x1000; length = 0x3000; type = memory_usable }
    ∷ record { base = 0x8000; length = 0x1000; type = memory_reserved }
    ∷ record { base = 0x10000; length = 0x2fff; type = memory_usable }
    ∷ []

abbrev regions : List PmmRegion
regions = record { base = 0x1000; pages = 3 } ∷ record { base = 0x10000; pages = 2 } ∷ []

-- The first page holds the bitmap.
abbrev booted : Pmm
booted = record {
  usable = regions;
  bitmap = λ i. if i == 0 then 1 else 0;
  page_count = 5;
  bitmap_size = 1;
  bitmap_phys = 0x1000;
}

usable-memory_map : usable_regions memory_map ≡ regions
unfolding usable_regions
usable-memory_map = refl

regions-WellPlaced : WellPlaced regions
regions-WellPlaced = omega arith

booted-IsValid : IsValid booted
booted-IsValid = record { bytes = λ i. ground arith; placed = regions-WellPlaced; counted = refl }

-- The second page is the first free one; after it come the third and those of the second region.
allocations :
    ((pmm_alloc_page booted).0 ≡ 0x2000)
    × ((pmm_alloc_page (pmm_alloc_page (pmm_alloc_page booted).1).1).0 ≡ 0x10000)
    × ((pmm_print (pmm_alloc_page booted).1).free ≡ 3)
unfolding pmm_alloc_page page_address bitmap_test bitmap_set pmm_print
allocations = (refl, refl, refl)

init_places_bitmap :
    Option.map (λ p. p.bitmap_phys) (pmm_init 0x8000_0000 (λ i. 7) memory_map) ≡ some 0x1000
unfolding pmm_init
init_places_bitmap = refl

pmm_alloc_page_lem_example : Outcome booted 0 (pmm_alloc_page booted)
pmm_alloc_page_lem_example = pmm_alloc_page_lem booted booted-IsValid

pmm_alloc_page-IsValid_example : IsValid (pmm_alloc_page booted).1
pmm_alloc_page-IsValid_example = pmm_alloc_page-IsValid booted booted-IsValid

pmm_free_page-IsValid_example : IsValid (pmm_free_page booted 0x11000)
pmm_free_page-IsValid_example = pmm_free_page-IsValid booted 0x11000 booted-IsValid

pmm_free_page-pmm_alloc_page_example :
    let (a, p') = pmm_alloc_page booted in
    let back = pmm_free_page p' a in
    ((j : ℕ) → in_use back.bitmap j ≡ in_use booted.bitmap j)
    × (back ≡ record booted { bitmap = back.bitmap })
pmm_free_page-pmm_alloc_page_example =
    pmm_free_page-pmm_alloc_page booted booted-IsValid (omega (arith, allocations.0))

free-pmm_alloc_page_example :
    let (a, p') = pmm_alloc_page booted in
    (a ≢ 0 → (pmm_print booted).free ≡ suc (pmm_print p').free)
    × (a ≡ 0 → ((pmm_print booted).free ≡ 0) × ((pmm_print p').free ≡ 0))
free-pmm_alloc_page_example = free-pmm_alloc_page booted booted-IsValid
