-- ===== src/Memory/Vmm/Tests.antt =====
-- The theorems on kernel/src/memory/vmm.c at a machine with an empty root table and eight free pages.
use bethany.Prelude.{ℕ, ◌+◌, ◌%◌, ◌≡◌, ◌⊎◌, arith, refl, ◌==◌, if◌then◌else◌}
use bethany.Memory.Pmm.{pmm_alloc_page}
use bethany.Memory.Vmm.{vmm_translate, vmm_map, vmm_alloc_page, vmm_map_range}
use bethany.Memory.Vmm.Tables.{IsValid}
use bethany.Memory.Vmm.Sample.{root_level, machine, machine-IsValid}
use bethany.Memory.Vmm.Map.{page, vmm_map_lem}
use bethany.Memory.Vmm.Alloc.{MapsFresh, vmm_alloc_page_lem}
use bethany.Memory.Vmm.Ranges.{MapsRange, vmm_map_range_lem}

vmm_map_lem_example :
    let v' = vmm_map 0x40_1234 0xfee0_0000 0x13 machine in
    ((level : ℕ → ℕ) × IsValid v' level)
    × (((w : ℕ)
          → vmm_translate v' w ≡ (
              if page w == page 0x40_1234 then 0xfee0_0000 + w % 4096 else vmm_translate machine w))
        ⊎ (((pmm_alloc_page v'.pmm).0 ≡ 0)
            × ((w : ℕ) → vmm_translate v' w ≡ vmm_translate machine w)))
vmm_map_lem_example =
    vmm_map_lem machine root_level machine-IsValid 0x40_1234 0xfee0_0000 0x13 refl (omega arith)
      (omega arith) refl

vmm_alloc_page_lem_example :
    MapsFresh machine 0xffff_9000_0000_0000 (vmm_alloc_page 0xffff_9000_0000_0000 3 machine)
vmm_alloc_page_lem_example =
    vmm_alloc_page_lem machine root_level machine-IsValid 0xffff_9000_0000_0000 3 (omega arith) refl

-- The registers of a device with two pages.
vmm_map_range_lem_example :
    MapsRange 0xffff_9000_0000_0000 0xfebf_0000 0 2 machine
      (vmm_map_range 2 0xffff_9000_0000_0000 0xfebf_0000 0x2000 27 machine)
vmm_map_range_lem_example =
    vmm_map_range_lem 0xffff_9000_0000_0000 0xfebf_0000 0x2000 27 2 refl refl (omega arith)
      (omega arith) (omega arith) (omega arith) refl (omega arith) (omega arith) 2 machine
      root_level machine-IsValid (omega arith)
