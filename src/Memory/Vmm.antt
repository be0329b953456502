-- ===== src/Memory/Vmm.antt =====
-- The virtual memory manager, kernel/src/memory/vmm.c: the four levels of page tables of x86-64. The
-- file's static variables are the record `Vmm`. A page table is 512 words of `memory`, which gives
-- the 64-bit word at a virtual address; a null pointer is 0. The cache of translations that
-- `invlpg` empties is the processor's and has no model.
pub mod Entries
pub mod Indices
pub mod Alloc
pub mod Map
pub mod Ranges
pub mod Sample
pub mod Tables
pub mod Uses
mod Tests
use bethany.Prelude.{
  ℕ, zero, suc, ◌+◌, ◌-◌, ◌*◌, ◌/◌, ◌^◌, Bool, true, false, not, bit_and, bit_or, ltb, ◌==◌,
  if◌then◌else◌, wrap64, update,
}
use bethany.Memory.Pmm.{Pmm, page_size, pmm_alloc_page, pmm_free_page}

pub record Vmm : Type 0 where
  pub pmm : Pmm
  pub memory : ℕ → ℕ
  pub pml4 : ℕ
  pub hhdm_offset : ℕ

-- `PAGE_PRESENT | PAGE_WRITABLE`
abbrev pub table_flags : ℕ
table_flags = 3

unfoldable pub entry_present : ℕ → Bool
entry_present entry = not (bit_and entry 1 == 0)

unfoldable pub entry_address : ℕ → ℕ
entry_address entry = bit_and entry 0x000f_ffff_ffff_f000

unfoldable pub pml4_index : ℕ → ℕ
pml4_index addr = bit_and (addr / 2 ^ 39) 0x1ff

unfoldable pub pdpt_index : ℕ → ℕ
pdpt_index addr = bit_and (addr / 2 ^ 30) 0x1ff

unfoldable pub pd_index : ℕ → ℕ
pd_index addr = bit_and (addr / 2 ^ 21) 0x1ff

unfoldable pub pt_index : ℕ → ℕ
pt_index addr = bit_and (addr / 2 ^ 12) 0x1ff

unfoldable pub page_offset : ℕ → ℕ
page_offset addr = bit_and addr 0xfff

-- The address of the word `(*table)[index]`.
abbrev pub slot : ℕ → ℕ → ℕ
slot table index = table + 8 * index

unfoldable pub next_table : Vmm → ℕ → ℕ → ℕ
next_table v table index =
    let entry = v.memory (slot table index) in
    if entry_present entry then wrap64 (entry_address entry + v.hhdm_offset) else 0

-- `cr3` is what the register of that name holds.
unfoldable pub vmm_init : Pmm → (ℕ → ℕ) → ℕ → ℕ → Vmm
vmm_init pmm memory cr3 hhdm = record {
  pmm = pmm;
  memory = memory;
  pml4 = wrap64 (cr3 + hhdm);
  hhdm_offset = hhdm;
}

unfoldable pub vmm_translate : Vmm → ℕ → ℕ
vmm_translate v virt =
    let pdpt = next_table v v.pml4 (pml4_index virt) in
    let pd = next_table v pdpt (pdpt_index virt) in
    let pt = next_table v pd (pd_index virt) in
    let pte = v.memory (slot pt (pt_index virt)) in
    if pdpt == 0
    then 0
    else if pd == 0
    then 0
    else if pt == 0
    then 0
    else if entry_present pte
    then wrap64 (entry_address pte + page_offset virt)
    else 0

-- `for(i = 0; i < n; i++) (*table)[i] = 0`, the last round outermost.
unfoldable pub clear_words : ℕ → ℕ → (ℕ → ℕ) → ℕ → ℕ
clear_words table zero memory = memory
clear_words table (suc i) memory = update (clear_words table i memory) (slot table i) 0

unfoldable pub clear_table : ℕ → (ℕ → ℕ) → ℕ → ℕ
clear_table table memory = clear_words table 512 memory

-- `(*table)[index] = entry`
abbrev pub set_entry : ℕ → ℕ → ℕ → Vmm → Vmm
set_entry table index entry v = record v { memory = update v.memory (slot table index) entry }

-- What `ensure_table` does with the page `phys` that it got.
unfoldable pub link_table : ℕ → ℕ → ℕ → Vmm → ℕ × Vmm
link_table table index phys v =
    let new_table = wrap64 (phys + v.hhdm_offset) in
    let v1 = record v { memory = clear_table new_table v.memory } in
    (new_table, set_entry table index (bit_or phys table_flags) v1)

unfoldable pub ensure_table : ℕ → ℕ → Vmm → ℕ × Vmm
ensure_table table index v =
    if entry_present (v.memory (slot table index))
    then (next_table v table index, v)
    else (let (phys, pmm) = pmm_alloc_page v.pmm in
        let v1 = record v { pmm = pmm } in
        if phys == 0 then (0, v1) else link_table table index phys v1)

-- The walk that `vmm_map`, `vmm_unmap` and `vmm_is_mapped` share: the last table of an address, null
-- if a table is missing and no page is left for it.
unfoldable pub ensure_tables : ℕ → Vmm → ℕ × Vmm
ensure_tables virt v =
    let (pdpt, v1) = ensure_table v.pml4 (pml4_index virt) v in
    let (pd, v2) = ensure_table pdpt (pdpt_index virt) v1 in
    let (pt, v3) = ensure_table pd (pd_index virt) v2 in
    if pdpt == 0 then (0, v1) else if pd == 0 then (0, v2) else (pt, v3)

unfoldable pub vmm_map : ℕ → ℕ → ℕ → Vmm → Vmm
vmm_map virt phys flags v =
    let (pt, v') = ensure_tables virt v in
    if pt == 0 then v' else set_entry pt (pt_index virt) (bit_or phys flags) v'

unfoldable pub vmm_unmap : ℕ → Vmm → Vmm
vmm_unmap virt v =
    let (pt, v') = ensure_tables virt v in if pt == 0 then v' else set_entry pt (pt_index virt) 0 v'

unfoldable pub vmm_is_mapped : ℕ → Vmm → Bool × Vmm
vmm_is_mapped virt v =
    let (pt, v') = ensure_tables virt v in
    ((if pt == 0 then false else entry_present (v'.memory (slot pt (pt_index virt)))), v')

unfoldable pub vmm_alloc_page : ℕ → ℕ → Vmm → Bool × Vmm
vmm_alloc_page virt flags v =
    let (phys, pmm) = pmm_alloc_page v.pmm in
    let v1 = record v { pmm = pmm } in
    if phys == 0 then (false, v1) else (true, vmm_map virt phys flags v1)

-- `phys & ~0xFFF`
unfoldable pub vmm_free_page : ℕ → Vmm → Vmm
vmm_free_page virt v =
    let phys = vmm_translate v virt in
    if phys == 0
    then v
    else (let v1 = vmm_unmap virt v in
        record v1 { pmm = pmm_free_page v1.pmm (bit_and phys 0xffff_ffff_ffff_f000) })

unfoldable pub vmm_phys_to_virt : Vmm → ℕ → ℕ
vmm_phys_to_virt v phys = wrap64 (phys + v.hhdm_offset)

unfoldable pub vmm_virt_to_phys : Vmm → ℕ → ℕ
vmm_virt_to_phys v virt = wrap64 (virt + (2 ^ 64 - v.hhdm_offset))

-- `for(offset = 0; offset < size; offset += PAGE_SIZE)`, with the rounds left first.
unfoldable pub map_range_loop : ℕ → ℕ → ℕ → ℕ → ℕ → ℕ → Vmm → Vmm
map_range_loop zero offset virt phys size flags v = v
map_range_loop (suc n) offset virt phys size flags v =
    let v1 = vmm_map (wrap64 (virt + offset)) (wrap64 (phys + offset)) flags v in
    let rest = map_range_loop n (wrap64 (offset + page_size)) virt phys size flags v1 in
    if ltb offset size then rest else v

-- The rounds are a bound on those that the loop takes.
unfoldable pub vmm_map_range : ℕ → ℕ → ℕ → ℕ → ℕ → Vmm → Vmm
vmm_map_range rounds virt phys size flags v = map_range_loop rounds 0 virt phys size flags v
