-- ===== src/Memory/Report.antt =====
-- What kernel/src/memory/memory.c and vmm.c print, as the characters that the terminal gets. A number
-- of 64 bits has at most 20 decimal and 16 hexadecimal digits, and `decimal` and `hexadecimal` are
-- `print_uint` and `print_hex` with as many rounds.
mod Tests
use bethany.Prelude.{
  ℕ, zero, suc, ◌+◌, ◌/◌, List, [], ◌∷◌, ◌++◌, ◌==◌, if◌then◌else◌, length, wrap64, not,
}
use bethany.Text.{print_uint, print_hex}
use bethany.Text.Console.{print_string, print_char}
use bethany.Memory.Regions.{
  MemoryType, memory_usable, memory_reserved, memory_acpi_reclaimable, memory_acpi_nvs,
  memory_bootloader_reclaimable, memory_kernel, memory_framebuffer, memory_bad_memory,
  memory_unknown, MemoryRegion, memory_total, memory_amount,
}
use bethany.Memory.Vmm.{
  Vmm, slot, entry_present, entry_address, next_table, pml4_index, pdpt_index, pd_index, pt_index,
  page_offset,
}

abbrev pub decimal : ℕ → List ℕ
decimal value = print_uint 20 value

abbrev pub hexadecimal : ℕ → List ℕ
hexadecimal value = print_hex 16 value

abbrev pub newline : List ℕ
newline = print_char 10

-- What `memory_highest_address` prints on its way, from the region with this index on.
unfoldable pub report_ends : ℕ → List MemoryRegion → List ℕ
report_ends i [] = []
report_ends i (r ∷ rs) =
    print_string "Region "
    ++ decimal i
    ++ print_string ": end = 0x"
    ++ hexadecimal (wrap64 (r.base + r.length))
    ++ newline
    ++ report_ends (suc i) rs

-- The `switch` of `memory_print`.
unfoldable pub type_text : MemoryType → List ℕ
type_text memory_usable = print_string "Usable"
type_text memory_reserved = print_string "Reserved"
type_text memory_acpi_reclaimable = print_string "ACPI reclamable"
type_text memory_acpi_nvs = print_string "ACPI NVS"
type_text memory_bad_memory = print_string "Bad"
type_text memory_bootloader_reclaimable = print_string "Bootloader"
type_text memory_kernel = print_string "Kernel"
type_text memory_framebuffer = print_string "Framebuffer"
type_text memory_unknown = print_string "Unknow"

-- The loop of `memory_print`.
unfoldable pub report_regions : ℕ → List MemoryRegion → List ℕ
report_regions i [] = []
report_regions i (r ∷ rs) =
    print_string "Region "
    ++ decimal i
    ++ print_string ": Base=0x"
    ++ hexadecimal r.base
    ++ print_string " Length=0x"
    ++ hexadecimal r.length
    ++ print_string " Type="
    ++ type_text r.type
    ++ newline
    ++ report_regions (suc i) rs

abbrev pub mebibytes : ℕ → List ℕ
mebibytes bytes = decimal (bytes / 1024 / 1024)

unfoldable pub memory_print : List MemoryRegion → List ℕ
memory_print regions =
    print_string "Memory map:\n\n"
    ++ report_regions 0 regions
    ++ newline
    ++ print_string "Total memory: "
    ++ mebibytes (memory_total regions)
    ++ print_string " MiB\n"
    ++ print_string "Usable memory: "
    ++ mebibytes (memory_amount regions memory_usable)
    ++ print_string " MiB\n"
    ++ print_string "Region count: "
    ++ decimal (length regions)
    ++ newline
    ++ print_string "Reserved memory: "
    ++ mebibytes (memory_amount regions memory_reserved)
    ++ print_string " MiB\n"
    ++ print_string "Unknow memory: "
    ++ mebibytes (memory_amount regions memory_unknown)
    ++ print_string " MiB\n"

-- The loop of `print_table` over the entries that are left, from the one with this index on.
unfoldable pub report_entries : ℕ → ℕ → ℕ → List ℕ → Vmm → List ℕ
report_entries zero i table name v = []
report_entries (suc n) i table name v =
    let entry = v.memory (slot table i) in
    let rest = report_entries n (suc i) table name v in
    if entry_present entry
    then name
      ++ print_string " ["
      ++ decimal i
      ++ print_string "] -> "
      ++ hexadecimal (entry_address entry)
      ++ newline
      ++ rest
    else rest

unfoldable pub print_table : ℕ → List ℕ → Vmm → List ℕ
print_table table name v =
    if table == 0
    then name ++ print_string ": NULL\n"
    else name
      ++ print_string ": "
      ++ hexadecimal table
      ++ print_string "\n\n"
      ++ report_entries 512 0 table name v

-- `cr3` is what the register of that name holds.
unfoldable pub vmm_print : ℕ → Vmm → List ℕ
vmm_print cr3 v =
    print_string "Virtual memory manager\n\n"
    ++ print_string "CR3: "
    ++ hexadecimal cr3
    ++ print_string "\nPML4: "
    ++ hexadecimal v.pml4
    ++ newline

unfoldable pub vmm_debug_address : ℕ → List ℕ
vmm_debug_address addr =
    print_string "Virtual address: "
    ++ hexadecimal addr
    ++ print_string "\nPML4 index: "
    ++ decimal (pml4_index addr)
    ++ print_string "\nPDPT index: "
    ++ decimal (pdpt_index addr)
    ++ print_string "\nPD index: "
    ++ decimal (pd_index addr)
    ++ print_string "\nPT index: "
    ++ decimal (pt_index addr)
    ++ print_string "\nOffset index: "
    ++ decimal (page_offset addr)
    ++ newline

unfoldable pub vmm_walk : ℕ → Vmm → List ℕ
vmm_walk addr v =
    let pdpt = next_table v v.pml4 (pml4_index addr) in
    let pd = next_table v pdpt (pdpt_index addr) in
    let pt = next_table v pd (pd_index addr) in
    let page = v.memory (slot pt (pt_index addr)) in
    print_string "Walking address: "
    ++ hexadecimal addr
    ++ newline
    ++ print_table pdpt (print_string "PDPT") v
    ++ print_table pd (print_string "PD") v
    ++ print_table pt (print_string "PT") v
    ++ (if pt == 0
        then []
        else if not (entry_present page)
        then print_string "Page not present\n"
        else print_string "Page entry: "
          ++ hexadecimal page
          ++ print_string "\nPhysical page: "
          ++ hexadecimal (entry_address page)
          ++ newline)
