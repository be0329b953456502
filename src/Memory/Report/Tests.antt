-- ===== src/Memory/Report/Tests.antt =====
-- Tests of what kernel/src/memory/vmm.c prints.
use bethany.Prelude.{◌≡◌, refl}
use bethany.Text.{print_uint, print_hex, print_hex_ex, backwards, hex_loop, hex}
use bethany.Text.Console.{print_string, print_char}
use bethany.Memory.Vmm.{pml4_index, pdpt_index, pd_index, pt_index, page_offset}
use bethany.Memory.Report.{vmm_debug_address}

-- 0x403005 lies in the third entry of a page table: 0x5 in it.
indices :
    vmm_debug_address 0x0040_3005
    ≡ print_string
        "Virtual address: 0x403005\nPML4 index: 0\nPDPT index: 0\nPD index: 2\nPT index: 3\nOffset index: 5\n"
unfolding vmm_debug_address print_string print_char print_uint print_hex print_hex_ex backwards
    hex_loop hex pml4_index pdpt_index pd_index pt_index page_offset
indices = refl
