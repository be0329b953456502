-- ===== src/Memory/Heap/Tests.antt =====
-- Tests of kernel/src/memory/heap.c over mappers that count pages, and its theorems there.
use bethany.Prelude.{
  ℕ, ◌+◌, ◌-◌, ◌≤◌, ◌<◌, ◌^◌, ◌%◌, ◌≡◌, true, false, refl, arith, ◌==◌, if◌then◌else◌,
}
use bethany.Memory.Heap.{
  Heap, PageMapper, align_up, heap_init, grow, kmalloc, kcalloc, kernel_heap_start,
}
use bethany.Memory.Heap.Alloc.{IsValid, align_up_lem, kmalloc_wraps}

-- The state is the number of pages that are left.
abbrev counted : PageMapper
counted = record { Space = ℕ; alloc_page = λ a f s. if s == 0 then (false, 0) else (true, s - 1) }

abbrev small : Heap
small = record { heap_start = 0x10000; heap_end = 0x11000; heap_current = 0x10020 }

init_maps_a_page : heap_init counted 5 ≡ (
  record {
    heap_start = kernel_heap_start;
    heap_end = kernel_heap_start + 0x1000;
    heap_current = kernel_heap_start;
  },
  4,
)
unfolding heap_init
init_maps_a_page = refl

two_pages_more :
    kmalloc counted 9 0x2000 small 5
    ≡ (0x10020, record small { heap_end = 0x13000; heap_current = 0x12020 }, 3)
unfolding kmalloc grow align_up
two_pages_more = refl

refused : (kmalloc counted 9 0x3000 small 1).0 ≡ 0
unfolding kmalloc grow align_up
refused = refl

product_wraps : (kcalloc counted 9 (2 ^ 63) 2 small 1 (λ i. 7)).0 ≡ 0
unfolding kcalloc
product_wraps = refl

small-IsValid : IsValid small
small-IsValid = omega arith

align_up_lem_example :
    (100 ≤ align_up 100 16) × (align_up 100 16 < 100 + 16) × (align_up 100 16 % 16 ≡ 0)
align_up_lem_example = align_up_lem 100 (omega arith)

kmalloc_wraps_example : kmalloc counted 1 (2 ^ 64 - 1) small 5 ≡ (0x10020, small, 5)
kmalloc_wraps_example =
    kmalloc_wraps counted 0 (2 ^ 64 - 1) small 5 small-IsValid (omega arith) (omega arith)
      (omega arith)
