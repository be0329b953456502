-- ===== src/Memory/Heap.antt =====
-- The kernel heap, kernel/src/memory/heap.c: a pointer that only moves up, over pages that the
-- virtual memory manager maps one after the other. The file's static pointers are the record `Heap`.
pub mod Alloc
pub mod Ends
pub mod Invariant
mod Tests
use bethany.Prelude.{
  ℕ, zero, suc, ◌+◌, ◌-◌, ◌*◌, ◌^◌, Bool, true, false, bit_and, ltb, leb, ◌==◌, if◌then◌else◌,
  wrap64, update,
}
use bethany.Memory.Pmm.{page_size}

-- `vmm_alloc_page` as the heap sees it: it maps a fresh page at an address, or says that it could
-- not. `Space` is the state of the memory managers below.
pub record PageMapper : Type 1 where
  pub Space : Type 0
  pub alloc_page : ℕ → ℕ → Space → Bool × Space

pub record Heap : Type 0 where
  pub heap_start : ℕ
  pub heap_end : ℕ
  pub heap_current : ℕ

abbrev pub kernel_heap_start : ℕ
kernel_heap_start = 0xffff_9000_0000_0000

-- `PAGE_PRESENT | PAGE_WRITABLE`
abbrev pub heap_flags : ℕ
heap_flags = 3

-- `(value + alignment - 1) & ~(alignment - 1)`
unfoldable pub align_up : ℕ → ℕ → ℕ
align_up value alignment = bit_and (wrap64 (value + alignment - 1)) (2 ^ 64 - 1 - (alignment - 1))

module _ (v : PageMapper) where
  pub heap_init : v.Space → Heap × v.Space
  heap_init s =
      let (mapped, s') = v.alloc_page kernel_heap_start heap_flags s in
      (
        record {
          heap_start = kernel_heap_start;
          heap_end = if mapped then wrap64 (kernel_heap_start + page_size) else kernel_heap_start;
          heap_current = kernel_heap_start;
        },
        s',
      )

  -- The loop of `kmalloc`: it maps pages until the block fits; false if a page is refused, or if the
  -- rounds run out.
  pub grow : ℕ → ℕ → Heap → v.Space → Bool × Heap × v.Space
  grow zero size h s = (leb (wrap64 (h.heap_current + size)) h.heap_end, h, s)
  grow (suc n) size h s = elim (ltb h.heap_end (wrap64 (h.heap_current + size))) [
    | false ↦ (true, h, s)
    | true ↦
        let (mapped, s') = v.alloc_page h.heap_end heap_flags s in
        elim mapped [
          | false ↦ (false, h, s')
          | true ↦ grow n size (record h { heap_end = wrap64 (h.heap_end + page_size) }) s'
        ]
  ]

  -- The first argument is the number of rounds that the loop may take. Null is 0.
  pub kmalloc : ℕ → ℕ → Heap → v.Space → ℕ × Heap × v.Space
  kmalloc rounds size h s =
      if size == 0
      then (0, h, s)
      else (let aligned = align_up size 16 in
          let (fits, h', s') = grow rounds aligned h s in
          if fits
          then (
            h'.heap_current,
            record h' { heap_current = wrap64 (h'.heap_current + aligned) },
            s',
          )
          else (0, h', s'))

  -- Freed memory is never used again.
  pub kfree : ℕ → Heap → Heap
  kfree ptr h = h

  pub krealloc : ℕ → ℕ → ℕ → Heap → v.Space → ℕ × Heap × v.Space
  unfolding kfree kmalloc
  krealloc rounds ptr size h s =
      if ptr == 0
      then kmalloc rounds size h s
      else if size == 0
      then (0, kfree ptr h, s)
      else kmalloc rounds size h s

  -- `for(i = 0; i < total; i++) ptr[i] = 0` on the bytes of memory, the last round outermost.
  pub clear_bytes : ℕ → ℕ → (ℕ → ℕ) → ℕ → ℕ
  clear_bytes ptr zero memory = memory
  clear_bytes ptr (suc i) memory = update (clear_bytes ptr i memory) (ptr + i) 0

  pub kcalloc : ℕ → ℕ → ℕ → Heap → v.Space → (ℕ → ℕ) → ℕ × Heap × v.Space × (ℕ → ℕ)
  unfolding kmalloc clear_bytes
  kcalloc rounds count size h s memory =
      let total = wrap64 (count * size) in
      let (ptr, h', s') = kmalloc rounds total h s in
      (ptr, h', s', (if ptr == 0 then memory else clear_bytes ptr total memory))
