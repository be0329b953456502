-- ===== src/Memory/Heap/Ends.antt =====
-- How far the end of the heap of kernel/src/memory/heap.c moves.
use bethany.Prelude.{
  ℕ, zero, suc, ◌+◌, ◌*◌, ◌^◌, ◌<◌, ◌≤◌, inl, inr, arith, ltb, ◌==◌, wrap64, Bool-cases,
}
use bethany.Memory.Pmm.{page_size}
use bethany.Memory.Heap.{PageMapper, Heap, heap_flags, align_up, grow, kmalloc}

module _ (v : PageMapper) where
  grow-end :
      (n size : ℕ) (h : Heap) (s : v.Space)
      → h.heap_end + n * page_size < 2 ^ 64
      → (grow v n size h s).1.heap_end ≤ h.heap_end + n * page_size
  unfolding grow
  grow-end zero size h s room = omega arith
  grow-end (suc n) size h s room =
      let page = v.alloc_page h.heap_end heap_flags s in
      let longer : Heap = record h { heap_end = wrap64 (h.heap_end + page_size) } in
      let rest : (grow v n size longer page.1).1.heap_end ≤ longer.heap_end + n * page_size =
        grow-end n size longer page.1 (omega arith) in
      elim (Bool-cases (ltb h.heap_end (wrap64 (h.heap_current + size)))) [
        | inr done ↦ rw (done, grow) (omega arith)
        | inl short ↦ elim (Bool-cases page.0) [
          | inr refused ↦ rw (short, refused, grow) (omega arith)
          | inl mapped ↦ rw (short, mapped, grow) (omega (arith, rest))
        ]
      ]

  -- `kmalloc` maps at most as many pages as it has rounds.
  pub kmalloc-end :
      (rounds size : ℕ) (h : Heap) (s : v.Space)
      → h.heap_end + rounds * page_size < 2 ^ 64
      → (kmalloc v rounds size h s).1.heap_end ≤ h.heap_end + rounds * page_size
  unfolding kmalloc
  kmalloc-end rounds size h s room =
      let moved = grow-end rounds (align_up size 16) h s room in
      elim (Bool-cases (size == 0)) [
        | inl e ↦ rw e (omega arith)
        | inr e ↦ elim (Bool-cases ((grow v rounds (align_up size 16) h s).0)) [
          | inl fits ↦ rw (e, fits) moved
          | inr short ↦ rw (e, short) moved
        ]
      ]
