-- ===== src/Memory/Heap/Invariant.antt =====
-- What the pages behind the heap of kernel/src/memory/heap.c keep while it grows.
use bethany.Prelude.{
  ℕ, zero, suc, ◌+◌, ◌*◌, ◌^◌, ◌<◌, ◌≤◌, ◌≡◌, inl, inr, true, false, arith, ltb, ◌==◌, wrap64,
  Bool-cases, sym,
}
use mathlib.Core.Path.{subst}
use bethany.Memory.Pmm.{page_size}
use bethany.Memory.Heap.{
  PageMapper, Heap, kernel_heap_start, heap_flags, align_up, heap_init, grow, kmalloc,
}

-- `P end s` says what holds of the pages below the end of the heap: a further page at the end keeps
-- it, up to `limit`.
pub record Keeps (v : PageMapper) (limit : ℕ) (P : ℕ → v.Space → Type 0) : Type 0 where
  pub mapped :
      (end : ℕ) (s : v.Space)
      → end + page_size ≤ limit
      → P end s
      → (v.alloc_page end heap_flags s).0 ≡ true
      → P (end + page_size) (v.alloc_page end heap_flags s).1
  pub refused :
      (end : ℕ) (s : v.Space)
      → end + page_size ≤ limit
      → P end s
      → (v.alloc_page end heap_flags s).0 ≡ false
      → P end (v.alloc_page end heap_flags s).1

module _ (v : PageMapper) (limit : ℕ) (P : ℕ → v.Space → Type 0) (laws : Keeps v limit P)
    (fits : limit < 2 ^ 64) where
  grow-keeps :
      (n size : ℕ) (h : Heap) (s : v.Space)
      → h.heap_end + n * page_size ≤ limit
      → P h.heap_end s
      → let (_, h', s') = grow v n size h s in P h'.heap_end s'
  unfolding grow
  grow-keeps zero size h s room p = p
  grow-keeps (suc n) size h s room p =
      let page = v.alloc_page h.heap_end heap_flags s in
      let longer : Heap = record h { heap_end = wrap64 (h.heap_end + page_size) } in
      let no_wrap : wrap64 (h.heap_end + page_size) ≡ h.heap_end + page_size = omega arith in
      elim (Bool-cases (ltb h.heap_end (wrap64 (h.heap_current + size)))) [
        | inr done ↦ rw (done, grow) p
        | inl short ↦ elim (Bool-cases page.0) [
          | inr refused ↦
              rw (short, refused, grow) (laws.refused h.heap_end s (omega arith) p refused)
          | inl mapped ↦
              rw (short, mapped, grow)
                (grow-keeps n size longer page.1 (omega arith) (
                  subst (λ e. P e page.1) (sym no_wrap)
                    (laws.mapped h.heap_end s (omega arith) p mapped)))
        ]
      ]

  -- `kmalloc` keeps it.
  pub kmalloc_keeps :
      (rounds size : ℕ) (h : Heap) (s : v.Space)
      → h.heap_end + rounds * page_size ≤ limit
      → P h.heap_end s
      → let (_, h', s') = kmalloc v rounds size h s in P h'.heap_end s'
  unfolding kmalloc
  kmalloc_keeps rounds size h s room p =
      let moved = grow-keeps rounds (align_up size 16) h s room p in
      elim (Bool-cases (size == 0)) [
        | inl e ↦ rw e p
        | inr e ↦ elim (Bool-cases ((grow v rounds (align_up size 16) h s).0)) [
          | inl done ↦ rw (e, done) moved
          | inr short ↦ rw (e, short) moved
        ]
      ]

  -- `heap_init` begins it.
  pub heap_init_keeps :
      (s : v.Space)
      → kernel_heap_start + page_size ≤ limit
      → P kernel_heap_start s
      → let (h, s') = heap_init v s in P h.heap_end s'
  unfolding heap_init
  heap_init_keeps s room p =
      let page = v.alloc_page kernel_heap_start heap_flags s in
      elim (Bool-cases page.0) [
        | inl mapped ↦ rw mapped (laws.mapped kernel_heap_start s room p mapped)
        | inr refused ↦ rw refused (laws.refused kernel_heap_start s room p refused)
      ]
