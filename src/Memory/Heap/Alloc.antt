-- ===== src/Memory/Heap/Alloc.antt =====
-- What `kmalloc` of kernel/src/memory/heap.c returns.
use bethany.Prelude.{
  ℕ, suc, ◌+◌, ◌-◌, ◌*◌, ◌/◌, ◌%◌, ◌^◌, ◌≤◌, ◌<◌, ◌≡◌, ◌⊎◌, Bool, true, false, refl, ltb, ◌==◌,
  arith, bit_and, wrap64, bit_and-field_mask, ap,
}
use bethany.Memory.Pmm.{page_size}
use bethany.Memory.Heap.{heap_flags, Heap, PageMapper, align_up, grow, kmalloc}

align_up-field : (x : ℕ) → bit_and x (2 ^ 64 - 1 - (16 - 1)) ≡ x / 2 ^ 4 % 2 ^ 60 * 2 ^ 4
align_up-field x = bit_and-field_mask 4 60 x

-- Where the sum does not wrap, `align_up` gives the least multiple of 16 from the value on.
pub align_up_lem :
    (value : ℕ)
    → value + 15 < 2 ^ 64
    → (value ≤ align_up value 16) × (align_up value 16 < value + 16) × (align_up value 16 % 16 ≡ 0)
unfolding align_up
align_up_lem value h = omega (arith, align_up-field (wrap64 (value + 16 - 1)))

-- Where it wraps, the result is 0.
align_up_wraps : (value : ℕ) → 2 ^ 64 < value + 16 → value < 2 ^ 64 → align_up value 16 ≡ 0
unfolding align_up
align_up_wraps value h k = omega (arith, align_up-field (wrap64 (value + 16 - 1)))

pub record IsValid (h : Heap) : Type 0 where
  pub low : h.heap_start ≤ h.heap_current
  pub high : h.heap_current ≤ h.heap_end
  pub not_null : 0 < h.heap_start
  pub aligned : h.heap_current % 16 ≡ 0

-- A block that was given out: it begins at the old end of the used part, is aligned and ends before
-- the end of the heap, and the used part now ends less than 16 bytes behind it.
pub record Allocated (size : ℕ) (h : Heap) (ptr : ℕ) (h' : Heap) : Type 0 where
  pub at : ptr ≡ h.heap_current
  pub aligned : ptr % 16 ≡ 0
  pub covers : ptr + size ≤ h'.heap_current
  pub tight : h'.heap_current < ptr + size + 16
  pub below_end : h'.heap_current ≤ h'.heap_end

module _ (v : PageMapper) where
  -- From one end of the heap to the other, page by page, each is reported to be mapped.
  pub data Pages : ℕ → v.Space → ℕ → v.Space → Type 0 where
    all_mapped : (end : ℕ) (s : v.Space) → Pages end s end s
    one_more :
        {end' : ℕ} {s' : v.Space} (end : ℕ) (s : v.Space)
        → (v.alloc_page end heap_flags s).0 ≡ true
        → Pages (end + 4096) (v.alloc_page end heap_flags s).1 end' s'
        → Pages end s end' s'

  -- A page that is needed to get from `end` to `limit` is refused.
  pub NoMemory : ℕ → ℕ → v.Space → Type 0
  NoMemory limit end s =
      (end' : ℕ) × (s' : v.Space) × Pages end s end' s'
      × (end' < limit)
      × ((v.alloc_page end' heap_flags s').0 ≡ false)

  pub NoMemory-le :
      (limit limit' end : ℕ) (s : v.Space)
      → limit ≤ limit'
      → NoMemory limit end s
      → NoMemory limit' end s
  unfolding NoMemory
  NoMemory-le limit limit' end s h (end', s', pages, below, refused) =
      (end', s', pages, omega arith, refused)

  Pages-join :
      {end end' end'' : ℕ} {s s' s'' : v.Space}
      → Pages end s end' s'
      → Pages end' s' end'' s''
      → Pages end s end'' s''
  Pages-join (all_mapped end s) more = more
  Pages-join (one_more end s ok pages) more = one_more end s ok (Pages-join pages more)

  -- A page that is refused after others were mapped.
  pub NoMemory-after :
      (limit : ℕ) {end end' : ℕ} {s s' : v.Space}
      → Pages end s end' s'
      → NoMemory limit end' s'
      → NoMemory limit end s
  unfolding NoMemory
  NoMemory-after limit pages (end', s', more, below, refused) =
      (end', s', Pages-join pages more, below, refused)

  module _ (n size : ℕ) (h : Heap) (s : v.Space) where
    abbrev short : Bool
    short = ltb h.heap_end (wrap64 (h.heap_current + size))

    abbrev page : Bool × v.Space
    page = v.alloc_page h.heap_end heap_flags s

    abbrev longer : Heap
    longer = record h { heap_end = wrap64 (h.heap_end + page_size) }

    grow_done : short ≡ false → grow v (suc n) size h s ≡ (true, h, s)
    unfolding grow
    grow_done e = rw (e, grow) refl

  -- What the loop leaves: the block fits behind pages that were mapped, or one of these was refused,
  -- and only the end has moved up.
  record Grown (size : ℕ) (h : Heap) (s : v.Space) (r : Bool × Heap × v.Space) : Type 0 where
    fits : r.0 ≡ true → h.heap_current + size ≤ r.1.heap_end
    pages : r.0 ≡ true → Pages h.heap_end s r.1.heap_end r.2
    refused : r.0 ≡ false → NoMemory (h.heap_current + size) h.heap_end s
    up : h.heap_end ≤ r.1.heap_end
    rest : r.1 ≡ record h { heap_end = r.1.heap_end }

  abbrev Served : ℕ → Heap → v.Space → ℕ × Heap × v.Space → Type 0
  Served size h s (ptr, h', s') =
      IsValid h'
      × ((Allocated size h ptr h' × Pages h.heap_end s h'.heap_end s')
          ⊎ ((ptr ≡ 0)
              × (h'.heap_current ≡ h.heap_current)
              × ((size ≡ 0) ⊎ NoMemory (h.heap_current + size + 16) h.heap_end s)))

  module _ (rounds size : ℕ) (h : Heap) (s : v.Space) (ne : (size == 0) ≡ false) where
    abbrev grown : Bool × Heap × v.Space
    grown = grow v rounds (align_up size 16) h s

    abbrev taken : Heap
    taken = record grown.1 { heap_current = wrap64 (grown.1.heap_current + align_up size 16) }

  -- A size within 15 of 2^64 is rounded up to 0: `kmalloc` then returns the current pointer for a
  -- block of that size, maps nothing and reserves nothing.
  pub kmalloc_wraps :
      (rounds size : ℕ) (h : Heap) (s : v.Space)
      → IsValid h
      → h.heap_end < 2 ^ 64
      → 2 ^ 64 < size + 16
      → size < 2 ^ 64
      → kmalloc v (suc rounds) size h s ≡ (h.heap_current, h, s)
  kmalloc_wraps rounds size h s valid room large small =
      unfold kmalloc in
      rw (ne, zero_size, grow_done rounds 0 h s enough)
        (ap (λ c. (h.heap_current, record h { heap_current = c }, s)) (omega (arith, valid.high)))
    where
      ne : (size == 0) ≡ false
      ne = ground arith

      zero_size : align_up size 16 ≡ 0
      zero_size = align_up_wraps size large small

      enough : short rounds 0 h s ≡ false
      enough = ground arith
