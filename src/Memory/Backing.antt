-- ===== src/Memory/Backing.antt =====
-- The heap over the page tables: the pages of kernel/src/memory/heap.c, which it gets from
-- `vmm_alloc_page` of kernel/src/memory/vmm.c, and that from kernel/src/memory/pmm.c.
mod Tests
use bethany.Prelude.{
  ℕ, ◌+◌, ◌*◌, ◌/◌, ◌%◌, ◌^◌, ◌<◌, ◌≤◌, ◌≡◌, ◌≢◌, ◌⊎◌, Bool, true, false, refl, inl, inr, arith,
  some, ◌==◌, ltb, if◌then◌else◌, update, Bool-cases, ◌∙◌, ap, sym,
}
use mathlib.Core.Path.{subst}
use bethany.Memory.Pmm.{Pmm, page_size, page_address, bitmap_set, pmm_alloc_page}
use bethany.Memory.Pmm.Bitmap.{in_use, in_use-bitmap_set}
use bethany.Memory.Pmm.Alloc
use bethany.Memory.Pmm.Laws.{same_page}
use bethany.Memory.Heap.{Heap, heap_flags, kernel_heap_start, heap_init, kmalloc}
use bethany.Memory.Heap.Invariant.{Keeps, kmalloc_keeps, heap_init_keeps}
use bethany.Memory.Vmm.{Vmm, vmm_alloc_page, vmm_map, vmm_translate}
use bethany.Memory.Vmm.Tables.{IsValid}
use bethany.Memory.Vmm.Map.{page}
use bethany.Memory.Vmm.Alloc.{vmm_mapper, Maps, MapsFresh, vmm_alloc_page_lem}
use bethany.Memory.Vmm.Ranges.{IsFull}
use bethany.Memory.Vmm.Uses.{Uses, Uses-trans, pmm_alloc_page-Uses, vmm_map-Uses}

-- Every address from `start` up to `end` is translated to a place in a page of the allocator that is
-- in use; `frame` gives the number of that page for a page of the heap, and it is another one for
-- every page.
pub record Backed (start end : ℕ) (v : Vmm) : Type 0 where
  pub frame : ℕ → ℕ
  pub mapped :
      (w : ℕ)
      → start ≤ w
      → w < end
      → (a : ℕ) × (page_address v.pmm.usable (frame (w / page_size)) ≡ some a)
        × (vmm_translate v w ≡ a + w % page_size)
  pub used : (w : ℕ) → start ≤ w → w < end → in_use v.pmm.bitmap (frame (w / page_size)) ≡ true
  pub alone :
      (w x : ℕ)
      → start ≤ w
      → w < end
      → start ≤ x
      → x < end
      → frame (w / page_size) ≡ frame (x / page_size)
      → w / page_size ≡ x / page_size

-- The page tables are in order, and the heap's pages are backed or no page is left.
pub record IsHeapSpace (start end : ℕ) (v : Vmm) : Type 0 where
  pub level : ℕ → ℕ
  pub valid : IsValid v level
  pub aligned : end % page_size ≡ 0
  pub up : start ≤ end
  pub backed : Backed start end v ⊎ IsFull v

-- The page that was handed out is in use afterwards.
Outcome-in_use :
    (p : Pmm) (r : ℕ × Pmm) (k : ℕ)
    → Alloc.IsValid p
    → Alloc.Outcome p 0 r
    → r.0 ≢ 0
    → page_address p.usable k ≡ some r.0
    → in_use r.1.bitmap k ≡ true
Outcome-in_use p (a, q) k ok (inr ex) ne at = absurd (ne ex.null)
Outcome-in_use p (a, q) k ok (inl (m, al)) ne at =
    ap (λ (x : Pmm). in_use x.bitmap k) al.marked
    ∙ ground
        (arith, in_use-bitmap_set p.bitmap ok.bytes m k, same_page p k m a a ok at al.address refl)

module _ (virt flags : ℕ) (v : Vmm) where
  alloc_page-full : IsFull v → (vmm_alloc_page virt flags v).0 ≡ false
  unfolding vmm_alloc_page
  alloc_page-full full =
      let null : ((pmm_alloc_page v.pmm).0 == 0) ≡ true = ground arith in rw null refl

  alloc_page-map :
      (vmm_alloc_page virt flags v).0 ≡ true
      → ((pmm_alloc_page v.pmm).0 ≢ 0)
        × ((vmm_alloc_page virt flags v).1
            ≡ vmm_map virt
                (pmm_alloc_page v.pmm).0
                flags
                (record v { pmm = (pmm_alloc_page v.pmm).1 }))
  unfolding vmm_alloc_page
  alloc_page-map e = elim (Bool-cases ((pmm_alloc_page v.pmm).0 == 0)) [
    | inl null ↦ absurd (ground (arith, alloc_page-full (ground arith)))
    | inr some_page ↦ (ground arith, rw some_page refl)
  ]

  alloc_page-Uses :
      Alloc.IsValid v.pmm
      → (vmm_alloc_page virt flags v).0 ≡ true
      → Uses (pmm_alloc_page v.pmm).1 (vmm_alloc_page virt flags v).1.pmm
        × Uses v.pmm (vmm_alloc_page virt flags v).1.pmm
  alloc_page-Uses ok e =
      let (some_page, at) = alloc_page-map e in
      let taken = pmm_alloc_page-Uses v.pmm ok in
      let mapped =
        vmm_map-Uses virt (pmm_alloc_page v.pmm).0 flags
          (record v { pmm = (pmm_alloc_page v.pmm).1 }) taken.valid in
      rw at (mapped, Uses-trans taken mapped)

-- One page more, in the frame `k`.
module _ (start end phys k : ℕ) (v v' : Vmm) (b : Backed start end v) (up : start ≤ end)
    (aligned : end % page_size ≡ 0) (window : end + page_size ≤ start + 2 ^ 48)
    (maps : Maps v end phys v') (uses : Uses v.pmm v'.pmm)
    (at : page_address v.pmm.usable k ≡ some phys) (free : in_use v.pmm.bitmap k ≡ false)
    (taken : in_use v'.pmm.bitmap k ≡ true) where
  abbrev frame' : ℕ → ℕ
  frame' = update b.frame (end / page_size) k

  frame'-new : (w : ℕ) → end ≤ w → w < end + page_size → frame' (w / page_size) ≡ k
  frame'-new w lo hi = let same : w / page_size ≡ end / page_size = omega arith in ground arith

  frame'-old : (w : ℕ) → w < end → frame' (w / page_size) ≡ b.frame (w / page_size)
  frame'-old w hi = let other : w / page_size ≢ end / page_size = omega arith in ground arith

  translated-new :
      (w : ℕ) → end ≤ w → w < end + page_size → vmm_translate v' w ≡ phys + w % page_size
  translated-new w lo hi =
      let here : (page w == page end) ≡ true =
        let same : page w ≡ page end = omega arith in ground arith in
      maps w ∙ rw here refl

  translated-old : (w : ℕ) → start ≤ w → w < end → vmm_translate v' w ≡ vmm_translate v w
  translated-old w lo hi =
      let other : (page w == page end) ≡ false =
        let differ : page w ≢ page end = omega arith in ground arith in
      maps w ∙ rw other refl

  -- A page of the heap that was there before stands in another frame.
  old_frame-new : (w : ℕ) → start ≤ w → w < end → b.frame (w / page_size) ≢ k
  old_frame-new w lo hi e = let busy = b.used w lo hi in ground (arith, ap (in_use v.pmm.bitmap) e)

  Backed-suc : Backed start (end + page_size) v'
  Backed-suc = record {
    frame = frame';
    mapped = λ w lo hi. elim (Bool-cases (ltb w end)) [
      | inl old ↦
          let (a, there, to) = b.mapped w lo (ground arith) in
          (
            a,
            rw (uses.usable, frame'-old w (ground arith)) there,
            translated-old w lo (ground arith) ∙ to,
          )
      | inr new ↦ (
        phys,
        rw (uses.usable, frame'-new w (ground arith) hi) at,
        translated-new w (ground arith) hi,
      )
    ];
    used = λ w lo hi. elim (Bool-cases (ltb w end)) [
      | inl old ↦ rw (frame'-old w (ground arith)) (uses.kept _ (b.used w lo (ground arith)))
      | inr new ↦ rw (frame'-new w (ground arith) hi) taken
    ];
    alone = λ w x lo hi lo' hi' e. elim (Bool-cases (ltb w end)) [
      | inl old ↦ elim (Bool-cases (ltb x end)) [
        | inl old' ↦
            b.alone w x lo (ground arith) lo' (ground arith)
              (sym (frame'-old w (ground arith)) ∙ e ∙ frame'-old x (ground arith))
        | inr new' ↦ absurd (
            old_frame-new w lo (ground arith)
              (sym (frame'-old w (ground arith)) ∙ e ∙ frame'-new x (ground arith) hi'))
      ]
      | inr new ↦ elim (Bool-cases (ltb x end)) [
        | inl old' ↦ absurd (
            old_frame-new x lo' (ground arith)
              (sym (frame'-old x (ground arith)) ∙ sym e ∙ frame'-new w (ground arith) hi))
        | inr new' ↦ let a : end ≤ w = ground arith in let c : end ≤ x = ground arith in omega arith
      ]
    ];
  }

module _ (start limit : ℕ) (window : limit ≤ start + 2 ^ 48) where
  space-mapped :
      (end : ℕ) (v : Vmm)
      → end + page_size ≤ limit
      → IsHeapSpace start end v
      → (vmm_alloc_page end heap_flags v).0 ≡ true
      → IsHeapSpace start (end + page_size) (vmm_alloc_page end heap_flags v).1
  space-mapped end v room is done =
      let (valid, outcome) =
        vmm_alloc_page_lem v is.level is.valid end heap_flags (omega arith) (omega arith) in
      let (fresh, whole) = alloc_page-Uses end heap_flags v is.valid.pmm done in
      let (some_page, _) = alloc_page-map end heap_flags v done in
      elim outcome [
        | inl (failed, _, _) ↦ absurd (ground (arith, sym done ∙ failed))
        | inr (_, (k, at, free), inr (full, _)) ↦ record {
          level = valid.0;
          valid = valid.1;
          aligned = omega (arith, is.aligned);
          up = omega (arith, is.up);
          backed = inr full;
        }
        | inr (_, (k, at, free), inl maps) ↦ record {
          level = valid.0;
          valid = valid.1;
          aligned = omega (arith, is.aligned);
          up = omega (arith, is.up);
          backed = elim is.backed [
            | inr full ↦ absurd (some_page full)
            | inl b ↦ inl (
                Backed-suc start end (pmm_alloc_page v.pmm).0 k v
                  (vmm_alloc_page end heap_flags v).1 b is.up is.aligned (omega arith) maps whole at
                  free
                  (fresh.kept k (
                    Outcome-in_use v.pmm (pmm_alloc_page v.pmm) k is.valid.pmm
                      (Alloc.pmm_alloc_page_lem v.pmm is.valid.pmm) some_page at)))
          ];
        }
      ]

  space-refused :
      (end : ℕ) (v : Vmm)
      → end + page_size ≤ limit
      → IsHeapSpace start end v
      → (vmm_alloc_page end heap_flags v).0 ≡ false
      → IsHeapSpace start end (vmm_alloc_page end heap_flags v).1
  space-refused end v room is failed =
      elim ((vmm_alloc_page_lem v is.level is.valid end heap_flags (omega arith) (omega arith)).1) [
        | inl (_, same, _) ↦ rw same is
        | inr (done, _, _) ↦ absurd (ground (arith, sym done ∙ failed))
      ]

  space-Keeps : Keeps vmm_mapper limit (IsHeapSpace start)
  space-Keeps = record { mapped = space-mapped; refused = space-refused }

  -- The heap over the page tables: if the page tables are in order, and the addresses of the heap are
  -- backed by pages of their own that are in use, or no page is left, then this is so after
  -- `kmalloc`, for the heap as it is then; its end stays in one space of 48 bits and below 2^64.
  pub kmalloc-IsHeapSpace :
      (rounds size : ℕ) (h : Heap) (v : Vmm)
      → limit < 2 ^ 64
      → h.heap_end + rounds * page_size ≤ limit
      → IsHeapSpace start h.heap_end v
      → let (_, h', v') = kmalloc vmm_mapper rounds size h v in IsHeapSpace start h'.heap_end v'
  kmalloc-IsHeapSpace rounds size h v fits room is =
      kmalloc_keeps vmm_mapper limit (IsHeapSpace start) space-Keeps fits rounds size h v room is

-- `heap_init` over page tables in order makes such a heap.
pub heap_init-IsHeapSpace :
    (v : Vmm) (level : ℕ → ℕ)
    → IsValid v level
    → let (h, v') = heap_init vmm_mapper v in IsHeapSpace kernel_heap_start h.heap_end v'
heap_init-IsHeapSpace v level ok =
    heap_init_keeps vmm_mapper (kernel_heap_start + page_size) (IsHeapSpace kernel_heap_start)
      (space-Keeps kernel_heap_start (kernel_heap_start + page_size) (omega arith)) (omega arith) v
      (omega arith)
      (record {
        level = level;
        valid = ok;
        aligned = omega arith;
        up = omega arith;
        backed = inl (record {
          frame = λ w. 0;
          mapped = λ w lo hi. absurd (omega arith);
          used = λ w lo hi. absurd (omega arith);
          alone = λ w x lo hi lo' hi' e. absurd (omega arith);
        });
      })
