-- ===== src/Memory/Vmm/Alloc.antt =====
-- `vmm_alloc_page` of kernel/src/memory/vmm.c: a fresh page at a virtual address, as the heap asks for
-- it.
use bethany.Prelude.{
  ℕ, ◌+◌, ◌%◌, ◌<◌, ◌≡◌, ◌⊎◌, Bool, true, false, refl, inl, inr, arith, some, ◌==◌, if◌then◌else◌,
  ◌∙◌, sym,
}
use mathlib.Core.Path.{subst}
use bethany.Memory.Pmm.{Pmm, bitmap_set, page_address, pmm_alloc_page}
use bethany.Memory.Pmm.Bitmap.{in_use, in_use-bitmap_set}
use bethany.Memory.Pmm.Alloc.{Outcome, pmm_alloc_page_lem}
use bethany.Memory.Pmm.Laws.{set-IsValid}
use bethany.Memory.Heap.{PageMapper}
use bethany.Memory.Vmm.{Vmm, vmm_map, vmm_alloc_page, vmm_translate, next_table}
use bethany.Memory.Vmm.Tables.{IsValid}
use bethany.Memory.Vmm.Map.{page, vmm_map_lem}

-- The heap's page mapper over the page tables.
abbrev pub vmm_mapper : PageMapper
vmm_mapper = record { Space = Vmm; alloc_page = vmm_alloc_page }

marked-IsValid :
    (v : Vmm) (level : ℕ → ℕ) (k : ℕ)
    → IsValid v level
    → IsValid (record v { pmm = record v.pmm { bitmap = bitmap_set v.pmm.bitmap k } }) level
unfolding next_table
marked-IsValid v level k ok = record {
  pmm = set-IsValid v.pmm k ok.pmm;
  reach = ok.reach;
  offset = ok.offset;
  root = ok.root;
  placed = ok.placed;
  owned = λ n a at used.
      ground (arith, in_use-bitmap_set v.pmm.bitmap ok.pmm.bytes k n, ok.owned n a at used);
  children = ok.children;
  unique = ok.unique;
}

-- The page of `virt` is at `phys`, and all other addresses are translated as before.
abbrev pub Maps : Vmm → ℕ → ℕ → Vmm → Type 0
Maps v virt phys v' =
    (w : ℕ)
    → vmm_translate v' w ≡ (if page w == page virt then phys + w % 4096 else vmm_translate v w)

-- The page was mapped at a fresh page of the allocator; or there was none, and nothing has changed; or
-- that page was the last one, and none was left for a table.
abbrev pub MapsFresh : Vmm → ℕ → Bool × Vmm → Type 0
MapsFresh v virt (done, v') =
    ((level : ℕ → ℕ) × IsValid v' level)
    × (((done ≡ false) × (v' ≡ v) × ((pmm_alloc_page v.pmm).0 ≡ 0))
        ⊎ ((done ≡ true)
            × ((k : ℕ) × (page_address v.pmm.usable k ≡ some (pmm_alloc_page v.pmm).0)
                × (in_use v.pmm.bitmap k ≡ false))
            × (Maps v virt (pmm_alloc_page v.pmm).0 v'
                ⊎ (((pmm_alloc_page v'.pmm).0 ≡ 0)
                    × ((w : ℕ) → vmm_translate v' w ≡ vmm_translate v w)))))

module _ (v : Vmm) (level : ℕ → ℕ) (ok : IsValid v level) (virt flags : ℕ) (small : flags < 4096)
    (odd : flags % 2 ≡ 1) where
  abbrev given : ℕ × Pmm → Bool × Vmm
  given (phys, pmm) =
      let v1 = record v { pmm = pmm } in
      if phys == 0 then (false, v1) else (true, vmm_map virt phys flags v1)

  -- The mark in the bitmap does not touch the translation.
  outcome :
      (phys : ℕ)
      → phys ≡ (pmm_alloc_page v.pmm).0
      → (x : Vmm) (bitmap : ℕ → ℕ)
      → Maps (record v { pmm = record v.pmm { bitmap = bitmap } }) virt phys x
        ⊎ (((pmm_alloc_page x.pmm).0 ≡ 0)
            × ((w : ℕ)
                → vmm_translate x w
                  ≡ vmm_translate (record v { pmm = record v.pmm { bitmap = bitmap } }) w))
      → Maps v virt (pmm_alloc_page v.pmm).0 x
        ⊎ (((pmm_alloc_page x.pmm).0 ≡ 0) × ((w : ℕ) → vmm_translate x w ≡ vmm_translate v w))
  unfolding vmm_translate next_table
  outcome phys e x bitmap (inl f) = inl (subst (λ p. Maps v virt p x) e f)
  outcome phys e x bitmap (inr f) = inr f

  given-MapsFresh :
      (r : ℕ × Pmm)
      → r.0 ≡ (pmm_alloc_page v.pmm).0
      → Outcome v.pmm 0 r
      → MapsFresh v virt (given r)
  given-MapsFresh (phys, pmm) e (inr ex) =
      let null : (phys == 0) ≡ true = ground (arith, ex.null) in
      rw (null, ex.same) ((level, ok), inl (refl, refl, sym e ∙ ex.null))
  given-MapsFresh (phys, pmm) e (inl (k, al)) =
      let nonzero : (phys == 0) ≡ false = ground (arith, al.not_null) in
      let v1 : Vmm = record v { pmm = record v.pmm { bitmap = bitmap_set v.pmm.bitmap k } } in
      let done : given (phys, pmm) ≡ (true, vmm_map virt phys flags v1) =
        rw (nonzero, al.marked) refl in
      let reach = ok.reach k phys al.address in
      let (valid, out) =
        vmm_map_lem v1 level (marked-IsValid v level k ok) virt phys flags reach.0
          (omega (arith, reach)) small odd in
      subst (MapsFresh v virt) (sym done) (
        valid,
        inr (
          refl,
          (k, rw (sym e) al.address, al.free),
          outcome phys e (vmm_map virt phys flags v1) (bitmap_set v.pmm.bitmap k) out,
        ),
      )

  -- `vmm_alloc_page` with flags below 4096 that have the present bit keeps the page tables valid. It returns false
  -- only if no page is left, and then changes nothing. If it returns true, the page that it took was
  -- free, and either it maps that page at the address and changes no other translation, or no page was
  -- left for a table and nothing is mapped, although it returns true.
  pub vmm_alloc_page_lem : MapsFresh v virt (vmm_alloc_page virt flags v)
  unfolding vmm_alloc_page
  vmm_alloc_page_lem = given-MapsFresh (pmm_alloc_page v.pmm) refl (pmm_alloc_page_lem v.pmm ok.pmm)
