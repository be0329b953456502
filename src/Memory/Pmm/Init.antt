-- ===== src/Memory/Pmm/Init.antt =====
-- `pmm_init` of kernel/src/memory/pmm.c: the bitmap after the boot, and where it is stored.
use bethany.Prelude.{
  ℕ, zero, suc, ◌+◌, ◌-◌, ◌*◌, ◌/◌, ◌^◌, ◌≤◌, ◌<◌, ◌≡◌, true, false, refl, List, [], ◌∷◌, ◌==◌,
  none, some, arith, inl, inr, Bool-cases, Option-cases, lt→ltb, if◌then◌else◌, ltb, wrap64,
  bit_and, ◌∙◌,
}
use Prim.Native.Nat.{bit_and-bitwise}
use mathlib.Core.Path.{subst}
use bethany.Memory.Regions.{MemoryRegion}
use bethany.Memory.Pmm.{
  PmmRegion, Pmm, page_size, bitmap_test, page_address, usable_regions, count_pages, bitmap_region,
  zero_bytes, reserve_pages, bitmap_pages, pmm_init,
}
use bethany.Memory.Pmm.Bitmap.{in_use, IsBytes, bitmap_set-IsBytes, in_use-bitmap_set}
use bethany.Memory.Pmm.Address.{WellPlaced, total_pages, end_of}
use bethany.Memory.Pmm.Alloc.{IsValid}

zero_bytes_lem : (n : ℕ) (m : ℕ → ℕ) (i : ℕ) → zero_bytes n m i ≡ (if ltb i n then 0 else m i)
unfolding zero_bytes
zero_bytes_lem zero m i = ground arith
zero_bytes_lem (suc n) m i = ground (arith, zero_bytes_lem n m i)

zero-bit_and : (b : ℕ) → bit_and 0 b ≡ 0
zero-bit_and b = bit_and-bitwise 0 b

-- A cleared byte marks none of its eight pages.
in_use-zero_bytes : (n : ℕ) (m : ℕ → ℕ) (j : ℕ) → j / 8 < n → in_use (zero_bytes n m) j ≡ false
unfolding bitmap_test
in_use-zero_bytes n m j h = rw (cleared, zero-bit_and) refl
  where
    cleared : zero_bytes n m (j / 8) ≡ 0
    cleared = ground (arith, zero_bytes_lem n m (j / 8))

zero_bytes-IsBytes : (n : ℕ) (m : ℕ → ℕ) → IsBytes m → IsBytes (zero_bytes n m)
zero_bytes-IsBytes n m b i = ground (arith, zero_bytes_lem n m i, b i)

reserve_pages-IsBytes : (n : ℕ) (m : ℕ → ℕ) → IsBytes m → IsBytes (reserve_pages n m)
unfolding reserve_pages
reserve_pages-IsBytes zero m b = b
reserve_pages-IsBytes (suc n) m b =
    bitmap_set-IsBytes (reserve_pages n m) (reserve_pages-IsBytes n m b) n

in_use-reserve_pages :
    (n : ℕ) (m : ℕ → ℕ) (j : ℕ)
    → IsBytes m
    → in_use (reserve_pages n m) j ≡ (if ltb j n then true else in_use m j)
unfolding reserve_pages
in_use-reserve_pages zero m j b = ground arith
in_use-reserve_pages (suc n) m j b =
    in_use-bitmap_set (reserve_pages n m) (reserve_pages-IsBytes n m b) n j
    ∙ ground (arith, in_use-reserve_pages n m j b)

count_pages_lem :
    (start : ℕ) (rs : List PmmRegion)
    → start + total_pages rs < 2 ^ 64
    → count_pages start rs ≡ start + total_pages rs
unfolding count_pages
count_pages_lem start [] h = omega arith
count_pages_lem start (r ∷ rs) h =
    omega (arith, count_pages_lem (wrap64 (start + r.pages)) rs (omega arith))

-- The pages of the region that the bitmap is placed in.
abbrev pub first_pages : List PmmRegion → ℕ
first_pages [] = 0
first_pages (r ∷ rs) = if r.pages == 0 then first_pages rs else r.pages

-- No region reaches the end of the address space in the direct map either.
abbrev pub Reachable : ℕ → List PmmRegion → Type 0
Reachable hhdm [] = Unit
Reachable hhdm (r ∷ rs) = (end_of r + hhdm < 2 ^ 64) × Reachable hhdm rs

first_pages-le : (rs : List PmmRegion) → first_pages rs ≤ total_pages rs
first_pages-le [] = omega arith
first_pages-le (r ∷ rs) = ground (arith, first_pages-le rs)

-- The first pages of that region have the first numbers.
page_address-bitmap_region :
    (rs : List PmmRegion) (k base : ℕ)
    → WellPlaced rs
    → bitmap_region rs ≡ some base
    → k < first_pages rs
    → page_address rs k ≡ some (base + k * page_size)
unfolding bitmap_region page_address
page_address-bitmap_region [] k base w e h = absurd (omega arith)
page_address-bitmap_region (r ∷ rs) k base w e h = elim (Bool-cases (r.pages == 0)) [
  | inl none_here ↦
      let rest : bitmap_region rs ≡ some base = ground arith in
      let here : k - r.pages ≡ k = ground arith in
      rw here (ground (arith, page_address-bitmap_region rs k base w.3 rest))
  | inr some_here ↦ ground arith
]

module _ (hhdm : ℕ) (memory : ℕ → ℕ) (regions : List MemoryRegion) where
  abbrev rs : List PmmRegion
  rs = usable_regions regions

  abbrev size : ℕ
  size = wrap64 (count_pages 0 rs + 7) / 8

  -- What `pmm_init` builds when the bitmap is placed at `base`.
  abbrev built : ℕ → Pmm
  built base = record {
    usable = rs;
    bitmap = reserve_pages (bitmap_pages size) (zero_bytes size memory);
    page_count = count_pages 0 rs;
    bitmap_size = size;
    bitmap_phys = base;
  }

  pmm_init-built :
      (base : ℕ)
      → bitmap_region rs ≡ some base
      → (wrap64 (base + hhdm) == 0) ≡ false
      → pmm_init hhdm memory regions ≡ some (built base)
  unfolding pmm_init
  pmm_init-built base e ne = rw (e, ne, pmm_init) refl

  built_of_pmm_init :
      (p : Pmm)
      → pmm_init hhdm memory regions ≡ some p
      → (base : ℕ) × (bitmap_region rs ≡ some base) × (built base ≡ p)
  built_of_pmm_init p e = elim (Option-cases (bitmap_region rs)) [
    | inl halted ↦ cc (stops halted)
    | inr (base, at) ↦ elim (Bool-cases (wrap64 (base + hhdm) == 0)) [
      | inl null ↦ cc (stops_null base at null)
      | inr ne ↦ (base, at, cc (pmm_init-built base at ne))
    ]
  ]
    where
      stops_null :
          (base : ℕ)
          → bitmap_region rs ≡ some base
          → (wrap64 (base + hhdm) == 0) ≡ true
          → pmm_init hhdm memory regions ≡ none
      stops_null base h null = unfold pmm_init in rw (h, null, pmm_init) refl

      stops : bitmap_region rs ≡ none → pmm_init hhdm memory regions ≡ none
      stops h = unfold pmm_init in rw (h, pmm_init) refl

  in_use-built :
      (j : ℕ)
      → IsBytes memory
      → total_pages rs < 2 ^ 52
      → j < count_pages 0 rs
      → in_use (reserve_pages (bitmap_pages size) (zero_bytes size memory)) j
        ≡ ltb j (bitmap_pages size)
  in_use-built j b small h =
      in_use-reserve_pages (bitmap_pages size) (zero_bytes size memory) j
        (zero_bytes-IsBytes size memory b)
      ∙ ground (
        arith,
        in_use-zero_bytes size memory j (omega (arith, count_pages_lem 0 rs (omega arith))),
      )

  built-IsValid :
      (base : ℕ)
      → IsBytes memory
      → WellPlaced (usable_regions regions)
      → total_pages (usable_regions regions) < 2 ^ 52
      → IsValid (built base)
  built-IsValid base b w small = record {
    bytes = reserve_pages-IsBytes _ _ (zero_bytes-IsBytes size memory b);
    placed = w;
    counted = count_pages_lem 0 rs (omega arith) ∙ omega arith;
  }

  -- Whatever allocator `pmm_init` returns is valid, and hands out pages of the usable regions.
  pub pmm_init_made :
      (p : Pmm)
      → IsBytes memory
      → WellPlaced (usable_regions regions)
      → total_pages (usable_regions regions) < 2 ^ 52
      → pmm_init hhdm memory regions ≡ some p
      → IsValid p × (p.usable ≡ usable_regions regions)
  pmm_init_made p b w small e =
      let (base, at, eq) = built_of_pmm_init p e in
      subst (λ (q : Pmm). IsValid q × (q.usable ≡ usable_regions regions)) eq
        (built-IsValid base b w small, refl)

  -- Where the region that the bitmap is placed in has room for it, every byte of the bitmap lies in
  -- a page of that region that `pmm_init` reserved.
  pub pmm_init_storage :
      (p : Pmm)
      → IsBytes memory
      → WellPlaced (usable_regions regions)
      → total_pages (usable_regions regions) < 2 ^ 52
      → pmm_init hhdm memory regions ≡ some p
      → bitmap_pages p.bitmap_size ≤ first_pages (usable_regions regions)
      → (i : ℕ) → i < p.bitmap_size
      → (in_use p.bitmap (i / page_size) ≡ true)
        × (page_address p.usable (i / page_size) ≡ some (p.bitmap_phys + i / page_size * page_size))
  pmm_init_storage p b w small e fits i h =
      let (base, at, eq) = built_of_pmm_init p e in
      subst
        (λ (q : Pmm).
          bitmap_pages q.bitmap_size ≤ first_pages rs
          → i < q.bitmap_size
          → (in_use q.bitmap (i / page_size) ≡ true)
            × (page_address q.usable (i / page_size)
                ≡ some (q.bitmap_phys + i / page_size * page_size)))
        eq
        (λ fits h. (
          in_use-built (i / page_size) b small (inside fits h) ∙ lt→ltb _ _ (page h),
          page_address-bitmap_region rs (i / page_size) base w at (omega (arith, page h, fits)),
        ))
        fits h
    where
      count : count_pages 0 rs ≡ total_pages rs
      count = count_pages_lem 0 rs (omega arith) ∙ omega arith

      page : i < size → i / page_size < bitmap_pages size
      page h = unfold bitmap_pages in omega (arith, count)

      inside : bitmap_pages size ≤ first_pages rs → i < size → i / page_size < count_pages 0 rs
      inside fits h = omega (arith, count, page h, first_pages-le rs)
