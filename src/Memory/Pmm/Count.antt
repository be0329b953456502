-- ===== src/Memory/Pmm/Count.antt =====
-- The free page count that `pmm_print` of kernel/src/memory/pmm.c shows.
use bethany.Prelude.{
  ℕ, zero, suc, ◌<◌, ◌≡◌, ◌≢◌, true, false, some, arith, inl, inr, if◌then◌else◌, Bool-cases, refl,
}
use native.Mathlib.Decide.{ℕ_discrete}
use bethany.Memory.Pmm.{
  Pmm, bitmap_set, bitmap_clear, page_address, pmm_alloc_page, pmm_free_page, free_pages, pmm_print,
}
use bethany.Memory.Pmm.Bitmap.{in_use, in_use-bitmap_set, in_use-bitmap_clear}
use bethany.Memory.Pmm.Alloc.{IsValid, Outcome, pmm_alloc_page_lem}
use bethany.Memory.Pmm.Laws.{pmm_free_page_lem}

-- Two bitmaps that agree on the first `n` pages have as many free ones.
free_pages-agree :
    (n : ℕ) (m m' : ℕ → ℕ)
    → ((j : ℕ) → j < n → in_use m' j ≡ in_use m j)
    → free_pages n m' ≡ free_pages n m
unfolding free_pages
free_pages-agree zero m m' h = omega arith
free_pages-agree (suc n) m m' h =
    ground (arith, h n (omega arith), free_pages-agree n m m' (λ j lt. h j (omega arith)))

-- Where a bitmap marks one more page than another, it has one free page less.
free_pages-mark :
    (n k : ℕ) (m m' : ℕ → ℕ)
    → k < n
    → in_use m k ≡ false
    → in_use m' k ≡ true
    → ((j : ℕ) → k ≢ j → in_use m' j ≡ in_use m j)
    → free_pages n m ≡ suc (free_pages n m')
unfolding free_pages
free_pages-mark zero k m m' lt free used same = absurd (omega arith)
free_pages-mark (suc n) k m m' lt free used same = elim (ℕ_discrete k n) [
  | yes e ↦
      let free' : in_use m n ≡ false = rw (← e) free in
      let used' : in_use m' n ≡ true = rw (← e) used in
      ground (arith, free_pages-agree n m m' (λ j lt. same j (omega arith)))
  | no ne ↦ ground (arith, same n ne, free_pages-mark n k m m' (omega arith) free used same)
]

free_pages-full : (n : ℕ) (m : ℕ → ℕ) → ((j : ℕ) → j < n → in_use m j ≡ true) → free_pages n m ≡ 0
unfolding free_pages
free_pages-full zero m h = omega arith
free_pages-full (suc n) m h =
    ground (arith, h n (omega arith), free_pages-full n m (λ j lt. h j (omega arith)))

-- What an allocation that ends in this pair does to the count.
abbrev Counts : Pmm → ℕ × Pmm → Type 0
Counts p (a, p') =
    (a ≢ 0 → (pmm_print p).free ≡ suc (pmm_print p').free)
    × (a ≡ 0 → ((pmm_print p).free ≡ 0) × ((pmm_print p').free ≡ 0))

free-Outcome : (p : Pmm) (r : ℕ × Pmm) → IsValid p → Outcome p 0 r → Counts p r
unfolding pmm_print
free-Outcome p (a, p') v (inr ex) =
    let none_left = free_pages-full p.page_count p.bitmap (λ j lt. ex.full j (omega arith) lt) in
    (λ ne. absurd (ne ex.null), λ e. (none_left, rw ex.same none_left))
free-Outcome p (a, p') v (inl (k, al)) = (
  λ ne. rw al.marked (
      free_pages-mark p.page_count k p.bitmap (bitmap_set p.bitmap k) al.below al.free
        (ground (arith, in_use-bitmap_set p.bitmap v.bytes k k))
        (λ j ne. ground (arith, in_use-bitmap_set p.bitmap v.bytes k j))),
  λ e. absurd (omega (arith, al.not_null)),
)

-- A successful `pmm_alloc_page` takes exactly one page from the free count that `pmm_print` shows;
-- when it returns null the count is 0 before and after.
pub free-pmm_alloc_page :
    (p : Pmm)
    → IsValid p
    → let (a, p') = pmm_alloc_page p in
      (a ≢ 0 → (pmm_print p).free ≡ suc (pmm_print p').free)
      × (a ≡ 0 → ((pmm_print p).free ≡ 0) × ((pmm_print p').free ≡ 0))
free-pmm_alloc_page p v = free-Outcome p (pmm_alloc_page p) v (pmm_alloc_page_lem p v)

-- Freeing the address of a page in use gives exactly one page back to the count; freeing that of a
-- page that is already free leaves the count as it is.
pub free-pmm_free_page :
    (p : Pmm) (k a : ℕ)
    → IsValid p
    → 0 < a
    → k < p.page_count
    → page_address p.usable k ≡ some a
    → (pmm_print (pmm_free_page p a)).free
      ≡ (if in_use p.bitmap k then suc (pmm_print p).free else (pmm_print p).free)
unfolding pmm_print
free-pmm_free_page p k a v pos lt at =
    rw (pmm_free_page_lem p k a v pos at) (elim (Bool-cases (in_use p.bitmap k)) [
      | inl used ↦ rw used (
          free_pages-mark p.page_count k (bitmap_clear p.bitmap k) p.bitmap lt (cleared k refl) used
            (λ j ne. ground (arith, in_use-bitmap_clear p.bitmap v.bytes k j)))
      | inr free ↦ rw free (
          free_pages-agree p.page_count p.bitmap (bitmap_clear p.bitmap k)
            (λ j lt. ground (arith, free, in_use-bitmap_clear p.bitmap v.bytes k j)))
    ])
  where
    cleared : (j : ℕ) → k ≡ j → in_use (bitmap_clear p.bitmap k) j ≡ false
    cleared j e = ground (arith, in_use-bitmap_clear p.bitmap v.bytes k j)
