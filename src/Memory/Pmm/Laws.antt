-- ===== src/Memory/Pmm/Laws.antt =====
-- What the callers of kernel/src/memory/pmm.c rely on: the invariant, freshness of the pages handed
-- out, and freeing as the inverse of allocation.
use bethany.Prelude.{
  ℕ, ◌<◌, ◌≡◌, ◌≢◌, Option, refl, ◌==◌, none, some, arith, inl, inr, Bool-cases, ◌∙◌, sym, ap,
}
use mathlib.Core.Path.{subst}
use bethany.Memory.Pmm.{Pmm, bitmap_set, page_index, page_address, pmm_alloc_page, pmm_free_page}
use bethany.Memory.Pmm.{bitmap_clear}
use bethany.Memory.Pmm.Bitmap.{
  in_use, bitmap_set-IsBytes, bitmap_clear-IsBytes, in_use-bitmap_set, in_use-bitmap_clear,
}
use bethany.Memory.Pmm.Address.{page_index-page_address}
use bethany.Memory.Pmm.Alloc.{IsValid, Outcome, pmm_alloc_page_lem}

pub set-IsValid :
    (p : Pmm) (k : ℕ) → IsValid p → IsValid (record p { bitmap = bitmap_set p.bitmap k })
set-IsValid p k v = record {
  bytes = bitmap_set-IsBytes p.bitmap v.bytes k;
  placed = v.placed;
  counted = v.counted;
}

Outcome-IsValid : (p : Pmm) (r : ℕ × Pmm) → IsValid p → Outcome p 0 r → IsValid r.1
Outcome-IsValid p (a, p') v (inl (k, al)) = subst IsValid (sym al.marked) (set-IsValid p k v)
Outcome-IsValid p (a, p') v (inr ex) = subst IsValid (sym ex.same) v

-- `pmm_alloc_page` keeps the invariant.
pub pmm_alloc_page-IsValid : (p : Pmm) → IsValid p → IsValid (pmm_alloc_page p).1
pmm_alloc_page-IsValid p v = Outcome-IsValid p (pmm_alloc_page p) v (pmm_alloc_page_lem p v)

-- `pmm_free_page` keeps the invariant, whatever the address.
pub pmm_free_page-IsValid : (p : Pmm) (page : ℕ) → IsValid p → IsValid (pmm_free_page p page)
unfolding pmm_free_page
pmm_free_page-IsValid p page v = elim (Bool-cases (page == 0)) [
  | inl null ↦ rw null v
  | inr some_page ↦ rw some_page (go (page_index p.usable page 0))
]
  where
    go :
        (found : Option ℕ)
        → IsValid (elim found [ none ↦ p | some i ↦ record p { bitmap = bitmap_clear p.bitmap i } ])
    go none = v
    go (some i) = record {
      bytes = bitmap_clear-IsBytes p.bitmap v.bytes i;
      placed = v.placed;
      counted = v.counted;
    }

-- Freeing the address of page `k` clears the bit of that page.
pub pmm_free_page_lem :
    (p : Pmm) (k a : ℕ)
    → IsValid p
    → 0 < a
    → page_address p.usable k ≡ some a
    → pmm_free_page p a ≡ record p { bitmap = bitmap_clear p.bitmap k }
unfolding pmm_free_page
pmm_free_page_lem p k a v pos at = ground (arith, page_index-page_address p.usable k 0 v.placed at)

-- Freeing a page that was just allocated gives every page the state that it had, and changes only
-- the bitmap.
pub pmm_free_page-pmm_alloc_page :
    (p : Pmm)
    → IsValid p
    → (pmm_alloc_page p).0 ≢ 0
    → let (a, p') = pmm_alloc_page p in
      let back = pmm_free_page p' a in
      ((j : ℕ) → in_use back.bitmap j ≡ in_use p.bitmap j)
      × (back ≡ record p { bitmap = back.bitmap })
pmm_free_page-pmm_alloc_page p v some_page =
    go (pmm_alloc_page p) (pmm_alloc_page_lem p v) some_page
  where
    go :
        (r : ℕ × Pmm)
        → Outcome p 0 r
        → r.0 ≢ 0
        → ((j : ℕ) → in_use (pmm_free_page r.1 r.0).bitmap j ≡ in_use p.bitmap j)
          × (pmm_free_page r.1 r.0 ≡ record p { bitmap = (pmm_free_page r.1 r.0).bitmap })
    go (a, p') (inr ex) ne = absurd (ne ex.null)
    go (a, p') (inl (k, al)) ne =
        let q : Pmm = record p { bitmap = bitmap_set p.bitmap k } in
        let e : pmm_free_page p' a ≡ record p { bitmap = bitmap_clear q.bitmap k } =
          ap (λ x. pmm_free_page x a) al.marked
          ∙ pmm_free_page_lem q k a (set-IsValid p k v) al.not_null al.address in
        rw e (
          λ j. ground (
            arith,
            in_use-bitmap_clear q.bitmap (bitmap_set-IsBytes p.bitmap v.bytes k) k j,
            in_use-bitmap_set p.bitmap v.bytes k j,
            al.free,
          ),
          refl,
        )

pub same_page :
    (p : Pmm) (k m a b : ℕ)
    → IsValid p
    → page_address p.usable k ≡ some a
    → page_address p.usable m ≡ some b
    → a ≡ b
    → k ≡ m
same_page p k m a b v at bt e = ground (
  arith,
  page_index-page_address p.usable k 0 v.placed at,
  page_index-page_address p.usable m 0 v.placed bt,
)

after_set :
    (p : Pmm) (k a : ℕ)
    → IsValid p
    → page_address p.usable k ≡ some a
    → (r : ℕ × Pmm) → Outcome (record p { bitmap = bitmap_set p.bitmap k }) 0 r
    → r.0 ≢ 0
    → a ≢ r.0
after_set p k a v at r (inr ex) ne e = ne ex.null
after_set p k a v at (b, q) (inl (m, bl)) ne e =
    ground (
      arith,
      same_page p k m a b v at bl.address e,
      in_use-bitmap_set p.bitmap v.bytes k m,
      bl.free,
    )

-- A second allocation that succeeds never returns the page of the first.
pub pmm_alloc_page_fresh :
    (p : Pmm)
    → IsValid p
    → let (a, p') = pmm_alloc_page p in let (b, _) = pmm_alloc_page p' in b ≢ 0 → a ≢ b
pmm_alloc_page_fresh p v = go (pmm_alloc_page p) (pmm_alloc_page_lem p v)
  where
    go : (r : ℕ × Pmm) → Outcome p 0 r → (pmm_alloc_page r.1).0 ≢ 0 → r.0 ≢ (pmm_alloc_page r.1).0
    go (a, q) (inr ex) ne = λ e. ne (sym e ∙ ex.null)
    go (a, q) (inl (k, al)) ne =
        let marked : Pmm = record p { bitmap = bitmap_set p.bitmap k } in
        subst (λ x. (pmm_alloc_page x).0 ≢ 0 → a ≢ (pmm_alloc_page x).0) (sym al.marked)
          (after_set p k a v al.address (pmm_alloc_page marked)
            (pmm_alloc_page_lem marked (set-IsValid p k v)))
          ne
