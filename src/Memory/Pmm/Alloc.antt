-- ===== src/Memory/Pmm/Alloc.antt =====
-- `pmm_alloc_page` and `pmm_free_page` of kernel/src/memory/pmm.c.
use bethany.Prelude.{
  ℕ, zero, suc, ◌+◌, ◌≤◌, ◌<◌, ◌≡◌, ◌⊎◌, true, false, refl, ◌==◌, some, arith, inl, inr, Bool-cases,
  sym, if◌then◌else◌,
}
use mathlib.Core.Path.{subst}
use bethany.Memory.Pmm.{Pmm, bitmap_set, page_address, alloc_loop, pmm_alloc_page}
use bethany.Memory.Pmm.Bitmap.{in_use, IsBytes, in_use-bitmap_set}
use bethany.Memory.Pmm.Address.{WellPlaced, total_pages, PageAt, page_address-some}

pub record IsValid (p : Pmm) : Type 0 where
  pub bytes : IsBytes p.bitmap
  pub placed : WellPlaced p.usable
  pub counted : p.page_count ≡ total_pages p.usable

-- `k` is the lowest free page from `lo` on, and `a` is where it begins; it is in use afterwards, every
-- other page is as before, and nothing but the bitmap changes.
pub record Allocates (p : Pmm) (lo : ℕ) (a : ℕ) (p' : Pmm) (k : ℕ) : Type 0 where
  pub from : lo ≤ k
  pub below : k < p.page_count
  pub address : page_address p.usable k ≡ some a
  pub not_null : 0 < a
  pub free : in_use p.bitmap k ≡ false
  pub lowest : (j : ℕ) → lo ≤ j → j < k → in_use p.bitmap j ≡ true
  pub marked : p' ≡ record p { bitmap = bitmap_set p.bitmap k }
  pub begins : PageAt p.usable k a
  pub taken : (j : ℕ) → in_use p'.bitmap j ≡ (if k == j then true else in_use p.bitmap j)

pub record Exhausted (p : Pmm) (lo : ℕ) (a : ℕ) (p' : Pmm) : Type 0 where
  pub null : a ≡ 0
  pub full : (j : ℕ) → lo ≤ j → j < p.page_count → in_use p.bitmap j ≡ true
  pub same : p' ≡ p

abbrev pub Outcome : Pmm → ℕ → ℕ × Pmm → Type 0
Outcome p lo (a, p') = ((k : ℕ) × Allocates p lo a p' k) ⊎ Exhausted p lo a p'

module _ (n i : ℕ) (p : Pmm) where
  alloc_loop_used : in_use p.bitmap i ≡ true → alloc_loop (suc n) i p ≡ alloc_loop n (i + 1) p
  unfolding alloc_loop
  alloc_loop_used used = ground arith

  alloc_loop_free :
      {a : ℕ}
      → in_use p.bitmap i ≡ false
      → page_address p.usable i ≡ some a
      → alloc_loop (suc n) i p ≡ (a, record p { bitmap = bitmap_set p.bitmap i })
  unfolding alloc_loop
  alloc_loop_free free at = ground arith

  -- A page in use is passed over.
  Outcome-used : {r : ℕ × Pmm} → in_use p.bitmap i ≡ true → Outcome p (i + 1) r → Outcome p i r
  Outcome-used used (inl (k, al)) = inl (
    k,
    record {
      from = omega (arith, al.from);
      below = al.below;
      address = al.address;
      not_null = al.not_null;
      free = al.free;
      lowest = λ j lo hi. elim (Bool-cases (i == j)) [
        | inl e ↦ ground arith
        | inr ne ↦ al.lowest j (ground arith) hi
      ];
      marked = al.marked;
      begins = al.begins;
      taken = al.taken;
    },
  )
  Outcome-used used (inr ex) = inr (record {
    null = ex.null;
    full = λ j lo hi. elim (Bool-cases (i == j)) [
      | inl e ↦ ground arith
      | inr ne ↦ ex.full j (ground arith) hi
    ];
    same = ex.same;
  })

alloc_loop_lem :
    (n i : ℕ) (p : Pmm) → IsValid p → i + n ≡ p.page_count → Outcome p i (alloc_loop n i p)
unfolding alloc_loop
alloc_loop_lem zero i p v e =
    inr (record { null = refl; full = λ j lo hi. absurd (omega arith); same = refl })
alloc_loop_lem (suc n) i p v e = elim (Bool-cases (in_use p.bitmap i)) [
  | inr free ↦
      let (a, at, pos, place) = page_address-some p.usable i v.placed (omega (arith, v.counted)) in
      subst (Outcome p i) (sym (alloc_loop_free n i p free at)) (
        inl (
          i,
          record {
            from = omega arith;
            below = omega arith;
            address = at;
            not_null = pos;
            free = free;
            lowest = λ j lo hi. absurd (omega arith);
            marked = refl;
            begins = place;
            taken = λ j. in_use-bitmap_set p.bitmap v.bytes i j;
          },
        ))
  | inl used ↦
      subst (Outcome p i) (sym (alloc_loop_used n i p used))
        (Outcome-used n i p used (alloc_loop_lem n (i + 1) p v (omega arith)))
]

-- On a valid allocator `pmm_alloc_page` returns the address of the lowest free page, which is not null:
-- the pages are counted through the regions in their order and have 4096 bytes. That page is in use
-- afterwards, every other page is as before, and nothing but the bitmap changes; when no page is free
-- it returns null and changes nothing.
pub pmm_alloc_page_lem : (p : Pmm) → IsValid p → Outcome p 0 (pmm_alloc_page p)
unfolding pmm_alloc_page
pmm_alloc_page_lem p v = alloc_loop_lem p.page_count 0 p v (omega arith)
