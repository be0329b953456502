-- ===== src/Memory/Vmm/Uses.antt =====
-- How kernel/src/memory/vmm.c uses the page allocator: what is in use stays in use, and without a free
-- page nothing is taken.
use bethany.Prelude.{ℕ, ◌≡◌, true, refl, inl, inr, arith, ◌==◌, Bool-cases, ◌∙◌, ap}
use bethany.Memory.Pmm.{Pmm, pmm_alloc_page}
use bethany.Memory.Pmm.Bitmap.{in_use, in_use-bitmap_set}
use bethany.Memory.Pmm.Alloc
use bethany.Memory.Pmm.Laws.{pmm_alloc_page-IsValid}
use bethany.Memory.Vmm.{
  Vmm, entry_present, slot, pml4_index, pdpt_index, pd_index, link_table, ensure_table,
  ensure_tables, vmm_map,
}

-- The allocator `q` is `p` with some more pages in use.
pub record Uses (p q : Pmm) : Type 0 where
  pub usable : q.usable ≡ p.usable
  pub kept : (k : ℕ) → in_use p.bitmap k ≡ true → in_use q.bitmap k ≡ true
  pub valid : Alloc.IsValid q
  -- without a free page in `p` the two are the same
  pub full : (pmm_alloc_page p).0 ≡ 0 → q ≡ p

pub Uses-refl : (p : Pmm) → Alloc.IsValid p → Uses p p
Uses-refl p ok = record { usable = refl; kept = λ k u. u; valid = ok; full = λ e. refl }

pub Uses-trans : {p q r : Pmm} → Uses p q → Uses q r → Uses p r
Uses-trans {p} {q} a b = record {
  usable = b.usable ∙ a.usable;
  kept = λ k u. b.kept k (a.kept k u);
  valid = b.valid;
  full = λ e. b.full (ap (λ x. (pmm_alloc_page x).0) (a.full e) ∙ e) ∙ a.full e;
}

Outcome-Uses :
    (p : Pmm) (r : ℕ × Pmm)
    → Alloc.IsValid p
    → Alloc.IsValid r.1
    → r.0 ≡ (pmm_alloc_page p).0
    → Alloc.Outcome p 0 r
    → Uses p r.1
Outcome-Uses p (a, q) ok ok' e (inr ex) = rw ex.same (Uses-refl p ok)
Outcome-Uses p (a, q) ok ok' e (inl (k, al)) = record {
  usable = ap (λ (x : Pmm). x.usable) al.marked;
  kept = λ j u.
      ap (λ (x : Pmm). in_use x.bitmap j) al.marked
      ∙ ground (arith, in_use-bitmap_set p.bitmap ok.bytes k j, u);
  valid = ok';
  full = λ z. absurd (omega (arith, al.not_null, e, z));
}

pub pmm_alloc_page-Uses : (p : Pmm) → Alloc.IsValid p → Uses p (pmm_alloc_page p).1
pmm_alloc_page-Uses p ok =
    Outcome-Uses p (pmm_alloc_page p) ok (pmm_alloc_page-IsValid p ok) refl
      (Alloc.pmm_alloc_page_lem p ok)

pub ensure_table-Uses :
    (t i : ℕ) (v : Vmm) → Alloc.IsValid v.pmm → Uses v.pmm (ensure_table t i v).1.pmm
unfolding ensure_table link_table
ensure_table-Uses t i v ok =
    let page = pmm_alloc_page v.pmm in
    let taken = pmm_alloc_page-Uses v.pmm ok in
    elim (Bool-cases (entry_present (v.memory (slot t i)))) [
      | inl there ↦ rw there (Uses-refl v.pmm ok)
      | inr absent ↦ elim (Bool-cases (page.0 == 0)) [
        | inl null ↦ rw (absent, null) taken
        | inr some_page ↦ rw (absent, some_page) taken
      ]
    ]

pub ensure_tables-Uses :
    (virt : ℕ) (v : Vmm) → Alloc.IsValid v.pmm → Uses v.pmm (ensure_tables virt v).1.pmm
unfolding ensure_tables
ensure_tables-Uses virt v ok =
    let r1 = ensure_table v.pml4 (pml4_index virt) v in
    let r2 = ensure_table r1.0 (pdpt_index virt) r1.1 in
    let r3 = ensure_table r2.0 (pd_index virt) r2.1 in
    let a = ensure_table-Uses v.pml4 (pml4_index virt) v ok in
    let b = Uses-trans a (ensure_table-Uses r1.0 (pdpt_index virt) r1.1 a.valid) in
    let c = Uses-trans b (ensure_table-Uses r2.0 (pd_index virt) r2.1 b.valid) in
    elim (Bool-cases (r1.0 == 0)) [
      | inl e ↦ rw e a
      | inr e ↦ elim (Bool-cases (r2.0 == 0)) [ inl f ↦ rw (e, f) b | inr f ↦ rw (e, f) c ]
    ]

-- Mapping a page keeps what is in use, and takes nothing if there is no free page.
pub vmm_map-Uses :
    (virt phys flags : ℕ) (v : Vmm)
    → Alloc.IsValid v.pmm
    → Uses v.pmm (vmm_map virt phys flags v).pmm
unfolding vmm_map
vmm_map-Uses virt phys flags v ok =
    let r = ensure_tables virt v in
    let walked = ensure_tables-Uses virt v ok in
    elim (Bool-cases (r.0 == 0)) [ inl e ↦ rw e walked | inr e ↦ rw e walked ]
