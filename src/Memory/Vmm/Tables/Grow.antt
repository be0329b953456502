-- ===== src/Memory/Vmm/Tables/Grow.antt =====
-- What building tables keeps: `ensure_table` of kernel/src/memory/vmm.c.
use bethany.Prelude.{
  ℕ, suc, ◌+◌, ◌<◌, ◌≡◌, ◌≢◌, ◌⊎◌, List, [], ◌∷◌, true, false, refl, inl, inr, arith, ◌==◌,
  if◌then◌else◌, length, Bool-cases, ◌∙◌, ap, sym, some,
}
use mathlib.Core.Path.{subst}
use bethany.Memory.Pmm.{Pmm, pmm_alloc_page, page_address}
use bethany.Memory.Pmm.Bitmap.{in_use}
use bethany.Memory.Pmm.Alloc.{Outcome, pmm_alloc_page_lem}
use bethany.Memory.Vmm.{Vmm, entry_present, slot, next_table, link_table, ensure_table}
use bethany.Memory.Vmm.Entries.{slot_apart}
use bethany.Memory.Vmm.Tables.{IsValid, Indices, descend, entry_at}
use bethany.Memory.Vmm.Tables.Link
use bethany.Memory.Vmm.Tables.Walk.{
  next_table-absent, next_table-present, next_table-level, entry_at-none, entry_at-cons,
}

-- The tables of `v` are still there in `v'`, in their places, and every entry of a last table that
-- could be reached has kept its value; what could not be reached is still 0.
pub record Grown (v : Vmm) (level : ℕ → ℕ) (v' : Vmm) (level' : ℕ → ℕ) : Type 0 where
  pub valid : IsValid v' level'
  pub root : v'.pml4 ≡ v.pml4
  pub grows : (s : ℕ) → 0 < level s → level' s ≡ level s
  pub edges :
      (s j : ℕ)
      → 1 < level s
      → j < 512
      → entry_present (v.memory (slot s j)) ≡ true
      → next_table v' s j ≡ next_table v s j
  pub entries :
      (s : ℕ) (js : List ℕ) (j : ℕ)
      → Indices js
      → j < 512
      → level s ≡ suc (length js)
      → entry_at v' s js j ≡ entry_at v s js j

pub Grown-refl : {v : Vmm} {level : ℕ → ℕ} → IsValid v level → Grown v level v level
Grown-refl ok = record {
  valid = ok;
  root = refl;
  grows = λ s h. refl;
  edges = λ s j h hj there. refl;
  entries = λ s js j hs hj e. refl;
}

pub Grown-trans :
    {v v' v'' : Vmm} {level level' level'' : ℕ → ℕ}
    → IsValid v level
    → Grown v level v' level'
    → Grown v' level' v'' level''
    → Grown v level v'' level''
Grown-trans {v} {v'} ok a b = record {
  valid = b.valid;
  root = b.root ∙ a.root;
  grows = λ s h. b.grows s (omega (arith, a.grows s h)) ∙ a.grows s h;
  edges = λ s j h hj there.
      let same = a.edges s j h hj there in
      let some_table = (next_table-level ok s j hj h there).1 in
      b.edges s j (omega (arith, a.grows s (omega arith))) hj
        (next_table-present v' s j (rw same some_table))
      ∙ same;
  entries = λ s js j hs hj e.
      b.entries s js j hs hj (a.grows s (omega arith) ∙ e) ∙ a.entries s js j hs hj e;
}

module _ (v : Vmm) (level : ℕ → ℕ) (ok : IsValid v level) (t i : ℕ) (deep : 1 < level t)
    (hi : i < 512) (absent : entry_present (v.memory (slot t i)) ≡ false) (k phys : ℕ)
    (at : page_address v.pmm.usable k ≡ some phys) (pos : 0 < phys)
    (free : in_use v.pmm.bitmap k ≡ false) where
  abbrev linked : Vmm
  linked = Link.linked v level ok t i deep hi absent k phys at pos free

  -- Nothing can be reached from the new table.
  entries-new :
      (js : List ℕ) (j : ℕ) → Indices js → j < 512 → entry_at linked (phys + v.hhdm_offset) js j ≡ 0
  unfolding entry_at descend
  entries-new [] j hs hj =
      let some_table : (phys + v.hhdm_offset == 0) ≡ false = ground arith in
      rw some_table (Link.memory-new v level ok t i deep hi absent k phys at pos free j hj)
  entries-new (i' ∷ js) j hs hj = entry_at-none linked (phys + v.hhdm_offset) i' js j (
      next_table-absent linked (phys + v.hhdm_offset) i'
        (Link.no_edge v level ok t i deep hi absent k phys at pos free i' hs.0))

  entries-old :
      (s : ℕ) (js : List ℕ) (j : ℕ)
      → Indices js
      → j < 512
      → level s ≡ suc (length js)
      → entry_at linked s js j ≡ entry_at v s js j
  unfolding entry_at descend
  entries-old s [] j hs hj e =
      let apart : slot s j ≢ slot t i = λ q. omega (
        arith,
        ap level
            (slot_apart s t j i (ok.placed s (omega arith)).0 (ok.placed t (omega arith)).0 hj hi
              q).0,
      ) in
      rw
        (Link.memory-old v level ok t i deep hi absent k phys at pos free s j (omega arith) hj
          apart)
        refl
  entries-old s (j' ∷ js) j hs hj e = elim (Bool-cases (slot s j' == slot t i)) [
    | inl q ↦
        let (es, ej) =
          slot_apart s t j' i (ok.placed s (omega arith)).0 (ok.placed t (omega arith)).0 hs.0 hi
            (ground arith) in
        rw (es, ej)
          (entry_at-cons linked t i js j (
              rw (Link.next_table-at v level ok t i deep hi absent k phys at pos free)
                (ground arith))
            ∙ ap (λ c. entry_at linked c js j)
                (Link.next_table-at v level ok t i deep hi absent k phys at pos free)
            ∙ entries-new js j hs.1 hj
            ∙ sym (entry_at-none v t i js j (next_table-absent v t i absent)))
    | inr q ↦
        let same : next_table linked s j' ≡ next_table v s j' =
          Link.next_table-old v level ok t i deep hi absent k phys at pos free s j' (omega arith)
            hs.0 (ground arith) in
        elim (Bool-cases (next_table v s j' == 0)) [
          | inl z ↦
              entry_at-none linked s j' js j (same ∙ ground arith)
              ∙ sym (entry_at-none v s j' js j (ground arith))
          | inr some_table ↦
              let child =
                (next_table-level ok s j' hs.0 (omega arith)
                  (next_table-present v s j' some_table)).0 in
              entry_at-cons linked s j' js j (rw same some_table)
              ∙ ap (λ c. entry_at linked c js j) same
              ∙ entries-old (next_table v s j') js j hs.1 hj (omega (arith, child))
              ∙ sym (entry_at-cons v s j' js j some_table)
        ]
  ]

  linked-Grown : Grown v level linked (Link.level' v level ok t i deep hi absent k phys at pos free)
  unfolding link_table
  linked-Grown = record {
    valid = Link.linked-IsValid v level ok t i deep hi absent k phys at pos free;
    root = refl;
    grows = Link.level'-old v level ok t i deep hi absent k phys at pos free;
    edges = λ s j h hj there.
        Link.next_table-old v level ok t i deep hi absent k phys at pos free s j (omega arith) hj
          (not_here s j h hj there);
    entries = entries-old;
  }
    where
      not_here :
          (s j : ℕ)
          → 1 < level s
          → j < 512
          → entry_present (v.memory (slot s j)) ≡ true
          → slot s j ≢ slot t i
      not_here s j h hj there q =
          let same : entry_present (v.memory (slot s j)) ≡ false =
            ap (λ x. entry_present (v.memory x)) q ∙ absent in
          cc

-- `c` is the table at index `i` of `t` afterwards, or no page was left for it.
abbrev pub Ensured : Vmm → (ℕ → ℕ) → ℕ → ℕ → ℕ × Vmm → Type 0
Ensured v level t i (c, v') =
    ((c ≡ 0) × (v' ≡ v) × ((pmm_alloc_page v.pmm).0 ≡ 0))
    ⊎ ((level' : ℕ → ℕ) × Grown v level v' level'
        × (next_table v' t i ≡ c)
        × (suc (level' c) ≡ level t))

module _ (v : Vmm) (level : ℕ → ℕ) (ok : IsValid v level) (t i : ℕ) (deep : 1 < level t)
    (hi : i < 512) where
  there-Ensured :
      entry_present (v.memory (slot t i)) ≡ true → Ensured v level t i (ensure_table t i v)
  unfolding ensure_table
  there-Ensured there =
      rw there (inr (level, Grown-refl ok, refl, (next_table-level ok t i hi deep there).0))

  -- The branch of `ensure_table` that takes a page.
  abbrev built : ℕ × Pmm → ℕ × Vmm
  built (phys, pmm) =
      if phys == 0
      then (0, record v { pmm = pmm })
      else link_table t i phys (record v { pmm = pmm })

  ensure_table-built :
      entry_present (v.memory (slot t i)) ≡ false
      → ensure_table t i v ≡ built (pmm_alloc_page v.pmm)
  unfolding ensure_table
  ensure_table-built absent = rw absent refl

  built-Ensured :
      entry_present (v.memory (slot t i)) ≡ false
      → (r : ℕ × Pmm) → Outcome v.pmm 0 r
      → (r.0 ≡ 0 → (pmm_alloc_page v.pmm).0 ≡ 0)
      → Ensured v level t i (built r)
  built-Ensured absent (phys, p') (inr ex) left =
      rw (ex.null, ex.same) (inl (refl, refl, left ex.null))
  built-Ensured absent (phys, p') (inl (k, al)) left =
      let nonzero : (phys == 0) ≡ false = ground (arith, al.not_null) in
      let e : built (phys, p') ≡ (
        Link.table v level ok t i deep hi absent k phys al.address al.not_null al.free,
        Link.linked v level ok t i deep hi absent k phys al.address al.not_null al.free,
      ) =
        rw (nonzero, al.marked)
          (Link.link_table-linked v level ok t i deep hi absent k phys al.address al.not_null
            al.free) in
      subst (Ensured v level t i) (sym e) (
        inr (
          Link.level' v level ok t i deep hi absent k phys al.address al.not_null al.free,
          linked-Grown v level ok t i deep hi absent k phys al.address al.not_null al.free,
          Link.next_table-at v level ok t i deep hi absent k phys al.address al.not_null al.free,
          Link.child-at v level ok t i deep hi absent k phys al.address al.not_null al.free,
        ))

  pub ensure_table-Ensured : Ensured v level t i (ensure_table t i v)
  ensure_table-Ensured = elim (Bool-cases (entry_present (v.memory (slot t i)))) [
    | inl there ↦ there-Ensured there
    | inr absent ↦
        subst (Ensured v level t i) (sym (ensure_table-built absent))
          (built-Ensured absent (pmm_alloc_page v.pmm) (pmm_alloc_page_lem v.pmm ok.pmm) (λ e. e))
  ]
