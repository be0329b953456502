-- ===== src/Memory/Vmm/Tables/Reach.antt =====
-- The walk of kernel/src/memory/vmm.c that builds the tables that are missing on the way.
use bethany.Prelude.{
  ℕ, suc, ◌<◌, ◌≡◌, ◌⊎◌, List, [], ◌∷◌, false, refl, inl, inr, arith, ◌==◌, if◌then◌else◌, length,
  Bool-cases, ◌∙◌, ap, sym,
}
use mathlib.Core.Path.{subst}
use bethany.Memory.Pmm.{pmm_alloc_page}
use bethany.Memory.Vmm.{
  Vmm, next_table, ensure_table, ensure_tables, pml4_index, pdpt_index, pd_index,
}
use bethany.Memory.Vmm.Tables.{IsValid, Indices, descend}
use bethany.Memory.Vmm.Tables.Grow.{Grown, Grown-refl, Grown-trans, Ensured, ensure_table-Ensured}
use bethany.Memory.Vmm.Tables.Walk.{next_table-present, descend-cons}

-- `ensure_table` at one index after the other.
unfoldable pub ensure_path : ℕ → List ℕ → Vmm → ℕ × Vmm
ensure_path t [] v = (t, v)
ensure_path t (i ∷ is) v =
    let r = ensure_table t i v in
    let rest = ensure_path r.0 is r.1 in if r.0 == 0 then (0, r.1) else rest

abbrev pub indices : ℕ → List ℕ
indices virt = pml4_index virt ∷ pdpt_index virt ∷ pd_index virt ∷ []

-- The test of the last table changes nothing.
last_test :
    (x y : ℕ) (v1 v2 : Vmm) (r : ℕ × Vmm)
    → (if x == 0 then (0, v1) else if y == 0 then (0, v2) else r)
      ≡ (if x == 0 then (0, v1) else if y == 0 then (0, v2) else if r.0 == 0 then (0, r.1) else r)
last_test x y v1 v2 (c, v3) = elim (Bool-cases (c == 0)) [
  | inl e ↦ let z : c ≡ 0 = ground arith in rw z refl
  | inr e ↦ rw e refl
]

pub ensure_tables-ensure_path :
    (virt : ℕ) (v : Vmm) → ensure_tables virt v ≡ ensure_path v.pml4 (indices virt) v
unfolding ensure_tables ensure_path
ensure_tables-ensure_path virt v =
    let r1 : ℕ × Vmm = ensure_table v.pml4 (pml4_index virt) v in
    let r2 : ℕ × Vmm = ensure_table r1.0 (pdpt_index virt) r1.1 in
    let r3 : ℕ × Vmm = ensure_table r2.0 (pd_index virt) r2.1 in last_test r1.0 r2.0 r1.1 r2.1 r3

-- The tables have grown, and the walk ends in a last table, unless no page was left.
abbrev pub Reached : Vmm → (ℕ → ℕ) → ℕ → List ℕ → ℕ × Vmm → Type 0
Reached v level t is (c, v') =
    (level' : ℕ → ℕ) × Grown v level v' level'
    × (((c ≡ 0) × ((pmm_alloc_page v'.pmm).0 ≡ 0)) ⊎ ((descend v' t is ≡ c) × (level' c ≡ 1)))

-- One more step in front of a walk.
step-Reached :
    {v : Vmm} {level level1 : ℕ → ℕ}
    → IsValid v level
    → (t i : ℕ) (is : List ℕ) (c : ℕ) (v1 : Vmm) → i < 512
    → 1 < level t
    → Grown v level v1 level1
    → next_table v1 t i ≡ c
    → 0 < c
    → (r : ℕ × Vmm) → Reached v1 level1 c is r
    → Reached v level t (i ∷ is) r
step-Reached {v} {level} {level1} ok t i is c v1 hi deep grown here pos (c', v2)
      (level2, more, out) =
    (level2, Grown-trans ok grown more, go out)
  where
    still : next_table v2 t i ≡ c
    still =
        more.edges t i (omega (arith, grown.grows t (omega arith))) hi
          (next_table-present v1 t i (rw here (ground arith)))
        ∙ here

    go :
        ((c' ≡ 0) × ((pmm_alloc_page v2.pmm).0 ≡ 0)) ⊎ ((descend v2 c is ≡ c') × (level2 c' ≡ 1))
        → ((c' ≡ 0) × ((pmm_alloc_page v2.pmm).0 ≡ 0))
          ⊎ ((descend v2 t (i ∷ is) ≡ c') × (level2 c' ≡ 1))
    go (inl none_left) = inl none_left
    go (inr (d, l)) =
        inr (
          descend-cons v2 t i is (rw still (ground arith)) ∙ ap (λ x. descend v2 x is) still ∙ d,
          l,
        )

pub ensure_path-Reached :
    (v : Vmm) (level : ℕ → ℕ) (t : ℕ) (is : List ℕ)
    → IsValid v level
    → Indices is
    → level t ≡ suc (length is)
    → Reached v level t is (ensure_path t is v)
unfolding ensure_path descend
ensure_path-Reached v level t [] ok hi e = (level, Grown-refl ok, inr (refl, e))
ensure_path-Reached v level t (i ∷ is) ok hi e =
    go (ensure_table t i v) (ensure_table-Ensured v level ok t i (omega arith) hi.0)
      (λ level1 ok1 e1.
        ensure_path-Reached (ensure_table t i v).1 level1 (ensure_table t i v).0 is ok1 hi.1 e1)
  where
    go :
        (r : ℕ × Vmm)
        → Ensured v level t i r
        → ((level1 : ℕ → ℕ)
            → IsValid r.1 level1
            → level1 r.0 ≡ suc (length is)
            → Reached r.1 level1 r.0 is (ensure_path r.0 is r.1))
        → Reached v level t (i ∷ is) (if r.0 == 0 then (0, r.1) else ensure_path r.0 is r.1)
    go (c, v1) (inl (z, same, full)) ih = rw (z, same) (level, Grown-refl ok, inl (refl, full))
    go (c, v1) (inr (level1, grown, here, child)) ih =
        let pos : 0 < c = (grown.valid.placed c (omega (arith, child, e))).1 in
        let nonzero : (c == 0) ≡ false = ground arith in
        let onward : (if c == 0 then (0, v1) else ensure_path c is v1) ≡ ensure_path c is v1 =
          rw nonzero refl in
        subst (Reached v level t (i ∷ is)) (sym onward) (
          step-Reached ok t i is c v1 hi.0 (omega arith) grown here pos (ensure_path c is v1)
            (ih level1 grown.valid (omega (arith, child, e))))
