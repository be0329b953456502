-- ===== src/Memory/Vmm/Tables/Walk.antt =====
-- The walk through the page tables of kernel/src/memory/vmm.c, one level at a time.
use bethany.Prelude.{
  ℕ, suc, ◌<◌, ◌≡◌, ◌≢◌, List, [], ◌∷◌, true, false, refl, inl, inr, arith, ◌==◌, length,
  Bool-cases, ◌∙◌, sym,
}
use bethany.Memory.Vmm.{Vmm, entry_present, slot, next_table}
use bethany.Memory.Vmm.Tables.{IsValid, Indices, descend, entry_at}

module _ (v : Vmm) (s i : ℕ) where
  pub next_table-absent : entry_present (v.memory (slot s i)) ≡ false → next_table v s i ≡ 0
  unfolding next_table
  next_table-absent e = rw e refl

  pub next_table-present :
      (next_table v s i == 0) ≡ false → entry_present (v.memory (slot s i)) ≡ true
  unfolding next_table
  next_table-present e = elim (Bool-cases (entry_present (v.memory (slot s i)))) [
    | inl there ↦ there
    | inr absent ↦ let z : next_table v s i ≡ 0 = next_table-absent absent in ground arith
  ]

  pub descend-cons :
      (is : List ℕ)
      → (next_table v s i == 0) ≡ false
      → descend v s (i ∷ is) ≡ descend v (next_table v s i) is
  unfolding descend
  descend-cons is e = rw e refl

  pub entry_at-none : (is : List ℕ) (j : ℕ) → next_table v s i ≡ 0 → entry_at v s (i ∷ is) j ≡ 0
  unfolding entry_at descend
  entry_at-none is j e = rw e refl

  pub entry_at-cons :
      (is : List ℕ) (j : ℕ)
      → (next_table v s i == 0) ≡ false
      → entry_at v s (i ∷ is) j ≡ entry_at v (next_table v s i) is j
  unfolding entry_at
  entry_at-cons is j e = rw (descend-cons is e) refl

-- A present entry of a valid table leads to a table of the next lower level, which is not null.
pub next_table-level :
    {v : Vmm} {level : ℕ → ℕ}
    → IsValid v level
    → (s i : ℕ) → i < 512
    → 1 < level s
    → entry_present (v.memory (slot s i)) ≡ true
    → (suc (level (next_table v s i)) ≡ level s) × ((next_table v s i == 0) ≡ false)
next_table-level {v} {level} ok s i hi deep there =
    let child = ok.children s i hi deep there in
    (child, ground (arith, ok.placed (next_table v s i) (omega arith)))

-- Two walks of the same length that end in the same table are the same walk.
pub descend_unique :
    {v : Vmm} {level : ℕ → ℕ}
    → IsValid v level
    → (s t : ℕ) (js is : List ℕ) → Indices js
    → Indices is
    → length js ≡ length is
    → level s ≡ suc (length js)
    → level t ≡ suc (length is)
    → descend v s js ≢ 0
    → descend v s js ≡ descend v t is
    → (s ≡ t) × (js ≡ is)
unfolding descend
descend_unique ok s t [] [] hj hi len ls lt ne e = (e, refl)
descend_unique ok s t [] (i ∷ is) hj hi len ls lt ne e = absurd (omega arith)
descend_unique ok s t (j ∷ js) [] hj hi len ls lt ne e = absurd (omega arith)
descend_unique {v} {level} ok s t (j ∷ js) (i ∷ is) hj hi len ls lt ne e =
    elim (Bool-cases (next_table v s j == 0)) [
      | inl none_s ↦ ground arith
      | inr some_s ↦ elim (Bool-cases (next_table v t i == 0)) [
        | inl none_t ↦ ground arith
        | inr some_t ↦
            let there = next_table-present v s j some_s in
            let there' = next_table-present v t i some_t in
            let a = next_table-level ok s j hj.0 (omega arith) there in
            let b = next_table-level ok t i hi.0 (omega arith) there' in
            let ds = descend-cons v s j js some_s in
            let dt = descend-cons v t i is some_t in
            let (same, rest) =
              descend_unique ok (next_table v s j) (next_table v t i) js is hj.1 hi.1 (omega arith)
                (omega (arith, a.0)) (omega (arith, b.0)) (λ z. ne (ds ∙ z)) (sym ds ∙ e ∙ dt) in
            let (es, ej) =
              ok.unique s j t i hj.0 hi.0 (omega arith) (omega arith) there there' same in
            (es, λ k. ej k ∷ rest k)
      ]
    ]
