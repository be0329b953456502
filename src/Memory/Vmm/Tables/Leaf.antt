-- ===== src/Memory/Vmm/Tables/Leaf.antt =====
-- Writing an entry of a last table of kernel/src/memory/vmm.c.
use bethany.Prelude.{
  ℕ, suc, ◌<◌, ◌≡◌, ◌≢◌, List, [], ◌∷◌, false, ◌&&◌, refl, inl, inr, arith, ◌==◌, if◌then◌else◌,
  length, Bool-cases, ◌∙◌, ap, sym,
}
use bethany.Memory.Vmm.{Vmm, entry_present, slot, next_table, set_entry}
use bethany.Memory.Vmm.Entries.{slot_apart}
use bethany.Memory.Vmm.Tables.{IsValid, Indices, descend, entry_at}
use bethany.Memory.Vmm.Tables.Walk.{
  next_table-present, next_table-level, entry_at-none, entry_at-cons,
}

module _ (v : Vmm) (level : ℕ → ℕ) (ok : IsValid v level) (t i entry : ℕ) (last : level t ≡ 1)
    (hi : i < 512) where
  abbrev pub written : Vmm
  written = set_entry t i entry v

  memory-kept : (s j : ℕ) → 1 < level s → j < 512 → written.memory (slot s j) ≡ v.memory (slot s j)
  memory-kept s j deep hj =
      let apart : slot t i ≢ slot s j = λ e. omega (
        arith,
        ap level
            (slot_apart t s i j (ok.placed t (omega arith)).0 (ok.placed s (omega arith)).0 hi hj
              e).0,
      ) in
      let miss : (slot t i == slot s j) ≡ false = ground arith in rw miss refl

  next_table-kept : (s j : ℕ) → 1 < level s → j < 512 → next_table written s j ≡ next_table v s j
  unfolding next_table
  next_table-kept s j deep hj = rw (memory-kept s j deep hj) refl

  pub written-IsValid : IsValid written level
  written-IsValid = record {
    pmm = ok.pmm;
    reach = ok.reach;
    offset = ok.offset;
    root = ok.root;
    placed = ok.placed;
    owned = ok.owned;
    children = λ s j hj deep there.
        let before = ap entry_present (sym (memory-kept s j deep hj)) ∙ there in
        ap (λ c. suc (level c)) (next_table-kept s j deep hj) ∙ ok.children s j hj deep before;
    unique = λ r j s l hj hl dr ds there there' e.
        ok.unique r j s l hj hl dr ds (ap entry_present (sym (memory-kept r j dr hj)) ∙ there)
          (ap entry_present (sym (memory-kept s l ds hl)) ∙ there')
          (sym (next_table-kept r j dr hj) ∙ e ∙ next_table-kept s l ds hl);
  }

  -- The entry that was written is read where the walk ends in it; all others are as before.
  pub entry_at-written :
      (s : ℕ) (js : List ℕ) (j : ℕ)
      → Indices js
      → j < 512
      → level s ≡ suc (length js)
      → entry_at written s js j
        ≡ (if (descend v s js == t) && (j == i) then entry else entry_at v s js j)
  unfolding entry_at descend
  entry_at-written s [] j hs hj e =
      let nonzero : (s == 0) ≡ false = ground (arith, ok.placed s (omega arith)) in
      rw nonzero (elim (Bool-cases (slot t i == slot s j)) [
        | inl q ↦
            let (et, ei) =
              slot_apart t s i j (ok.placed t (omega arith)).0 (ok.placed s (omega arith)).0 hi hj
                (ground arith) in
            rw q (ground arith)
        | inr q ↦ rw q (ground arith)
      ])
  entry_at-written s (j' ∷ js) j hs hj e = elim (Bool-cases (next_table v s j' == 0)) [
    | inl z ↦
        let none_kept : next_table written s j' ≡ 0 =
          next_table-kept s j' (omega arith) hs.0 ∙ ground arith in
        let nonzero : (0 == t) ≡ false = ground (arith, ok.placed t (omega arith)) in
        entry_at-none written s j' js j none_kept ∙ rw (z, nonzero) refl
    | inr some_table ↦
        let same = next_table-kept s j' (omega arith) hs.0 in
        let child =
          (next_table-level ok s j' hs.0 (omega arith) (next_table-present v s j' some_table)).0 in
        entry_at-cons written s j' js j (rw same some_table)
        ∙ ap (λ c. entry_at written c js j) same
        ∙ entry_at-written (next_table v s j') js j hs.1 hj (omega (arith, child))
        ∙ rw (some_table) refl
  ]
