-- ===== src/Memory/Vmm/Tables/Link.antt =====
-- `ensure_table` of kernel/src/memory/vmm.c when it builds a table: the tree grows by an empty table.
use bethany.Prelude.{
  ℕ, suc, ◌+◌, ◌-◌, ◌%◌, ◌<◌, ◌≡◌, ◌≢◌, ◌⊎◌, inl, inr, some, true, false, refl, arith, ◌==◌,
  if◌then◌else◌, wrap64, bit_or, Bool-cases, ◌∙◌, ap, sym,
}
use bethany.Memory.Pmm.{page_address, bitmap_set}
use bethany.Memory.Pmm.Bitmap.{in_use, in_use-bitmap_set}
use bethany.Memory.Pmm.Laws.{set-IsValid, same_page}
use bethany.Memory.Vmm.{Vmm, entry_present, slot, next_table, table_flags, clear_table, link_table}
use bethany.Memory.Vmm.Entries.{
  entry_present-bit_or, entry_address-bit_or, slot_apart, clear_words-inside, clear_words-outside,
}
use bethany.Memory.Vmm.Tables.{IsValid}

module _ (v : Vmm) (level : ℕ → ℕ) (ok : IsValid v level) (t i : ℕ) (deep : 1 < level t)
    (hi : i < 512) (absent : entry_present (v.memory (slot t i)) ≡ false) (k phys : ℕ)
    (at : page_address v.pmm.usable k ≡ some phys) (pos : 0 < phys)
    (free : in_use v.pmm.bitmap k ≡ false) where
  -- The allocator with the page marked, and the memory manager with the page linked as a table.
  abbrev pub taken : Vmm
  taken = record v { pmm = record v.pmm { bitmap = bitmap_set v.pmm.bitmap k } }

  abbrev pub table : ℕ
  table = phys + v.hhdm_offset

  abbrev pub linked : Vmm
  linked = (link_table t i phys taken).1

  abbrev pub level' : ℕ → ℕ
  level' s = if s == table then level t - 1 else level s

  pub no_wrap : wrap64 table ≡ table
  no_wrap = omega (arith, ok.reach k phys at)

  pub aligned : (table % 4096 ≡ 0) × (0 < table)
  aligned = omega (arith, ok.reach k phys at, ok.offset)

  pub fresh : level table ≡ 0
  fresh = elim (Bool-cases (level table == 0)) [
    | inl e ↦ ground arith
    | inr e ↦
        let used : in_use v.pmm.bitmap k ≡ true = ok.owned k phys at (rw no_wrap (ground arith)) in
        cc
  ]

  not_table : (s : ℕ) → 0 < level s → s ≢ table
  not_table s old e = omega (arith, ap level e, fresh)

  memory-at : linked.memory (slot t i) ≡ bit_or phys table_flags
  unfolding link_table
  memory-at = ground arith

  pub memory-old :
      (s j : ℕ)
      → 0 < level s
      → j < 512
      → slot s j ≢ slot t i
      → linked.memory (slot s j) ≡ v.memory (slot s j)
  unfolding link_table clear_table
  memory-old s j old hj ne =
      let miss : (slot t i == slot s j) ≡ false = ground arith in
      rw (miss, no_wrap)
        (clear_words-outside table v.memory 512 (slot s j) λ n hn e.
          not_table s old (slot_apart s table j n (ok.placed s old).0 aligned.0 hj hn e).0)

  pub memory-new : (j : ℕ) → j < 512 → linked.memory (slot table j) ≡ 0
  unfolding link_table clear_table
  memory-new j hj =
      let miss : (slot t i == slot table j) ≡ false = ground (
        arith,
        λ (e : slot t i ≡ slot table j).
            not_table t (omega arith)
              (slot_apart t table i j (ok.placed t (omega arith)).0 aligned.0 hi hj e).0,
      ) in
      rw (miss, no_wrap) (clear_words-inside table v.memory 512 j hj)

  pub link_table-linked : link_table t i phys taken ≡ (table, linked)
  unfolding link_table
  link_table-linked = ap (λ c. (c, linked)) no_wrap

  pub next_table-at : next_table linked t i ≡ table
  unfolding next_table link_table
  next_table-at =
      let reach = ok.reach k phys at in
      rw
        (
          memory-at,
          entry_present-bit_or phys table_flags reach.0 (omega arith) refl,
          entry_address-bit_or phys table_flags reach.0 (omega arith) (omega (arith, reach)),
        )
        no_wrap

  present-at : entry_present (linked.memory (slot t i)) ≡ true
  present-at =
      rw memory-at (entry_present-bit_or phys table_flags (ok.reach k phys at).0 (omega arith) refl)

  -- An entry of a table above the last level, if it is present: the new one, or one from before.
  record Before (s j : ℕ) : Type 0 where
    old : 1 < level s
    same_level : level' s ≡ level s
    present : entry_present (v.memory (slot s j)) ≡ true
    same_next : next_table linked s j ≡ next_table v s j
    child : suc (level (next_table v s j)) ≡ level s
    old_child : level' (next_table v s j) ≡ level (next_table v s j)

  pub next_table-old :
      (s j : ℕ)
      → 0 < level s
      → j < 512
      → slot s j ≢ slot t i
      → next_table linked s j ≡ next_table v s j
  unfolding next_table link_table
  next_table-old s j old hj ne = rw (memory-old s j old hj ne) refl

  pub level'-old : (s : ℕ) → 0 < level s → level' s ≡ level s
  level'-old s old = let e : (s == table) ≡ false = ground (arith, not_table s old) in rw e refl

  edge-old :
      (s j : ℕ)
      → 1 < level s
      → j < 512
      → slot s j ≢ slot t i
      → entry_present (linked.memory (slot s j)) ≡ true
      → Before s j
  edge-old s j old hj ne there =
      let present : entry_present (v.memory (slot s j)) ≡ true =
        ap entry_present (sym (memory-old s j (omega arith) hj ne)) ∙ there in
      let child = ok.children s j hj old present in
      record {
        old = old;
        same_level = level'-old s (omega arith);
        present = present;
        same_next = next_table-old s j (omega arith) hj ne;
        child = child;
        old_child = level'-old (next_table v s j) (omega arith);
      }

  pub no_edge : (j : ℕ) → j < 512 → entry_present (linked.memory (slot table j)) ≡ false
  unfolding entry_present
  no_edge j hj = rw (memory-new j hj) refl

  edge :
      (s j : ℕ)
      → 1 < level' s
      → j < 512
      → entry_present (linked.memory (slot s j)) ≡ true
      → ((s ≡ t) × (j ≡ i)) ⊎ Before s j
  edge s j high hj there = elim (Bool-cases (s == table)) [
    | inl e ↦
        let same : s ≡ table = ground arith in
        let none_there : entry_present (linked.memory (slot s j)) ≡ false =
          ap (λ x. entry_present (linked.memory (slot x j))) same ∙ no_edge j hj in
        cc
    | inr ne ↦
        let old : 1 < level s = ground arith in
        elim (Bool-cases (slot s j == slot t i)) [
          | inl e ↦ inl (
              slot_apart s t j i (ok.placed s (omega arith)).0 (ok.placed t (omega arith)).0 hj hi
                (ground arith))
          | inr ne' ↦ inr (edge-old s j old hj (ground arith) there)
        ]
  ]

  pub child-at : suc (level' table) ≡ level t
  child-at = ground arith

  linked-children :
      (s j : ℕ)
      → j < 512
      → 1 < level' s
      → entry_present (linked.memory (slot s j)) ≡ true
      → suc (level' (next_table linked s j)) ≡ level' s
  linked-children s j hj high there = elim (edge s j high hj there) [
    | inl (es, ej) ↦ rw (es, ej, next_table-at, level'-old t (omega arith)) child-at
    | inr b ↦ rw (b.same_next, b.old_child, b.same_level) b.child
  ]

  linked_unique :
      (r j s l : ℕ)
      → j < 512
      → l < 512
      → 1 < level' r
      → 1 < level' s
      → entry_present (linked.memory (slot r j)) ≡ true
      → entry_present (linked.memory (slot s l)) ≡ true
      → next_table linked r j ≡ next_table linked s l
      → (r ≡ s) × (j ≡ l)
  linked_unique r j s l hj hl high high' there there' e = elim (edge r j high hj there) [
    | inl (er, ej) ↦ elim (edge s l high' hl there') [
      | inl (es, el) ↦ (er ∙ sym es, ej ∙ sym el)
      | inr b ↦ absurd (
          not_table (next_table v s l) (omega (arith, b.child, b.old))
            (sym b.same_next ∙ sym e ∙ at_table r j er ej))
    ]
    | inr a ↦ elim (edge s l high' hl there') [
      | inl (es, el) ↦ absurd (
          not_table (next_table v r j) (omega (arith, a.child, a.old))
            (sym a.same_next ∙ e ∙ at_table s l es el))
      | inr b ↦
          ok.unique r j s l hj hl a.old b.old a.present b.present
            (sym a.same_next ∙ e ∙ b.same_next)
    ]
  ]
    where
      at_table : (s j : ℕ) → s ≡ t → j ≡ i → next_table linked s j ≡ table
      at_table s j es ej = rw (es, ej) next_table-at

  different :
      (n a : ℕ)
      → page_address v.pmm.usable n ≡ some a
      → (k == n) ≡ false
      → wrap64 (a + v.hhdm_offset) ≢ table
  different n a at' ne e =
      let same : k ≡ n =
        same_page v.pmm k n phys a ok.pmm at at' (omega (arith, ok.reach n a at')) in
      ground arith

  linked-owned :
      (n a : ℕ)
      → page_address v.pmm.usable n ≡ some a
      → 0 < level' (wrap64 (a + v.hhdm_offset))
      → in_use linked.pmm.bitmap n ≡ true
  unfolding link_table
  linked-owned n a at' high =
      rw (in_use-bitmap_set v.pmm.bitmap ok.pmm.bytes k n) (elim (Bool-cases (k == n)) [
        | inl e ↦ rw e refl
        | inr ne ↦
            let other : wrap64 (a + v.hhdm_offset) ≢ table = λ e. different n a at' ne e in
            rw ne (ok.owned n a at' (ground arith))
      ])

  pub linked-IsValid : IsValid linked level'
  unfolding link_table
  linked-IsValid = record {
    pmm = set-IsValid v.pmm k ok.pmm;
    reach = ok.reach;
    offset = ok.offset;
    root = level'-old v.pml4 (omega (arith, ok.root)) ∙ ok.root;
    placed = λ s h. elim (Bool-cases (s == table)) [
      | inl e ↦ let same : s ≡ table = ground arith in rw same aligned
      | inr ne ↦ ok.placed s (ground arith)
    ];
    owned = linked-owned;
    children = linked-children;
    unique = linked_unique;
  }
