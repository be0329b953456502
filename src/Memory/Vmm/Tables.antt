-- ===== src/Memory/Vmm/Tables.antt =====
-- The page tables of kernel/src/memory/vmm.c as a tree: the invariant, and the walk from a table down
-- to an entry of a last table.
pub mod Grow
pub mod Link
pub mod Reach
pub mod Leaf
pub mod Walk
use bethany.Prelude.{
  ℕ, zero, suc, ◌+◌, ◌*◌, ◌/◌, ◌%◌, ◌^◌, ◌<◌, ◌≤◌, ◌≡◌, ◌≢◌, List, [], ◌∷◌, some, Bool, true, false,
  ◌==◌, if◌then◌else◌, length, wrap64,
}
use bethany.Memory.Pmm.{Pmm, page_address}
use bethany.Memory.Pmm.Bitmap.{in_use}
use bethany.Memory.Pmm.Alloc
use bethany.Memory.Vmm.{Vmm, entry_present, slot, next_table}

-- `level` gives the tables their level, 4 for the root down to 1 for the last tables, and 0 to all
-- other addresses.
pub record IsValid (v : Vmm) (level : ℕ → ℕ) : Type 0 where
  pub pmm : Alloc.IsValid v.pmm
  pub reach :
      (k a : ℕ)
      → page_address v.pmm.usable k ≡ some a
      → (a % 4096 ≡ 0) × (a + 4096 ≤ 2 ^ 52) × (a + v.hhdm_offset + 4096 ≤ 2 ^ 64)
  pub offset : v.hhdm_offset % 4096 ≡ 0
  pub root : level v.pml4 ≡ 4
  pub placed : (t : ℕ) → 0 < level t → (t % 4096 ≡ 0) × (0 < t)
  pub owned :
      (k a : ℕ)
      → page_address v.pmm.usable k ≡ some a
      → 0 < level (wrap64 (a + v.hhdm_offset))
      → in_use v.pmm.bitmap k ≡ true
  pub children :
      (t i : ℕ)
      → i < 512
      → 1 < level t
      → entry_present (v.memory (slot t i)) ≡ true
      → suc (level (next_table v t i)) ≡ level t
  pub unique :
      (s j t i : ℕ)
      → j < 512
      → i < 512
      → 1 < level s
      → 1 < level t
      → entry_present (v.memory (slot s j)) ≡ true
      → entry_present (v.memory (slot t i)) ≡ true
      → next_table v s j ≡ next_table v t i
      → (s ≡ t) × (j ≡ i)

abbrev pub Indices : List ℕ → Type 0
Indices [] = Unit
Indices (i ∷ is) = (i < 512) × Indices is

-- The table that the indices lead to, null if one on the way is missing.
unfoldable pub descend : Vmm → ℕ → List ℕ → ℕ
descend v t [] = t
descend v t (i ∷ is) =
    let rest = descend v (next_table v t i) is in if next_table v t i == 0 then 0 else rest

-- The entry that the indices lead to, 0 if there is none.
unfoldable pub entry_at : Vmm → ℕ → List ℕ → ℕ → ℕ
entry_at v t is i = if descend v t is == 0 then 0 else v.memory (slot (descend v t is) i)
