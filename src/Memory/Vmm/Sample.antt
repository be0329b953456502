-- ===== src/Memory/Vmm/Sample.antt =====
-- A small machine for the tests: eight usable pages, and an empty root table.
use bethany.Prelude.{
  ℕ, ◌%◌, ◌<◌, ◌≤◌, ◌≡◌, List, [], ◌∷◌, some, arith, refl, false, ◌==◌, if◌then◌else◌,
}
use mathlib.Core.Path.{subst}
use bethany.Memory.Pmm.{PmmRegion, Pmm, page_address}
use bethany.Memory.Pmm.Alloc
use bethany.Memory.Vmm.{Vmm, entry_present, vmm_init}
use bethany.Memory.Vmm.Tables.{IsValid}

abbrev pub offset : ℕ
offset = 0xffff_8000_0000_0000

abbrev pub root_level : ℕ → ℕ
root_level t = if t == 0xffff_8000_0000_5000 then 4 else 0

abbrev pub regions : List PmmRegion
regions = record { base = 0x10000; pages = 8 } ∷ []

page-reach :
    (k a : ℕ) → page_address regions k ≡ some a → (0x10000 ≤ a) × (a % 4096 ≡ 0) × (a < 0x18000)
unfolding page_address
page-reach k a at = ground arith

no_entry : (e : ℕ) → e ≡ 0 → entry_present e ≡ false
unfolding entry_present
no_entry e z = rw z refl

pub empty_tables-IsValid :
    (p : Pmm)
    → Alloc.IsValid p
    → p.usable ≡ regions
    → IsValid (vmm_init p (λ a. 0) 0x5000 offset) root_level
unfolding vmm_init
empty_tables-IsValid p ok e = record {
  pmm = ok;
  reach =
      λ k a at. let r = page-reach k a (subst (λ u. page_address u k ≡ some a) e at) in omega arith;
  offset = refl;
  root = refl;
  placed = λ t h. ground arith;
  owned = λ k a at h.
      let r = page-reach k a (subst (λ u. page_address u k ≡ some a) e at) in ground arith;
  children = λ t i hi deep there. let e = no_entry 0 refl in cc;
  unique = λ s j t i hj hi ds dt there there' e. let e = no_entry 0 refl in cc;
}

-- All pages are free.
abbrev pub pages : Pmm
pages = record {
  usable = regions;
  bitmap = λ i. 0;
  page_count = 8;
  bitmap_size = 1;
  bitmap_phys = 0x10000;
}

abbrev pub machine : Vmm
machine = vmm_init pages (λ a. 0) 0x5000 offset

pub machine-IsValid : IsValid machine root_level
machine-IsValid =
    empty_tables-IsValid pages
      (record { bytes = λ i. omega arith; placed = omega arith; counted = refl }) refl
