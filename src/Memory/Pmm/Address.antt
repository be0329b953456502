-- ===== src/Memory/Pmm/Address.antt =====
-- Page numbers and page addresses of the usable regions: the two loops of kernel/src/memory/pmm.c
-- over `usable` that translate between them.
use bethany.Prelude.{
  ℕ, ◌+◌, ◌-◌, ◌*◌, ◌^◌, ◌≤◌, ◌<◌, ◌≡◌, ◌⊎◌, List, [], ◌∷◌, some, ltb, arith, refl, inl, inr,
  Bool-cases,
}
use bethany.Memory.Pmm.{PmmRegion, page_size, page_address, page_index}

abbrev pub end_of : PmmRegion → ℕ
end_of r = r.base + r.pages * page_size

-- The region shares no address with any of the others.
abbrev Apart : PmmRegion → List PmmRegion → Type 0
Apart r [] = Unit
Apart r (s ∷ rs) = ((end_of r ≤ s.base) ⊎ (end_of s ≤ r.base)) × Apart r rs

-- The regions are disjoint, none holds the null address, and none reaches the end of the address
-- space.
abbrev pub WellPlaced : List PmmRegion → Type 0
WellPlaced [] = Unit
WellPlaced (r ∷ rs) = (0 < r.base) × (end_of r < 2 ^ 64) × Apart r rs × WellPlaced rs

abbrev pub total_pages : List PmmRegion → ℕ
total_pages [] = 0
total_pages (r ∷ rs) = r.pages + total_pages rs

-- `a` is where page `i` begins, the pages of 4096 bytes being counted through the regions in order.
abbrev pub PageAt : List PmmRegion → ℕ → ℕ → Type 0
PageAt [] i a = ⊥
PageAt (r ∷ rs) i a =
    ((i < r.pages) × (a ≡ r.base + i * 4096)) ⊎ ((r.pages ≤ i) × PageAt rs (i - r.pages) a)

-- A page number below the total has an address, which is not null.
pub page_address-some :
    (rs : List PmmRegion) (i : ℕ)
    → WellPlaced rs
    → i < total_pages rs
    → (a : ℕ) × (page_address rs i ≡ some a) × (0 < a) × PageAt rs i a
unfolding page_address
page_address-some [] i w h = absurd (omega arith)
page_address-some (r ∷ rs) i w h = elim (Bool-cases (ltb i r.pages)) [
  | inl here ↦
      let inside : i < r.pages = ground arith in
      (r.base + i * page_size, ground arith, ground arith, inl (inside, refl))
  | inr there ↦
      let (a, e, pos, place) = page_address-some rs (i - r.pages) w.3 (ground arith) in
      let behind : r.pages ≤ i = ground arith in (a, ground arith, pos, inr (behind, place))
]

outside :
    (r : PmmRegion) (rs : List PmmRegion) (i : ℕ) {a : ℕ}
    → WellPlaced rs
    → Apart r rs
    → page_address rs i ≡ some a
    → (end_of r ≤ a) ⊎ (a < r.base)
unfolding page_address
outside r [] i w apart e = ground arith
outside r (s ∷ rs) i w apart e = elim (Bool-cases (ltb i s.pages)) [
  | inl here ↦ ground arith
  | inr there ↦ outside r rs (i - s.pages) w.3 apart.1 (ground arith)
]

-- The address of a page leads back to its number.
pub page_index-page_address :
    (rs : List PmmRegion) (i start : ℕ) {a : ℕ}
    → WellPlaced rs
    → page_address rs i ≡ some a
    → page_index rs a start ≡ some (start + i)
unfolding page_address page_index
page_index-page_address [] i start w e = ground arith
page_index-page_address (r ∷ rs) i start {a} w e = elim (Bool-cases (ltb i r.pages)) [
  | inl here ↦ ground arith
  | inr there ↦
      let rest : page_address rs (i - r.pages) ≡ some a = ground arith in
      ground (
        arith,
        page_index-page_address rs (i - r.pages) (start + r.pages) w.3 rest,
        outside r rs (i - r.pages) w.3 w.2 rest,
      )
]
