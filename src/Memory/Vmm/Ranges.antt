-- ===== src/Memory/Vmm/Ranges.antt =====
-- Mapping a range of pages: `vmm_map_range` of kernel/src/memory/vmm.c.
use bethany.Prelude.{
  ℕ, zero, suc, ◌+◌, ◌-◌, ◌*◌, ◌%◌, ◌^◌, ◌<◌, ◌≤◌, ◌≡◌, ◌⊎◌, Bool, true, false, ◌&&◌, refl, inl,
  inr, arith, leb, ltb, ◌==◌, if◌then◌else◌, wrap64, ◌∙◌, ap,
}
use mathlib.Core.Path.{subst}
use bethany.Memory.Pmm.{page_size, pmm_alloc_page}
use bethany.Memory.Vmm.{Vmm, vmm_map, vmm_translate, map_range_loop, vmm_map_range}
use bethany.Memory.Vmm.Tables.{IsValid}
use bethany.Memory.Vmm.Map.{page, vmm_map_lem}
use bethany.Memory.Vmm.Uses.{Uses, Uses-refl, Uses-trans, vmm_map-Uses}

-- No page is left.
abbrev pub IsFull : Vmm → Type 0
IsFull v = (pmm_alloc_page v.pmm).0 ≡ 0

module _ (virt phys : ℕ) where
  -- The address lies in one of the `j` pages from the page `k` of the range on.
  abbrev pub covers : ℕ → ℕ → ℕ → Bool
  covers k j w = leb (page virt + k) (page w) && ltb (page w) (page virt + k + j)

  -- Its place in the memory behind the range.
  abbrev pub place : ℕ → ℕ
  place w = phys + (page w - page virt) * page_size + w % page_size

  -- The pages are mapped and all other addresses are translated as before; or no page is left, and
  -- each address is translated as before or has its place.
  abbrev pub MapsRange : ℕ → ℕ → Vmm → Vmm → Type 0
  MapsRange k j v v' =
      ((level : ℕ → ℕ) × IsValid v' level)
      × (((w : ℕ) → vmm_translate v' w ≡ (if covers k j w then place w else vmm_translate v w))
          ⊎ (IsFull v'
              × ((w : ℕ)
                  → (vmm_translate v' w ≡ vmm_translate v w)
                    ⊎ ((covers k j w ≡ true) × (vmm_translate v' w ≡ place w)))))

  -- One page at the front, and the pages behind it.
  MapsRange-suc :
      (k j : ℕ) (v v1 v' : Vmm)
      → Uses v1.pmm v'.pmm
      → ((w : ℕ)
          → vmm_translate v1 w ≡ (
              if page w == page virt + k
              then phys + k * page_size + w % page_size
              else vmm_translate v w))
        ⊎ (IsFull v1 × ((w : ℕ) → vmm_translate v1 w ≡ vmm_translate v w))
      → MapsRange (suc k) j v1 v'
      → MapsRange k (suc j) v v'
  MapsRange-suc k j v v1 v' uses (inl f) (valid, inl g) = (valid, inl λ w. ground (arith, f w, g w))
  MapsRange-suc k j v v1 v' uses (inl f) (valid, inr (full, g)) =
      (valid, inr (full, λ w. ground (arith, f w, g w)))
  MapsRange-suc k j v v1 v' uses (inr (full, f)) (valid, inl g) = (
    valid,
    inr (ap (λ x. (pmm_alloc_page x).0) (uses.full full) ∙ full, λ w. ground (arith, f w, g w)),
  )
  MapsRange-suc k j v v1 v' uses (inr (full, f)) (valid, inr (full', g)) =
      (valid, inr (full', λ w. ground (arith, f w, g w)))

  module _ (size flags count : ℕ) (aligned : virt % page_size ≡ 0) (aligned' : phys % page_size ≡ 0)
      (fits : phys + count * page_size ≤ 2 ^ 52) (room : virt + count * page_size ≤ 2 ^ 64)
      (window : page virt + count ≤ 2 ^ 36) (small : flags < 4096) (odd : flags % 2 ≡ 1)
      (high : size ≤ count * page_size) (low : count * page_size < size + page_size) where
    map_range_loop-stop :
        (n : ℕ) (v : Vmm) → map_range_loop n (count * page_size) virt phys size flags v ≡ v
    unfolding map_range_loop
    map_range_loop-stop zero v = refl
    map_range_loop-stop (suc n) v =
        let done : ltb (count * page_size) size ≡ false = ground arith in rw done refl

    map_range_loop-step :
        (n k j : ℕ) (v : Vmm)
        → k + suc j ≡ count
        → map_range_loop (suc n) (k * page_size) virt phys size flags v
          ≡ map_range_loop n
              (suc k * page_size)
              virt
              phys
              size
              flags
              (vmm_map (virt + k * page_size) (phys + k * page_size) flags v)
    unfolding map_range_loop
    map_range_loop-step n k j v e =
        let more : ltb (k * page_size) size ≡ true = ground arith in
        let offset : wrap64 (k * page_size + page_size) ≡ suc k * page_size = omega arith in
        let to : wrap64 (virt + k * page_size) ≡ virt + k * page_size = omega arith in
        let from : wrap64 (phys + k * page_size) ≡ phys + k * page_size = omega arith in
        rw (more, offset, to, from) refl

    map_range_loop-MapsRange :
        (n k j : ℕ) (v : Vmm) (level : ℕ → ℕ)
        → IsValid v level
        → k + j ≡ count
        → j ≤ n
        → MapsRange k j v (map_range_loop n (k * page_size) virt phys size flags v)
          × Uses v.pmm (map_range_loop n (k * page_size) virt phys size flags v).pmm
    map_range_loop-MapsRange n k zero v level ok e h =
        let end : k ≡ count = omega arith in
        rw (end, map_range_loop-stop n v)
          (((level, ok), inl λ w. ground arith), Uses-refl v.pmm ok.pmm)
    map_range_loop-MapsRange zero k (suc j) v level ok e h = absurd (omega arith)
    map_range_loop-MapsRange (suc n) k (suc j) v level ok e h =
        let v1 = vmm_map (virt + k * page_size) (phys + k * page_size) flags v in
        let uses = vmm_map-Uses (virt + k * page_size) (phys + k * page_size) flags v ok.pmm in
        let at : page (virt + k * page_size) ≡ page virt + k = omega arith in
        let ((level1, ok1), front) =
          vmm_map_lem v level ok (virt + k * page_size) (phys + k * page_size) flags (omega arith)
            (omega arith) small odd in
        let (rest, uses') =
          map_range_loop-MapsRange n (suc k) j v1 level1 ok1 (omega arith) (omega arith) in
        rw (map_range_loop-step n k j v e) (
          MapsRange-suc k j v v1 (map_range_loop n (suc k * page_size) virt phys size flags v1)
              uses'
              (subst
                (λ p.
                  ((w : ℕ)
                    → vmm_translate v1 w ≡ (
                        if page w == p
                        then phys + k * page_size + w % page_size
                        else vmm_translate v w))
                  ⊎ (IsFull v1 × ((w : ℕ) → vmm_translate v1 w ≡ vmm_translate v w)))
                at front)
              rest,
          Uses-trans uses uses',
        )

    -- Mapping the `count` pages that hold `size` bytes, from aligned addresses on, below 2^52 and
    -- inside one space of 48 bits, with flags below 4096 that have the present bit and enough rounds, keeps the
    -- page tables valid. Every address of the range is then translated to its place in the memory
    -- from `phys` on, and all others as before; or no page is left, and each address is translated as
    -- before or, if it is one of the range, has its place.
    pub vmm_map_range_lem :
        (rounds : ℕ) (v : Vmm) (level : ℕ → ℕ)
        → IsValid v level
        → count ≤ rounds
        → MapsRange 0 count v (vmm_map_range rounds virt phys size flags v)
    unfolding vmm_map_range
    vmm_map_range_lem rounds v level ok h =
        (map_range_loop-MapsRange rounds 0 count v level ok (omega arith) h).0
