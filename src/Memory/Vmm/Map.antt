-- ===== src/Memory/Vmm/Map.antt =====
-- What `vmm_map`, `vmm_unmap` and `vmm_alloc_page` of kernel/src/memory/vmm.c do to the translation of
-- every address.
use bethany.Prelude.{
  ℕ, ◌+◌, ◌/◌, ◌%◌, ◌^◌, ◌<◌, ◌≡◌, ◌⊎◌, [], ◌∷◌, true, false, ◌&&◌, refl, inl, inr, arith, ◌==◌,
  if◌then◌else◌, bit_or, wrap64, Bool-cases, ◌∙◌, ap, sym,
}
use mathlib.Core.Path.{subst}
use bethany.Memory.Pmm.{pmm_alloc_page}
use bethany.Memory.Vmm.{
  Vmm, entry_present, entry_address, next_table, pml4_index, pdpt_index, pd_index, pt_index,
  page_offset, set_entry, ensure_tables, vmm_map, vmm_unmap, vmm_translate,
}
use bethany.Memory.Vmm.Entries.{entry_present-bit_or, entry_address-bit_or}
use bethany.Memory.Vmm.Indices.{nine_bits, twelve_bits}
use bethany.Memory.Vmm.Tables.{IsValid, Indices, descend, entry_at}
use bethany.Memory.Vmm.Tables.Grow.{Grown}
use bethany.Memory.Vmm.Tables.Walk.{descend_unique}
use bethany.Memory.Vmm.Tables.Reach.{
  indices, ensure_path, ensure_tables-ensure_path, Reached, ensure_path-Reached,
}
use bethany.Memory.Vmm.Tables.Leaf.{written-IsValid, entry_at-written}

-- The number of the page of an address, in the 48 bits that the tables translate.
abbrev pub page : ℕ → ℕ
page virt = virt / 2 ^ 12 % 2 ^ 36

-- The entry of a last table that belongs to an address, 0 if there is none.
abbrev pub entry_of : Vmm → ℕ → ℕ
entry_of v virt = entry_at v v.pml4 (indices virt) (pt_index virt)

page_indices :
    (virt : ℕ)
    → (pml4_index virt ≡ page virt / 2 ^ 27)
      × (pdpt_index virt ≡ page virt / 2 ^ 18 % 2 ^ 9)
      × (pd_index virt ≡ page virt / 2 ^ 9 % 2 ^ 9)
      × (pt_index virt ≡ page virt % 2 ^ 9)
unfolding pml4_index pdpt_index pd_index pt_index
page_indices virt = (
  omega (arith, nine_bits (virt / 2 ^ 39)),
  omega (arith, nine_bits (virt / 2 ^ 30)),
  omega (arith, nine_bits (virt / 2 ^ 21)),
  omega (arith, nine_bits (virt / 2 ^ 12)),
)

indices-Indices : (virt : ℕ) → Indices (indices virt) × (pt_index virt < 512)
indices-Indices virt = let (a, b, c, d) = page_indices virt in omega arith

same_page-indices :
    (w virt : ℕ) → page w ≡ page virt → (indices w ≡ indices virt) × (pt_index w ≡ pt_index virt)
same_page-indices w virt e =
    let (a, b, c, d) = page_indices w in
    let (a', b', c', d') = page_indices virt in
    let f : pml4_index w ≡ pml4_index virt = omega arith in
    let g : pdpt_index w ≡ pdpt_index virt = omega arith in
    let h : pd_index w ≡ pd_index virt = omega arith in (λ k. f k ∷ g k ∷ h k ∷ [], omega arith)

indices-same_page :
    (w virt : ℕ) → indices w ≡ indices virt → pt_index w ≡ pt_index virt → page w ≡ page virt
indices-same_page w virt e d₀ =
    let (a, b, c, d) = page_indices w in
    let (a', b', c', d') = page_indices virt in
    let f : pml4_index w ≡ pml4_index virt = cc in
    let g : pdpt_index w ≡ pdpt_index virt = cc in
    let h : pd_index w ≡ pd_index virt = cc in omega arith

-- The entry of the page of `virt` is `entry` afterwards and all others are as before, or no page was
-- left for a table and none has changed.
abbrev pub Writes : Vmm → ℕ → ℕ → Vmm → Type 0
Writes v virt entry v' =
    ((level : ℕ → ℕ) × IsValid v' level)
    × (((w : ℕ) → entry_of v' w ≡ (if page w == page virt then entry else entry_of v w))
        ⊎ (((pmm_alloc_page v'.pmm).0 ≡ 0) × ((w : ℕ) → entry_of v' w ≡ entry_of v w)))

module _ (v : Vmm) (level : ℕ → ℕ) (ok : IsValid v level) (virt : ℕ) where
  -- The two tests agree: where the walk ends, and the page's number.
  same_entry :
      (t w : ℕ)
      → 0 < t
      → descend v v.pml4 (indices virt) ≡ t
      → ((descend v v.pml4 (indices w) == t) && (pt_index w == pt_index virt))
        ≡ (page w == page virt)
  same_entry t w pos at = elim (Bool-cases (page w == page virt)) [
    | inl e ↦
        let (same, last) = same_page-indices w virt (ground arith) in
        let there : descend v v.pml4 (indices w) ≡ t = ap (descend v v.pml4) same ∙ at in
        ground arith
    | inr ne ↦ elim (Bool-cases (descend v v.pml4 (indices w) == t)) [
      | inr other ↦ ground arith
      | inl there ↦
          let here : descend v v.pml4 (indices w) ≡ t = ground arith in
          let same =
            (descend_unique ok v.pml4 v.pml4 (indices w) (indices virt) (indices-Indices w).0
              (indices-Indices virt).0 refl (ok.root) (ok.root) (λ z. omega arith)
              (here ∙ sym at)).1 in
          ground (arith, indices-same_page w virt same)
    ]
  ]

  set_entry-Writes :
      (t entry : ℕ)
      → level t ≡ 1
      → descend v v.pml4 (indices virt) ≡ t
      → Writes v virt entry (set_entry t (pt_index virt) entry v)
  set_entry-Writes t entry last at = (
    (level, written-IsValid v level ok t (pt_index virt) entry last (indices-Indices virt).1),
    inl λ w.
        entry_at-written v level ok t (pt_index virt) entry last (indices-Indices virt).1 v.pml4
          (indices w) (pt_index w) (indices-Indices w).0 (indices-Indices w).1 ok.root
        ∙ ap (λ b. if b then entry else entry_of v w)
            (same_entry t w (ok.placed t (omega arith)).1 at),
  )

Writes-from :
    (v v' : Vmm) (virt entry : ℕ) {x : Vmm}
    → ((w : ℕ) → entry_of v' w ≡ entry_of v w)
    → Writes v' virt entry x
    → Writes v virt entry x
Writes-from v v' virt entry kept (valid, inl f) =
    (valid, inl λ w. f w ∙ ap (λ e. if page w == page virt then entry else e) (kept w))
Writes-from v v' virt entry kept (valid, inr (full, f)) = (valid, inr (full, λ w. f w ∙ kept w))

Grown-entry_of :
    (v : Vmm) (level : ℕ → ℕ)
    → IsValid v level
    → (v' : Vmm) (level' : ℕ → ℕ) → Grown v level v' level'
    → (w : ℕ) → entry_of v' w ≡ entry_of v w
Grown-entry_of v level ok v' level' grown w =
    ap (λ p. entry_at v' p (indices w) (pt_index w)) grown.root
    ∙ grown.entries v.pml4 (indices w) (pt_index w) (indices-Indices w).0 (indices-Indices w).1
        ok.root

module _ (v : Vmm) (level : ℕ → ℕ) (ok : IsValid v level) (virt entry : ℕ) where
  -- What `vmm_map` and `vmm_unmap` do after the walk.
  abbrev finished : ℕ × Vmm → Vmm
  finished (t, v') = if t == 0 then v' else set_entry t (pt_index virt) entry v'

  finished-Writes :
      (r : ℕ × Vmm) → Reached v level v.pml4 (indices virt) r → Writes v virt entry (finished r)
  finished-Writes (t, v') (level', grown, inl (z, full)) =
      let null : (t == 0) ≡ true = ground arith in
      let stopped : finished (t, v') ≡ v' = rw null refl in
      subst (Writes v virt entry) (sym stopped)
        ((level', grown.valid), inr (full, Grown-entry_of v level ok v' level' grown))
  finished-Writes (t, v') (level', grown, inr (at, last)) =
      let nonzero : (t == 0) ≡ false = ground (arith, grown.valid.placed t (omega arith)) in
      let onward : finished (t, v') ≡ set_entry t (pt_index virt) entry v' = rw nonzero refl in
      let here : descend v' v'.pml4 (indices virt) ≡ t =
        ap (λ p. descend v' p (indices virt)) grown.root ∙ at in
      subst (Writes v virt entry) (sym onward) (
        Writes-from v v' virt entry (Grown-entry_of v level ok v' level' grown)
          (set_entry-Writes v' level' grown.valid virt t entry last here))

  walked-Writes : Writes v virt entry (finished (ensure_tables virt v))
  walked-Writes =
      subst (λ r. Writes v virt entry (finished r)) (sym (ensure_tables-ensure_path virt v))
        (finished-Writes (ensure_path v.pml4 (indices virt) v)
          (ensure_path-Reached v level v.pml4 (indices virt) ok (indices-Indices virt).0 ok.root))

-- The address that an entry gives to `virt`.
abbrev translated : ℕ → ℕ → ℕ
translated pte virt = if entry_present pte then wrap64 (entry_address pte + page_offset virt) else 0

vmm_translate-entry_of : (v : Vmm) (w : ℕ) → vmm_translate v w ≡ translated (entry_of v w) w
unfolding vmm_translate entry_at descend entry_present
vmm_translate-entry_of v w =
    let a = next_table v v.pml4 (pml4_index w) in
    let b = next_table v a (pdpt_index w) in
    let c = next_table v b (pd_index w) in
    elim (Bool-cases (a == 0)) [
      | inl e ↦ rw e refl
      | inr e ↦ elim (Bool-cases (b == 0)) [
        | inl f ↦ rw (e, f) refl
        | inr f ↦ elim (Bool-cases (c == 0)) [
          | inl g ↦ rw (e, f, g) refl
          | inr g ↦ rw (e, f, g) (rw g refl)
        ]
      ]
    ]

page_offset-mod : (w : ℕ) → page_offset w ≡ w % 4096
unfolding page_offset
page_offset-mod w = twelve_bits w

translated-zero : (w : ℕ) → translated 0 w ≡ 0
unfolding entry_present
translated-zero w = refl

-- The translation after an entry was written that gives the addresses of its page `place`.
translates :
    (v : Vmm) (virt entry : ℕ) (place : ℕ → ℕ)
    → ((w : ℕ) → translated entry w ≡ place w)
    → (v' : Vmm) → Writes v virt entry v'
    → ((level : ℕ → ℕ) × IsValid v' level)
      × (((w : ℕ)
            → vmm_translate v' w ≡ (if page w == page virt then place w else vmm_translate v w))
          ⊎ (((pmm_alloc_page v'.pmm).0 ≡ 0) × ((w : ℕ) → vmm_translate v' w ≡ vmm_translate v w)))
translates v virt entry place at v' (valid, inr (full, f)) = (
  valid,
  inr (
    full,
    λ w.
        vmm_translate-entry_of v' w
        ∙ ap (λ e. translated e w) (f w)
        ∙ sym (vmm_translate-entry_of v w),
  ),
)
translates v virt entry place at v' (valid, inl f) =
    (valid, inl λ w. vmm_translate-entry_of v' w ∙ ap (λ e. translated e w) (f w) ∙ go w)
  where
    go :
        (w : ℕ)
        → translated (if page w == page virt then entry else entry_of v w) w
          ≡ (if page w == page virt then place w else vmm_translate v w)
    go w = elim (Bool-cases (page w == page virt)) [
      | inl e ↦ rw e (at w)
      | inr e ↦ rw e (sym (vmm_translate-entry_of v w))
    ]

module _ (v : Vmm) (level : ℕ → ℕ) (ok : IsValid v level) (virt : ℕ) where
  -- Mapping a page whose address is a multiple of 4096 below 2^52, with flags in the lower twelve bits
  -- and the present bit, keeps the page tables valid. Every address of the page of `virt` is then
  -- translated to its place in that page, and the translation of all other addresses is unchanged; or
  -- no page was left for a table, and no translation has changed.
  pub vmm_map_lem :
      (phys flags : ℕ)
      → phys % 4096 ≡ 0
      → phys < 2 ^ 52
      → flags < 4096
      → flags % 2 ≡ 1
      → let v' = vmm_map virt phys flags v in
        ((level : ℕ → ℕ) × IsValid v' level)
        × (((w : ℕ)
              → vmm_translate v' w
                ≡ (if page w == page virt then phys + w % 4096 else vmm_translate v w))
            ⊎ (((pmm_alloc_page v'.pmm).0 ≡ 0)
                × ((w : ℕ) → vmm_translate v' w ≡ vmm_translate v w)))
  unfolding vmm_map
  vmm_map_lem phys flags aligned fits small odd =
      translates v virt (bit_or phys flags) (λ w. phys + w % 4096)
        (λ w.
          rw
            (
              entry_present-bit_or phys flags aligned small odd,
              entry_address-bit_or phys flags aligned small fits,
              page_offset-mod w,
            )
            (omega arith))
        (vmm_map virt phys flags v) (walked-Writes v level ok virt (bit_or phys flags))

  -- Unmapping keeps the page tables valid: no address of the page of `virt` is translated any more,
  -- and the translation of all other addresses is unchanged; or no page was left for a table on the
  -- way, and no translation has changed.
  pub vmm_unmap_lem :
      let v' = vmm_unmap virt v in
      ((level : ℕ → ℕ) × IsValid v' level)
      × (((w : ℕ) → vmm_translate v' w ≡ (if page w == page virt then 0 else vmm_translate v w))
          ⊎ (((pmm_alloc_page v'.pmm).0 ≡ 0) × ((w : ℕ) → vmm_translate v' w ≡ vmm_translate v w)))
  unfolding vmm_unmap
  vmm_unmap_lem =
      translates v virt 0 (λ w. 0) translated-zero (vmm_unmap virt v)
        (walked-Writes v level ok virt 0)
