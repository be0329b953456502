-- ===== src/Devices/Pci/Config.antt =====
-- Reading and writing the configuration space through kernel/src/drivers/pci/pci.c.
use bethany.Prelude.{
  ℕ, ◌+◌, ◌*◌, ◌/◌, ◌%◌, ◌^◌, ◌<◌, ◌≡◌, ◌≢◌, ◌⊎◌, inl, inr, refl, bit_and, bit_or, ◌==◌,
  if◌then◌else◌, arith, wrap32, bit_and-field_mask, bit_or-fields, bit_or-low, ◌∙◌, ap, Bool-cases,
}
use bethany.Devices.{Ports}
use bethany.Devices.Pci.{
  pci_config_address, pci_config_data, pci_address, replace_half, take_half, pci_read16,
  pci_write16, pci_read32, pci_write32,
}

-- What the controller does: the data port shows the register whose address was last written to the
-- address port. `reg` are the registers, of 32 bits each; `effect a old value` is what the register `a`
-- with the value `old` becomes when `value` is written to it. It is up to the device: bits may be
-- kept, be read-only, or be cleared by a one, and a function that is absent takes nothing.
pub record ConfigSpace (io : Ports) : Type 0 where
  pub reg : io.Bus → ℕ → ℕ
  pub selected : io.Bus → ℕ
  pub effect : ℕ → ℕ → ℕ → ℕ
  pub reg_lt : (s : io.Bus) (a : ℕ) → reg s a < 2 ^ 32
  pub select : (a : ℕ) (s : io.Bus) → selected (io.outl pci_config_address a s) ≡ a
  pub select_keeps : (a b : ℕ) (s : io.Bus) → reg (io.outl pci_config_address a s) b ≡ reg s b
  pub read : (s : io.Bus) → (io.inl pci_config_data s).0 ≡ reg s (selected s)
  pub read_keeps : (s : io.Bus) (b : ℕ) → reg (io.inl pci_config_data s).1 b ≡ reg s b
  pub write :
      (value : ℕ) (s : io.Bus) (b : ℕ)
      → value < 2 ^ 32
      → reg (io.outl pci_config_data value s) b
        ≡ (if b == selected s then effect b (reg s b) value else reg s b)

-- The half of a word that the offset names, and the other half.
abbrev pub half : ℕ → ℕ → ℕ
half offset word = if bit_and offset 2 == 0 then word % 2 ^ 16 else word / 2 ^ 16 % 2 ^ 16

abbrev pub other_half : ℕ → ℕ → ℕ
other_half offset word = if bit_and offset 2 == 0 then word / 2 ^ 16 % 2 ^ 16 else word % 2 ^ 16

-- Bit 1 is clear or set.
bit_one : (offset : ℕ) → (bit_and offset 2 ≡ 0) ⊎ (bit_and offset 2 ≡ 2)
bit_one offset =
    let e : bit_and offset 2 ≡ offset / 2 ^ 1 % 2 ^ 1 * 2 ^ 1 = bit_and-field_mask 1 1 offset in
    elim (Bool-cases (bit_and offset 2 == 0)) [
      | inl h ↦ inl (ground arith)
      | inr h ↦ inr (ground arith)
    ]

low_16 : (word : ℕ) → bit_and word 0xffff ≡ word % 2 ^ 16
low_16 word = omega (arith, bit_and-field_mask 0 16 word)

high_16 : (word : ℕ) → word < 2 ^ 32 → bit_and word 0xffff_0000 ≡ word / 2 ^ 16 * 2 ^ 16
high_16 word h = omega (arith, bit_and-field_mask 16 16 word)

take_half-half : (offset word : ℕ) → take_half offset word ≡ half offset word
unfolding take_half
take_half-half offset word = elim (bit_one offset) [
  | inl e ↦ rw e (omega (arith, low_16 (word / 1)))
  | inr e ↦ rw e (low_16 (word / 2 ^ 16))
]

-- The half that is written, and the half that stays.
abbrev replaced : ℕ → ℕ → ℕ → ℕ
replaced offset value old =
    if bit_and offset 2 == 0 then old / 2 ^ 16 * 2 ^ 16 + value else value * 2 ^ 16 + old % 2 ^ 16

kept_low : (value : ℕ) → value < 2 ^ 16 → wrap32 (value * 1) ≡ value
kept_low value h = omega arith

kept_high : (value : ℕ) → value < 2 ^ 16 → wrap32 (value * 2 ^ 16) ≡ value * 2 ^ 16
kept_high value h = omega arith

replace_half-replaced :
    (offset value old : ℕ)
    → value < 2 ^ 16
    → old < 2 ^ 32
    → replace_half offset value old ≡ replaced offset value old
unfolding replace_half
replace_half-replaced offset value old hv ho = elim (bit_one offset) [
  | inl e ↦
      rw (e, high_16 old ho)
        (ap (bit_or (old / 2 ^ 16 * 2 ^ 16)) (kept_low value hv)
          ∙ bit_or-fields 16 (old / 2 ^ 16 * 2 ^ 16) value (omega arith) hv)
  | inr e ↦
      rw (e, low_16 old)
        (ap (bit_or (old % 2 ^ 16)) (kept_high value hv)
          ∙ bit_or-low 16 (value * 2 ^ 16) (old % 2 ^ 16) (omega arith) (omega arith))
]

module _ (offset value old : ℕ) (hv : value < 2 ^ 16) (ho : old < 2 ^ 32) where
  replaced-lt : replaced offset value old < 2 ^ 32
  replaced-lt = ground arith

  half-replaced : half offset (replaced offset value old) ≡ value
  half-replaced = ground arith

  other_half-replaced : other_half offset (replaced offset value old) ≡ other_half offset old
  other_half-replaced = ground arith

-- The word that `pci_write16` writes: the value in the half that the offset names, and in the other
-- half what the register held.
pub record Merges (offset value old word : ℕ) : Type 0 where
  pub small : word < 2 ^ 32
  pub named : half offset word ≡ value
  pub kept : other_half offset word ≡ other_half offset old

module _ (io : Ports) (c : ConfigSpace io) (bus device function offset : ℕ) where
  abbrev address : ℕ
  address = pci_address bus device function offset

  pci_read32-reg : (s : io.Bus) → (pci_read32 io bus device function offset s).0 ≡ c.reg s address
  unfolding pci_read32
  pci_read32-reg s =
      c.read (io.outl pci_config_address address s)
      ∙ ap (c.reg (io.outl pci_config_address address s)) (c.select address s)
      ∙ c.select_keeps address address s

  pci_read32-keeps :
      (s : io.Bus) (b : ℕ) → c.reg (pci_read32 io bus device function offset s).1 b ≡ c.reg s b
  unfolding pci_read32
  pci_read32-keeps s b =
      c.read_keeps (io.outl pci_config_address address s) b ∙ c.select_keeps address b s

  pci_write32-reg :
      (word : ℕ) (s : io.Bus) (b : ℕ)
      → word < 2 ^ 32
      → c.reg (pci_write32 io bus device function offset word s) b
        ≡ (if b == address then c.effect b (c.reg s b) word else c.reg s b)
  unfolding pci_write32
  pci_write32-reg word s b h =
      c.write word (io.outl pci_config_address address s) b h
      ∙ rw (c.select address s, c.select_keeps address b s) refl

  pci_write16-reg :
      (value : ℕ) (s : io.Bus) (b : ℕ)
      → value < 2 ^ 16
      → c.reg (pci_write16 io bus device function offset value s) b ≡ (
          if b == address
          then c.effect b (c.reg s b) (replaced offset value (c.reg s address))
          else c.reg s b)
  unfolding pci_write16
  pci_write16-reg value s b h =
      let new_word : replace_half offset value (pci_read32 io bus device function offset s).0
          ≡ replaced offset value (c.reg s address) =
        ap (replace_half offset value) (pci_read32-reg s)
        ∙ replace_half-replaced offset value (c.reg s address) h (c.reg_lt s address) in
      rw new_word (
        pci_write32-reg (replaced offset value (c.reg s address))
          (pci_read32 io bus device function offset s).1 b
          (replaced-lt offset value (c.reg s address) h (c.reg_lt s address))
        ∙ ap
            (λ x.
              if b == address then c.effect b x (replaced offset value (c.reg s address)) else x)
            (pci_read32-keeps s b))

  -- On a controller that shows the register selected by the address port at the data port,
  -- `pci_write16` of a 16-bit value has the effect on the register of one 32-bit write: of the value in
  -- the half that the offset names and of what was read in the other half, and no effect on any other
  -- register. `pci_read16` of the same place then returns that half of whatever the register now holds.
  pub pci_write16_lem :
      (value : ℕ) (s : io.Bus)
      → value < 2 ^ 16
      → let s' = pci_write16 io bus device function offset value s in
        ((word : ℕ) × Merges offset value (c.reg s address) word
          × (c.reg s' address ≡ c.effect address (c.reg s address) word))
        × ((b : ℕ) → b ≢ address → c.reg s' b ≡ c.reg s b)
        × ((pci_read16 io bus device function offset s').0 ≡ half offset (c.reg s' address))
  unfolding pci_read16
  pci_write16_lem value s h =
      let s' = pci_write16 io bus device function offset value s in
      let old = c.reg s address in
      (
        (
          replaced offset value old,
          record {
            small = replaced-lt offset value old h (c.reg_lt s address);
            named = half-replaced offset value old h (c.reg_lt s address);
            kept = other_half-replaced offset value old h (c.reg_lt s address);
          },
          pci_write16-reg value s address h ∙ ground arith,
        ),
        λ b ne. pci_write16-reg value s b h ∙ ground arith,
        ap (take_half offset) (pci_read32-reg s') ∙ take_half-half offset (c.reg s' address),
      )
