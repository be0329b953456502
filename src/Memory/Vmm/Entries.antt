-- ===== src/Memory/Vmm/Entries.antt =====
-- The words of the page tables of kernel/src/memory/vmm.c: entries, their places, and clearing a table.
use bethany.Prelude.{
  ℕ, zero, suc, ◌+◌, ◌*◌, ◌/◌, ◌%◌, ◌^◌, ◌<◌, ◌≡◌, ◌≢◌, true, refl, arith, bit_and, bit_or,
  bit_and-field_mask, bit_or-fields, ◌∙◌, ap,
}
use bethany.Memory.Vmm.{entry_present, entry_address, slot, clear_words}

low_bit : (a : ℕ) → bit_and a 1 ≡ a % 2
low_bit a = omega (arith, bit_and-field_mask 0 1 a)

address_bits : (a : ℕ) → bit_and a 0x000f_ffff_ffff_f000 ≡ a / 2 ^ 12 % 2 ^ 40 * 2 ^ 12
address_bits a = bit_and-field_mask 12 40 a

-- An entry is a page's address with the flags in the lower twelve bits.
module _ (phys flags : ℕ) (aligned : phys % 4096 ≡ 0) (small : flags < 4096) where
  joined : bit_or phys flags ≡ phys + flags
  joined = bit_or-fields 12 phys flags aligned small

  pub entry_present-bit_or : flags % 2 ≡ 1 → entry_present (bit_or phys flags) ≡ true
  unfolding entry_present
  entry_present-bit_or odd =
      let e : bit_and (bit_or phys flags) 1 ≡ 1 =
        ap (λ x. bit_and x 1) joined ∙ low_bit (phys + flags) ∙ omega arith in
      rw e refl

  pub entry_address-bit_or : phys < 2 ^ 52 → entry_address (bit_or phys flags) ≡ phys
  unfolding entry_address
  entry_address-bit_or fits =
      ap (λ x. bit_and x 0x000f_ffff_ffff_f000) joined ∙ address_bits (phys + flags) ∙ omega arith

-- Words of different tables lie apart.
pub slot_apart :
    (s t i j : ℕ)
    → s % 4096 ≡ 0
    → t % 4096 ≡ 0
    → i < 512
    → j < 512
    → slot s i ≡ slot t j
    → (s ≡ t) × (i ≡ j)
slot_apart s t i j es et hi hj e = (omega arith, omega arith)

module _ (t : ℕ) (m : ℕ → ℕ) where
  pub clear_words-inside : (n i : ℕ) → i < n → clear_words t n m (slot t i) ≡ 0
  unfolding clear_words
  clear_words-inside zero i h = absurd (omega arith)
  clear_words-inside (suc n) i h = ground (arith, clear_words-inside n i)

  pub clear_words-outside : (n x : ℕ) → ((i : ℕ) → i < n → x ≢ slot t i) → clear_words t n m x ≡ m x
  unfolding clear_words
  clear_words-outside zero x h = refl
  clear_words-outside (suc n) x h =
      ground (arith, h n, clear_words-outside n x (λ i hi. h i (omega arith)))
