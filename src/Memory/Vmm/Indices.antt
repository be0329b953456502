-- ===== src/Memory/Vmm/Indices.antt =====
-- How kernel/src/memory/vmm.c cuts a virtual address into indices.
use bethany.Prelude.{ℕ, ◌%◌, ◌^◌, ◌≡◌, arith, bit_and, bit_and-field_mask}

pub nine_bits : (a : ℕ) → bit_and a 0x1ff ≡ a % 2 ^ 9
nine_bits a = omega (arith, bit_and-field_mask 0 9 a)

pub twelve_bits : (a : ℕ) → bit_and a 0xfff ≡ a % 2 ^ 12
twelve_bits a = omega (arith, bit_and-field_mask 0 12 a)
