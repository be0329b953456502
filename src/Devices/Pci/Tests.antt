-- ===== src/Devices/Pci/Tests.antt =====
-- Tests of kernel/src/drivers/pci/pci.c, and its theorems at a bus of registers.
use bethany.Prelude.{
  ℕ, ◌+◌, ◌-◌, ◌*◌, ◌/◌, ◌%◌, ◌^◌, bit_and, ◌≡◌, ◌≢◌, refl, ◌==◌, if◌then◌else◌, arith, wrap32,
  update,
}
use bethany.Devices.{Ports}
use bethany.Devices.Pci.{
  take_half, pci_read32, pci_write32, replace_half, pci_config_address, pci_config_data,
  pci_address, pci_read16, pci_write16,
}
use bethany.Devices.Pci.Config.{ConfigSpace, Merges, half, pci_write16_lem}

record Registers : Type 0 where
  selected : ℕ
  words : ℕ → ℕ

-- In the register with the status, ones clear the upper half; the other registers keep what is written.
abbrev written : ℕ → ℕ → ℕ → ℕ
written a old value =
    if a % 256 == 4
    then bit_and (old / 2 ^ 16) (2 ^ 16 - 1 - value / 2 ^ 16 % 2 ^ 16) * 2 ^ 16 + value % 2 ^ 16
    else value

abbrev write_port : ℕ → ℕ → Registers → Registers
write_port port value s =
    if port == pci_config_address
    then record s { selected = value }
    else if port == pci_config_data
    then record s {
      words = update s.words s.selected (written s.selected (wrap32 (s.words s.selected)) value);
    }
    else s

abbrev bus : Ports
bus = record {
  Bus = Registers;
  outb = λ port value s. s;
  inb = λ port s. (0, s);
  outl = write_port;
  inl = λ port s. ((if port == pci_config_data then wrap32 (s.words s.selected) else 0), s);
}

config_space : ConfigSpace bus
config_space = record {
  reg = λ s a. wrap32 (s.words a);
  selected = λ s. s.selected;
  effect = λ a old value. wrap32 (written a old value);
  reg_lt = λ s a. omega arith;
  select = λ a s. refl;
  select_keeps = λ a b s. refl;
  read = λ s. refl;
  read_keeps = λ s b. refl;
  write = λ value s b h. ground arith;
}

abbrev start : Registers
start = record { selected = 0; words = λ a. 0x1234_5678 }

-- A write of the command 7.
pci_write16_lem_example :
    let s' = pci_write16 bus 0 3 0 4 7 start in
    let a = pci_address 0 3 0 4 in
    ((word : ℕ) × Merges 4 7 (config_space.reg start a) word
      × (config_space.reg s' a ≡ config_space.effect a (config_space.reg start a) word))
    × ((b : ℕ) → b ≢ a → config_space.reg s' b ≡ config_space.reg start b)
    × ((pci_read16 bus 0 3 0 4 s').0 ≡ half 4 (config_space.reg s' a))
pci_write16_lem_example = pci_write16_lem bus config_space 0 3 0 4 7 start (omega arith)

-- The status 0x1234 is lost.
status_lost : (pci_read16 bus 0 3 0 6 (pci_write16 bus 0 3 0 4 7 start)).0 ≡ 0
unfolding pci_read16 pci_write16 take_half pci_read32 pci_write32 pci_address replace_half
status_lost = refl
