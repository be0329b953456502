-- ===== src/Devices/Pci.antt =====
-- The PCI bus, kernel/src/drivers/pci/pci.c: the configuration space behind an address port and a data
-- port, and the table of the devices that the scan finds.
pub mod Config
pub mod Scan
mod Tests
use bethany.Prelude.{
  ℕ, zero, suc, ◌+◌, ◌-◌, ◌*◌, ◌/◌, ◌^◌, Bool, true, false, ◌&&◌, List, [], ◌∷◌, ◌++◌, Option, none,
  some, bit_and, bit_or, ltb, leb, ◌==◌, if◌then◌else◌, wrap8, wrap32, length,
}
use bethany.Devices.{Ports}

abbrev pub pci_config_address : ℕ
pci_config_address = 0xcf8

abbrev pub pci_config_data : ℕ
pci_config_data = 0xcfc

abbrev pub pci_max_devices : ℕ
pci_max_devices = 128

-- `PCI_CMD_MEM_SPACE | PCI_CMD_BUS_MASTER`
abbrev pub pci_cmd_mem_master : ℕ
pci_cmd_mem_master = 6

pub record PciDevice : Type 0 where
  pub bus : ℕ
  pub device : ℕ
  pub function : ℕ
  pub vendor : ℕ
  pub device_id : ℕ
  pub class : ℕ
  pub subclass : ℕ
  pub prog_if : ℕ
  pub revision : ℕ

unfoldable pub pci_address : ℕ → ℕ → ℕ → ℕ → ℕ
pci_address bus device function offset =
    bit_or
      (bit_or (bit_or (bit_or (2 ^ 31) (wrap32 (bus * 2 ^ 16))) (wrap32 (device * 2 ^ 11)))
        (wrap32 (function * 2 ^ 8)))
      (bit_and offset 0xfc)

-- `(offset & 2) * 8`
abbrev pub half_shift : ℕ → ℕ
half_shift offset = bit_and offset 2 * 8

-- The word that `pci_write16` writes back in place of `old`.
unfoldable pub replace_half : ℕ → ℕ → ℕ → ℕ
replace_half offset value old =
    let shift = half_shift offset in
    let mask = wrap32 (0xffff * 2 ^ shift) in
    bit_or (bit_and old (2 ^ 32 - 1 - mask)) (wrap32 (value * 2 ^ shift))

-- The half of a word that `pci_read16` returns.
unfoldable pub take_half : ℕ → ℕ → ℕ
take_half offset value = bit_and (value / 2 ^ half_shift offset) 0xffff

-- The numbers are those that the array `devices` holds, `device_count` is its length.
unfoldable pub pci_find : List PciDevice → ℕ → ℕ → Option PciDevice
pci_find [] class subclass = none
pci_find (d ∷ ds) class subclass =
    if d.class == class && d.subclass == subclass then some d else pci_find ds class subclass

unfoldable pub pci_find_vendor : List PciDevice → ℕ → ℕ → Option PciDevice
pci_find_vendor [] vendor device_id = none
pci_find_vendor (d ∷ ds) vendor device_id =
    if d.vendor == vendor && d.device_id == device_id
    then some d
    else pci_find_vendor ds vendor device_id

module _ (io : Ports) where
  unfoldable pub pci_read32 : ℕ → ℕ → ℕ → ℕ → io.Bus → ℕ × io.Bus
  pci_read32 bus device function offset s =
      io.inl pci_config_data (io.outl pci_config_address (pci_address bus device function offset) s)

  unfoldable pub pci_read16 : ℕ → ℕ → ℕ → ℕ → io.Bus → ℕ × io.Bus
  pci_read16 bus device function offset s =
      let (value, s') = pci_read32 bus device function offset s in (take_half offset value, s')

  unfoldable pub pci_write32 : ℕ → ℕ → ℕ → ℕ → ℕ → io.Bus → io.Bus
  pci_write32 bus device function offset value s =
      io.outl pci_config_data value
        (io.outl pci_config_address (pci_address bus device function offset) s)

  unfoldable pub pci_write16 : ℕ → ℕ → ℕ → ℕ → ℕ → io.Bus → io.Bus
  pci_write16 bus device function offset value s =
      let (old, s') = pci_read32 bus device function offset s in
      pci_write32 bus device function offset (replace_half offset value old) s'

  -- The device is found in the table, so the null pointer has no case. 1024 disables its interrupt.
  unfoldable pub pci_enable_device : PciDevice → io.Bus → io.Bus
  pci_enable_device d s =
      let (cmd, s') = pci_read16 d.bus d.device d.function 4 s in
      pci_write16 d.bus d.device d.function 4 (bit_or (bit_or cmd pci_cmd_mem_master) 1024) s'

  -- The table of devices is extended at its end.
  unfoldable pub pci_scan_device : ℕ → ℕ → ℕ → List PciDevice × io.Bus → List PciDevice × io.Bus
  pci_scan_device bus device function (devices, s) =
      let (vendor, s1) = pci_read16 bus device function 0 s in
      let (device_id, s2) = pci_read16 bus device function 2 s1 in
      let (class_reg, s3) = pci_read32 bus device function 8 s2 in
      if vendor == 0xffff
      then (devices, s1)
      else if leb pci_max_devices (length devices)
      then (devices, s3)
      else (
        devices
            ++ (record {
              bus = bus;
              device = device;
              function = function;
              vendor = vendor;
              device_id = device_id;
              class = bit_and (class_reg / 2 ^ 24) 0xff;
              subclass = bit_and (class_reg / 2 ^ 16) 0xff;
              prog_if = bit_and (class_reg / 2 ^ 8) 0xff;
              revision = bit_and class_reg 0xff;
            }
                ∷ []),
        s3,
      )

  -- The three loops of `pci_scan`, the last round outermost.
  unfoldable pub scan_functions : ℕ → ℕ → ℕ → List PciDevice × io.Bus → List PciDevice × io.Bus
  scan_functions bus device zero t = t
  scan_functions bus device (suc n) t = pci_scan_device bus device n (scan_functions bus device n t)

  unfoldable pub scan_slots : ℕ → ℕ → List PciDevice × io.Bus → List PciDevice × io.Bus
  scan_slots bus zero t = t
  scan_slots bus (suc n) t = scan_functions bus n 8 (scan_slots bus n t)

  unfoldable pub scan_buses : ℕ → List PciDevice × io.Bus → List PciDevice × io.Bus
  scan_buses zero t = t
  scan_buses (suc n) t = scan_slots n 32 (scan_buses n t)

  unfoldable pub pci_scan : List PciDevice × io.Bus → List PciDevice × io.Bus
  pci_scan t = scan_buses 256 t

  unfoldable pub pci_init : io.Bus → List PciDevice × io.Bus
  pci_init s = pci_scan ([], s)

  -- `~0xF` is a 64-bit mask; the register has 32 bits.
  unfoldable pub pci_bar : PciDevice → ℕ → io.Bus → ℕ × io.Bus
  pci_bar d index s =
      let offset = wrap8 (0x10 + index * 4) in
      let (low, s1) = pci_read32 d.bus d.device d.function offset s in
      let (high, s2) = pci_read32 d.bus d.device d.function (wrap8 (offset + 4)) s1 in
      let address = bit_and low 0xffff_fff0 in
      if leb 6 index
      then (0, s)
      else if bit_and low 1 == 0
      then (if bit_and (low / 2) 3 == 2
          then (bit_or (high * 2 ^ 32) address, s2)
          else (address, s1))
      else (0, s1)
