-- ===== src/Devices/Pci/Scan.antt =====
-- The table of devices of kernel/src/drivers/pci/pci.c.
use bethany.Prelude.{
  ℕ, zero, suc, ◌≤◌, inl, inr, Bool, true, false, List, [], ◌∷◌, ◌++◌, leb, if◌then◌else◌, arith,
  length, length-append, Bool-cases,
}
use bethany.Devices.{Ports}
use bethany.Devices.Pci.{
  PciDevice, pci_max_devices, pci_scan_device, scan_functions, scan_slots, scan_buses, pci_scan,
  pci_init,
}

module _ (io : Ports) where
  abbrev Fits : List PciDevice × io.Bus → Type 0
  Fits t = length (t.0) ≤ pci_max_devices

  extended-Fits :
      (absent : Bool) (ds : List PciDevice) (d : PciDevice) (s1 s2 : io.Bus)
      → length ds ≤ pci_max_devices
      → Fits (
          if absent
          then (ds, s1)
          else if leb pci_max_devices (length ds)
          then (ds, s2)
          else (ds ++ (d ∷ []), s2))
  extended-Fits true ds d s1 s2 h = h
  extended-Fits false ds d s1 s2 h = elim (Bool-cases (leb pci_max_devices (length ds))) [
    | inl full ↦ rw full h
    | inr room ↦ rw (room, length-append ds (d ∷ [])) (ground arith)
  ]

  pci_scan_device-Fits :
      (bus device function : ℕ) (t : List PciDevice × io.Bus)
      → Fits t
      → Fits (pci_scan_device io bus device function t)
  unfolding pci_scan_device
  pci_scan_device-Fits bus device function (ds, s) h = extended-Fits _ ds _ _ _ h

  scan_functions-Fits :
      (bus device n : ℕ) (t : List PciDevice × io.Bus)
      → Fits t
      → Fits (scan_functions io bus device n t)
  unfolding scan_functions
  scan_functions-Fits bus device zero t h = h
  scan_functions-Fits bus device (suc n) t h =
      pci_scan_device-Fits bus device n (scan_functions io bus device n t)
        (scan_functions-Fits bus device n t h)

  scan_slots-Fits :
      (bus n : ℕ) (t : List PciDevice × io.Bus) → Fits t → Fits (scan_slots io bus n t)
  unfolding scan_slots
  scan_slots-Fits bus zero t h = h
  scan_slots-Fits bus (suc n) t h =
      scan_functions-Fits bus n 8 (scan_slots io bus n t) (scan_slots-Fits bus n t h)

  scan_buses-Fits : (n : ℕ) (t : List PciDevice × io.Bus) → Fits t → Fits (scan_buses io n t)
  unfolding scan_buses
  scan_buses-Fits zero t h = h
  scan_buses-Fits (suc n) t h = scan_slots-Fits n 32 (scan_buses io n t) (scan_buses-Fits n t h)

  -- The scan of all buses never puts more than 128 devices into the table, whatever answers.
  pub pci_init-Fits : (s : io.Bus) → length ((pci_init io s).0) ≤ pci_max_devices
  unfolding pci_init pci_scan
  pci_init-Fits s = scan_buses-Fits 256 ([], s) (omega arith)
