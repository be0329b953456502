-- ===== src/Storage/Nvme/Init.antt =====
-- Starting the controller: `nvme_init` of kernel/src/storage/nvme/nvme.c and the functions it calls.
use bethany.Prelude.{
  ℕ, zero, suc, ◌^◌, Bool, true, false, ◌||◌, List, Option, none, some, bit_and, ◌==◌,
  if◌then◌else◌, wrap32,
}
use bethany.Devices.{Ports}
use bethany.Devices.Pci.{PciDevice, pci_find, pci_enable_device, pci_bar}
use bethany.Memory.Pmm.{pmm_alloc_page}
use bethany.Memory.Vmm.{vmm_phys_to_virt, vmm_map_range}
use bethany.Storage.Nvme.{
  Device, QueuePair, nvme_parse_cap, Nvme, Reply, and_then, nvme_read32, nvme_read64, nvme_write32,
  nvme_write64,
}
use bethany.Storage.Nvme.Commands.{
  nvme_alloc_identify_buffer, nvme_identify_controller, nvme_identify_namespace, nvme_create_io_cq,
  nvme_create_io_sq,
}

module _ (d : Device) where
  -- `while((nvme_read32 d(NVME_REG_CSTS) & 1) == busy)`
  unfoldable pub wait_ready : ℕ → ℕ → Nvme d → Reply d
  wait_ready zero busy s = none
  wait_ready (suc n) busy s =
      let r = nvme_read32 d 0x1c s in
      elim (bit_and r.0 1 == busy) [ true ↦ wait_ready n busy r.1 | false ↦ some (true, r.1) ]

  unfoldable pub nvme_disable_controller : ℕ → Nvme d → Reply d
  nvme_disable_controller n s =
      let (cc, s1) = nvme_read32 d 0x14 s in
      if bit_and cc 1 == 0
      then some (true, s1)
      else wait_ready n 1 (nvme_write32 d 0x14 (bit_and cc 0xffff_fffe) s1)

  -- `(6 << 16) | (4 << 20) | 1`
  unfoldable pub nvme_controller_start : ℕ → Nvme d → Reply d
  nvme_controller_start n s = wait_ready n 0 (nvme_write32 d 0x14 0x0046_0001 s)

  -- A queue pair in two fresh pages. Both pages are taken before either is looked at.
  unfoldable pub queue_pair : QueuePair → Nvme d → Option QueuePair × Nvme d
  queue_pair q s =
      let (sq, pmm1) = pmm_alloc_page s.vmm.pmm in
      let (cq, pmm2) = pmm_alloc_page pmm1 in
      let vmm = record s.vmm { pmm = pmm2 } in
      let s1 = record s { vmm = vmm } in
      if sq == 0 || cq == 0 then (none, s1) else (
        some (record {
          sq = vmm_phys_to_virt vmm sq;
          cq = vmm_phys_to_virt vmm cq;
          sq_phys = sq;
          cq_phys = cq;
          sq_tail = 0;
          cq_head = 0;
          queue_size = 64;
        }),
        record s1 {
          dev = d.fill (vmm_phys_to_virt vmm cq) (d.fill (vmm_phys_to_virt vmm sq) s1.dev);
        },
      )

  unfoldable pub nvme_admin_queue_init : Nvme d → Reply d
  nvme_admin_queue_init s =
      let (q, s1) = queue_pair s.admin s in
      elim q [ none ↦ some (false, s1) | some p ↦ some (true, record s1 { admin = p }) ]

  unfoldable pub nvme_io_queue_init : Nvme d → Reply d
  nvme_io_queue_init s =
      let (q, s1) = queue_pair s.io s in
      elim q [ none ↦ some (false, s1) | some p ↦ some (true, record s1 { io = p }) ]

  unfoldable pub nvme_enable_controller : ℕ → Nvme d → Reply d
  nvme_enable_controller n s = and_then d (nvme_disable_controller n s) λ s1. some (
    true,
    nvme_write64 d 0x30 s1.admin.cq_phys
        (nvme_write64 d 0x28 s1.admin.sq_phys (nvme_write32 d 0x24 0x003f_003f s1)),
  )

  -- The end of `nvme_init`: the block device as the namespace describes it.
  unfoldable pub register_block : Nvme d → Reply d
  register_block s =
      let format = bit_and (d.flbas s.identify_buffer s.dev) 0xf in
      some (
        true,
        record s {
          block = record {
            block_size = wrap32 (2 ^ d.lbads s.identify_buffer format s.dev);
            block_count = d.nsze s.identify_buffer s.dev;
          };
          registered = true;
        },
      )

  -- `nvme_init` from the registers on. 27 are the flags, two pages are mapped.
  unfoldable pub start_at : ℕ → ℕ → Nvme d → Reply d
  start_at n bar0 s =
      let s0 = record s {
        bar0 = bar0;
        vmm = vmm_map_range 2 0xffff_9000_0000_0000 bar0 0x2000 27 s.vmm;
      } in
      let (cap, s1) = nvme_read64 d 0 s0 in
      let (version, s2) = nvme_read32 d 8 s1 in
      let (csts, s3) = nvme_read32 d 0x1c s2 in
      let s4 = record s3 { cap = cap; version = version; csts = csts; caps = nvme_parse_cap cap } in
      and_then d (nvme_admin_queue_init (nvme_write32 d 0xc 0xffff_ffff s4)) λ a.
        and_then d (nvme_enable_controller n a) λ b. and_then d (nvme_controller_start n b) λ c.
          and_then d (nvme_alloc_identify_buffer d c) λ e.
            and_then d (nvme_identify_controller d n e) λ f.
              and_then d (nvme_identify_namespace d n 1 f) λ g.
                and_then d (nvme_io_queue_init g) λ h.
                  and_then d (nvme_create_io_cq d n h)
                    λ i. and_then d (nvme_create_io_sq d n i) register_block

  -- `devices` is what the scan of the bus found.
  unfoldable pub nvme_init :
      (io : Ports) → ℕ → List PciDevice → io.Bus → Nvme d → Option (Bool × io.Bus × Nvme d)
  nvme_init io n devices bus s = elim (pci_find devices 0x01 0x08) [
    | none ↦ some (false, bus, s)
    | some pci ↦
        let (bar0, bus') = pci_bar io pci 0 (pci_enable_device io pci bus) in
        elim (start_at n bar0 s) [ none ↦ none | some (ok, s') ↦ some (ok, bus', s') ]
  ]
