-- ===== src/Storage/Nvme/Commands.antt =====
-- The commands of kernel/src/storage/nvme/nvme.c: those that set the controller up, and the transfers.
use bethany.Prelude.{
  ℕ, ◌-◌, ◌*◌, ◌/◌, ◌^◌, Bool, true, false, not, ◌||◌, some, bit_or, ltb, ◌==◌, if◌then◌else◌,
  wrap32, wrap64,
}
use bethany.Memory.Pmm.{pmm_alloc_page, page_size}
use bethany.Memory.Vmm.{vmm_phys_to_virt, vmm_virt_to_phys}
use bethany.Storage.Nvme.{
  Command, no_command, Device, Nvme, Reply, nvme_admin_submit, nvme_io_submit,
}

-- The command that `nvme_read` and `nvme_write` build.
unfoldable pub transfer_command : ℕ → ℕ → ℕ → ℕ → ℕ → Command
transfer_command opcode id lba blocks prp1 = record no_command {
  opcode = opcode;
  command_id = id;
  nsid = 1;
  prp1 = prp1;
  cdw10 = wrap32 lba;
  cdw11 = wrap32 (lba / 2 ^ 32);
  cdw12 = wrap32 (blocks - 1);
}

module _ (d : Device) where
  unfoldable pub nvme_alloc_identify_buffer : Nvme d → Reply d
  nvme_alloc_identify_buffer s =
      let (phys, pmm) = pmm_alloc_page s.vmm.pmm in
      let s1 = record s { vmm = record s.vmm { pmm = pmm } } in
      if not (s.identify_buffer == 0)
      then some (true, s)
      else if phys == 0
      then some (false, s1)
      else some (
        true,
        record s1 { identify_buffer_phys = phys; identify_buffer = vmm_phys_to_virt s1.vmm phys },
      )

  unfoldable pub nvme_identify_controller : ℕ → Nvme d → Reply d
  nvme_identify_controller n s =
      nvme_admin_submit d n
        (record no_command {
          opcode = 6;
          command_id = 1;
          nsid = 0;
          prp1 = s.identify_buffer_phys;
          cdw10 = 1;
        })
        (record s { dev = d.fill s.identify_buffer s.dev })

  unfoldable pub nvme_identify_namespace : ℕ → ℕ → Nvme d → Reply d
  nvme_identify_namespace n nsid s =
      nvme_admin_submit d n
        (record no_command {
          opcode = 6;
          command_id = 2;
          nsid = nsid;
          prp1 = s.identify_buffer_phys;
          cdw10 = 0;
        })
        (record s { dev = d.fill s.identify_buffer s.dev })

  unfoldable pub nvme_create_io_cq : ℕ → Nvme d → Reply d
  nvme_create_io_cq n s =
      nvme_admin_submit d n
        (record no_command {
          opcode = 5;
          command_id = 3;
          prp1 = s.io.cq_phys;
          cdw10 = bit_or (wrap32 ((s.io.queue_size - 1) * 2 ^ 16)) 1;
          cdw11 = 3;
        })
        s

  unfoldable pub nvme_create_io_sq : ℕ → Nvme d → Reply d
  nvme_create_io_sq n s =
      nvme_admin_submit d n
        (record no_command {
          opcode = 1;
          command_id = 4;
          prp1 = s.io.sq_phys;
          cdw10 = bit_or (wrap32 ((s.io.queue_size - 1) * 2 ^ 16)) 1;
          cdw11 = 0x1_0001;
        })
        s

  -- The guards of `nvme_read` and `nvme_write`.
  unfoldable pub refused : ℕ → ℕ → Nvme d → Bool
  refused blocks buffer s =
      buffer == 0
      || blocks == 0
      || ltb 0x10000 blocks
      || ltb page_size (wrap64 (blocks * s.block.block_size))

  unfoldable pub nvme_read : ℕ → ℕ → ℕ → ℕ → Nvme d → Reply d
  nvme_read n lba blocks buffer s =
      if refused blocks buffer s
      then some (false, s)
      else nvme_io_submit d n (transfer_command 2 5 lba blocks (vmm_virt_to_phys s.vmm buffer)) s

  unfoldable pub nvme_write : ℕ → ℕ → ℕ → ℕ → Nvme d → Reply d
  nvme_write n lba blocks buffer s =
      if refused blocks buffer s
      then some (false, s)
      else nvme_io_submit d n (transfer_command 1 6 lba blocks (vmm_virt_to_phys s.vmm buffer)) s

  unfoldable pub nvme_flush : ℕ → Nvme d → Reply d
  nvme_flush n s =
      nvme_io_submit d n (record no_command { opcode = 0; command_id = 7; nsid = 0xffff_ffff }) s
