-- ===== src/Storage/Nvme.antt =====
-- The NVMe driver, kernel/src/storage/nvme/nvme.c. `Device` is what lies behind the registers and the
-- queues in shared memory; time passes for it whenever it is looked at. The static `controller` is the
-- record `Nvme`; the two queue pairs, whose functions are the same code twice, are records in it.
pub mod Commands
pub mod Init
pub mod Rings
mod Tests
use bethany.Prelude.{
  ℕ, zero, suc, ◌+◌, ◌-◌, ◌*◌, ◌/◌, ◌%◌, ◌^◌, Bool, true, false, not, ◌&&◌, ◌||◌, List, Option,
  none, some, bit_and, bit_or, ltb, leb, ◌==◌, if◌then◌else◌, wrap8, wrap16, wrap32, wrap64,
}
use bethany.Devices.{Ports}
use bethany.Devices.Pci.{PciDevice, pci_find, pci_enable_device, pci_bar}
use bethany.Memory.Pmm.{pmm_alloc_page, page_size}
use bethany.Memory.Vmm.{Vmm, vmm_phys_to_virt, vmm_virt_to_phys, vmm_map_range}

pub record Command : Type 0 where
  pub opcode : ℕ
  pub command_id : ℕ
  pub nsid : ℕ
  pub prp1 : ℕ
  pub cdw10 : ℕ
  pub cdw11 : ℕ
  pub cdw12 : ℕ

-- `{0}`; the fields that the driver never sets are left out.
abbrev pub no_command : Command
no_command = record {
  opcode = 0;
  command_id = 0;
  nsid = 0;
  prp1 = 0;
  cdw10 = 0;
  cdw11 = 0;
  cdw12 = 0;
}

pub record Completion : Type 0 where
  pub command_id : ℕ
  pub status : ℕ

-- `read_word size` and `write_word size` are the accesses to the registers, with the size in bytes.
-- `store` puts a command into a slot of a submission queue, `look` reads a slot of a completion queue,
-- and `fill` clears a page. `namespace_data` is what the identify buffer holds: `flbas`, the `lbads`
-- of a format, and `nsze`.
pub record Device : Type 1 where
  pub Dev : Type 0
  pub read_word : ℕ → ℕ → Dev → ℕ × Dev
  pub write_word : ℕ → ℕ → ℕ → Dev → Dev
  pub store : ℕ → ℕ → Command → Dev → Dev
  pub look : ℕ → ℕ → Dev → Completion × Dev
  pub fill : ℕ → Dev → Dev
  pub flbas : ℕ → Dev → ℕ
  pub lbads : ℕ → ℕ → Dev → ℕ
  pub nsze : ℕ → Dev → ℕ

pub record Capabilities : Type 0 where
  pub mqes : ℕ
  pub timeout : ℕ
  pub doorbell_stride : ℕ
  pub min_page_shift : ℕ
  pub max_page_shift : ℕ

pub record QueuePair : Type 0 where
  pub sq : ℕ
  pub cq : ℕ
  pub sq_phys : ℕ
  pub cq_phys : ℕ
  pub sq_tail : ℕ
  pub cq_head : ℕ
  pub queue_size : ℕ

pub record BlockDevice : Type 0 where
  pub block_size : ℕ
  pub block_count : ℕ

unfoldable pub nvme_parse_cap : ℕ → Capabilities
nvme_parse_cap cap = record {
  mqes = wrap16 (bit_and cap 0xffff + 1);
  timeout = bit_and (cap / 2 ^ 24) 0xff;
  doorbell_stride = bit_and (cap / 2 ^ 32) 0xf;
  min_page_shift = 12 + bit_and (cap / 2 ^ 48) 0xf;
  max_page_shift = 12 + bit_and (cap / 2 ^ 52) 0xf;
}

unfoldable pub nvme_doorbell_offset : Capabilities → ℕ → Bool → ℕ
nvme_doorbell_offset caps qid is_cq =
    let stride = wrap32 (4 * 2 ^ caps.doorbell_stride) in
    wrap32 (0x1000 + (2 * qid + (if is_cq then 1 else 0)) * stride)

-- The next slot of a ring.
unfoldable pub next_slot : ℕ → ℕ → ℕ
next_slot size i = if wrap16 (i + 1) == size then 0 else wrap16 (i + 1)

module _ (d : Device) where
  pub record Nvme : Type 0 where
    pub dev : d.Dev
    pub vmm : Vmm
    pub bar0 : ℕ
    pub cap : ℕ
    pub version : ℕ
    pub csts : ℕ
    pub caps : Capabilities
    pub admin : QueuePair
    pub identify_buffer : ℕ
    pub identify_buffer_phys : ℕ
    pub io : QueuePair
    pub block : BlockDevice
    pub registered : Bool

  -- What a function returns; `none` if it still waits for the device when the rounds are used up.
  abbrev pub Reply : Type 0
  Reply = Option (Bool × Nvme)

  -- `if(!call()) return false;`
  unfoldable pub and_then : Reply → (Nvme → Reply) → Reply
  and_then none k = none
  and_then (some (false, s)) k = some (false, s)
  and_then (some (true, s)) k = k s

  unfoldable pub nvme_read32 : ℕ → Nvme → ℕ × Nvme
  nvme_read32 offset s =
      let (value, dev) = d.read_word 4 offset s.dev in (value, record s { dev = dev })

  unfoldable pub nvme_read64 : ℕ → Nvme → ℕ × Nvme
  nvme_read64 offset s =
      let (value, dev) = d.read_word 8 offset s.dev in (value, record s { dev = dev })

  unfoldable pub nvme_write32 : ℕ → ℕ → Nvme → Nvme
  nvme_write32 offset value s = record s { dev = d.write_word 4 offset value s.dev }

  unfoldable pub nvme_write64 : ℕ → ℕ → Nvme → Nvme
  nvme_write64 offset value s = record s { dev = d.write_word 8 offset value s.dev }

  -- The loop over `cqe->command_id != cid`: the completion in the end.
  unfoldable pub wait_entry : ℕ → ℕ → ℕ → ℕ → d.Dev → Option (Completion × d.Dev)
  wait_entry zero cq head cid dev = none
  wait_entry (suc n) cq head cid dev =
      let r = d.look cq head dev in
      elim (r.0.command_id == cid) [ true ↦ some r | false ↦ wait_entry n cq head cid r.1 ]

  -- The part of the two waiting functions behind the loop, for the queue pair `q` with number `qid`.
  unfoldable pub finish : ℕ → QueuePair → Completion × d.Dev → Nvme → Bool × QueuePair × Nvme
  finish qid q (cqe, dev) s =
      let s1 = record s { dev = dev } in
      let head = next_slot q.queue_size q.cq_head in
      if cqe.status / 2 == 0
      then (
        true,
        record q { cq_head = head },
        nvme_write32 (nvme_doorbell_offset s.caps qid true) head s1,
      )
      else (false, q, s1)

  unfoldable pub admin_settle : Option (Completion × d.Dev) → Nvme → Reply
  admin_settle none s = none
  admin_settle (some r) s =
      let (ok, q, s1) = finish 0 s.admin r s in some (ok, record s1 { admin = q })

  unfoldable pub nvme_wait_completion : ℕ → ℕ → Nvme → Reply
  nvme_wait_completion n cid s = admin_settle (wait_entry n s.admin.cq s.admin.cq_head cid s.dev) s

  unfoldable pub io_settle : Option (Completion × d.Dev) → Nvme → Reply
  io_settle none s = none
  io_settle (some r) s = let (ok, q, s1) = finish 1 s.io r s in some (ok, record s1 { io = q })

  unfoldable pub nvme_io_wait_completion : ℕ → ℕ → Nvme → Reply
  nvme_io_wait_completion n cid s = io_settle (wait_entry n s.io.cq s.io.cq_head cid s.dev) s

  -- The part of the two submitting functions before the wait.
  unfoldable pub enqueue : ℕ → QueuePair → Command → Nvme → QueuePair × Nvme
  enqueue qid q command s =
      let tail = next_slot q.queue_size q.sq_tail in
      let s1 = record s { dev = d.store q.sq q.sq_tail command s.dev } in
      (record q { sq_tail = tail }, nvme_write32 (nvme_doorbell_offset s.caps qid false) tail s1)

  unfoldable pub nvme_admin_submit : ℕ → Command → Nvme → Reply
  nvme_admin_submit n command s =
      let (q, s1) = enqueue 0 s.admin command s in
      nvme_wait_completion n command.command_id (record s1 { admin = q })

  unfoldable pub nvme_io_submit : ℕ → Command → Nvme → Reply
  nvme_io_submit n command s =
      let (q, s1) = enqueue 1 s.io command s in
      nvme_io_wait_completion n command.command_id (record s1 { io = q })
