-- ===== src/Storage/Nvme/Tests.antt =====
-- The theorems on kernel/src/storage/nvme/nvme.c at a device that answers at once.
use bethany.Prelude.{ℕ, ◌≡◌, true, some, arith, refl, [], ◌==◌, ◌/◌}
use bethany.Storage.Nvme.{Command, Device, QueuePair, Nvme, nvme_io_submit}
use bethany.Storage.Nvme.Commands.{transfer_command}
use bethany.Storage.Nvme.Rings.{IsRing, answer, completed, nvme_io_submit_lem}

-- The state of the device is the last command it was given.
abbrev device : Device
device = record {
  Dev = ℕ;
  read_word = λ size offset dev. (0, dev);
  write_word = λ size offset value dev. dev;
  store = λ queue index command dev. command.command_id;
  look = λ queue index dev. (record { command_id = dev; status = 0 }, dev);
  fill = λ address dev. dev;
  flbas = λ buffer dev. 0;
  lbads = λ buffer format dev. 9;
  nsze = λ buffer dev. 1000;
}

abbrev ring : QueuePair
ring = record {
  sq = 0x6000;
  cq = 0x7000;
  sq_phys = 0x6000;
  cq_phys = 0x7000;
  sq_tail = 63;
  cq_head = 63;
  queue_size = 64;
}

abbrev ready : Nvme device
ready = record {
  dev = 0;
  vmm = record {
    pmm = record { usable = []; bitmap = λ i. 0; page_count = 0; bitmap_size = 0; bitmap_phys = 0 };
    memory = λ a. 0;
    pml4 = 0x5000;
    hhdm_offset = 0;
  };
  bar0 = 0;
  cap = 0;
  version = 0;
  csts = 0;
  caps = record {
    mqes = 64;
    timeout = 1;
    doorbell_stride = 0;
    min_page_shift = 12;
    max_page_shift = 12;
  };
  admin = ring;
  identify_buffer = 0;
  identify_buffer_phys = 0;
  io = ring;
  block = record { block_size = 512; block_count = 1000 };
  registered = true;
}

abbrev read_block : Command
read_block = transfer_command 2 5 17 8 0x9000

ring-IsRing : IsRing ring
ring-IsRing = record { small = omega arith; tail_in = omega arith; head_in = omega arith }

-- The first look finds the completion: at the last slot of the ring, tail and head go on at 0.
nvme_io_submit_lem_example :
    (nvme_io_submit device 3 read_block ready
      ≡ some (
        (answer device 3 read_block ready 0).0.status / 2 == 0,
        completed device 3 read_block ready (answer device 3 read_block ready 0),
      ))
    × IsRing (completed device 3 read_block ready (answer device 3 read_block ready 0)).io
unfolding transfer_command
nvme_io_submit_lem_example =
    nvme_io_submit_lem device 3 read_block ready 0 ring-IsRing (omega arith)
      (λ i less. absurd (omega arith)) refl (omega arith)
