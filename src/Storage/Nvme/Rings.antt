-- ===== src/Storage/Nvme/Rings.antt =====
-- The queues and the transfers of kernel/src/storage/nvme/nvme.c.
use bethany.Prelude.{
  ℕ, zero, suc, Bool, ◌≢◌, ◌%◌, ◌∙◌, ap, ◌+◌, ◌*◌, ◌/◌, ◌^◌, ◌<◌, ◌≤◌, ◌≡◌, inl, inr, refl, true,
  false, some, arith, ◌==◌, if◌then◌else◌, Bool-cases,
}
use native.Mathlib.Nat.{mod-lt, mod_self, mod-eq_of_lt, pow-le-pow_right}
use bethany.Memory.Pmm.{page_size}
use bethany.Storage.Nvme.{
  Capabilities, Command, Completion, Device, QueuePair, Nvme, next_slot, nvme_doorbell_offset,
  wait_entry, finish, enqueue, io_settle, nvme_io_wait_completion, nvme_io_submit, nvme_write32,
}

pub record IsRing (q : QueuePair) : Type 0 where
  pub small : q.queue_size < 2 ^ 16
  pub tail_in : q.sq_tail < q.queue_size
  pub head_in : q.cq_head < q.queue_size

-- The index behind `i` in the ring.
abbrev pub turn : ℕ → ℕ → ℕ
turn size i = (i + 1) % size

turn-lt : (size i : ℕ) → i < size → turn size i < size
turn-lt size i h = mod-lt (i + 1) (omega arith)

next_slot-turn : (size i : ℕ) → i < size → size < 2 ^ 16 → next_slot size i ≡ turn size i
unfolding next_slot
next_slot-turn size i h small = elim (Bool-cases (i + 1 == size)) [
  | inl last ↦
      let e : i + 1 ≡ size = ground arith in
      let all : (i + 1) % size ≡ 0 = ap (λ m. m % size) e ∙ mod_self size in ground (arith, all)
  | inr inside ↦
      let below : i + 1 < size = ground arith in
      let same : (i + 1) % size ≡ i + 1 = mod-eq_of_lt below in ground (arith, same)
]

-- The doorbells of the queue pair 1, with a stride of 4 * 2 ^ `doorbell_stride` bytes.
abbrev pub tail_doorbell : ℕ → ℕ
tail_doorbell stride = 0x1000 + 2 * (4 * 2 ^ stride)

abbrev pub head_doorbell : ℕ → ℕ
head_doorbell stride = 0x1000 + 3 * (4 * 2 ^ stride)

stride_fits : (stride : ℕ) → stride < 16 → 2 ^ stride ≤ 2 ^ 15
stride_fits stride h = pow-le-pow_right (omega arith) {j = 15} (omega arith)

doorbells :
    (caps : Capabilities)
    → caps.doorbell_stride < 16
    → (is_cq : Bool)
    → nvme_doorbell_offset caps 1 is_cq
      ≡ 0x1000 + (if is_cq then 3 else 2) * (4 * 2 ^ caps.doorbell_stride)
unfolding nvme_doorbell_offset
doorbells caps h true = omega (arith, stride_fits caps.doorbell_stride h)
doorbells caps h false = omega (arith, stride_fits caps.doorbell_stride h)

module _ (d : Device) (cq head : ℕ) where
  -- The device after the slot at the head of the completion queue has been looked at so many times.
  abbrev pub looked : ℕ → d.Dev → d.Dev
  looked zero dev = dev
  looked (suc k) dev = looked k (d.look cq head dev).1

  wait_entry-looked :
      (n k cid : ℕ) (dev : d.Dev)
      → ((i : ℕ) → i < k → (d.look cq head (looked i dev)).0.command_id ≢ cid)
      → (d.look cq head (looked k dev)).0.command_id ≡ cid
      → k < n
      → wait_entry d n cq head cid dev ≡ some (d.look cq head (looked k dev))
  unfolding wait_entry
  wait_entry-looked zero k cid dev other at h = absurd (omega arith)
  wait_entry-looked (suc n) zero cid dev other at h =
      let here : ((d.look cq head dev).0.command_id == cid) ≡ true = ground arith in
      rw (wait_entry, here) refl
  wait_entry-looked (suc n) (suc k) cid dev other at h =
      let ne : (d.look cq head dev).0.command_id ≢ cid = other 0 (omega arith) in
      let next : ((d.look cq head dev).0.command_id == cid) ≡ false = ground arith in
      rw (wait_entry, next)
        (wait_entry-looked n k cid (d.look cq head dev).1 (λ i less. other (suc i) (omega arith)) at
          (omega arith))

module _ (d : Device) (n : ℕ) (c : Command) (s : Nvme d) where
  -- The device when the command lies in its slot and the doorbell of the queue has been rung.
  abbrev pub rung : d.Dev
  rung =
      d.write_word 4 (tail_doorbell s.caps.doorbell_stride) (turn s.io.queue_size s.io.sq_tail)
        (d.store s.io.sq s.io.sq_tail c s.dev)

  -- What the driver finds when it looks for the time `k`, counted from 0.
  abbrev pub answer : ℕ → Completion × d.Dev
  answer k = d.look s.io.cq s.io.cq_head (looked d s.io.cq s.io.cq_head k rung)

  -- What `nvme_io_submit` leaves when the completion `cqe` came.
  abbrev pub completed : Completion × d.Dev → Nvme d
  completed (cqe, dev) =
      let tail = turn s.io.queue_size s.io.sq_tail in
      let head = turn s.io.queue_size s.io.cq_head in
      if cqe.status / 2 == 0
      then record s {
        io = record s.io { sq_tail = tail; cq_head = head };
        dev = d.write_word 4 (head_doorbell s.caps.doorbell_stride) head dev;
      }
      else record s { io = record s.io { sq_tail = tail }; dev = dev }

  -- On a queue pair whose indices lie in its ring, with a doorbell stride that the register can hold:
  -- when the driver finds a completion with the command's id at the head of the completion queue when
  -- it looks for the time `k`, counted from 0, and not before, `nvme_io_submit` with more rounds than
  -- `k` has put the command into the slot at the tail, rung the tail's doorbell and looked `k` + 1
  -- times, and returns whether the status is 0. The tail moves on by one round the ring; the head does
  -- so, and its doorbell is rung, only if the status is 0. Both stay inside the ring.
  pub nvme_io_submit_lem :
      (k : ℕ)
      → IsRing s.io
      → s.caps.doorbell_stride < 16
      → ((i : ℕ) → i < k → (answer i).0.command_id ≢ c.command_id)
      → (answer k).0.command_id ≡ c.command_id
      → k < n
      → (nvme_io_submit d n c s ≡ some ((answer k).0.status / 2 == 0, completed (answer k)))
        × IsRing (completed (answer k)).io
  unfolding nvme_io_submit nvme_io_wait_completion io_settle finish enqueue nvme_write32
  nvme_io_submit_lem k ring stride other at h =
      let tail = next_slot-turn s.io.queue_size s.io.sq_tail ring.tail_in ring.small in
      let head = next_slot-turn s.io.queue_size s.io.cq_head ring.head_in ring.small in
      let tail_at : nvme_doorbell_offset s.caps 1 false ≡ tail_doorbell s.caps.doorbell_stride =
        doorbells s.caps stride false in
      let head_at : nvme_doorbell_offset s.caps 1 true ≡ head_doorbell s.caps.doorbell_stride =
        doorbells s.caps stride true in
      let found = wait_entry-looked d s.io.cq s.io.cq_head n k c.command_id rung other at h in
      elim (Bool-cases ((answer k).0.status / 2 == 0)) [
        | inl z ↦ (
          rw (tail, tail_at, found) (rw z (rw (head, head_at) refl)),
          rw z (record {
            small = ring.small;
            tail_in = turn-lt s.io.queue_size s.io.sq_tail ring.tail_in;
            head_in = turn-lt s.io.queue_size s.io.cq_head ring.head_in;
          }),
        )
        | inr z ↦ (
          rw (tail, tail_at, found) (rw z refl),
          rw z (record {
            small = ring.small;
            tail_in = turn-lt s.io.queue_size s.io.sq_tail ring.tail_in;
            head_in = ring.head_in;
          }),
        )
      ]

-- What a read or write asks the device for: the blocks from `lba` on, to or from `phys`.
pub record Transfers (opcode lba blocks phys : ℕ) (c : Command) : Type 0 where
  pub what : c.opcode ≡ opcode
  pub namespace : c.nsid ≡ 1
  pub from : c.cdw10 + c.cdw11 * 2 ^ 32 ≡ lba
  pub count : c.cdw12 + 1 ≡ blocks
  pub count_fits : c.cdw12 < 2 ^ 16
  pub place : c.prp1 ≡ phys

-- The requests that `nvme_read` and `nvme_write` take: to a buffer, some blocks, at most a page.
abbrev pub Fits : (d : Device) → ℕ → ℕ → Nvme d → Type 0
Fits d blocks buffer s =
    (0 < buffer) × (0 < blocks) × (blocks ≤ 2 ^ 16) × (blocks * s.block.block_size ≤ page_size)
