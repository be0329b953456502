-- ===== src/Devices/Interrupts.antt =====
-- Interrupts: the descriptor table of kernel/src/interruptions/idt.c, the interrupt controllers of
-- pic.c, the dispatcher of irq.c, and the timer of kernel/src/timer/pit.c.
pub mod Laws
mod Tests
use bethany.Prelude.{
  ℕ, zero, suc, ◌+◌, ◌-◌, ◌*◌, ◌/◌, ◌%◌, ◌^◌, Bool, true, false, Option, none, some, bit_and,
  bit_or, ltb, leb, ◌==◌, if◌then◌else◌, wrap8, wrap16, wrap64, update,
}
use bethany.Devices.{Ports}

pub record IdtEntry : Type 0 where
  pub offset_low : ℕ
  pub selector : ℕ
  pub ist : ℕ
  pub type_attributes : ℕ
  pub offset_mid : ℕ
  pub offset_high : ℕ
  pub reserved : ℕ

abbrev pub kernel_code_selector : ℕ
kernel_code_selector = 0x28

-- The fields that `idt_set_gate` stores for a handler.
unfoldable pub gate : ℕ → ℕ → IdtEntry
gate handler flags = record {
  offset_low = bit_and handler 0xffff;
  selector = kernel_code_selector;
  ist = 0;
  type_attributes = flags;
  offset_mid = bit_and (handler / 2 ^ 16) 0xffff;
  offset_high = bit_and (handler / 2 ^ 32) 0xffff_ffff;
  reserved = 0;
}

unfoldable pub idt_set_gate : (ℕ → IdtEntry) → ℕ → ℕ → ℕ → ℕ → IdtEntry
idt_set_gate idt vector handler flags = λ v. if v == vector then gate handler flags else idt v

-- A loop of `idt_init` over a table of stubs, the last round outermost.
unfoldable pub set_gates : ℕ → ℕ → (ℕ → ℕ) → (ℕ → IdtEntry) → ℕ → IdtEntry
set_gates start zero stubs idt = idt
set_gates start (suc i) stubs idt =
    idt_set_gate (set_gates start i stubs idt) (i + start) (stubs i) 0x8e

-- The two tables of stubs are assembly. Loading the table into the processor has no model.
unfoldable pub idt_init : (ℕ → ℕ) → (ℕ → ℕ) → (ℕ → IdtEntry) → ℕ → IdtEntry
idt_init isr_stub_table irq_stub_table idt =
    set_gates 32 16 irq_stub_table (set_gates 0 32 isr_stub_table idt)

abbrev pub pic1_command : ℕ
pic1_command = 0x20

abbrev pub pic1_data : ℕ
pic1_data = 0x21

abbrev pub pic2_command : ℕ
pic2_command = 0xa0

abbrev pub pic2_data : ℕ
pic2_data = 0xa1

-- `ICW1_INIT | ICW1_ICW4`
abbrev pub icw1 : ℕ
icw1 = 0x11

module _ (io : Ports) where
  unfoldable pub io_wait : io.Bus → io.Bus
  io_wait s = io.outb 0x80 0 s

  -- One of the five steps of `pic_init`: a byte for each controller.
  unfoldable pub pic_both : ℕ → ℕ → ℕ → ℕ → io.Bus → io.Bus
  pic_both port1 value1 port2 value2 s = io.outb port2 value2 (io_wait (io.outb port1 value1 s))

  unfoldable pub pic_init : io.Bus → io.Bus
  pic_init s =
      let s1 = io_wait (pic_both pic1_command icw1 pic2_command icw1 s) in
      let s2 = io_wait (pic_both pic1_data 32 pic2_data 40 s1) in
      let s3 = io_wait (pic_both pic1_data 4 pic2_data 2 s2) in
      let s4 = io_wait (pic_both pic1_data 1 pic2_data 1 s3) in pic_both pic1_data 0 pic2_data 0 s4

  unfoldable pub pic_send_eoi : ℕ → io.Bus → io.Bus
  pic_send_eoi irq s =
      io.outb pic1_command 0x20 (if leb 8 irq then io.outb pic2_command 0x20 s else s)

  unfoldable pub pic_set_mask : ℕ → io.Bus → io.Bus
  pic_set_mask irq s =
      let port = if ltb irq 8 then pic1_data else pic2_command in
      let line = if ltb irq 8 then irq else irq - 8 in
      let (value, s') = io.inb port s in io.outb port (wrap8 (bit_or value (2 ^ line))) s'

  -- `~(1 << irq)`, cut to the byte that it is stored in.
  unfoldable pub pic_clear_mas : ℕ → io.Bus → io.Bus
  pic_clear_mas irq s =
      let port = if ltb irq 8 then pic1_data else pic2_data in
      let line = if ltb irq 8 then irq else irq - 8 in
      let (value, s') = io.inb port s in io.outb port (bit_and value (255 - 2 ^ line)) s'

-- `ticks`, `seconds` and `need_reschedule` of the timer.
pub record Pit : Type 0 where
  pub ticks : ℕ
  pub seconds : ℕ
  pub need_reschedule : Bool

unfoldable pub pit_irq : Pit → Pit
pit_irq p =
    let ticks = wrap64 (p.ticks + 1) in
    record {
      ticks = ticks;
      seconds = if ticks % 100 == 0 then wrap64 (p.seconds + 1) else p.seconds;
      need_reschedule = true;
    }

-- The handlers by their numbers, with what a call of one does to a machine; `none` is null.
abbrev pub Handlers : Type 0 → Type 0
Handlers M = ℕ → Option (M → M)

unfoldable pub irq_register : {M : Type 0} → Handlers M → ℕ → (M → M) → Handlers M
irq_register handlers irq handler =
    λ i. if leb 16 irq then handlers i else if i == irq then some handler else handlers i

-- `interrupt` is the number in the frame. The machine is the ports, the timer and the rest of the
-- kernel, and `schedule` stands for `scheduler_schedule`.
pub record Machine (io : Ports) (K : Type 0) : Type 0 where
  pub bus : io.Bus
  pub pit : Pit
  pub kernel : K

module _ (io : Ports) {K : Type 0} (schedule : K → K) where
  -- The handler of the line, or masking a line that has none.
  unfoldable pub dispatch : Option (Machine io K → Machine io K) → ℕ → Machine io K → Machine io K
  dispatch (some handler) irq m = handler m
  dispatch none irq m = record m { bus = pic_set_mask io irq m.bus }

  unfoldable pub irq_handler : Handlers (Machine io K) → ℕ → Machine io K → Machine io K
  irq_handler handlers interrupt m =
      let irq = wrap8 (interrupt + (256 - 32)) in
      let m1 = dispatch (handlers irq) irq m in
      let m2 = record m1 { bus = pic_send_eoi io irq m1.bus } in
      if m2.pit.need_reschedule
      then record m2 {
        pit = record m2.pit { need_reschedule = false };
        kernel = schedule m2.kernel;
      }
      else m2

  unfoldable pub pit_init :
      ℕ → Handlers (Machine io K) × Machine io K → Handlers (Machine io K) × Machine io K
  pit_init frequency (handlers, m) =
      if frequency == 0
      then (handlers, m)
      else (let divisor = wrap16 (1193182 / frequency) in
          let s1 = io.outb 0x43 0x36 m.bus in
          let s2 = io.outb 0x40 (bit_and divisor 0xff) s1 in
          let s3 = io.outb 0x40 (bit_and (divisor / 2 ^ 8) 0xff) s2 in
          (irq_register handlers 0 (λ x. record x { pit = pit_irq x.pit }), record m { bus = s3 }))
