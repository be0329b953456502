-- ===== src/Devices/Interrupts/Tests.antt =====
-- The theorems on kernel/src/interruptions/idt.c and kernel/src/timer/pit.c at concrete inputs.
use bethany.Prelude.{ℕ, ◌+◌, ◌*◌, ◌%◌, ◌^◌, ◌<◌, false, arith}
use bethany.Devices.Interrupts.{IdtEntry, Pit}

abbrev stub : ℕ → ℕ
stub i = 0xffff_ffff_8000_1000 + i % 256 * 16

stub-lt : (i : ℕ) → stub i < 2 ^ 64
stub-lt i = omega arith

abbrev empty : ℕ → IdtEntry
empty v = record {
  offset_low = 0;
  selector = 0;
  ist = 0;
  type_attributes = 0;
  offset_mid = 0;
  offset_high = 0;
  reserved = 0;
}

abbrev almost_two : Pit
almost_two = record { ticks = 199; seconds = 1; need_reschedule = false }
