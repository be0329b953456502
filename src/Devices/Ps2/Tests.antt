-- ===== src/Devices/Ps2/Tests.antt =====
-- Tests of kernel/src/drivers/keyboard/ps2.c at a controller that is ready at the third question.
use bethany.Prelude.{ℕ, ◌+◌, ◌≡◌, refl, some, none, ltb, ◌==◌, if◌then◌else◌}
use bethany.Devices.{Ports}
use bethany.Devices.Ps2.{ps2_status, ps2_wait_read, ps2_read}

abbrev ports : Ports
ports = record {
  Bus = ℕ;
  outb = λ port value bus. bus;
  inb = λ port bus.
      if port == 0x60 then (0x1e, bus) else (if ltb bus 2 then (0, bus + 1) else (1, bus + 1));
  outl = λ port value bus. bus;
  inl = λ port bus. (0, bus);
}

read_after_three : ps2_read ports 3 0 ≡ some (0x1e, 3)
unfolding ps2_read ps2_wait_read ps2_status
read_after_three = refl

read_waits : ps2_read ports 2 0 ≡ none
unfolding ps2_read ps2_wait_read ps2_status
read_waits = refl
