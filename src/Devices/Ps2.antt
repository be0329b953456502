-- ===== src/Devices/Ps2.antt =====
-- The PS/2 controller, kernel/src/drivers/keyboard/ps2.c, behind the ports. The two waits ask for the
-- status in a number of rounds; `none` if the controller is not ready when they are used up.
mod Tests
use bethany.Prelude.{
  ℕ, zero, suc, ◌+◌, ◌<◌, ◌≡◌, ◌≢◌, refl, true, false, Option, none, some, arith, bit_and, ◌==◌,
  if◌then◌else◌,
}
use bethany.Devices.{Ports}

abbrev ps2_data : ℕ
ps2_data = 0x60

-- The ports of the status and of the commands are one.
abbrev ps2_status_port : ℕ
ps2_status_port = 0x64

module _ (p : Ports) where
  unfoldable pub ps2_status : p.Bus → ℕ × p.Bus
  ps2_status bus = p.inb ps2_status_port bus

  unfoldable pub ps2_wait_read : ℕ → p.Bus → Option p.Bus
  ps2_wait_read zero bus = none
  ps2_wait_read (suc n) bus =
      let (status, bus') = ps2_status bus in
      elim (bit_and status 1 == 0) [ true ↦ ps2_wait_read n bus' | false ↦ some bus' ]

  unfoldable pub ps2_wait_write : ℕ → p.Bus → Option p.Bus
  ps2_wait_write zero bus = none
  ps2_wait_write (suc n) bus =
      let (status, bus') = ps2_status bus in
      elim (bit_and status 2 == 0) [ true ↦ some bus' | false ↦ ps2_wait_write n bus' ]

  unfoldable pub ps2_read : ℕ → p.Bus → Option (ℕ × p.Bus)
  ps2_read n bus = elim (ps2_wait_read n bus) [
    | none ↦ none
    | some bus' ↦ some (p.inb ps2_data bus')
  ]

  unfoldable pub ps2_write : ℕ → ℕ → p.Bus → Option p.Bus
  ps2_write n data' bus = elim (ps2_wait_write n bus) [
    | none ↦ none
    | some bus' ↦ some (p.outb ps2_data data' bus')
  ]

  unfoldable pub ps2_init : p.Bus → p.Bus
  ps2_init bus = bus

  -- The controller after the status has been read so many times.
  abbrev pub asked : ℕ → p.Bus → p.Bus
  asked zero bus = bus
  asked (suc k) bus = asked k (ps2_status bus).1

  wait_read-asked :
      (n k : ℕ) (bus : p.Bus)
      → ((i : ℕ) → i < k → bit_and (ps2_status (asked i bus)).0 1 ≡ 0)
      → bit_and (ps2_status (asked k bus)).0 1 ≢ 0
      → k < n
      → ps2_wait_read n bus ≡ some (asked (suc k) bus)
  unfolding ps2_wait_read
  wait_read-asked zero k bus idle ready h = absurd (omega arith)
  wait_read-asked (suc n) zero bus idle ready h =
      let first : (bit_and (ps2_status bus).0 1 == 0) ≡ false = ground arith in
      rw (ps2_wait_read, first) refl
  wait_read-asked (suc n) (suc k) bus idle ready h =
      let first : (bit_and (ps2_status bus).0 1 == 0) ≡ true =
        ground (arith, idle 0 (omega arith)) in
      rw (ps2_wait_read, first)
        (wait_read-asked n k (ps2_status bus).1 (λ i less. idle (suc i) (omega arith)) ready
          (omega arith))

  -- If the status announces a byte when it is read for the time `k`, counted from 0, and not before,
  -- `ps2_read` with more rounds than `k` reads the data port once, right after that.
  pub ps2_read_lem :
      (n k : ℕ) (bus : p.Bus)
      → ((i : ℕ) → i < k → bit_and (ps2_status (asked i bus)).0 1 ≡ 0)
      → bit_and (ps2_status (asked k bus)).0 1 ≢ 0
      → k < n
      → ps2_read n bus ≡ some (p.inb 0x60 (asked (suc k) bus))
  unfolding ps2_read
  ps2_read_lem n k bus idle ready h = rw (ps2_read, wait_read-asked n k bus idle ready h) refl
