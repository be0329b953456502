-- ===== src/Devices.antt =====
-- The devices of the kernel behind the processor's ports. The port instructions of
-- kernel/src/io/io.c are assembly: `Ports` stands for them, with the state of everything behind them.
pub mod Pci
pub mod Ps2
pub mod Interrupts
use bethany.Prelude.{ℕ}

pub record Ports : Type 1 where
  pub Bus : Type 0
  pub outb : ℕ → ℕ → Bus → Bus
  pub inb : ℕ → Bus → ℕ × Bus
  pub outl : ℕ → ℕ → Bus → Bus
  pub inl : ℕ → Bus → ℕ × Bus
