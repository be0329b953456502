-- ===== src/Devices/Interrupts/Laws.antt =====
-- The descriptor table and the timer of kernel/src/interruptions/idt.c and kernel/src/timer/pit.c.
use bethany.Prelude.{
  ℕ, zero, suc, ◌+◌, ◌*◌, ◌/◌, ◌^◌, ◌≤◌, ◌<◌, ◌≡◌, ◌⊎◌, inl, inr, refl, true, false, ◌==◌, arith,
  bit_and-field_mask, ◌∙◌, ap, Bool-cases,
}
use bethany.Devices.Interrupts.{IdtEntry, gate, idt_set_gate, set_gates, idt_init, Pit, pit_irq}

-- The address to which the processor jumps through an entry.
abbrev pub entry_point : IdtEntry → ℕ
entry_point e = e.offset_low + e.offset_mid * 2 ^ 16 + e.offset_high * 2 ^ 32

entry_point-gate :
    (handler flags : ℕ) → handler < 2 ^ 64 → entry_point (gate handler flags) ≡ handler
unfolding gate
entry_point-gate handler flags h = omega (
  arith,
  bit_and-field_mask 0 16 handler,
  bit_and-field_mask 0 16 (handler / 2 ^ 16),
  bit_and-field_mask 0 32 (handler / 2 ^ 32),
)

-- The loop sets the entries of its range and no other.
set_gates-gate :
    (start n : ℕ) (stubs : ℕ → ℕ) (idt : ℕ → IdtEntry) (i : ℕ)
    → i < n
    → set_gates start n stubs idt (i + start) ≡ gate (stubs i) 0x8e
unfolding set_gates idt_set_gate
set_gates-gate start zero stubs idt i h = absurd (omega arith)
set_gates-gate start (suc n) stubs idt i h = elim (Bool-cases (i == n)) [
  | inl e ↦
      let same : i ≡ n = ground arith in
      let hit : (i + start == n + start) ≡ true = ground arith in rw (hit, same) refl
  | inr ne ↦
      let miss : (i + start == n + start) ≡ false = ground arith in
      rw miss (set_gates-gate start n stubs idt i (ground arith))
]

set_gates-other :
    (start n : ℕ) (stubs : ℕ → ℕ) (idt : ℕ → IdtEntry) (v : ℕ)
    → (v < start) ⊎ (start + n ≤ v)
    → set_gates start n stubs idt v ≡ idt v
unfolding set_gates idt_set_gate
set_gates-other start zero stubs idt v out = refl
set_gates-other start (suc n) stubs idt v out =
    let miss : (v == n + start) ≡ false = ground arith in
    rw miss (set_gates-other start n stubs idt v (ground arith))

module _ (isr irq : ℕ → ℕ) (idt : ℕ → IdtEntry) where
  -- When all stubs have 64-bit addresses, after `idt_init` exception `i` goes to stub `i` of the
  -- exceptions, interrupt line `j` at vector `32 + j` to stub `j` of the interrupts, all through
  -- present gates of the kernel's code segment, and the entries from 48 on are as before.
  pub idt_init_lem :
      ((i : ℕ) → isr i < 2 ^ 64)
      → ((i : ℕ) → irq i < 2 ^ 64)
      → let t = idt_init isr irq idt in
        ((i : ℕ) → i < 32 → (entry_point (t i) ≡ isr i) × ((t i).type_attributes ≡ 0x8e))
        × ((j : ℕ)
            → j < 16
            → (entry_point (t (j + 32)) ≡ irq j) × ((t (j + 32)).type_attributes ≡ 0x8e))
        × ((v : ℕ) → 48 ≤ v → t v ≡ idt v)
  unfolding idt_init gate
  idt_init_lem small_isr small_irq = (
    λ i h.
        let e : idt_init isr irq idt i ≡ gate (isr i) 0x8e =
          set_gates-other 32 16 irq (set_gates 0 32 isr idt) i (inl h) ∙ first i h in
        rw e (entry_point-gate (isr i) 0x8e (small_isr i), refl),
    λ j h.
        rw (set_gates-gate 32 16 irq (set_gates 0 32 isr idt) j h)
          (entry_point-gate (irq j) 0x8e (small_irq j), refl),
    λ v h.
        set_gates-other 32 16 irq (set_gates 0 32 isr idt) v (inr (omega arith))
        ∙ set_gates-other 0 32 isr idt v (inr (omega arith)),
  )
    where
      first : (i : ℕ) → i < 32 → set_gates 0 32 isr idt i ≡ gate (isr i) 0x8e
      first i h =
          let e : i + 0 ≡ i = omega arith in
          ap (set_gates 0 32 isr idt) (omega arith) ∙ set_gates-gate 0 32 isr idt i h

-- The timer counts a second for every 100 ticks: that `seconds` is `ticks / 100` is kept by
-- `pit_irq` as long as `ticks` does not wrap, and every tick asks for a new schedule.
pub pit_irq_lem :
    (p : Pit)
    → p.seconds ≡ p.ticks / 100
    → p.ticks + 1 < 2 ^ 64
    → let p' = pit_irq p in
      (p'.ticks ≡ p.ticks + 1) × (p'.seconds ≡ p'.ticks / 100) × (p'.need_reschedule ≡ true)
unfolding pit_irq
pit_irq_lem p h fits = (omega arith, ground arith, refl)
