-- ===== src/Tasks/Context.antt =====
-- The switch between tasks, kernel/src/scheduler/context.asm, over a memory of 64-bit words. A register
-- is numbered by its place in `context_t` of kernel/src/scheduler/context.h, from rax, 0, to r15, 14.
pub mod Laws
mod Tests
use bethany.Prelude.{ℕ, zero, suc, ◌+◌, ◌-◌, ◌^◌, update, wrap64}

pub record Cpu : Type 0 where
  pub register : ℕ → ℕ
  pub rsp : ℕ
  pub words : ℕ → ℕ

unfoldable pub push : ℕ → Cpu → Cpu
push x c =
    let top = wrap64 (c.rsp + (2 ^ 64 - 8)) in record c { rsp = top; words = update c.words top x }

-- `PUSH_REGS` is `push_regs 15`: it pushes r15 first.
unfoldable pub push_regs : ℕ → Cpu → Cpu
push_regs zero c = c
push_regs (suc i) c = push_regs i (push (c.register i) c)

unfoldable pub pop_register : ℕ → Cpu → Cpu
pop_register i c = record c {
  register = update c.register i (c.words c.rsp);
  rsp = wrap64 (c.rsp + 8);
}

-- `POP_REGS` is `pop_regs 15 0`.
unfoldable pub pop_regs : ℕ → ℕ → Cpu → Cpu
pop_regs zero i c = c
pop_regs (suc n) i c = pop_regs n (suc i) (pop_register i c)

-- The half of `context_switch` before the stack pointer is replaced: the return address lies at the
-- top of the stack, where the call put it, and `old_rsp` is where the stack pointer is kept.
unfoldable pub save_context : ℕ → Cpu → Cpu
save_context old_rsp c =
    let c1 = push_regs 15 c in record c1 { words = update c1.words old_rsp c1.rsp }

-- The other half, with the address that `ret` goes to.
unfoldable pub load_context : ℕ → Cpu → ℕ × Cpu
load_context new_rsp c =
    let c1 = pop_regs 15 0 (record c { rsp = new_rsp }) in
    (c1.words c1.rsp, record c1 { rsp = wrap64 (c1.rsp + 8) })

unfoldable pub context_switch : ℕ → ℕ → Cpu → ℕ × Cpu
context_switch old_rsp new_rsp c = load_context new_rsp (save_context old_rsp c)
