-- ===== src/Tasks/Context/Laws.antt =====
-- What kernel/src/scheduler/context.asm saves and loads.
use bethany.Prelude.{
  ℕ, zero, suc, ◌+◌, ◌-◌, ◌*◌, ◌^◌, ◌<◌, ◌≤◌, ◌≡◌, ◌≢◌, ◌⊎◌, inl, inr, refl, arith, ◌==◌,
  Bool-cases, ◌∙◌, ap, sym,
}
use bethany.Tasks.Context.{
  Cpu, push, push_regs, pop_register, pop_regs, save_context, load_context, context_switch,
}

push_lem :
    (x : ℕ) (c : Cpu)
    → 8 ≤ c.rsp
    → c.rsp < 2 ^ 64
    → ((push x c).rsp ≡ c.rsp - 8)
      × ((push x c).words (c.rsp - 8) ≡ x)
      × ((a : ℕ) → a ≢ c.rsp - 8 → (push x c).words a ≡ c.words a)
      × ((push x c).register ≡ c.register)
unfolding push
push_lem x c h h' = (omega arith, ground arith, (λ a ne. ground arith), refl)

-- The registers lie below the old top of the stack, rax lowest, and the memory from there on is as
-- before.
record Pushed (n : ℕ) (c d : Cpu) : Type 0 where
  rsp : d.rsp + 8 * n ≡ c.rsp
  saved : (i : ℕ) → i < n → d.words (d.rsp + 8 * i) ≡ c.register i
  kept : (a : ℕ) → c.rsp ≤ a → d.words a ≡ c.words a
  registers : d.register ≡ c.register

push_regs-Pushed : (n : ℕ) (c : Cpu) → 8 * n ≤ c.rsp → c.rsp < 2 ^ 64 → Pushed n c (push_regs n c)
unfolding push_regs
push_regs-Pushed zero c h h' = record {
  rsp = omega arith;
  saved = λ i lt. absurd (omega arith);
  kept = λ a le. refl;
  registers = refl;
}
push_regs-Pushed (suc n) c h h' =
    let (top, at, others, same) = push_lem (c.register n) c (omega arith) h' in
    let c1 = push (c.register n) c in
    let below = push_regs-Pushed n c1 (omega arith) (omega arith) in
    let d = push_regs n c1 in
    record {
      rsp = omega (arith, below.rsp);
      saved = λ i lt. elim (Bool-cases (i == n)) [
        | inl e ↦
            let place : d.rsp + 8 * i ≡ c1.rsp = ground (arith, below.rsp) in
            let here : i ≡ n = ground arith in
            ap d.words place
            ∙ below.kept c1.rsp (omega arith)
            ∙ ap c1.words top
            ∙ at
            ∙ ap c.register (sym here)
        | inr ne ↦ below.saved i (ground arith) ∙ ap (λ (f : ℕ → ℕ). f i) same
      ];
      kept = λ a le. ground (arith, below.kept a, others a);
      registers = below.registers ∙ same;
    }

-- The registers from `i` on for `n` places are taken from the stack, and nothing else changes.
record Popped (n i : ℕ) (c d : Cpu) : Type 0 where
  rsp : d.rsp ≡ c.rsp + 8 * n
  loaded : (j : ℕ) → j < n → d.register (i + j) ≡ c.words (c.rsp + 8 * j)
  kept : (j : ℕ) → j < i → d.register j ≡ c.register j

pop_regs-words : (n i : ℕ) (c : Cpu) → (pop_regs n i c).words ≡ c.words
unfolding pop_regs pop_register
pop_regs-words zero i c = refl
pop_regs-words (suc n) i c = pop_regs-words n (suc i) (pop_register i c)

pop_regs-Popped : (n i : ℕ) (c : Cpu) → c.rsp + 8 * n < 2 ^ 64 → Popped n i c (pop_regs n i c)
unfolding pop_regs pop_register
pop_regs-Popped zero i c h = record {
  rsp = omega arith;
  loaded = λ j lt. absurd (omega arith);
  kept = λ j lt. refl;
}
pop_regs-Popped (suc n) i c h =
    let c1 = pop_register i c in
    let up : c1.rsp ≡ c.rsp + 8 = omega arith in
    let above = pop_regs-Popped n (suc i) c1 (omega arith) in
    record {
      rsp = omega (arith, above.rsp);
      loaded = λ j lt. elim (Bool-cases (j == 0)) [
        | inl e ↦
            let here : i + j ≡ i = ground arith in
            let place : c.rsp ≡ c.rsp + 8 * j = ground arith in
            let at : c1.register i ≡ c.words c.rsp = ground arith in
            ap (pop_regs n (suc i) c1).register here
            ∙ above.kept i (omega arith)
            ∙ at
            ∙ ap c.words place
        | inr ne ↦
            let here : i + j ≡ suc i + (j - 1) = ground arith in
            let place : c1.rsp + 8 * (j - 1) ≡ c.rsp + 8 * j = ground arith in
            ap (pop_regs n (suc i) c1).register here
            ∙ above.loaded (j - 1) (ground arith)
            ∙ ap c.words place
      ];
      kept = λ j lt. ground (arith, above.kept j);
    }

-- The frame that lies at `sp`: fifteen registers, and above them the return address `rip`.
pub record Frame (register : ℕ → ℕ) (rip sp : ℕ) (words : ℕ → ℕ) : Type 0 where
  pub saved : (i : ℕ) → i < 15 → words (sp + 8 * i) ≡ register i
  pub returns : words (sp + 120) ≡ rip

-- The processor has the registers `register` and the stack pointer `sp`.
pub record Runs (register : ℕ → ℕ) (sp : ℕ) (c : Cpu) : Type 0 where
  pub registers : (i : ℕ) → i < 15 → c.register i ≡ register i
  pub rsp : c.rsp ≡ sp

-- The second half of `context_switch`, to a frame below the end of memory: the registers of the frame
-- are loaded, the frame is taken off the stack, and `ret` goes to its return address.
pub load_context-Runs :
    (register : ℕ → ℕ) (rip sp : ℕ) (c : Cpu)
    → sp + 128 < 2 ^ 64
    → Frame register rip sp c.words
    → ((load_context sp c).0 ≡ rip) × Runs register (sp + 128) (load_context sp c).1
unfolding load_context
load_context-Runs register rip sp c h frame =
    let start : Cpu = record c { rsp = sp } in
    let p = pop_regs-Popped 15 0 start (omega arith) in
    let d = pop_regs 15 0 start in
    (
      ap (λ (f : ℕ → ℕ). f d.rsp) (pop_regs-words 15 0 start) ∙ ap c.words p.rsp ∙ frame.returns,
      record {
        registers = λ i lt. ap d.register (omega arith) ∙ p.loaded i lt ∙ frame.saved i lt;
        rsp = omega (arith, p.rsp);
      },
    )

load_context-words : (sp : ℕ) (c : Cpu) → (load_context sp c).1.words ≡ c.words
unfolding load_context
load_context-words sp c = pop_regs-words 15 0 (record c { rsp = sp })

-- The first half: the frame of the registers lies on the old stack, and `old_rsp`, which is not part of
-- it, holds the frame's address.
pub save_context-Frame :
    (old_rsp : ℕ) (c : Cpu)
    → 120 ≤ c.rsp
    → c.rsp + 8 < 2 ^ 64
    → ((old_rsp < c.rsp - 120) ⊎ (c.rsp + 8 ≤ old_rsp))
    → ((save_context old_rsp c).words old_rsp ≡ c.rsp - 120)
      × Frame c.register (c.words c.rsp) (c.rsp - 120) (save_context old_rsp c).words
unfolding save_context
save_context-Frame old_rsp c low high apart =
    let p = push_regs-Pushed 15 c (omega arith) (omega arith) in
    let d = push_regs 15 c in
    let at : d.rsp ≡ c.rsp - 120 = omega (arith, p.rsp) in
    (
      ground (arith, at),
      record {
        saved = λ i lt.
            let out : c.rsp - 120 + 8 * i ≢ old_rsp = ground arith in
            ground (arith, ap (λ x. d.words (x + 8 * i)) at, p.saved i lt);
        returns =
            let out : c.rsp - 120 + 120 ≢ old_rsp = ground arith in
            let top : c.rsp - 120 + 120 ≡ c.rsp = omega arith in
            ground (arith, p.kept c.rsp (omega arith), ap d.words top);
      },
    )

-- A switch away and back: from a task with registers `c`, `context_switch` leaves a frame on the
-- task's stack and its address in `old_rsp`; when another task switches to that address later, with
-- the frame still in memory, the task goes on at its return address, with all its registers and the
-- stack of before the call. The stack has room for the frame, `old_rsp` lies outside it, and the later
-- switch does not overwrite it either.
pub context_switch-Runs :
    (old_rsp new_rsp back : ℕ) (c d : Cpu)
    → 120 ≤ c.rsp
    → c.rsp + 8 < 2 ^ 64
    → ((old_rsp < c.rsp - 120) ⊎ (c.rsp + 8 ≤ old_rsp))
    → ((a : ℕ)
        → c.rsp - 120 ≤ a
        → a < c.rsp + 8
        → (save_context back d).words a ≡ (context_switch old_rsp new_rsp c).1.words a)
    → ((context_switch old_rsp new_rsp c).1.words old_rsp ≡ c.rsp - 120)
      × ((context_switch back (c.rsp - 120) d).0 ≡ c.words c.rsp)
      × Runs c.register (c.rsp + 8) (context_switch back (c.rsp - 120) d).1
unfolding context_switch
context_switch-Runs old_rsp new_rsp back c d low high apart keeps =
    let (at, frame) = save_context-Frame old_rsp c low high apart in
    let same : (context_switch old_rsp new_rsp c).1.words ≡ (save_context old_rsp c).words =
      load_context-words new_rsp (save_context old_rsp c) in
    let there = save_context back d in
    let words : (a : ℕ)
        → c.rsp - 120 ≤ a
        → a < c.rsp + 8
        → there.words a ≡ (save_context old_rsp c).words a =
      λ a le lt. keeps a le lt ∙ ap (λ (f : ℕ → ℕ). f a) same in
    let (to, runs) =
      load_context-Runs c.register (c.words c.rsp) (c.rsp - 120) there (omega arith) (record {
        saved = λ i lt. words (c.rsp - 120 + 8 * i) (omega arith) (omega arith) ∙ frame.saved i lt;
        returns = words (c.rsp - 120 + 120) (omega arith) (omega arith) ∙ frame.returns;
      }) in
    (
      ap (λ (f : ℕ → ℕ). f old_rsp) same ∙ at,
      to,
      record { registers = runs.registers; rsp = runs.rsp ∙ omega arith },
    )

-- The first half writes below the top of the stack and to `old_rsp` only.
pub save_context-kept :
    (old_rsp a : ℕ) (c : Cpu)
    → 120 ≤ c.rsp
    → c.rsp < 2 ^ 64
    → c.rsp ≤ a
    → a ≢ old_rsp
    → (save_context old_rsp c).words a ≡ c.words a
unfolding save_context
save_context-kept old_rsp a c low high above ne =
    ground (arith, (push_regs-Pushed 15 c low high).kept a above)
