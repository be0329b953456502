-- ===== src/Tasks/Context/Tests.antt =====
-- kernel/src/scheduler/context.asm at two tasks, whose stack pointers are kept at 8 and 16.
use bethany.Prelude.{◌+◌, ◌-◌, ◌≡◌, inl, arith}
use bethany.Tasks.Context.{Cpu, context_switch}
use bethany.Tasks.Context.Laws.{Runs, context_switch-Runs, save_context-kept}

abbrev away : Cpu
away = record { register = λ i. 100 + i; rsp = 1000; words = λ a. a + 7 }

abbrev other : Cpu
other = record { register = λ i. 0; rsp = 500; words = (context_switch 8 300 away).1.words }

context_switch-Runs_example :
    ((context_switch 8 300 away).1.words 8 ≡ 1000 - 120)
    × ((context_switch 16 (1000 - 120) other).0 ≡ 1007)
    × Runs (λ i. 100 + i) (1000 + 8) (context_switch 16 (1000 - 120) other).1
context_switch-Runs_example =
    context_switch-Runs 8 300 16 away other (omega arith) (omega arith) (inl (omega arith))
      (λ a le lt.
        save_context-kept 16 a other (omega arith) (omega arith) (omega arith) (omega arith))
