-- ===== src/Scheduler/Tests.antt =====
-- Tests of kernel/src/scheduler/scheduler.c, and its theorems at a run list of three tasks.
use bethany.Prelude.{none, ℕ, ◌+◌, ◌<◌, ◌≢◌, ◌≡◌, [], ◌∷◌, some, arith, ◌==◌, if◌then◌else◌, refl}
use bethany.Tasks.{
  TaskState, task_ready, task_running, task_sleeping, task_dead, Task, Kernel, set_state, set_next,
}
use bethany.Scheduler.{
  scheduler_update, scheduler_next, scheduler_schedule, scheduler_add, scheduler_remove, reap,
}
use bethany.Scheduler.RoundRobin.{IsRunList, first_ready, scheduler_next-first_ready}
use bethany.Scheduler.Fairness.{Waits, Skipped, not_yet, once_more, bounded_waiting}
use bethany.Scheduler.Reap.{
  Settles, one_dead, Reaped, scheduler_schedule_lem, scheduler_schedule-OnlyCurrentRuns,
}
use bethany.Scheduler.RunList.{
  HasTasks, current_with, Removed, scheduler_add_lem, scheduler_remove_lem,
}
use bethany.Scheduler.Wake.{woken, scheduler_update-woken}
use bethany.Scheduler.Schedule.{awake, chosen, Switched}
use bethany.Scheduler.Laws.{OnlyCurrentRuns, KeepsWaiting, schedule-KeepsWaiting}

abbrev task : TaskState → ℕ → Task
task s next = record {
  pid = 0;
  rsp = 0;
  cr3 = 0;
  wake_tick = 5;
  stack = 0;
  stack_size = 0;
  entry = 0;
  state = s;
  arg = 0;
  next = next;
  waiters = 0;
  wait_next = 0;
}

-- The tasks 1, 2 and 3 with these states, and 2 current.
abbrev three : TaskState → TaskState → TaskState → ℕ → Kernel
three a b c ticks = record {
  task = λ p.
      if p == 1
      then task a 2
      else if p == 2
      then task b 3
      else if p == 3
      then task c 0
      else task task_dead 0;
  first = 1;
  current = 2;
  task_to_destroy = 0;
  next_pid = 4;
  ticks = ticks;
}

abbrev busy : Kernel
busy = three task_ready task_running task_sleeping 7

-- The sleeper 3 is woken at tick 5, and comes before 1.
busy_switches_to_three : (scheduler_schedule 9 busy).1 ≡ some (2, 3)
unfolding scheduler_schedule scheduler_update scheduler_next set_state
busy_switches_to_three = refl

removal : (scheduler_next 9 (scheduler_remove 9 2 busy)).current ≡ 1
unfolding scheduler_remove scheduler_next set_next
removal = refl

addition : (scheduler_add 9 4 busy).first ≡ 1
unfolding scheduler_add set_next
addition = refl

busy-IsRunList : IsRunList busy (1 ∷ []) (3 ∷ [])
busy-IsRunList = record { linked = omega arith; not_before = omega arith; not_after = omega arith }

scheduler_next-first_ready_example :
    scheduler_next 9 busy ≡ record busy { current = first_ready busy.task (3 ∷ 1 ∷ []) 2 }
scheduler_next-first_ready_example =
    scheduler_next-first_ready 9 busy (1 ∷ []) (3 ∷ []) busy-IsRunList (omega arith)

scheduler_update-woken_example :
    scheduler_update 9 busy ≡ record busy { task = woken (1 ∷ 2 ∷ 3 ∷ []) busy }
scheduler_update-woken_example =
    scheduler_update-woken 9 busy (1 ∷ 2 ∷ 3 ∷ []) busy-IsRunList.linked (omega arith)

-- The task 3 died before.
abbrev burying : Kernel
burying = record (three task_ready task_running task_dead 7) { task_to_destroy = 3 }

burying-Settles : Settles 9 burying (1 ∷ []) []
burying-Settles =
    one_dead (1 ∷ 2 ∷ []) [] (omega arith) (omega arith)
      (record { linked = omega arith; distinct = omega arith }) refl (omega arith)

scheduler_schedule_lem_example :
    let (k', switch) = scheduler_schedule 9 burying in
    let k1 = reap 9 burying in
    Reaped burying (1 ∷ []) [] k1
    × (chosen k1 (1 ∷ []) [] ≡ 2 → scheduler_schedule 9 burying ≡ (awake k1 (1 ∷ []) [], none))
    × (chosen k1 (1 ∷ []) [] ≢ 2
        → (switch ≡ some (2, chosen k1 (1 ∷ []) []))
          × (k'.current ≡ chosen k1 (1 ∷ []) [])
          × Switched (awake k1 (1 ∷ []) []).task 2 k')
scheduler_schedule_lem_example =
    scheduler_schedule_lem 9 burying (1 ∷ []) [] burying-Settles (omega arith)

only_two_runs : OnlyCurrentRuns burying
only_two_runs p h = ground arith

scheduler_schedule-OnlyCurrentRuns_example : OnlyCurrentRuns (scheduler_schedule 9 burying).0
scheduler_schedule-OnlyCurrentRuns_example =
    scheduler_schedule-OnlyCurrentRuns 9 burying (1 ∷ []) [] burying-Settles (omega arith)
      only_two_runs

schedule-KeepsWaiting_example : KeepsWaiting busy (scheduler_schedule 9 busy).0
schedule-KeepsWaiting_example =
    schedule-KeepsWaiting 9 busy (1 ∷ []) (3 ∷ []) busy-IsRunList refl (omega arith)

busy-HasTasks : HasTasks busy (1 ∷ 2 ∷ 3 ∷ [])
busy-HasTasks = record { linked = omega arith; distinct = omega arith }

scheduler_add_lem_example :
    HasTasks (scheduler_add 9 4 busy) (1 ∷ 2 ∷ 3 ∷ 4 ∷ [])
    × ((scheduler_add 9 4 busy).current ≡ current_with 4 busy)
scheduler_add_lem_example =
    scheduler_add_lem 9 busy 4 (omega arith) refl (1 ∷ 2 ∷ 3 ∷ []) busy-HasTasks (omega arith)
      (omega arith)

scheduler_remove_lem_example : Removed busy 2 (1 ∷ []) (3 ∷ []) (scheduler_remove 9 2 busy)
scheduler_remove_lem_example =
    scheduler_remove_lem 9 busy 2 (1 ∷ []) (3 ∷ []) busy-HasTasks (omega arith)

-- The tasks 1 and 3 are ready, and 3 is chosen first.
abbrev waiting : Kernel
waiting = three task_ready task_running task_ready 7

waiting-Waits : Waits 9 (1 ∷ 2 ∷ 3 ∷ []) 1 waiting
waiting-Waits = record {
  ready = refl;
  none_dead = refl;
  linked = omega arith;
  distinct = omega arith;
  rounds = omega arith;
}

chooses_three :
    let k = (scheduler_schedule 9 waiting).0 in (k.current ≢ 1) × (k.task_to_destroy ≡ 0)
unfolding scheduler_schedule scheduler_update scheduler_next set_state
chooses_three = (omega arith, refl)

waiting-Skipped : Skipped 9 1 waiting 1 (scheduler_schedule 9 waiting).0
waiting-Skipped = once_more (scheduler_schedule 9 waiting).0 not_yet chooses_three.0 (record {
  first = refl;
  current = refl;
  next = λ q. refl;
  ready = λ e. e;
  none_dead = chooses_three.1;
})

bounded_waiting_example : 1 < 1 + 1
bounded_waiting_example =
    bounded_waiting 9 waiting 1 (1 ∷ []) (3 ∷ []) waiting-Waits refl 1
      (scheduler_schedule 9 waiting).0 waiting-Skipped
