-- ===== src/Sync/Tests.antt =====
-- The theorems of kernel/src/sync at concrete tasks: 1 and 3 wait in this order, 2 is current.
use bethany.Prelude.{
  ℕ, Bool, ◌+◌, ◌≡◌, ◌≢◌, update, true, false, List, [], ◌∷◌, none, arith, ◌==◌, if◌then◌else◌,
  refl,
}
use bethany.Tasks.{
  TaskState, task_ready, task_running, task_blocked, task_dead, same_state, Task, Kernel, state_of,
}
use bethany.Scheduler.Schedule.{awake}
use bethany.Scheduler.Wake.{has}
use bethany.Sync.{
  block_current, Mutex, mutex_lock, mutex_init, mutex_unlock, Semaphore, semaphore_wait, Event,
  event_set,
}
use bethany.Sync.Waiters.{IsWaiting, IsWaiting-keeps, released, block_current_lem}
use bethany.Sync.Exclusion.{Reached, start, lock, unlock, pass, mutual_exclusion}
use bethany.Sync.Objects.{CanYield, Released, semaphore_wait_idle, mutex_unlock_lem, event_set_lem}

abbrev task : TaskState → ℕ → ℕ → Task
task s next wait_next = record {
  pid = 0;
  rsp = 0;
  cr3 = 0;
  wake_tick = 0;
  stack = 0;
  stack_size = 0;
  entry = 0;
  state = s;
  arg = 0;
  next = next;
  waiters = 0;
  wait_next = wait_next;
}

abbrev kernel : Kernel
kernel = record {
  task = λ p.
      if p == 1
      then task task_blocked 2 0
      else if p == 2
      then task task_running 3 0
      else if p == 3
      then task task_blocked 0 1
      else task task_dead 0 0;
  first = 1;
  current = 2;
  task_to_destroy = 0;
  next_pid = 4;
  ticks = 0;
}

-- The newest waiter first.
abbrev waiting : List ℕ
waiting = 3 ∷ 1 ∷ []

three_waits : IsWaiting kernel 3 waiting
three_waits = record { linked = omega arith; distinct = omega arith; blocked = (refl, (refl, tt)) }

can_yield : CanYield 9 kernel (1 ∷ []) (3 ∷ [])
can_yield = record {
  run_list = record { linked = omega arith; not_before = omega arith; not_after = omega arith };
  none_dead = refl;
  rounds = omega arith;
  some_task = omega arith;
}

abbrev taken : Semaphore
taken = record { count = 0; waiters = 3 }

nobody_ready :
    (p : ℕ)
    → has p (3 ∷ 1 ∷ []) ≡ true
    → same_state ((awake (block_current 3 kernel) (1 ∷ []) (3 ∷ [])).task p).state task_ready
      ≡ false
nobody_ready p h = rw (block_current_lem 3 kernel) (ground arith)

semaphore_wait_idle_example :
    let (s', y) = semaphore_wait 9 taken kernel in
    (s' ≡ record { count = 0; waiters = 2 })
    × (y ≡ (awake (block_current 3 kernel) (1 ∷ []) (3 ∷ []), none))
    × (state_of y.0 2 ≡ task_blocked)
    × IsWaiting y.0 2 (2 ∷ waiting)
semaphore_wait_idle_example =
    semaphore_wait_idle 9 kernel (1 ∷ []) (3 ∷ []) can_yield taken waiting refl three_waits
      (omega arith) nobody_ready

abbrev held : Mutex
held = record { locked = true; waiters = 3 }

mutex_unlock_lem_example :
    let (m', k') = mutex_unlock held kernel in
    (waiting ≡ [] → (m' ≡ record held { locked = false }) × (k' ≡ kernel))
    × ((x : ℕ) (ys : List ℕ)
        → waiting ≡ x ∷ ys
        → (m'.locked ≡ true) × Released kernel x ys m'.waiters k')
mutex_unlock_lem_example = mutex_unlock_lem held kernel waiting three_waits

abbrev unset : Event
unset = record { signaled = false; waiters = 3 }

event_set_lem_example :
    let (e', k') = event_set 9 unset kernel in
    (e' ≡ record { signaled = true; waiters = 0 })
    × (k' ≡ record kernel { task = released waiting kernel })
    × IsWaiting k' e'.waiters []
event_set_lem_example = event_set_lem 9 unset kernel waiting three_waits (omega arith)

-- Three tasks that can run, of which `current` does.
abbrev runs : ℕ → Kernel
runs current = record kernel {
  task = λ p. task task_running (if p == 3 then 0 else p + 1) 0;
  current = current;
}

can_2 : CanYield 9 (runs 2) (1 ∷ []) (3 ∷ [])
can_2 = record {
  run_list = record { linked = omega arith; not_before = omega arith; not_after = omega arith };
  none_dead = refl;
  rounds = omega arith;
  some_task = omega arith;
}

can_3 : CanYield 9 (runs 3) (1 ∷ 2 ∷ []) []
can_3 = record {
  run_list = record { linked = omega arith; not_before = omega arith; not_after = omega arith };
  none_dead = refl;
  rounds = omega arith;
  some_task = omega arith;
}

abbrev locked_by_2 : Mutex × Kernel
locked_by_2 = let (m, y) = mutex_lock 9 mutex_init (runs 2) in (m, y.0)

abbrev marks_2 : ℕ → Bool
marks_2 = update (λ p. false) 2 true

abbrev marks_none : ℕ → Bool
marks_none = update marks_2 2 false

abbrev unlocked : Mutex × Kernel
unlocked = mutex_unlock locked_by_2.0 locked_by_2.1

abbrev locked_by_3 : Mutex × Kernel
locked_by_3 = let (m, y) = mutex_lock 9 unlocked.0 (runs 3) in (m, y.0)

first_lock : Reached 9 locked_by_2.0 locked_by_2.1 marks_2
first_lock = lock (1 ∷ []) (3 ∷ []) (start (runs 2)) can_2 refl (λ e. cc)

first_unlock : Reached 9 unlocked.0 unlocked.1 marks_none
unfolding mutex_init mutex_lock
first_unlock = unlock first_lock refl (λ e. cc)

second_task : Reached 9 unlocked.0 (runs 3) marks_none
unfolding mutex_init mutex_lock mutex_unlock
second_task =
    pass (runs 3) first_unlock (λ xs w. IsWaiting-keeps 0 xs (λ p. (refl, refl, λ e. e)) w)

second_lock : Reached 9 locked_by_3.0 locked_by_3.1 (update marks_none 3 true)
second_lock = lock (1 ∷ 2 ∷ []) [] second_task can_3 refl (λ e. cc)

third_runs : state_of locked_by_3.1 3 ≢ task_blocked
unfolding mutex_init mutex_lock mutex_unlock
third_runs e = cc

-- Task 2 locks and unlocks the mutex, and then task 3 locks it.
mutual_exclusion_example : ◌≡◌ {A = ℕ} 3 3 × (locked_by_3.0.locked ≡ true)
mutual_exclusion_example =
    mutual_exclusion 9 locked_by_3.0 locked_by_3.1 (update marks_none 3 true) 3 3 second_lock refl
      third_runs refl third_runs
