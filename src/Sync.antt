-- ===== src/Sync.antt =====
-- The kernel objects that tasks wait for: kernel/src/sync/mutex.c, semaphore.c and event.c, and the
-- waiting calls of kernel/src/scheduler/task.c. Each call that may wait ends in `task_yield`, whose
-- rounds are the first argument, and returns the pair of tasks of a context switch with the state.
pub mod Exclusion
pub mod Objects
pub mod Queue
mod Tests
pub mod Waiters
use bethany.Prelude.{
  ℕ, zero, suc, ◌+◌, ◌-◌, not, Bool, true, false, ◌&&◌, ◌||◌, Option, none, some, ltb, ◌==◌,
  if◌then◌else◌, wrap64,
}
use bethany.Tasks.{
  TaskState, task_ready, task_blocked, task_sleeping, task_dead, same_state, Task, Kernel, state_of,
  set_state, set_wait_next,
}
use bethany.Prelude.{update}
use bethany.Scheduler.{scheduler_schedule, scheduler_current}

abbrev pub Yielded : Type 0
Yielded = Kernel × Option (ℕ × ℕ)

pub task_yield : ℕ → Kernel → Yielded
task_yield n k = scheduler_schedule n k

-- The three statements that put the current task at the head of a list of waiters.
pub block_current : ℕ → Kernel → Kernel
block_current waiters k =
    let current = scheduler_current k in
    set_wait_next current waiters (set_state current task_blocked k)

-- The statements that take the first task off a list of waiters, but for the new head.
pub release : ℕ → Kernel → Kernel
release task k = set_state task task_ready (set_wait_next task 0 k)

-- The loop that releases every waiter.
pub release_loop : ℕ → ℕ → Kernel → Kernel
release_loop zero task k = k
release_loop (suc n) task k =
    let k1 = set_state task task_ready k in
    let next = (k1.task task).wait_next in
    let rest = release_loop n next (set_wait_next task 0 k1) in if task == 0 then k else rest

pub record Mutex : Type 0 where
  pub locked : Bool
  pub waiters : ℕ

pub mutex_init : Mutex
mutex_init = record { locked = false; waiters = 0 }

pub mutex_try_lock : Mutex → Mutex × Bool
mutex_try_lock m = if m.locked then (m, false) else (record m { locked = true }, true)

pub mutex_lock : ℕ → Mutex → Kernel → Mutex × Yielded
unfolding task_yield block_current
mutex_lock n m k =
    if not m.locked
    then (record m { locked = true }, (k, none))
    else (record m { waiters = scheduler_current k }, task_yield n (block_current m.waiters k))

pub mutex_unlock : Mutex → Kernel → Mutex × Kernel
unfolding release
mutex_unlock m k =
    if m.waiters == 0
    then (record m { locked = false }, k)
    else (record m { waiters = (k.task m.waiters).wait_next }, release m.waiters k)

pub record Semaphore : Type 0 where
  pub count : ℕ
  pub waiters : ℕ

pub semaphore_init : ℕ → Semaphore
semaphore_init initial = record { count = initial; waiters = 0 }

pub semaphore_try_wait : Semaphore → Semaphore × Bool
semaphore_try_wait s = if s.count == 0 then (s, false) else (record s { count = s.count - 1 }, true)

pub semaphore_wait : ℕ → Semaphore → Kernel → Semaphore × Yielded
unfolding task_yield block_current
semaphore_wait n s k =
    if ltb 0 s.count
    then (record s { count = s.count - 1 }, (k, none))
    else (record s { waiters = scheduler_current k }, task_yield n (block_current s.waiters k))

pub semaphore_signal : Semaphore → Kernel → Semaphore × Kernel
unfolding release
semaphore_signal s k =
    if s.waiters == 0
    then (record s { count = wrap64 (s.count + 1) }, k)
    else (record s { waiters = (k.task s.waiters).wait_next }, release s.waiters k)

pub record Event : Type 0 where
  pub signaled : Bool
  pub waiters : ℕ

pub event_init : Event
event_init = record { signaled = false; waiters = 0 }

pub event_wait : ℕ → Event → Kernel → Event × Yielded
unfolding task_yield block_current
event_wait n e k =
    if e.signaled
    then (e, (k, none))
    else (record e { waiters = scheduler_current k }, task_yield n (block_current e.waiters k))

pub event_set : ℕ → Event → Kernel → Event × Kernel
unfolding release_loop
event_set n e k = (record { signaled = true; waiters = 0 }, release_loop n e.waiters k)

pub event_reset : Event → Event
event_reset e = record e { signaled = false }

-- `wake_tick = pit_ticks() + ticks`
pub task_sleep : ℕ → ℕ → Kernel → Yielded
unfolding task_yield
task_sleep n ticks k =
    let task = scheduler_current k in
    let wake = record (k.task task) { wake_tick = wrap64 (k.ticks + ticks) } in
    task_yield n (set_state task task_sleeping (record k { task = update k.task task wake }))

unfoldable pub set_waiters : ℕ → ℕ → Kernel → Kernel
set_waiters p q k = record k { task = update k.task p (record (k.task p) { waiters = q }) }

pub task_join : ℕ → ℕ → Kernel → Yielded
unfolding task_yield block_current
task_join n task k =
    if task == 0 || same_state (state_of k task) task_dead || task == scheduler_current k
    then (k, none)
    else (let k1 = block_current (k.task task).waiters k in
        task_yield n (set_waiters task (scheduler_current k) k1))

-- Up to the final `task_yield`; the loop of `hlt` behind it is left by interrupts alone.
pub task_exit : ℕ → Kernel → Yielded
unfolding task_yield release_loop
task_exit n k =
    let task = scheduler_current k in
    let k1 = release_loop n (k.task task).waiters k in
    task_yield n (set_state task task_dead (set_waiters task 0 k1))
