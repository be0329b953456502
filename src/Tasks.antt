-- ===== src/Tasks.antt =====
-- The tasks of the kernel: kernel/src/scheduler/task.h, and the memory that holds them. A pointer to
-- a task is a number, 0 for null; the static variables of kernel/src/scheduler/scheduler.c,
-- kernel/src/scheduler/task.c and the tick counter of kernel/src/timer/pit.c stand beside the tasks.
pub mod Context
pub mod Create
pub mod Ends
pub mod Links
use bethany.Prelude.{ℕ, Bool, ◌==◌, update}

pub data TaskState : Type 0 where
  task_ready task_running task_sleeping task_blocked task_dead : TaskState

-- The number of the constructor in the source's `enum`.
abbrev pub state_code : TaskState → ℕ
state_code task_ready = 0
state_code task_running = 1
state_code task_sleeping = 2
state_code task_blocked = 3
state_code task_dead = 4

abbrev pub same_state : TaskState → TaskState → Bool
same_state s t = state_code s == state_code t

pub record Task : Type 0 where
  pub pid : ℕ
  pub rsp : ℕ
  pub cr3 : ℕ
  pub wake_tick : ℕ
  pub stack : ℕ
  pub stack_size : ℕ
  pub entry : ℕ
  pub state : TaskState
  pub arg : ℕ
  pub next : ℕ
  pub waiters : ℕ
  pub wait_next : ℕ

pub record Kernel : Type 0 where
  pub task : ℕ → Task
  pub first : ℕ
  pub current : ℕ
  pub task_to_destroy : ℕ
  pub next_pid : ℕ
  pub ticks : ℕ

abbrev pub state_of : Kernel → ℕ → TaskState
state_of k p = (k.task p).state

-- `p->state = s`, and the writes of the two links.
unfoldable pub set_state : ℕ → TaskState → Kernel → Kernel
set_state p s k = record k { task = update k.task p (record (k.task p) { state = s }) }

unfoldable pub set_next : ℕ → ℕ → Kernel → Kernel
set_next p q k = record k { task = update k.task p (record (k.task p) { next = q }) }

unfoldable pub set_wait_next : ℕ → ℕ → Kernel → Kernel
set_wait_next p q k = record k { task = update k.task p (record (k.task p) { wait_next = q }) }
