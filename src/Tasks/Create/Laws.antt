-- ===== src/Tasks/Create/Laws.antt =====
-- What kernel/src/scheduler/task.c makes when it creates a task.
use bethany.Prelude.{
  ℕ, ◌+◌, ◌-◌, ◌*◌, ◌%◌, ◌^◌, ◌<◌, ◌≤◌, ◌≡◌, ◌≢◌, ◌⊎◌, ◌==◌, if◌then◌else◌, update,
}
use bethany.Memory.Heap.{PageMapper}
use bethany.Memory.Heap.Alloc
use bethany.Memory.Pmm.{page_size}
use bethany.Memory.Vmm.{slot, clear_words}
use bethany.Tasks.{task_ready}
use bethany.Tasks.Context.{Cpu, load_context}
use bethany.Tasks.Context.Laws.{Runs}
use bethany.Tasks.Create.{task_size, task_stack_size, Machine, task_memory}

-- The registers of a new task: rdi and rsi hold the arguments of `task_trampoline`.
abbrev pub first_register : ℕ → ℕ → ℕ → ℕ
first_register entry arg i = if i == 4 then arg else if i == 5 then entry else 0

module _ (trampoline entry arg stack : ℕ) (words : ℕ → ℕ) (aligned : stack % 16 ≡ 0)
    (fits : stack + 4096 < 2 ^ 64) where
  abbrev ctx : ℕ
  ctx = stack + 3968

  abbrev filled : ℕ → ℕ
  filled =
      update
        (update (clear_words ctx 15 (update words (stack + 4088) trampoline)) (slot ctx 5) entry)
        (slot ctx 4) arg

-- The new task `p`, in memory that the heap had not given out: it is ready, stands on no list and has
-- the next process number, and the first switch to it starts `task_trampoline` with `entry` and `arg`
-- on a stack that ends behind the task's structure. No other task has changed, and no memory below
-- the task.
pub record Created (v : PageMapper) (trampoline cr3 entry arg : ℕ) (m : Machine v) (p : ℕ)
    (m' : Machine v) : Type 0 where
  pub place : p ≡ m.heap.heap_current
  pub stack : (m'.kernel.task p).stack ≡ (m'.kernel.task p).rsp - 3968
  pub behind : p + task_size ≤ (m'.kernel.task p).stack
  pub inside : (m'.kernel.task p).stack + task_stack_size ≤ m'.heap.heap_current
  pub task : m'.kernel.task p ≡ record {
    pid = m.kernel.next_pid;
    rsp = (m'.kernel.task p).rsp;
    cr3 = cr3;
    wake_tick = 0;
    stack = (m'.kernel.task p).stack;
    stack_size = task_stack_size;
    entry = entry;
    state = task_ready;
    arg = arg;
    next = 0;
    waiters = 0;
    wait_next = 0;
  }
  pub starts :
      (c : Cpu)
      → let (rip, c') = load_context (m'.kernel.task p).rsp (record c { words = m'.words }) in
        (rip ≡ trampoline) × Runs (first_register entry arg) ((m'.kernel.task p).rsp + 128) c'
  pub others : (q : ℕ) → q ≢ p → m'.kernel.task q ≡ m.kernel.task q
  pub kept : (x : ℕ) → x < p → m'.words x ≡ m.words x

-- A page was refused that the task's structure or its stack needs: nothing has changed but the heap.
pub record Refused (v : PageMapper) (m : Machine v) (p : ℕ) (m' : Machine v) : Type 0 where
  pub null : p ≡ 0
  pub kernel : m'.kernel ≡ m.kernel
  pub words : m'.words ≡ m.words
  pub cause :
      Alloc.NoMemory v
        (m.heap.heap_current + task_size + task_stack_size + 32)
        m.heap.heap_end
        m.space

module _ (v : PageMapper) (n trampoline cr3 entry arg : ℕ) (m : Machine v)
    (valid : Alloc.IsValid m.heap) (room : m.heap.heap_end + 2 * (n * page_size) + 2 ^ 13 < 2 ^ 64)
    (enough : 2 ≤ n) where
  abbrev Cause : Type 0
  Cause =
      Alloc.NoMemory v (m.heap.heap_current + task_size + task_stack_size + 32) m.heap.heap_end
        m.space

  abbrev first_block : ℕ × Machine v
  first_block = task_memory v n task_size m

  abbrev second_block : ℕ × Machine v
  second_block = task_memory v n task_stack_size first_block.1

  abbrev Result : ℕ × Machine v → Type 0
  Result (p, m') = (Created v trampoline cr3 entry arg m p m') ⊎ Refused v m p m'
