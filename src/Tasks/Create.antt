-- ===== src/Tasks/Create.antt =====
-- New tasks, kernel/src/scheduler/task.c: the task structure and the stack come from the heap, and the
-- stack begins with the frame that the first switch to the task loads. The address of
-- `task_trampoline` and what `vmm_read_cr3` returns are arguments.
pub mod Laws
mod Tests
use bethany.Prelude.{
  ℕ, ◌+◌, ◌-◌, ◌^◌, Bool, true, false, bit_and, ◌==◌, if◌then◌else◌, update, wrap64,
}
use bethany.Memory.Heap.{PageMapper, Heap, kmalloc, kfree}
use bethany.Memory.Vmm.{slot, clear_words}
use bethany.Tasks.{TaskState, task_ready, task_running, Task, Kernel}

-- `sizeof(task_t)`
abbrev pub task_size : ℕ
task_size = 96

abbrev pub task_stack_size : ℕ
task_stack_size = 4096

-- The frame of a new task: `task_trampoline` as the return address, and a context with rdi, the
-- register 5, and rsi, the register 4. The new stack pointer comes first.
unfoldable pub first_frame : ℕ → ℕ → ℕ → ℕ → (ℕ → ℕ) → ℕ × (ℕ → ℕ)
first_frame trampoline entry arg stack words =
    let stack_top = bit_and (wrap64 (stack + task_stack_size)) 0xffff_ffff_ffff_fff0 in
    let return_at = wrap64 (stack_top + (2 ^ 64 - 8)) in
    let ctx = wrap64 (return_at + (2 ^ 64 - 120)) in
    let cleared = clear_words ctx 15 (update words return_at trampoline) in
    (ctx, update (update cleared (slot ctx 5) entry) (slot ctx 4) arg)

module _ (v : PageMapper) where
  pub record Machine : Type 0 where
    pub kernel : Kernel
    pub words : ℕ → ℕ
    pub heap : Heap
    pub space : v.Space

  unfoldable pub task_memory : ℕ → ℕ → Machine → ℕ × Machine
  task_memory n size m =
      let (p, heap, space) = kmalloc v n size m.heap m.space in
      (p, record m { heap = heap; space = space })

  unfoldable pub task_create : ℕ → ℕ → ℕ → ℕ → ℕ → Machine → ℕ × Machine
  task_create n trampoline cr3 entry arg m =
      let (p, m1) = task_memory n task_size m in
      let (stack, m2) = task_memory n task_stack_size m1 in
      let (rsp, words) = first_frame trampoline entry arg stack m2.words in
      if p == 0
      then (0, m1)
      else if stack == 0
      then (0, record m2 { heap = kfree v p m2.heap })
      else (
        p,
        record m2 {
          kernel = record m2.kernel {
            task = update m2.kernel.task p (record {
              pid = m2.kernel.next_pid;
              rsp = rsp;
              cr3 = cr3;
              wake_tick = 0;
              stack = stack;
              stack_size = task_stack_size;
              entry = entry;
              state = task_ready;
              arg = arg;
              next = 0;
              waiters = 0;
              wait_next = 0;
            });
            next_pid = wrap64 (m2.kernel.next_pid + 1);
          };
          words = words;
        },
      )

  -- The field `arg` keeps what the memory held.
  unfoldable pub task_create_current : ℕ → ℕ → Machine → ℕ × Machine
  task_create_current n cr3 m =
      let (p, m1) = task_memory n task_size m in
      if p == 0 then (0, m1) else (
        p,
        record m1 {
          kernel = record m1.kernel {
            task = update m1.kernel.task p (record {
              pid = 0;
              rsp = 0;
              cr3 = cr3;
              wake_tick = 0;
              stack = 0;
              stack_size = 0;
              entry = 0;
              state = task_running;
              arg = (m1.kernel.task p).arg;
              next = 0;
              waiters = 0;
              wait_next = 0;
            });
          };
        },
      )

  -- `scheduler_init` of scheduler.c.
  unfoldable pub scheduler_init : ℕ → ℕ → Machine → Machine
  scheduler_init n cr3 m =
      let (p, m1) = task_create_current n cr3 m in
      record m1 { kernel = record m1.kernel { current = p; first = p } }
