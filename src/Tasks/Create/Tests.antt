-- ===== src/Tasks/Create/Tests.antt =====
-- A first new task of kernel/src/scheduler/task.c in an empty heap, whose pages are always mapped.
use bethany.Prelude.{ℕ, true}
use bethany.Memory.Heap.{PageMapper, Heap}
use bethany.Memory.Heap.Alloc
use bethany.Tasks.{task_dead, Task}
use bethany.Tasks.Create.{Machine}

abbrev mapper : PageMapper
mapper = record { Space = ℕ; alloc_page = λ virt flags s. (true, s) }

abbrev empty : Heap
empty = record { heap_start = 0x10000; heap_end = 0x11000; heap_current = 0x10000 }

abbrev blank : Task
blank = record {
  pid = 0;
  rsp = 0;
  cr3 = 0;
  wake_tick = 0;
  stack = 0;
  stack_size = 0;
  entry = 0;
  state = task_dead;
  arg = 0;
  next = 0;
  waiters = 0;
  wait_next = 0;
}

abbrev machine : Machine mapper
machine = record {
  kernel = record {
    task = λ p. blank;
    first = 0;
    current = 0;
    task_to_destroy = 0;
    next_pid = 1;
    ticks = 0;
  };
  words = λ a. 0;
  heap = empty;
  space = 0;
}
