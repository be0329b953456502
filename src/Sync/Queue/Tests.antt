-- ===== src/Sync/Queue/Tests.antt =====
-- Tests of kernel/src/sync/queue.c, and its theorems at a queue that goes round its end.
use bethany.Prelude.{ℕ, ◌≡◌, false, [], ◌∷◌, ◌++◌, some, arith, ◌==◌, if◌then◌else◌, refl}
use bethany.Tasks.{task_running, Kernel}
use bethany.Sync.Queue.{Queue, queue_push, queue_pop}
use bethany.Sync.Queue.Fifo.{IsValid, contents, queue_push_lem, queue_pop_lem}

-- Three places; the items 8 and 9 lie in the last and the first.
abbrev wrapped : Queue
wrapped = record {
  buffer = 0x5000;
  slots = λ i. if i == 2 then 8 else 9;
  capacity = 3;
  head = 2;
  tail = 1;
  size = 77;
  items = record { count = 2; waiters = 0 };
  space = record { count = 1; waiters = 0 };
  lock = record { locked = false; waiters = 0 };
}

wrapped-IsValid : IsValid wrapped
wrapped-IsValid = record {
  small = omega arith;
  head_in = omega arith;
  counts = refl;
  tail_at = refl;
  free = refl;
  no_waiter = (refl, refl, refl);
}

contents-wrapped : contents wrapped ≡ 8 ∷ 9 ∷ []
contents-wrapped = refl

abbrev nobody : Kernel
nobody = record {
  task = λ p. record {
    pid = p;
    rsp = 0;
    cr3 = 0;
    wake_tick = 0;
    stack = 0;
    stack_size = 0;
    entry = 0;
    state = task_running;
    arg = 0;
    next = 0;
    waiters = 0;
    wait_next = 0;
  };
  first = 0;
  current = 0;
  task_to_destroy = 0;
  next_pid = 1;
  ticks = 0;
}

queue_push_lem_example :
    let (q', k', result) = queue_push 9 wrapped 5 nobody in
    (result ≡ some tt) × (k' ≡ nobody) × (contents q' ≡ contents wrapped ++ 5 ∷ []) × IsValid q'
queue_push_lem_example =
    queue_push_lem 9 wrapped nobody wrapped-IsValid 5 (omega arith) (omega arith)

queue_pop_lem_example :
    let (q', k', result) = queue_pop 9 wrapped nobody in
    (k' ≡ nobody)
    × ((x : ℕ) × (result ≡ some x) × (contents wrapped ≡ x ∷ contents q'))
    × IsValid q'
queue_pop_lem_example = queue_pop_lem 9 wrapped nobody wrapped-IsValid (omega arith)
