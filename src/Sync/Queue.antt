-- ===== src/Sync/Queue.antt =====
-- The blocking queue, kernel/src/sync/queue.c. `slots` is the memory that `buffer` addresses. A call
-- that has to wait is suspended: the functions `..._after_space`, `..._after_items` and
-- `..._after_lock` are what is left of it when the task runs again.
pub mod Fifo
mod Tests
use bethany.Prelude.{
  ℕ, ◌+◌, ◌-◌, ◌*◌, ◌^◌, Bool, true, false, ◌||◌, Option, none, some, ltb, ◌==◌, if◌then◌else◌,
  wrap64, update,
}
use bethany.Tasks.{Kernel}
use bethany.Memory.Heap.{PageMapper, Heap, kmalloc, kfree}
use bethany.Sync.{
  Mutex, mutex_init, mutex_lock, mutex_unlock, Semaphore, semaphore_init, semaphore_wait,
  semaphore_signal,
}

pub record Queue : Type 0 where
  pub buffer : ℕ
  pub slots : ℕ → ℕ
  pub capacity : ℕ
  pub head : ℕ
  pub tail : ℕ
  pub size : ℕ
  pub items : Semaphore
  pub space : Semaphore
  pub lock : Mutex

module _ (v : PageMapper) where
  -- `size` is not written.
  pub queue_init : ℕ → Queue → ℕ → Heap → v.Space → Bool × Queue × Heap × v.Space
  queue_init rounds q capacity h s =
      if capacity == 0
      then (false, q, h, s)
      else (let (buffer, h', s') = kmalloc v rounds (wrap64 (8 * capacity)) h s in
          if buffer == 0 then (false, record q { buffer = 0 }, h', s') else (
            true,
            record q {
              buffer = buffer;
              capacity = capacity;
              head = 0;
              tail = 0;
              lock = mutex_init;
              items = semaphore_init 0;
              space = semaphore_init capacity;
            },
            h',
            s',
          ))

  pub queue_destroy : Queue → Heap → Queue × Heap
  queue_destroy q h =
      (record q { buffer = 0; capacity = 0; head = 0; tail = 0 }, kfree v q.buffer h)

-- `head++` and `tail++` with the wrap at the capacity.
pub advance : ℕ → ℕ → ℕ
advance capacity i = if wrap64 (i + 1) == capacity then 0 else wrap64 (i + 1)

-- A wait that left the processor to another task; one that finds no other task ready returns.
pub switched : Option (ℕ × ℕ) → Bool
switched none = false
switched (some _) = true

-- A call that is through has its result; `none` is a call that is suspended.
abbrev pub Progress : Type 0 → Type 0
Progress A = Queue × Kernel × Option A

pub push_after_lock : Queue → ℕ → Kernel → Progress (Unit {0})
unfolding advance mutex_unlock semaphore_signal
push_after_lock q item k =
    let q1 = record q {
      slots = update q.slots q.tail item;
      tail = advance q.capacity q.tail;
      size = wrap64 (q.size + 1);
    } in
    let (lock, k1) = mutex_unlock q1.lock k in
    let (items, k2) = semaphore_signal q1.items k1 in
    (record q1 { lock = lock; items = items }, k2, some tt)

pub push_after_space : ℕ → Queue → ℕ → Kernel → Progress (Unit {0})
push_after_space n q item k =
    let (lock, y) = mutex_lock n q.lock k in
    let q1 = record q { lock = lock } in
    if switched y.1 then (q1, y.0, none) else push_after_lock q1 item y.0

pub queue_push : ℕ → Queue → ℕ → Kernel → Progress (Unit {0})
unfolding push_after_space push_after_lock
queue_push n q item k =
    if item == 0
    then (q, k, some tt)
    else (let (space, y) = semaphore_wait n q.space k in
        let q1 = record q { space = space } in
        if switched y.1 then (q1, y.0, none) else push_after_space n q1 item y.0)

pub pop_after_lock : Queue → Kernel → Progress ℕ
unfolding advance mutex_unlock semaphore_signal
pop_after_lock q k =
    let item = q.slots q.head in
    let q1 = record q { head = advance q.capacity q.head; size = wrap64 (q.size + (2 ^ 64 - 1)) } in
    let (lock, k1) = mutex_unlock q1.lock k in
    let (space, k2) = semaphore_signal q1.space k1 in
    (record q1 { lock = lock; space = space }, k2, some item)

pub pop_after_items : ℕ → Queue → Kernel → Progress ℕ
pop_after_items n q k =
    let (lock, y) = mutex_lock n q.lock k in
    let q1 = record q { lock = lock } in
    if switched y.1 then (q1, y.0, none) else pop_after_lock q1 y.0

pub queue_pop : ℕ → Queue → Kernel → Progress ℕ
unfolding pop_after_items pop_after_lock
queue_pop n q k =
    let (items, y) = semaphore_wait n q.items k in
    let q1 = record q { items = items } in
    if switched y.1 then (q1, y.0, none) else pop_after_items n q1 y.0
