-- ===== src/Sync/Queue/Fifo.antt =====
-- The queue of kernel/src/sync/queue.c keeps its items in the order in which they came.
use bethany.Prelude.{
  ℕ, zero, suc, ◌+◌, ◌-◌, ◌<◌, ◌^◌, ◌≡◌, ◌≢◌, true, false, List, [], ◌∷◌, ◌++◌, none, some, arith,
  ◌==◌, ltb, if◌then◌else◌, refl, ap, ◌∙◌, wrap64, update,
}
use mathlib.Core.Path.{ap₂}
use bethany.Tasks.{Kernel}
use bethany.Sync.{Mutex, mutex_lock, mutex_unlock, Semaphore, semaphore_wait, semaphore_signal}
use bethany.Sync.Queue.{
  Queue, advance, push_after_lock, push_after_space, queue_push, pop_after_lock, pop_after_items,
  queue_pop, switched,
}

module _ (capacity : ℕ) where
  -- The index `n` places behind `i`, going round at the capacity.
  abbrev pub behind : ℕ → ℕ → ℕ
  behind i n = if ltb (i + n) capacity then i + n else i + n - capacity

  abbrev pub window : (ℕ → ℕ) → ℕ → ℕ → List ℕ
  window slots i zero = []
  window slots i (suc n) = slots i ∷ window slots (behind i 1) n

  -- Writing just behind a window makes it longer by that item.
  window-update :
      (slots : ℕ → ℕ) (item i n j : ℕ)
      → i < capacity
      → n < capacity
      → j ≡ behind i n
      → window (update slots j item) i (suc n) ≡ window slots i n ++ item ∷ []
  window-update slots item i zero j hi hn e = ground arith
  window-update slots item i (suc n) j hi hn e =
      ap₂ ◌∷◌ kept
        (window-update slots item (behind i 1) n j (ground arith) (omega arith) (ground arith))
    where
      kept : update slots j item i ≡ slots i
      kept = ground arith

advance-behind :
    (capacity i : ℕ) → i < capacity → capacity < 2 ^ 64 → advance capacity i ≡ behind capacity i 1
unfolding advance
advance-behind capacity i h small = ground arith

abbrev pub contents : Queue → List ℕ
contents q = window q.capacity q.slots q.head q.items.count

-- Between the calls of tasks that do not wait for each other.
pub record IsValid (q : Queue) : Type 0 where
  pub small : q.capacity < 2 ^ 64
  pub head_in : q.head < q.capacity
  pub counts : q.items.count + q.space.count ≡ q.capacity
  pub tail_at : q.tail ≡ behind q.capacity q.head q.items.count
  pub free : q.lock.locked ≡ false
  pub no_waiter : (q.lock.waiters ≡ 0) × (q.items.waiters ≡ 0) × (q.space.waiters ≡ 0)

semaphore_wait-at_once :
    (n : ℕ) (s : Semaphore) (k : Kernel)
    → 0 < s.count
    → semaphore_wait n s k ≡ (record s { count = s.count - 1 }, (k, none))
unfolding semaphore_wait
semaphore_wait-at_once n s k pos = let e : ltb 0 s.count ≡ true = ground arith in rw e

mutex_lock-at_once :
    (n : ℕ) (m : Mutex) (k : Kernel)
    → m.locked ≡ false
    → mutex_lock n m k ≡ (record m { locked = true }, (k, none))
unfolding mutex_lock
mutex_lock-at_once n m k e = rw e

mutex_unlock-alone :
    (m : Mutex) (k : Kernel) → m.waiters ≡ 0 → mutex_unlock m k ≡ (record m { locked = false }, k)
unfolding mutex_unlock
mutex_unlock-alone m k e = let f : (m.waiters == 0) ≡ true = ground arith in rw f

semaphore_signal-alone :
    (s : Semaphore) (k : Kernel)
    → s.waiters ≡ 0
    → semaphore_signal s k ≡ (record s { count = wrap64 (s.count + 1) }, k)
unfolding semaphore_signal
semaphore_signal-alone s k e = let f : (s.waiters == 0) ≡ true = ground arith in rw f

-- The queues that calls which are not suspended leave.
abbrev pushed : Queue → ℕ → Queue
pushed q item = record q {
  slots = update q.slots q.tail item;
  tail = advance q.capacity q.tail;
  size = wrap64 (q.size + 1);
  lock = record q.lock { locked = false };
  items = record q.items { count = wrap64 (q.items.count + 1) };
  space = record q.space { count = q.space.count - 1 };
}

abbrev popped : Queue → Queue
popped q = record q {
  head = advance q.capacity q.head;
  size = wrap64 (q.size + (2 ^ 64 - 1));
  lock = record q.lock { locked = false };
  items = record q.items { count = q.items.count - 1 };
  space = record q.space { count = wrap64 (q.space.count + 1) };
}

module _ (n : ℕ) (q : Queue) (k : Kernel) (v : IsValid q) where
  queue_push-pushed :
      (item : ℕ)
      → item ≢ 0
      → 0 < q.space.count
      → queue_push n q item k ≡ (pushed q item, k, some tt)
  unfolding queue_push push_after_space push_after_lock switched
  queue_push-pushed item ne room =
      rw
        (
          real,
          semaphore_wait-at_once n q.space k room,
          mutex_lock-at_once n q.lock k v.free,
          unlocked,
          signaled,
        )
        refl
    where
      real : (item == 0) ≡ false
      real = ground arith

      unlocked :
          mutex_unlock (record q.lock { locked = true }) k ≡ (record q.lock { locked = false }, k)
      unlocked = mutex_unlock-alone (record q.lock { locked = true }) k v.no_waiter.0

      signaled :
          semaphore_signal q.items k ≡ (record q.items { count = wrap64 (q.items.count + 1) }, k)
      signaled = semaphore_signal-alone q.items k v.no_waiter.1

  queue_pop-popped : 0 < q.items.count → queue_pop n q k ≡ (popped q, k, some (q.slots q.head))
  unfolding queue_pop pop_after_items pop_after_lock switched
  queue_pop-popped some_item =
      rw
        (
          semaphore_wait-at_once n q.items k some_item,
          mutex_lock-at_once n q.lock k v.free,
          unlocked,
          signaled,
        )
        refl
    where
      unlocked :
          mutex_unlock (record q.lock { locked = true }) k ≡ (record q.lock { locked = false }, k)
      unlocked = mutex_unlock-alone (record q.lock { locked = true }) k v.no_waiter.0

      signaled :
          semaphore_signal q.space k ≡ (record q.space { count = wrap64 (q.space.count + 1) }, k)
      signaled = semaphore_signal-alone q.space k v.no_waiter.2

  -- With room and nobody waiting, `queue_push` is not suspended: it adds an item that is not null behind all others,
  -- and the queue stays valid.
  pub queue_push_lem :
      (item : ℕ)
      → item ≢ 0
      → 0 < q.space.count
      → let (q', k', result) = queue_push n q item k in
        (result ≡ some tt) × (k' ≡ k) × (contents q' ≡ contents q ++ item ∷ []) × IsValid q'
  queue_push_lem item ne room = rw (queue_push-pushed item ne room) (
    refl,
    refl,
    rw count (
        window-update q.capacity q.slots item q.head q.items.count q.tail v.head_in
          (omega (arith, v.counts)) v.tail_at),
    record {
      small = v.small;
      head_in = v.head_in;
      counts = omega (arith, v.counts, v.small);
      tail_at =
          rw (advance-behind q.capacity q.tail tail_in v.small, v.tail_at)
            (ground (arith, v.counts, v.head_in, v.small));
      free = refl;
      no_waiter = v.no_waiter;
    },
  )
    where
      count : wrap64 (q.items.count + 1) ≡ suc q.items.count
      count = omega (arith, v.counts, v.small)

      tail_in : q.tail < q.capacity
      tail_in = ground (arith, v.tail_at, v.counts, v.head_in)

  -- With an item and nobody waiting, `queue_pop` is not suspended: it returns the oldest item and
  -- leaves the others in their order, and the queue stays valid.
  pub queue_pop_lem :
      0 < q.items.count
      → let (q', k', result) = queue_pop n q k in
        (k' ≡ k) × ((x : ℕ) × (result ≡ some x) × (contents q ≡ x ∷ contents q')) × IsValid q'
  queue_pop_lem some_item = rw (queue_pop-popped some_item) (
    refl,
    (q.slots q.head, refl, oldest),
    record {
      small = v.small;
      head_in = rw (advance-behind q.capacity q.head v.head_in v.small) (ground (arith, v.head_in));
      counts = omega (arith, v.counts, v.small);
      tail_at =
          rw (advance-behind q.capacity q.head v.head_in v.small)
            (ground (arith, v.tail_at, v.counts, v.head_in));
      free = refl;
      no_waiter = v.no_waiter;
    },
  )
    where
      one_less : q.items.count ≡ suc (q.items.count - 1)
      one_less = omega arith

      oldest :
          contents q
          ≡ q.slots q.head
            ∷ window q.capacity q.slots (advance q.capacity q.head) (q.items.count - 1)
      oldest =
          ap (window q.capacity q.slots q.head) one_less
          ∙ rw (advance-behind q.capacity q.head v.head_in v.small) refl
