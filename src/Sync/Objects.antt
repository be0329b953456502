-- ===== src/Sync/Objects.antt =====
-- The contracts of the mutex, the semaphore and the event, on every branch of their calls.
use bethany.Prelude.{
  ℕ, ◌+◌, ◌-◌, ◌<◌, ◌≡◌, ◌≢◌, true, false, List, [], ◌∷◌, ◌++◌, none, arith, ◌==◌, ltb, refl,
  length, wrap64,
}
use bethany.Tasks.{task_ready, task_blocked, same_state, Kernel, state_of}
use bethany.Tasks.Links.{Avoids}
use bethany.Scheduler.{scheduler_current}
use bethany.Scheduler.RoundRobin.{IsRunList}
use bethany.Scheduler.Wake.{has}
use bethany.Scheduler.Schedule.{awake, schedule_stays}
use bethany.Scheduler.Laws.{schedule-KeepsWaiting}
use bethany.Sync.{
  task_yield, block_current, release, Mutex, mutex_lock, mutex_unlock, Semaphore, semaphore_wait,
  semaphore_signal, Event, event_wait, event_set,
}
use bethany.Sync.Waiters.{
  IsWaiting, IsWaiting-keeps, block_current-IsRunList, block_current-IsWaiting, block_current_lem,
  release_lem, release-IsWaiting, released, release_loop-released,
}

-- The scheduler can be called: the run list is whole, no task is due for destruction, and the rounds
-- suffice.
pub record CanYield (n : ℕ) (k : Kernel) (before after : List ℕ) : Type 0 where
  pub run_list : IsRunList k before after
  pub none_dead : k.task_to_destroy ≡ 0
  pub rounds : length before + length after + 1 < n
  pub some_task : k.current ≢ 0

module _ (n : ℕ) (k : Kernel) (before after : List ℕ) (can : CanYield n k before after) where
  -- The current task is added to a list of waiters, and is blocked whoever runs next.
  yield-IsWaiting :
      (head : ℕ) (xs : List ℕ)
      → IsWaiting k head xs
      → Avoids k.current xs
      → IsWaiting (task_yield n (block_current head k)).0 k.current (k.current ∷ xs)
  unfolding task_yield
  yield-IsWaiting head xs w out =
      IsWaiting-keeps k.current (k.current ∷ xs)
        (schedule-KeepsWaiting n (block_current head k) before after
          (block_current-IsRunList head k before after can.run_list)
          (rw (block_current_lem head k) can.none_dead) can.rounds)
        (block_current-IsWaiting head k xs w can.some_task out)

  -- A semaphore with a positive count gives one to the caller, who goes on; with none left, the
  -- caller becomes the newest waiter and is blocked after the switch, and the count stays 0.
  pub semaphore_wait_lem :
      (s : Semaphore) (xs : List ℕ)
      → IsWaiting k s.waiters xs
      → Avoids k.current xs
      → let (s', y) = semaphore_wait n s k in
        (0 < s.count → (s' ≡ record s { count = s.count - 1 }) × (y ≡ (k, none)))
        × (s.count ≡ 0
            → (s'.count ≡ 0) × (s'.waiters ≡ k.current) × IsWaiting y.0 k.current (k.current ∷ xs))
  unfolding semaphore_wait scheduler_current
  semaphore_wait_lem s xs w out = (
    λ pos. let e : ltb 0 s.count ≡ true = ground arith in rw e (refl, refl),
    λ z.
        let e : ltb 0 s.count ≡ false = ground arith in
        rw e (z, refl, yield-IsWaiting s.waiters xs w out),
  )

  -- A free mutex is taken at once; at a locked one the caller becomes the newest waiter and is
  -- blocked after the switch, and the mutex stays locked.
  pub mutex_lock_lem :
      (m : Mutex) (xs : List ℕ)
      → IsWaiting k m.waiters xs
      → Avoids k.current xs
      → let (m', y) = mutex_lock n m k in
        (m'.locked ≡ true)
        × (m.locked ≡ false → (m'.waiters ≡ m.waiters) × (y ≡ (k, none)))
        × (m.locked ≡ true → (m'.waiters ≡ k.current) × IsWaiting y.0 k.current (k.current ∷ xs))
  unfolding mutex_lock scheduler_current
  mutex_lock_lem m xs w out =
      (ground arith, λ e. rw e (refl, refl), λ e. rw e (refl, yield-IsWaiting m.waiters xs w out))

  -- At a signaled event the caller goes on and nothing changes; else it becomes the newest waiter and
  -- is blocked after the switch.
  pub event_wait_lem :
      (e : Event) (xs : List ℕ)
      → IsWaiting k e.waiters xs
      → Avoids k.current xs
      → let (e', y) = event_wait n e k in
        (e.signaled ≡ true → (e' ≡ e) × (y ≡ (k, none)))
        × (e.signaled ≡ false
            → (e' ≡ record e { waiters = k.current }) × IsWaiting y.0 k.current (k.current ∷ xs))
  unfolding event_wait scheduler_current
  event_wait_lem e xs w out =
      (λ h. rw h (refl, refl), λ h. rw h (refl, yield-IsWaiting e.waiters xs w out))

  semaphore_wait_stays :
      (s : Semaphore)
      → s.count ≡ 0
      → ((p : ℕ)
          → has p (after ++ before) ≡ true
          → same_state ((awake (block_current s.waiters k) before after).task p).state task_ready
            ≡ false)
      → (semaphore_wait n s k).1 ≡ (awake (block_current s.waiters k) before after, none)
  unfolding semaphore_wait task_yield
  semaphore_wait_stays s z idle =
      let e : ltb 0 s.count ≡ false = ground arith in
      rw e (
        schedule_stays n (block_current s.waiters k) before after
          (block_current-IsRunList s.waiters k before after can.run_list)
          (rw (block_current_lem s.waiters k) can.none_dead) can.rounds idle)

  -- When the run list is whole, no task is due for destruction, and no other task is ready, nor a
  -- sleeper due, `semaphore_wait` at count 0 returns to its caller without a switch, although the
  -- count stays 0 and the caller is now the newest waiter and blocked; beyond that only the sleepers
  -- that are due change.
  pub semaphore_wait_idle :
      (s : Semaphore) (xs : List ℕ)
      → s.count ≡ 0
      → IsWaiting k s.waiters xs
      → Avoids k.current xs
      → ((p : ℕ)
          → has p (after ++ before) ≡ true
          → same_state ((awake (block_current s.waiters k) before after).task p).state task_ready
            ≡ false)
      → let (s', y) = semaphore_wait n s k in
        (s' ≡ record { count = 0; waiters = k.current })
        × (y ≡ (awake (block_current s.waiters k) before after, none))
        × (state_of y.0 k.current ≡ task_blocked)
        × IsWaiting y.0 k.current (k.current ∷ xs)
  semaphore_wait_idle s xs z w out idle =
      let (_, law) = semaphore_wait_lem s xs w out in
      let (count, waiters, waits) = law z in
      (
        λ i. record { count = count i; waiters = waiters i },
        semaphore_wait_stays s z idle,
        waits.blocked.0,
        waits,
      )

-- What releasing the waiter `x` does: it is ready, nobody else changes, and the others wait on.
pub record Released (k : Kernel) (x : ℕ) (xs : List ℕ) (head : ℕ) (k' : Kernel) : Type 0 where
  pub ready : state_of k' x ≡ task_ready
  pub others : (p : ℕ) → p ≢ x → k'.task p ≡ k.task p
  pub waiting : IsWaiting k' head xs

release-Released :
    (k : Kernel) (x : ℕ) (xs : List ℕ) {head : ℕ}
    → IsWaiting k head (x ∷ xs)
    → Released k x xs (k.task x).wait_next (release x k)
release-Released k x xs w = record {
  ready = rw (release_lem x k) (ground arith);
  others = λ p ne. rw (release_lem x k) (ground arith);
  waiting = release-IsWaiting k x xs w;
}

-- `mutex_unlock` frees a mutex that nobody waits for; else it stays locked and is handed to the
-- newest waiter, who becomes ready.
pub mutex_unlock_lem :
    (m : Mutex) (k : Kernel) (xs : List ℕ)
    → IsWaiting k m.waiters xs
    → let (m', k') = mutex_unlock m k in
      (xs ≡ [] → (m' ≡ record m { locked = false }) × (k' ≡ k))
      × ((x : ℕ) (ys : List ℕ)
          → xs ≡ x ∷ ys
          → (m'.locked ≡ m.locked) × Released k x ys m'.waiters k')
unfolding mutex_unlock
mutex_unlock_lem m k xs w = (
  λ e.
      let none_waits : (m.waiters == 0) ≡ true = ground (arith, (rw e at w).linked) in
      rw none_waits (refl, refl),
  λ x ys e.
      let w' : IsWaiting k m.waiters (x ∷ ys) = rw e at w in
      let one_waits : (m.waiters == 0) ≡ false = ground (arith, w'.linked) in
      rw (one_waits, w'.linked.0) (refl, release-Released k x ys w'),
)

-- `semaphore_signal` adds one to the count of a semaphore that nobody waits for; else the count
-- stays, and the newest waiter becomes ready.
pub semaphore_signal_lem :
    (s : Semaphore) (k : Kernel) (xs : List ℕ)
    → IsWaiting k s.waiters xs
    → let (s', k') = semaphore_signal s k in
      (xs ≡ [] → (s' ≡ record s { count = wrap64 (s.count + 1) }) × (k' ≡ k))
      × ((x : ℕ) (ys : List ℕ) → xs ≡ x ∷ ys → (s'.count ≡ s.count) × Released k x ys s'.waiters k')
unfolding semaphore_signal
semaphore_signal_lem s k xs w = (
  λ e.
      let none_waits : (s.waiters == 0) ≡ true = ground (arith, (rw e at w).linked) in
      rw none_waits (refl, refl),
  λ x ys e.
      let w' : IsWaiting k s.waiters (x ∷ ys) = rw e at w in
      let one_waits : (s.waiters == 0) ≡ false = ground (arith, w'.linked) in
      rw (one_waits, w'.linked.0) (refl, release-Released k x ys w'),
)

-- `event_set` signals the event, makes every waiter ready and leaves none, and changes no other
-- task; more rounds than there are waiters are enough.
pub event_set_lem :
    (n : ℕ) (e : Event) (k : Kernel) (xs : List ℕ)
    → IsWaiting k e.waiters xs
    → length xs < n
    → let (e', k') = event_set n e k in
      (e' ≡ record { signaled = true; waiters = 0 })
      × (k' ≡ record k { task = released xs k })
      × IsWaiting k' e'.waiters []
unfolding event_set
event_set_lem n e k xs w fuel = (
  refl,
  release_loop-released n k e.waiters xs w.linked w.distinct fuel,
  record { linked = refl; distinct = tt; blocked = tt },
)
