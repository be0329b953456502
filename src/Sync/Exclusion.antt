-- ===== src/Sync/Exclusion.antt =====
-- Mutual exclusion: sequences of calls of kernel/src/sync/mutex.c by the tasks that run.
use bethany.Prelude.{
  ℕ, if◌then◌else◌, ◌≡◌, ◌≢◌, inl, inr, refl, Bool, true, false, ◌||◌, List, [], ◌∷◌, arith, ◌==◌,
  update, Bool-cases, ◌∙◌, ap, sym,
}
use bethany.Tasks.{task_blocked, Kernel, state_of}
use bethany.Tasks.Links.{Avoids}
use bethany.Scheduler.Wake.{has}
use bethany.Sync.{Mutex, mutex_init, mutex_lock, mutex_try_lock, mutex_unlock}
use bethany.Sync.Waiters.{AllBlocked, IsWaiting}
use bethany.Sync.Objects.{CanYield, mutex_lock_lem, mutex_unlock_lem}

-- What is reached from a new mutex. `asked` marks the tasks that called `mutex_lock`, or `mutex_try_lock`
-- with success, and not `mutex_unlock` since. Only a task that is current and not blocked makes a call:
-- one that is marked calls `mutex_unlock`, and one that is not calls one of the others. In between,
-- anything may happen to the tasks and the other kernel objects that leaves the list of this mutex's
-- waiters as it is, with its tasks blocked.
pub data Reached (n : ℕ) : Mutex → Kernel → (ℕ → Bool) → Type 0 where
  start : (k : Kernel) → Reached n mutex_init k (λ p. false)
  lock :
      {m : Mutex} {k : Kernel} {asked : ℕ → Bool} (before after : List ℕ)
      → Reached n m k asked
      → CanYield n k before after
      → asked k.current ≡ false
      → state_of k k.current ≢ task_blocked
      → Reached n (mutex_lock n m k).0 (mutex_lock n m k).1.0 (update asked k.current true)
  try_lock :
      {m : Mutex} {k : Kernel} {asked : ℕ → Bool}
      → Reached n m k asked
      → asked k.current ≡ false
      → state_of k k.current ≢ task_blocked
      → Reached n
          (mutex_try_lock m).0
          k
          (if (mutex_try_lock m).1 then update asked k.current true else asked)
  unlock :
      {m : Mutex} {k : Kernel} {asked : ℕ → Bool}
      → Reached n m k asked
      → asked k.current ≡ true
      → state_of k k.current ≢ task_blocked
      → Reached n (mutex_unlock m k).0 (mutex_unlock m k).1 (update asked k.current false)
  pass :
      {m : Mutex} {k : Kernel} {asked : ℕ → Bool} (k' : Kernel)
      → Reached n m k asked
      → ((xs : List ℕ) → IsWaiting k m.waiters xs → IsWaiting k' m.waiters xs)
      → Reached n m k' asked

-- Nobody has the mutex and nobody asked; or one task has it, and all others that asked wait for it.
data Held (m : Mutex) (k : Kernel) (asked : ℕ → Bool) : Type 0 where
  free : m.locked ≡ false → IsWaiting k m.waiters [] → ((p : ℕ) → asked p ≡ false) → Held m k asked
  held :
      (o : ℕ) (xs : List ℕ)
      → m.locked ≡ true
      → IsWaiting k m.waiters xs
      → Avoids o xs
      → ((p : ℕ) → asked p ≡ ((o == p) || has p xs))
      → Held m k asked

has-Avoids : (p : ℕ) (xs : List ℕ) → has p xs ≡ false → Avoids p xs
has-Avoids p [] e = tt
has-Avoids p (x ∷ xs) e = (ground arith, has-Avoids p xs (ground arith))

Avoids-has : (p : ℕ) (xs : List ℕ) → Avoids p xs → has p xs ≡ false
Avoids-has p [] out = refl
Avoids-has p (x ∷ xs) out = ground (arith, Avoids-has p xs out.1)

has-blocked :
    (k : Kernel) (p : ℕ) (xs : List ℕ)
    → AllBlocked k xs
    → has p xs ≡ true
    → state_of k p ≡ task_blocked
has-blocked k p [] b e = absurd (ground arith)
has-blocked k p (x ∷ xs) b e = elim (Bool-cases (x == p)) [
  | inl same ↦ let at : x ≡ p = ground arith in ap (state_of k) (sym at) ∙ b.0
  | inr other ↦ has-blocked k p xs b.1 (ground arith)
]

lock-Held :
    (n : ℕ) (m : Mutex) (k : Kernel) (asked : ℕ → Bool) (before after : List ℕ)
    → Held m k asked
    → CanYield n k before after
    → asked k.current ≡ false
    → Held (mutex_lock n m k).0 (mutex_lock n m k).1.0 (update asked k.current true)
lock-Held n m k asked before after (free l w none_asked) can new =
    let law = mutex_lock_lem n k before after can m [] w tt in
    let (same, stays) = law.1 l in
    held k.current [] law.0 (rw (same, stays) w) tt (λ p. ground (arith, none_asked p))
lock-Held n m k asked before after (held o xs l w out marks) can new =
    let mark = marks k.current in
    let out' : Avoids k.current xs = has-Avoids k.current xs (ground (arith, mark)) in
    let law = mutex_lock_lem n k before after can m xs w out' in
    let (now, waits) = law.2 l in
    held o (k.current ∷ xs) law.0 (rw now waits) (ground (arith, mark), out)
      (λ p. ground (arith, marks p))

try_lock-Held :
    (m : Mutex) (k : Kernel) (asked : ℕ → Bool)
    → Held m k asked
    → let (m', success) = mutex_try_lock m in
      Held m' k (if success then update asked k.current true else asked)
unfolding mutex_try_lock
try_lock-Held m k asked (free l w none_asked) =
    rw l (held k.current [] refl w tt (λ p. ground (arith, none_asked p)))
try_lock-Held m k asked (held o xs l w out marks) = rw l (held o xs refl w out marks)

unlock-Held :
    (m : Mutex) (k : Kernel) (asked : ℕ → Bool)
    → Held m k asked
    → asked k.current ≡ true
    → state_of k k.current ≢ task_blocked
    → Held (mutex_unlock m k).0 (mutex_unlock m k).1 (update asked k.current false)
unlock-Held m k asked (free l w none_asked) old runs = absurd (ground (arith, none_asked k.current))
unlock-Held m k asked (held o [] l w out marks) old runs =
    let (opened, stays) = (mutex_unlock_lem m k [] w).0 refl in
    let mine : o ≡ k.current = ground (arith, marks k.current) in
    rw (opened, stays) (free refl w (λ p. ground (arith, marks p, mine)))
unlock-Held m k asked (held o (x ∷ xs) l w out marks) old runs =
    let (closed, given) = (mutex_unlock_lem m k (x ∷ xs) w).1 x xs refl in
    let mine : o ≡ k.current =
      ground (arith, marks k.current, has-blocked k k.current (x ∷ xs) w.blocked) in
    let absent = Avoids-has o (x ∷ xs) out in
    held x xs (closed ∙ l) given.waiting w.distinct.0 (λ p. elim (Bool-cases (o == p)) [
      | inl same ↦
          let at : o ≡ p = ground arith in ground (arith, mine, ap (λ a. has a (x ∷ xs)) at, absent)
      | inr other ↦ ground (arith, marks p, mine)
    ])

Reached-Held :
    {n : ℕ} {m : Mutex} {k : Kernel} {asked : ℕ → Bool} → Reached n m k asked → Held m k asked
unfolding mutex_init
Reached-Held {n} (start k) =
    free refl (record { linked = refl; distinct = tt; blocked = tt }) (λ p. refl)
Reached-Held {n} (lock {m} {k} {asked} before after r can new runs) =
    lock-Held n m k asked before after (Reached-Held r) can new
Reached-Held {n} (try_lock {m} {k} {asked} r new runs) = try_lock-Held m k asked (Reached-Held r)
Reached-Held {n} (unlock {m} {k} {asked} r old runs) =
    unlock-Held m k asked (Reached-Held r) old runs
Reached-Held {n} (pass {m} {k} {asked} k' r keeps) = elim (Reached-Held r) [
  | free l w none_asked ↦ free l (keeps [] w) none_asked
  | held o xs l w out marks ↦ held o xs l (keeps xs w) out marks
]

Held-unique :
    (m : Mutex) (k : Kernel) (asked : ℕ → Bool) (p q : ℕ)
    → Held m k asked
    → asked p ≡ true
    → state_of k p ≢ task_blocked
    → asked q ≡ true
    → state_of k q ≢ task_blocked
    → (p ≡ q) × (m.locked ≡ true)
Held-unique m k asked p q (free l w none_asked) marked_p runs_p marked_q runs_q =
    absurd (ground (arith, none_asked p))
Held-unique m k asked p q (held o xs l w out marks) marked_p runs_p marked_q runs_q =
    let left = marks p in
    let right = marks q in
    let left_waits = has-blocked k p xs w.blocked in
    let right_waits = has-blocked k q xs w.blocked in (ground arith, l)

-- Whatever calls of `mutex_lock`, `mutex_try_lock` and `mutex_unlock` the tasks made since a mutex was
-- new, in whatever order they were let run, if each unlocks only what it has locked and the waiters on
-- this mutex's list are left there, blocked, by everything else: two tasks that asked for the mutex, did
-- not give it back and are not blocked are one task, and the mutex is locked. A task that `mutex_lock`
-- had to block and that runs on all the same, since `task_yield` found no other, is blocked here. Each
-- `mutex_lock` is called with a whole run list, no task due for destruction and rounds enough.
pub mutual_exclusion :
    (n : ℕ) (m : Mutex) (k : Kernel) (asked : ℕ → Bool) (p q : ℕ)
    → Reached n m k asked
    → asked p ≡ true
    → state_of k p ≢ task_blocked
    → asked q ≡ true
    → state_of k q ≢ task_blocked
    → (p ≡ q) × (m.locked ≡ true)
mutual_exclusion n m k asked p q r = Held-unique m k asked p q (Reached-Held r)
