-- ===== src/Sync/Waiters.antt =====
-- The list of waiters of a kernel object: the newest waiter first, linked through `wait_next`, all
-- of them blocked.
use bethany.Prelude.{
  ℕ, zero, suc, ◌<◌, ◌≡◌, ◌≢◌, true, false, List, [], ◌∷◌, ◌++◌, arith, ◌==◌, if◌then◌else◌, refl,
  length, sym, ap, ◌∙◌,
}
use mathlib.Core.Path.{fun_ext, subst}
use bethany.Tasks.{task_ready, task_blocked, Task, Kernel, state_of, set_state, set_wait_next}
use bethany.Tasks.Links.{Linked, Avoids, Distinct, Linked-frame}
use bethany.Scheduler.{scheduler_current}
use bethany.Scheduler.RoundRobin.{IsRunList}
use bethany.Scheduler.Wake.{has}
use bethany.Scheduler.Laws.{KeepsWaiting}
use bethany.Sync.{block_current, release, release_loop}

abbrev pub wait_of : (ℕ → Task) → ℕ → ℕ
wait_of task p = (task p).wait_next

abbrev pub AllBlocked : Kernel → List ℕ → Type 0
AllBlocked k [] = Unit
AllBlocked k (x ∷ xs) = (state_of k x ≡ task_blocked) × AllBlocked k xs

pub record IsWaiting (k : Kernel) (head : ℕ) (xs : List ℕ) : Type 0 where
  pub linked : Linked (wait_of k.task) head xs 0
  pub distinct : Distinct xs
  pub blocked : AllBlocked k xs

AllBlocked-map :
    (k k' : Kernel) (xs : List ℕ)
    → ((p : ℕ) → has p xs ≡ true → state_of k p ≡ task_blocked → state_of k' p ≡ task_blocked)
    → AllBlocked k xs
    → AllBlocked k' xs
AllBlocked-map k k' [] h b = tt
AllBlocked-map k k' (x ∷ xs) h b =
    (h x (ground arith) b.0, AllBlocked-map k k' xs (λ p e. h p (ground arith)) b.1)

-- Waiters wait on through anything that keeps the links and unblocks nobody.
pub IsWaiting-keeps :
    {k k' : Kernel} (head : ℕ) (xs : List ℕ)
    → KeepsWaiting k k'
    → IsWaiting k head xs
    → IsWaiting k' head xs
IsWaiting-keeps {k} {k'} head xs keeps w = record {
  linked = subst (λ f. Linked f head xs 0) (fun_ext λ p. sym (keeps p).1) w.linked;
  distinct = w.distinct;
  blocked = AllBlocked-map k k' xs (λ p e. (keeps p).2) w.blocked;
}

-- The tasks after the current one is put before a list that begins at `head`.
abbrev pub with_waiter : ℕ → Kernel → ℕ → Task
with_waiter head k p =
    if k.current == p
    then record (k.task p) { state = task_blocked; wait_next = head }
    else k.task p

pub block_current_lem :
    (head : ℕ) (k : Kernel) → block_current head k ≡ record k { task = with_waiter head k }
unfolding block_current set_state set_wait_next scheduler_current
block_current_lem head k = ap (λ t. record k { task = t }) (fun_ext λ p. ground arith)

next-with_waiter : (head : ℕ) (k : Kernel) (p : ℕ) → (with_waiter head k p).next ≡ (k.task p).next
next-with_waiter head k p = ground arith

-- Blocking leaves the run list alone.
pub block_current-IsRunList :
    (head : ℕ) (k : Kernel) (before after : List ℕ)
    → IsRunList k before after
    → IsRunList (block_current head k) before after
block_current-IsRunList head k before after is = rw (block_current_lem head k) (record {
  linked =
      subst (λ f. Linked f k.first (before ++ k.current ∷ after) 0)
        (sym (fun_ext (next-with_waiter head k))) is.linked;
  not_before = is.not_before;
  not_after = is.not_after;
})

not_has : (a : ℕ) (xs : List ℕ) → Avoids a xs → has a xs ≡ false
not_has a [] out = refl
not_has a (x ∷ xs) out = ground (arith, not_has a xs out.1)

-- The blocked task is the new head of the list.
pub block_current-IsWaiting :
    (head : ℕ) (k : Kernel) (xs : List ℕ)
    → IsWaiting k head xs
    → k.current ≢ 0
    → Avoids k.current xs
    → IsWaiting (block_current head k) k.current (k.current ∷ xs)
block_current-IsWaiting head k xs w ne out = rw (block_current_lem head k) (record {
  linked = (
    refl,
    ne,
    rw to_head (
        Linked-frame (wait_of k.task) (wait_of (with_waiter head k)) head 0 k.current xs
          (λ b other. ground arith) out w.linked),
  );
  distinct = (out, w.distinct);
  blocked = (
    ground arith,
    AllBlocked-map k (record k { task = with_waiter head k }) xs (λ p e b. ground arith) w.blocked,
  );
})
  where
    to_head : wait_of (with_waiter head k) k.current ≡ head
    to_head = ground arith

-- The tasks after one of them is released.
abbrev pub without_waiter : ℕ → Kernel → ℕ → Task
without_waiter a k p =
    if a == p then record (k.task p) { state = task_ready; wait_next = 0 } else k.task p

pub release_lem : (a : ℕ) (k : Kernel) → release a k ≡ record k { task = without_waiter a k }
unfolding release set_state set_wait_next
release_lem a k = ap (λ t. record k { task = t }) (fun_ext λ p. ground arith)

without_waiter-Linked :
    (a : ℕ) (k : Kernel) (head : ℕ) (xs : List ℕ)
    → Avoids a xs
    → Linked (wait_of k.task) head xs 0
    → Linked (wait_of (without_waiter a k)) head xs 0
without_waiter-Linked a k head xs out l =
    Linked-frame (wait_of k.task) (wait_of (without_waiter a k)) head 0 a xs
      (λ b other. ground arith) out l

-- The others wait on when the first is released.
pub release-IsWaiting :
    (k : Kernel) (x : ℕ) (xs : List ℕ) {head : ℕ}
    → IsWaiting k head (x ∷ xs)
    → IsWaiting (release x k) (k.task x).wait_next xs
release-IsWaiting k x xs w = rw (release_lem x k) (record {
  linked = without_waiter-Linked x k (k.task x).wait_next xs w.distinct.0 w.linked.2;
  distinct = w.distinct.1;
  blocked =
      AllBlocked-map k (record k { task = without_waiter x k }) xs
        (λ p e b. ground (arith, not_has x xs w.distinct.0)) w.blocked.1;
})

-- The tasks after every one of a list is released.
abbrev pub released : List ℕ → Kernel → ℕ → Task
released xs k p =
    if has p xs then record (k.task p) { state = task_ready; wait_next = 0 } else k.task p

-- The loop releases all waiters of the list, and nobody else.
pub release_loop-released :
    (n : ℕ) (k : Kernel) (head : ℕ) (xs : List ℕ)
    → Linked (wait_of k.task) head xs 0
    → Distinct xs
    → length xs < n
    → release_loop n head k ≡ record k { task = released xs k }
unfolding release_loop
release_loop-released zero k head xs l d fuel = absurd (omega arith)
release_loop-released (suc n) k head [] l d fuel = rw l refl
release_loop-released (suc n) k head (x ∷ xs) l d fuel =
    rw (l.0, some_task, follows, step)
      (release_loop-released n (record k { task = without_waiter x k }) (k.task x).wait_next xs
          (without_waiter-Linked x k (k.task x).wait_next xs d.0 l.2) d.1 (omega arith)
        ∙ ap (λ t. record k { task = t }) (fun_ext λ p. ground arith))
  where
    some_task : (x == 0) ≡ false
    some_task = ground arith

    follows : ((set_state x task_ready k).task x).wait_next ≡ (k.task x).wait_next
    follows = unfold set_state in ground arith

    step : set_wait_next x 0 (set_state x task_ready k) ≡ record k { task = without_waiter x k }
    step =
        unfold set_state set_wait_next in
        ap (λ t. record k { task = t }) (fun_ext λ p. ground arith)
