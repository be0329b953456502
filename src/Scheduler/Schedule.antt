-- ===== src/Scheduler/Schedule.antt =====
-- `scheduler_schedule` of kernel/src/scheduler/scheduler.c as a whole, between two destructions.
use bethany.Prelude.{
  ℕ, ◌+◌, ◌<◌, ◌≡◌, ◌≢◌, ◌⊎◌, true, false, ◌&&◌, List, [], ◌∷◌, ◌++◌, none, some, arith, ◌==◌,
  if◌then◌else◌, refl, length, length-append, sym, ap, inl, inr, Bool-cases, ◌∙◌,
}
use mathlib.Core.Path.{fun_ext, subst}
use bethany.Tasks.{
  TaskState, task_ready, task_running, task_dead, task_blocked, same_state, Task, Kernel, state_of,
  set_state,
}
use bethany.Tasks.Links.{Linked}
use bethany.Scheduler.{
  scheduler_update, scheduler_next, reap, preempt, bury, hand_over, scheduler_schedule,
}
use bethany.Scheduler.RoundRobin.{IsRunList, first_ready, scheduler_next-first_ready}
use bethany.Scheduler.Wake.{has, woken, next-woken, scheduler_update-woken}

abbrev run_list : Kernel → List ℕ → List ℕ → List ℕ
run_list k before after = before ++ k.current ∷ after

-- The tasks after the sleepers are woken, and the one that is chosen among them.
abbrev pub awake : Kernel → List ℕ → List ℕ → Kernel
awake k before after = record k { task = woken (before ++ k.current ∷ after) k }

abbrev pub chosen : Kernel → List ℕ → List ℕ → ℕ
chosen k before after = first_ready (awake k before after).task (after ++ before) k.current

awake-IsRunList :
    (k : Kernel) (before after : List ℕ)
    → IsRunList k before after
    → IsRunList (awake k before after) before after
awake-IsRunList k before after is = record {
  linked =
      subst (λ f. Linked f k.first (before ++ k.current ∷ after) 0)
        (sym (fun_ext (next-woken (before ++ k.current ∷ after) k))) is.linked;
  not_before = is.not_before;
  not_after = is.not_after;
}

module _ (n : ℕ) (k : Kernel) (before after : List ℕ) where
  pub schedule_lem :
      IsRunList k before after
      → k.task_to_destroy ≡ 0
      → length before + length after + 1 < n
      → scheduler_schedule n k ≡ (
          if k.current == chosen k before after
          then (record (awake k before after) { current = chosen k before after }, none)
          else (
            hand_over k.current (record (awake k before after) { current = chosen k before after }),
            some (k.current, chosen k before after),
          ))
  unfolding scheduler_schedule
  schedule_lem is none_dead fuel = rw (nothing, updated, next) refl
    where
      nothing : reap n k ≡ k
      nothing = unfold reap in ground arith

      updated : scheduler_update n k ≡ awake k before after
      updated =
          scheduler_update-woken n k (before ++ k.current ∷ after) is.linked
            (omega (arith, length-append before (k.current ∷ after)))

      next :
          scheduler_next n (awake k before after)
          ≡ record (awake k before after) { current = chosen k before after }
      next =
          scheduler_next-first_ready n (awake k before after) before after
            (awake-IsRunList k before after is) (omega arith)

-- What is chosen is ready, or the current task for want of another.
first_ready-cases :
    (task : ℕ → Task) (xs : List ℕ) (other : ℕ)
    → (first_ready task xs other ≡ other) ⊎ ((task (first_ready task xs other)).state ≡ task_ready)
first_ready-cases task [] other = inl refl
first_ready-cases task (x ∷ xs) other = elim (Bool-cases (same_state (task x).state task_ready)) [
  | inl r ↦ rw r (inr (ready_of _ r))
  | inr nr ↦ rw nr (first_ready-cases task xs other)
]
  where
    ready_of : (s : TaskState) → same_state s task_ready ≡ true → s ≡ task_ready
    ready_of s e = ground arith

no_ready :
    (task : ℕ → Task) (xs : List ℕ) (other : ℕ)
    → ((p : ℕ) → has p xs ≡ true → same_state (task p).state task_ready ≡ false)
    → first_ready task xs other ≡ other
no_ready task [] other h = refl
no_ready task (x ∷ xs) other h =
    ground (arith, h x, no_ready task xs other (λ p e. h p (ground arith)))

-- When the search of the run list comes back to the current task, there is no switch.
pub schedule_keeps :
    (n : ℕ) (k : Kernel) (before after : List ℕ)
    → IsRunList k before after
    → k.task_to_destroy ≡ 0
    → length before + length after + 1 < n
    → chosen k before after ≡ k.current
    → scheduler_schedule n k ≡ (awake k before after, none)
schedule_keeps n k before after is none_dead fuel same =
    schedule_lem n k before after is none_dead fuel ∙ rw same (ground arith)

-- When no other task of the run list is ready, nor a sleeper due, `scheduler_schedule` returns to its
-- caller without a switch, whatever the state of the current task is: a task that has just been
-- blocked, put to sleep or declared dead goes on running.
pub schedule_stays :
    (n : ℕ) (k : Kernel) (before after : List ℕ)
    → IsRunList k before after
    → k.task_to_destroy ≡ 0
    → length before + length after + 1 < n
    → ((p : ℕ)
        → has p (after ++ before) ≡ true
        → same_state ((awake k before after).task p).state task_ready ≡ false)
    → scheduler_schedule n k ≡ (awake k before after, none)
schedule_stays n k before after is none_dead fuel idle =
    schedule_keeps n k before after is none_dead fuel same
  where
    same : chosen k before after ≡ k.current
    same = no_ready (awake k before after).task (after ++ before) k.current idle

module _ (old : ℕ) (k : Kernel) where
  preempt_lem : preempt old k ≡ record k {
    task = λ p.
        if old == p && same_state (state_of k old) task_running
        then record (k.task p) { state = task_ready }
        else k.task p;
  }
  unfolding preempt set_state
  preempt_lem = elim (Bool-cases (same_state (state_of k old) task_running)) [
    | inl e ↦ rw e (ap (λ t. record k { task = t }) (fun_ext λ p. ground arith))
    | inr e ↦ rw e (ap (λ t. record k { task = t }) (fun_ext λ p. ground arith))
  ]

  bury_lem : bury old k ≡ record k {
    task_to_destroy =
        if same_state (state_of k old) task_dead && k.task_to_destroy == 0
        then old
        else k.task_to_destroy;
  }
  unfolding bury
  bury_lem = elim (Bool-cases (same_state (state_of k old) task_dead && k.task_to_destroy == 0)) [
    | inl e ↦ rw e refl
    | inr e ↦ rw e refl
  ]

pub current-hand_over : (old : ℕ) (k : Kernel) → (hand_over old k).current ≡ k.current
unfolding hand_over set_state
current-hand_over old k = rw (preempt_lem old k, bury_lem) refl

pub first-hand_over : (old : ℕ) (k : Kernel) → (hand_over old k).first ≡ k.first
unfolding hand_over set_state
first-hand_over old k = rw (preempt_lem old k, bury_lem) refl

-- What a switch from `old` leaves behind, seen from the tasks `t` before it.
pub record Switched (t : ℕ → Task) (old : ℕ) (k : Kernel) : Type 0 where
  pub was_ready : (t k.current).state ≡ task_ready
  pub runs : state_of k k.current ≡ task_running
  pub preempted : (t old).state ≡ task_running → state_of k old ≡ task_ready
  pub kept : (t old).state ≢ task_running → state_of k old ≡ (t old).state
  pub linked :
      (p : ℕ)
      → ((k.task p).next ≡ (t p).next)
        × ((k.task p).wait_next ≡ (t p).wait_next)
        × ((t p).state ≡ task_blocked → state_of k p ≡ task_blocked)
  pub others : (p : ℕ) → p ≢ old → p ≢ k.current → k.task p ≡ t p
  pub buried : (t old).state ≡ task_dead → k.task_to_destroy ≡ old
  pub spared : (t old).state ≢ task_dead → k.task_to_destroy ≡ 0

hand_over-Switched :
    (old : ℕ) (k : Kernel)
    → old ≢ k.current
    → state_of k k.current ≡ task_ready
    → k.task_to_destroy ≡ 0
    → Switched k.task old (hand_over old k)
unfolding hand_over set_state
hand_over-Switched old k ne ready none_dead =
    rw (preempt_lem old k, bury_lem)
      (record {
        was_ready = ready;
        runs = ground arith;
        preempted = λ e. ground arith;
        kept = λ e. ground arith;
        linked = λ p. (ground arith, ground arith, λ e. ground arith);
        others = λ p a b. ground arith;
        buried = λ e. ground arith;
        spared = λ e. ground arith;
      })

-- When the search of the run list finds another task, `scheduler_schedule` switches to it: it was
-- ready and now runs, the old one is ready if it was running and keeps its state otherwise, a dead
-- one is noted for its destruction, and no other task changes beyond the sleepers that were woken.
pub schedule_switches :
    (n : ℕ) (k : Kernel) (before after : List ℕ)
    → IsRunList k before after
    → k.task_to_destroy ≡ 0
    → length before + length after + 1 < n
    → chosen k before after ≢ k.current
    → let (k', switch) = scheduler_schedule n k in
      (switch ≡ some (k.current, chosen k before after))
      × (k'.current ≡ chosen k before after)
      × Switched (awake k before after).task k.current k'
schedule_switches n k before after is none_dead fuel ne =
    let c = chosen k before after in
    let moved = record (awake k before after) { current = c } in
    let e : scheduler_schedule n k ≡ (hand_over k.current moved, some (k.current, c)) =
      schedule_lem n k before after is none_dead fuel ∙ rw other refl in
    rw e (
      refl,
      current-hand_over k.current moved,
      hand_over-Switched k.current moved (λ h. ne (sym h)) is_ready none_dead,
    )
  where
    other : (k.current == chosen k before after) ≡ false
    other = ground arith

    is_ready : state_of (awake k before after) (chosen k before after) ≡ task_ready
    is_ready = elim (first_ready-cases (awake k before after).task (after ++ before) k.current) [
      | inl same ↦ absurd (ne same)
      | inr r ↦ r
    ]
