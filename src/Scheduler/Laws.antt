-- ===== src/Scheduler/Laws.antt =====
-- What `scheduler_schedule` of kernel/src/scheduler/scheduler.c keeps, on both of its ways.
use bethany.Prelude.{
  ℕ, ◌+◌, ◌<◌, ◌≡◌, ◌≢◌, ◌⊎◌, inl, inr, List, none, arith, refl, length, sym, ap, ◌∙◌,
}
use native.Mathlib.Decide.{ℕ_discrete}
use bethany.Tasks.{TaskState, task_running, task_blocked, Task, Kernel, state_of}
use bethany.Scheduler.{scheduler_schedule}
use bethany.Scheduler.RoundRobin.{IsRunList}
use bethany.Scheduler.Schedule.{awake, chosen, schedule_lem, Switched, schedule_switches}

-- No task but the current one is in the state of a running task.
abbrev pub OnlyCurrentRuns : Kernel → Type 0
OnlyCurrentRuns k = (p : ℕ) → state_of k p ≡ task_running → p ≡ k.current

-- The links of the tasks are as before, and blocked tasks stay blocked.
abbrev pub KeepsWaiting : Kernel → Kernel → Type 0
KeepsWaiting k k' =
    (p : ℕ)
    → ((k'.task p).next ≡ (k.task p).next)
      × ((k'.task p).wait_next ≡ (k.task p).wait_next)
      × (state_of k p ≡ task_blocked → state_of k' p ≡ task_blocked)

running_or_not : (s : TaskState) → (s ≡ task_running) ⊎ (s ≢ task_running)
running_or_not task_running = inl refl
running_or_not _ = inr (λ e. cc)

module _ (n : ℕ) (k : Kernel) (before after : List ℕ) (is : IsRunList k before after)
    (none_dead : k.task_to_destroy ≡ 0) (fuel : length before + length after + 1 < n) where
  stays : chosen k before after ≡ k.current → scheduler_schedule n k ≡ (awake k before after, none)
  stays e = schedule_lem n k before after is none_dead fuel ∙ rw e (ground arith)

  awake-KeepsWaiting : KeepsWaiting k (awake k before after)
  awake-KeepsWaiting p = (ground arith, ground arith, λ e. ground arith)

  -- Rescheduling keeps all links, and unblocks nobody.
  pub schedule-KeepsWaiting : KeepsWaiting k (scheduler_schedule n k).0
  schedule-KeepsWaiting p = elim (ℕ_discrete (chosen k before after) k.current) [
    | yes e ↦ rw (stays e) (awake-KeepsWaiting p)
    | no ne ↦
        let sw = (schedule_switches n k before after is none_dead fuel ne).2.linked p in
        let aw = awake-KeepsWaiting p in (sw.0 ∙ aw.0, sw.1 ∙ aw.1, λ e. sw.2 (aw.2 e))
  ]

  -- If no task but the current one is running, this is so after `scheduler_schedule`, whether it
  -- switches or not.
  pub schedule-OnlyCurrentRuns : OnlyCurrentRuns k → OnlyCurrentRuns (scheduler_schedule n k).0
  schedule-OnlyCurrentRuns only = elim (ℕ_discrete (chosen k before after) k.current) [
    | yes e ↦ rw (stays e) awake_only
    | no ne ↦ after_switch (schedule_switches n k before after is none_dead fuel ne).2
  ]
    where
      awake_only : OnlyCurrentRuns (awake k before after)
      awake_only p e = only p (ground arith)

      after_switch :
          Switched (awake k before after).task k.current (scheduler_schedule n k).0
          → OnlyCurrentRuns (scheduler_schedule n k).0
      after_switch sw p running = elim (ℕ_discrete p (scheduler_schedule n k).0.current) [
        | yes e ↦ e
        | no other ↦ elim (ℕ_discrete p k.current) [
          | yes e ↦
              let old_runs : state_of (scheduler_schedule n k).0 k.current ≡ task_running =
                rw e at running in
              absurd (elim (running_or_not ((awake k before after).task k.current).state) [
                | inl was ↦ cc (sw.preempted was)
                | inr was_not ↦ was_not (sym (sw.kept was_not) ∙ old_runs)
              ])
          | no ne ↦ absurd (
              ne (awake_only p (ap (λ (t : Task). t.state) (sym (sw.others p ne other)) ∙ running)))
        ]
      ]
