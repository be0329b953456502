-- ===== src/Scheduler/Reap.antt =====
-- `scheduler_schedule` of kernel/src/scheduler/scheduler.c with the destruction of a task that died
-- before.
use bethany.Prelude.{
  ℕ, ◌+◌, ◌<◌, ◌≡◌, ◌≢◌, refl, true, false, List, ◌∷◌, ◌++◌, some, none, arith, ◌==◌, length, sym,
  ap, ◌∙◌,
}
use mathlib.Core.Path.{subst}
use bethany.Tasks.{Task, Kernel, set_next}
use bethany.Tasks.Ends.{Distinct-append}
use bethany.Scheduler.{task_destroy, scheduler_remove, reap, scheduler_schedule}
use bethany.Scheduler.RoundRobin.{IsRunList}
use bethany.Scheduler.RunList.{HasTasks, Removed, scheduler_remove_lem}
use bethany.Scheduler.Schedule.{awake, chosen, Switched, schedule_keeps, schedule_switches}
use bethany.Scheduler.Laws.{OnlyCurrentRuns, schedule-OnlyCurrentRuns}

-- The run list that the next choice is made from has the tasks `before`, the current task and `after`:
-- it is the list as it stands if no task is to be destroyed, or the list without that task.
pub data Settles (n : ℕ) (k : Kernel) (before after : List ℕ) : Type 0 where
  none_dead : k.task_to_destroy ≡ 0 → IsRunList k before after → Settles n k before after
  one_dead :
      (xs ys : List ℕ)
      → k.task_to_destroy ≢ 0
      → k.task_to_destroy ≢ k.current
      → HasTasks k (xs ++ (k.task_to_destroy ∷ ys))
      → xs ++ ys ≡ before ++ (k.current ∷ after)
      → length xs < n
      → Settles n k before after

-- In `k'` the task that was to be destroyed is off the list; the tasks keep all but their places in the
-- list, the current task is the same, and so are the ticks.
pub record Reaped (k : Kernel) (before after : List ℕ) (k' : Kernel) : Type 0 where
  pub run_list : IsRunList k' before after
  pub none_left : k'.task_to_destroy ≡ 0
  pub current : k'.current ≡ k.current
  pub tasks : (p : ℕ) → k'.task p ≡ record (k.task p) { next = (k'.task p).next }
  pub ticks : k'.ticks ≡ k.ticks
  pub untouched : k.task_to_destroy ≡ 0 → k' ≡ k

remove-tasks :
    (n a : ℕ) (k : Kernel) (p : ℕ)
    → (scheduler_remove n a k).task p
      ≡ record (k.task p) { next = ((scheduler_remove n a k).task p).next }
unfolding scheduler_remove task_destroy set_next
remove-tasks n a k p = ground arith

remove-ticks : (n a : ℕ) (k : Kernel) → (scheduler_remove n a k).ticks ≡ k.ticks
unfolding scheduler_remove task_destroy set_next
remove-ticks n a k = ground arith

reap-Reaped :
    (n : ℕ) (k : Kernel) (before after : List ℕ)
    → Settles n k before after
    → Reaped k before after (reap n k)
unfolding reap
reap-Reaped n k before after (none_dead z is) =
    let nothing : (k.task_to_destroy == 0) ≡ true = ground arith in
    rw nothing (record {
      run_list = is;
      none_left = z;
      current = refl;
      tasks = λ p. refl;
      ticks = refl;
      untouched = λ e. refl;
    })
reap-Reaped n k before after (one_dead xs ys nz ne has e fuel) =
    let d = k.task_to_destroy in
    let something : (d == 0) ≡ false = ground arith in
    let other : (k.current == d) ≡ false = ground arith in
    let k1 = scheduler_remove n d k in
    let off : Removed k d xs ys k1 = scheduler_remove_lem n k d xs ys has fuel in
    let stays : k1.current ≡ k.current = off.current ∙ rw other refl in
    let rest : HasTasks k1 (before ++ (k.current ∷ after)) = subst (HasTasks k1) e off.rest in
    let apart = Distinct-append k.current before after rest.distinct in
    rw something (record {
      run_list = record {
        linked = rw stays rest.linked;
        not_before = rw stays apart.0;
        not_after = rw stays apart.1;
      };
      none_left = refl;
      current = stays;
      tasks = remove-tasks n d k;
      ticks = remove-ticks n d k;
      untouched = λ z. absurd (nz z);
    })

-- Reaping comes first, and reaping again does nothing.
schedule-reap :
    (n : ℕ) (k : Kernel)
    → (reap n k).task_to_destroy ≡ 0
    → scheduler_schedule n k ≡ scheduler_schedule n (reap n k)
unfolding scheduler_schedule
schedule-reap n k z =
    let again : reap n (reap n k) ≡ reap n k = reap_nothing n (reap n k) z in rw again refl
  where
    reap_nothing : (n : ℕ) (k : Kernel) → k.task_to_destroy ≡ 0 → reap n k ≡ k
    reap_nothing n k z = unfold reap in ground arith

module _ (n : ℕ) (k : Kernel) (before after : List ℕ) (settles : Settles n k before after)
    (rounds : length before + length after + 1 < n) where
  abbrev reaped : Kernel
  reaped = reap n k

  -- `scheduler_schedule` first takes the task that is to be destroyed off the run list, if there is
  -- one, which changes nothing of any task but its link. When the search of what is left of the list
  -- then finds no other task than the current one, it returns without a switch, and nothing changes
  -- beyond the sleepers that were woken. When it finds another one, `scheduler_schedule` switches to it:
  -- it was ready and now runs, the old one is ready if it was running and keeps its state otherwise, a
  -- dead one is noted for its destruction, and no other task changes beyond the sleepers that were
  -- woken. The task to be destroyed must not be the current one, the list must be whole, and the rounds
  -- must exceed its length.
  pub scheduler_schedule_lem :
      let (k', switch) = scheduler_schedule n k in
      Reaped k before after (reap n k)
      × (chosen (reap n k) before after ≡ k.current
          → scheduler_schedule n k ≡ (awake (reap n k) before after, none))
      × (chosen (reap n k) before after ≢ k.current
          → (switch ≡ some (k.current, chosen (reap n k) before after))
            × (k'.current ≡ chosen (reap n k) before after)
            × Switched (awake (reap n k) before after).task k.current k')
  scheduler_schedule_lem =
      let r = reap-Reaped n k before after settles in
      (
        r,
        λ same.
            schedule-reap n k r.none_left
            ∙ schedule_keeps n reaped before after r.run_list r.none_left rounds
                (same ∙ sym r.current),
        λ ne. rw (schedule-reap n k r.none_left) (
            subst
              (λ c.
                let (k', switch) = scheduler_schedule n reaped in
                (switch ≡ some (c, chosen reaped before after))
                × (k'.current ≡ chosen reaped before after)
                × Switched (awake reaped before after).task c k')
              r.current
              (schedule_switches n reaped before after r.run_list r.none_left rounds
                (λ e. ne (e ∙ r.current)))),
      )

  -- If no task but the current one is running, this is so after `scheduler_schedule`, whether it first
  -- takes a dead task off the run list or not, and whether it switches or not. The task to be destroyed
  -- must not be the current one, the list must be whole, and the rounds must exceed its length.
  pub scheduler_schedule-OnlyCurrentRuns :
      OnlyCurrentRuns k → OnlyCurrentRuns (scheduler_schedule n k).0
  scheduler_schedule-OnlyCurrentRuns only =
      let r = reap-Reaped n k before after settles in
      let only_reaped : OnlyCurrentRuns reaped =
        λ p e. only p (sym (ap (λ (t : Task). t.state) (r.tasks p)) ∙ e) ∙ sym r.current in
      rw (schedule-reap n k r.none_left)
        (schedule-OnlyCurrentRuns n reaped before after r.run_list r.none_left rounds only_reaped)
