-- ===== src/Scheduler/Fairness.antt =====
-- How long a ready task waits for the processor under kernel/src/scheduler/scheduler.c.
use bethany.Prelude.{
  ℕ, suc, ◌+◌, ◌<◌, ◌≤◌, ◌≡◌, ◌≢◌, inl, inr, refl, true, ◌||◌, List, [], ◌∷◌, ◌++◌, arith, ◌==◌,
  length, length-append, sym, ap, ◌∙◌, Bool-cases,
}
use mathlib.Core.Path.{subst, fun_ext}
use native.Mathlib.Decide.{ℕ_discrete}
use bethany.Tasks.{task_ready, Task, Kernel, state_of}
use bethany.Tasks.Links.{Linked, Distinct}
use bethany.Tasks.Ends.{Avoids-append, Distinct-append}
use bethany.Scheduler.{scheduler_schedule}
use bethany.Scheduler.RoundRobin.{IsRunList, next_of}
use bethany.Scheduler.Ahead.{
  Ahead, later, earlier, Nearer, append_assoc, later-Nearer, earlier-Nearer,
}
use bethany.Scheduler.Wake.{has}
use bethany.Scheduler.Schedule.{
  awake, chosen, schedule_lem, schedule_switches, first-hand_over, current-hand_over,
}
use bethany.Scheduler.Laws.{schedule-KeepsWaiting}

-- The task `p` is ready, in a run list that the rounds suffice for, and no task is to be destroyed.
pub record Waits (n : ℕ) (run : List ℕ) (p : ℕ) (k : Kernel) : Type 0 where
  pub ready : state_of k p ≡ task_ready
  pub none_dead : k.task_to_destroy ≡ 0
  pub linked : Linked (next_of k.task) k.first run 0
  pub distinct : Distinct run
  pub rounds : length run < n

-- The run list as the scheduler sees it, and where its search ends.
abbrev Seen : ℕ → List ℕ → ℕ → ℕ → Kernel → Type 0
Seen n run p d k =
    (before : List ℕ) × (after : List ℕ) × (run ≡ before ++ (k.current ∷ after))
    × (p ≢ k.current)
    × Nearer run p d (chosen k before after)

Ahead-Seen :
    (n : ℕ) (run : List ℕ) (p d : ℕ) (k : Kernel)
    → Waits n run p k
    → Ahead run p k.current d
    → Seen n run p d k
Ahead-Seen n run p d k w (later before xs ys e) =
    let d' : Distinct (before ++ (k.current ∷ (xs ++ (p ∷ ys)))) = subst Distinct e w.distinct in
    (
      before,
      xs ++ (p ∷ ys),
      e,
      (Avoids-append k.current p xs ys (Distinct-append k.current before (xs ++ (p ∷ ys)) d').1).0,
      later-Nearer (awake k before (xs ++ (p ∷ ys))).task run p k.current (ground (arith, w.ready))
          before xs ys e,
    )
Ahead-Seen n run p d k w (earlier xs ys after e) =
    let d' : Distinct (xs ++ (p ∷ (ys ++ (k.current ∷ after)))) = subst Distinct e w.distinct in
    let other =
      (Avoids-append p k.current ys after
        (Distinct-append p xs (ys ++ (k.current ∷ after)) d').1).0 in
    (
      xs ++ (p ∷ ys),
      after,
      e ∙ sym (append_assoc xs (p ∷ ys) (k.current ∷ after)),
      (λ h. other (sym h)),
      earlier-Nearer (awake k (xs ++ (p ∷ ys)) after).task run p k.current (ground (arith, w.ready))
          xs ys after e,
    )

module _ (n : ℕ) (k : Kernel) (before after : List ℕ) (is : IsRunList k before after)
    (none_dead : k.task_to_destroy ≡ 0) (fuel : length before + length after + 1 < n) where
  schedule-current :
      ((scheduler_schedule n k).0.current ≡ chosen k before after)
      × ((scheduler_schedule n k).0.first ≡ k.first)
  schedule-current =
      let moved = record (awake k before after) { current = chosen k before after } in
      elim (Bool-cases (k.current == chosen k before after)) [
        | inl e ↦ rw (schedule_lem n k before after is none_dead fuel, e) (refl, refl)
        | inr e ↦
            rw (schedule_lem n k before after is none_dead fuel, e)
              (current-hand_over k.current moved, first-hand_over k.current moved)
      ]

  -- A ready task stays ready when another one is chosen.
  schedule-ready :
      (p : ℕ)
      → p ≢ k.current
      → p ≢ chosen k before after
      → state_of k p ≡ task_ready
      → state_of (scheduler_schedule n k).0 p ≡ task_ready
  schedule-ready p np nc ready = elim (ℕ_discrete (chosen k before after) k.current) [
    | yes e ↦
        let here : (k.current == chosen k before after) ≡ true = ground arith in
        rw (schedule_lem n k before after is none_dead fuel, here) (ground (arith, ready))
    | no ne ↦
        let sw = schedule_switches n k before after is none_dead fuel ne in
        let kept = sw.2.others p np (λ h. nc (h ∙ sw.1)) in
        ap (λ (t : Task). t.state) kept ∙ ground (arith, ready)
  ]

-- What may happen between two calls of the scheduler: tasks may change their states, but the run
-- list stays, no task is to be destroyed, and `p` is ready if it was.
pub record Between (p : ℕ) (k k' : Kernel) : Type 0 where
  pub first : k'.first ≡ k.first
  pub current : k'.current ≡ k.current
  pub next : (q : ℕ) → next_of k'.task q ≡ next_of k.task q
  pub ready : state_of k p ≡ task_ready → state_of k' p ≡ task_ready
  pub none_dead : k'.task_to_destroy ≡ 0

-- From the first state to the second the scheduler was called so many times, and `p` was not
-- chosen.
pub data Skipped (n p : ℕ) (k : Kernel) : ℕ → Kernel → Type 0 where
  not_yet : Skipped n p k 0 k
  once_more :
      {m : ℕ} {k' : Kernel} (k'' : Kernel)
      → Skipped n p k m k'
      → (scheduler_schedule n k').0.current ≢ p
      → Between p (scheduler_schedule n k').0 k''
      → Skipped n p k (suc m) k''

-- Fewer tasks come before `p` than there were.
abbrev Closer : ℕ → List ℕ → ℕ → ℕ → Kernel → Type 0
Closer n run p d k = Waits n run p k × ((d' : ℕ) × (d' < d) × Ahead run p k.current d')

skip-Closer :
    (n : ℕ) (run : List ℕ) (p d : ℕ) (k k' : Kernel)
    → Waits n run p k
    → Ahead run p k.current d
    → (scheduler_schedule n k).0.current ≢ p
    → Between p (scheduler_schedule n k).0 k'
    → Closer n run p d k'
skip-Closer n run p d k k' w ahead skipped between =
    let (before, after, e, np, nearer) = Ahead-Seen n run p d k w ahead in
    let apart = Distinct-append k.current before after (subst Distinct e w.distinct) in
    let is : IsRunList k before after = record {
      linked = subst (λ xs. Linked (next_of k.task) k.first xs 0) e w.linked;
      not_before = apart.0;
      not_after = apart.1;
    } in
    let fuel : length before + length after + 1 < n =
      omega (arith, w.rounds, ap length e, length-append before (k.current ∷ after)) in
    let (now, first) = schedule-current n k before after is w.none_dead fuel in
    let nc : chosen k before after ≢ p = λ h. skipped (now ∙ h) in
    let keeps = schedule-KeepsWaiting n k before after is w.none_dead fuel in
    let links : next_of k'.task ≡ next_of k.task = fun_ext λ q. between.next q ∙ (keeps q).0 in
    (
      record {
        ready =
            between.ready
              (schedule-ready n k before after is w.none_dead fuel p np (λ h. nc (sym h)) w.ready);
        none_dead = between.none_dead;
        linked = rw (links, between.first, first) w.linked;
        distinct = w.distinct;
        rounds = w.rounds;
      },
      elim nearer [
        | inl at ↦ absurd (nc at)
        | inr (d', less, there) ↦
            (d', less, subst (λ c. Ahead run p c d') (sym (between.current ∙ now)) there)
      ],
    )

Skipped-Ahead :
    (n : ℕ) (run : List ℕ) (p d : ℕ) (k : Kernel)
    → Waits n run p k
    → Ahead run p k.current d
    → (m : ℕ) (k' : Kernel) → Skipped n p k m k'
    → Waits n run p k' × ((d' : ℕ) × (d' + m ≤ d) × Ahead run p k'.current d')
Skipped-Ahead n run p d k w ahead m k' not_yet = (w, (d, omega arith, ahead))
Skipped-Ahead n run p d k w ahead _ k'' (once_more {m} {k'} _ before skipped between) =
    let (w', (d', less, ahead')) = Skipped-Ahead n run p d k w ahead m k' before in
    let (w'', (d'', less', ahead'')) = skip-Closer n run p d' k' k'' w' ahead' skipped between in
    (w'', (d'', omega arith, ahead''))

has-split :
    (p : ℕ) (xs : List ℕ) → has p xs ≡ true → (us : List ℕ) × (vs : List ℕ) × (xs ≡ us ++ (p ∷ vs))
has-split p [] e = absurd (ground arith)
has-split p (x ∷ xs) e = elim (Bool-cases (x == p)) [
  | inl same ↦ let at : x ≡ p = ground arith in ([], xs, ap (λ y. y ∷ xs) at)
  | inr other ↦ let (us, vs, at) = has-split p xs (ground arith) in (x ∷ us, vs, λ i. x ∷ at i)
]

start-Ahead :
    (p current : ℕ) (before after : List ℕ)
    → (has p before || has p after) ≡ true
    → (d : ℕ) × (d < length before + length after) × Ahead (before ++ (current ∷ after)) p current d
start-Ahead p current before after e = elim (Bool-cases (has p after)) [
  | inl there ↦
      let (us, vs, at) = has-split p after there in
      (
        length us,
        omega (arith, ap length at, length-append us (p ∷ vs)),
        later before us vs (ap (λ ws. before ++ (current ∷ ws)) at),
      )
  | inr elsewhere ↦
      let (us, vs, at) = has-split p before (ground arith) in
      (
        length after + length us,
        omega (arith, ap length at, length-append us (p ∷ vs)),
        earlier us vs after
            (ap (λ ws. ws ++ (current ∷ after)) at ∙ append_assoc us (p ∷ vs) (current ∷ after)),
      )
]

-- No ready task starves: from a state where `p` is ready and another task of the run list is current,
-- the scheduler can be called fewer times without choosing `p` than the list has other tasks,
-- whatever those do in between, if none of them ends and none is added.
pub bounded_waiting :
    (n : ℕ) (k : Kernel) (p : ℕ) (before after : List ℕ)
    → Waits n (before ++ (k.current ∷ after)) p k
    → (has p before || has p after) ≡ true
    → (m : ℕ) (k' : Kernel) → Skipped n p k m k'
    → m < length before + length after
bounded_waiting n k p before after w here m k' skipped =
    let (d, less, ahead) = start-Ahead p k.current before after here in
    let (_, (d', sum, _)) =
      Skipped-Ahead n (before ++ (k.current ∷ after)) p d k w ahead m k' skipped in
    omega arith
