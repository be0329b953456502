-- ===== src/Scheduler/RoundRobin.antt =====
-- `scheduler_next` of kernel/src/scheduler/scheduler.c as a search of the run list, which begins
-- behind the current task and goes round.
use bethany.Prelude.{
  ℕ, zero, suc, ◌+◌, ◌<◌, ◌≡◌, ◌≢◌, false, List, [], ◌∷◌, ◌++◌, arith, ◌==◌, if◌then◌else◌, length,
  length-append, ap,
}
use bethany.Tasks.{task_ready, same_state, Task, Kernel}
use bethany.Tasks.Links.{Linked, Avoids, Linked-split}
use bethany.Scheduler.{successor, next_loop, scheduler_next}

-- The first ready task of the list, or the one given in its place.
abbrev pub first_ready : (ℕ → Task) → List ℕ → ℕ → ℕ
first_ready task [] other = other
first_ready task (x ∷ xs) other =
    let rest = first_ready task xs other in if same_state (task x).state task_ready then x else rest

abbrev pub next_of : (ℕ → Task) → ℕ → ℕ
next_of task p = (task p).next

module _ (task : ℕ → Task) (first start : ℕ) where
  -- From `p` the loop comes through `xs`, and then to `start`.
  abbrev Round : ℕ → List ℕ → Type 0
  Round p [] = p ≡ start
  Round p (x ∷ xs) = (p ≡ x) × (x ≢ start) × Round (successor task first x) xs

  next_loop-first_ready :
      (n current : ℕ) (xs : List ℕ)
      → Round (successor task first current) xs
      → length xs < n
      → next_loop n task first start current ≡ first_ready task xs start
  unfolding next_loop
  next_loop-first_ready zero current xs r fuel = absurd (omega arith)
  next_loop-first_ready (suc n) current [] r fuel = ground arith
  next_loop-first_ready (suc n) current (x ∷ xs) r fuel =
      let ih = next_loop-first_ready n x xs r.2 (omega arith) in rw r.0 (ground arith)

  -- Up to `start` the round follows the links.
  Round-Linked :
      (p : ℕ) (xs : List ℕ)
      → start ≢ 0
      → Linked (next_of task) p xs start
      → Avoids start xs
      → Round p xs
  unfolding successor
  Round-Linked p [] ne l out = l
  Round-Linked p (x ∷ []) ne l out = (l.0, out.0, ground arith)
  Round-Linked p (x ∷ y ∷ ys) ne l out =
      let follows : successor task first x ≡ next_of task x = ground arith in
      (l.0, out.0, rw follows (Round-Linked (next_of task x) (y ∷ ys) ne l.2 out.1))

  abbrev wrapped : ℕ → ℕ
  wrapped p = if p == 0 then first else p

  -- At the end of the list the round goes on at its head.
  Round-wrapped :
      (p : ℕ) (after before : List ℕ)
      → Linked (next_of task) p after 0
      → Avoids start after
      → Round first before
      → Round (wrapped p) (after ++ before)
  unfolding successor
  Round-wrapped p [] before l out r = rw l r
  Round-wrapped p (x ∷ xs) before l out r =
      let here : wrapped p ≡ x = ground arith in
      (here, out.0, Round-wrapped (next_of task x) xs before l.2 out.1 r)

-- The run list: from `first` through the tasks before the current one, the current one and those
-- after it.
pub record IsRunList (k : Kernel) (before after : List ℕ) : Type 0 where
  pub linked : Linked (next_of k.task) k.first (before ++ k.current ∷ after) 0
  pub not_before : Avoids k.current before
  pub not_after : Avoids k.current after

-- `scheduler_next` makes the first ready task current that follows the current one in the run list,
-- taken round in a circle; when no other is ready the current one stays. Nothing else changes. As
-- many rounds as the list has tasks are enough.
pub scheduler_next-first_ready :
    (n : ℕ) (k : Kernel) (before after : List ℕ)
    → IsRunList k before after
    → length before + length after < n
    → scheduler_next n k ≡ record k { current = first_ready k.task (after ++ before) k.current }
unfolding scheduler_next
scheduler_next-first_ready n k before after is fuel =
    let (m, front, (at, ne, back)) =
      Linked-split (next_of k.task) k.first 0 before (k.current ∷ after) is.linked in
    let some_task : (k.current == 0) ≡ false = ground arith in
    rw some_task (
      ap (λ c. record k { current = c })
        (next_loop-first_ready k.task k.first k.current n k.current (after ++ before)
          (Round-wrapped k.task k.first k.current (next_of k.task k.current) after before back
            is.not_after
            (Round-Linked k.task k.first k.current k.first before ne (rw at at front)
              is.not_before))
          (omega (arith, length-append after before))))
