-- ===== src/Scheduler/Wake.antt =====
-- `scheduler_update` of kernel/src/scheduler/scheduler.c: the sleepers whose time has come.
use bethany.Prelude.{
  ℕ, zero, suc, ◌<◌, ◌≡◌, Bool, false, ◌&&◌, ◌||◌, List, [], ◌∷◌, arith, ◌==◌, leb, if◌then◌else◌,
  refl, length, sym, ap, inl, inr, Bool-cases, ◌∙◌,
}
use mathlib.Core.Path.{fun_ext, subst}
use bethany.Tasks.{task_ready, task_sleeping, same_state, Task, Kernel, state_of, set_state}
use bethany.Tasks.Links.{Linked}
use bethany.Scheduler.{wake, update_loop, scheduler_update}
use bethany.Scheduler.RoundRobin.{next_of}

abbrev pub has : ℕ → List ℕ → Bool
has p [] = false
has p (x ∷ xs) = x == p || has p xs

-- A sleeper whose tick has come.
abbrev pub due : Kernel → ℕ → Bool
due k p = same_state (state_of k p) task_sleeping && leb (k.task p).wake_tick k.ticks

-- The task after the sleepers of the list are woken.
abbrev pub woken : List ℕ → Kernel → ℕ → Task
woken xs k p = if has p xs && due k p then record (k.task p) { state = task_ready } else k.task p

wake_lem : (x : ℕ) (k : Kernel) → wake x k ≡ record k { task = woken (x ∷ []) k }
unfolding wake set_state
wake_lem x k = elim (Bool-cases (due k x)) [
  | inl is_due ↦ rw is_due (ap (λ t. record k { task = t }) (fun_ext λ p. ground arith))
  | inr not_due ↦ rw not_due (ap (λ t. record k { task = t }) (fun_ext λ p. ground arith))
]

-- Waking twice is waking once, and the links stay.
woken-woken :
    (x : ℕ) (xs : List ℕ) (k : Kernel) (p : ℕ)
    → woken xs (record k { task = woken (x ∷ []) k }) p ≡ woken (x ∷ xs) k p
woken-woken x xs k p = ground arith

pub next-woken : (xs : List ℕ) (k : Kernel) (p : ℕ) → (woken xs k p).next ≡ (k.task p).next
next-woken xs k p = ground arith

update_loop-woken :
    (n : ℕ) (k : Kernel) (it : ℕ) (xs : List ℕ)
    → Linked (next_of k.task) it xs 0
    → length xs < n
    → update_loop n it k ≡ record k { task = woken xs k }
unfolding update_loop
update_loop-woken zero k it xs l fuel = absurd (omega arith)
update_loop-woken (suc n) k it [] l fuel = rw l refl
update_loop-woken (suc n) k it (x ∷ xs) l fuel =
    rw (l.0, some_task, wake_lem x k)
      (update_loop-woken n k' (woken (x ∷ []) k x).next xs linked (omega arith)
        ∙ ap (λ t. record k { task = t }) (fun_ext (woken-woken x xs k)))
  where
    k' : Kernel
    k' = record k { task = woken (x ∷ []) k }

    some_task : (x == 0) ≡ false
    some_task = ground arith

    linked : Linked (next_of (woken (x ∷ []) k)) (woken (x ∷ []) k x).next xs 0
    linked = subst (λ f. Linked f (f x) xs 0) (sym (fun_ext (next-woken (x ∷ []) k))) l.2

-- `scheduler_update` makes ready exactly the tasks of the run list that sleep and whose tick has
-- come, and changes nothing else.
pub scheduler_update-woken :
    (n : ℕ) (k : Kernel) (xs : List ℕ)
    → Linked (next_of k.task) k.first xs 0
    → length xs < n
    → scheduler_update n k ≡ record k { task = woken xs k }
unfolding scheduler_update
scheduler_update-woken n k xs l fuel = update_loop-woken n k k.first xs l fuel
