-- ===== src/Scheduler/Ahead.antt =====
-- How many tasks of the run list come before a ready one in the search that `scheduler_next` of
-- kernel/src/scheduler/scheduler.c makes.
use bethany.Prelude.{
  ℕ, ◌+◌, ◌<◌, ◌≡◌, ◌⊎◌, inl, inr, refl, List, [], ◌∷◌, ◌++◌, arith, length, length-append, sym, ap,
  ◌∙◌, Bool-cases,
}
use bethany.Tasks.{task_ready, same_state, Task}
use bethany.Scheduler.RoundRobin.{first_ready}

pub append_assoc : (xs ys zs : List ℕ) → (xs ++ ys) ++ zs ≡ xs ++ (ys ++ zs)
append_assoc [] ys zs = refl
append_assoc (x ∷ xs) ys zs = λ i. x ∷ append_assoc xs ys zs i

-- Where a task stands in the run list `run`, and how many others come before its turn.
pub data Ahead (run : List ℕ) (p current : ℕ) : ℕ → Type 0 where
  later :
      (before xs ys : List ℕ)
      → run ≡ before ++ (current ∷ (xs ++ (p ∷ ys)))
      → Ahead run p current (length xs)
  earlier :
      (xs ys after : List ℕ)
      → run ≡ xs ++ (p ∷ (ys ++ (current ∷ after)))
      → Ahead run p current (length after + length xs)

-- The search of a list ends at one of its tasks, or with what it was given.
first_ready-split :
    (task : ℕ → Task) (xs : List ℕ) (other : ℕ)
    → (first_ready task xs other ≡ other)
      ⊎ ((us : List ℕ) × (vs : List ℕ) × (xs ≡ us ++ (first_ready task xs other ∷ vs)))
first_ready-split task [] other = inl refl
first_ready-split task (x ∷ xs) other = elim (Bool-cases (same_state (task x).state task_ready)) [
  | inl r ↦ rw r (inr ([], xs, refl))
  | inr nr ↦ rw nr (elim (first_ready-split task xs other) [
    | inl e ↦ inl e
    | inr (us, vs, e) ↦ inr (x ∷ us, vs, λ i. x ∷ e i)
  ])
]

module _ (task : ℕ → Task) (p other : ℕ) (ready : (task p).state ≡ task_ready) where
  -- A ready task is the last that the search can come to.
  first_ready-stop :
      (xs ys : List ℕ) → first_ready task (xs ++ (p ∷ ys)) other ≡ first_ready task xs p
  first_ready-stop [] ys = ground (arith, ready)
  first_ready-stop (x ∷ xs) ys = rw (first_ready-stop xs ys) refl

  first_ready-append :
      (xs ys : List ℕ)
      → first_ready task (xs ++ ys) other ≡ first_ready task xs (first_ready task ys other)
  first_ready-append [] ys = refl
  first_ready-append (x ∷ xs) ys = rw (first_ready-append xs ys) refl

-- The turn comes to `p`, or to a task from which fewer come before `p`.
abbrev pub Nearer : List ℕ → ℕ → ℕ → ℕ → Type 0
Nearer run p d c = (c ≡ p) ⊎ ((d' : ℕ) × (d' < d) × Ahead run p c d')

module _ (task : ℕ → Task) (run : List ℕ) (p current : ℕ)
    (ready : (task p).state ≡ task_ready) where
  pub later-Nearer :
      (before xs ys : List ℕ)
      → run ≡ before ++ (current ∷ (xs ++ (p ∷ ys)))
      → Nearer run p (length xs) (first_ready task ((xs ++ (p ∷ ys)) ++ before) current)
  later-Nearer before xs ys e =
      rw (append_assoc xs (p ∷ ys) before, first_ready-stop task p current ready xs (ys ++ before))
        (elim (first_ready-split task xs p) [
          | inl at ↦ inl at
          | inr (us, vs, at) ↦
              let c = first_ready task xs p in
              let place : run ≡ (before ++ (current ∷ us)) ++ (c ∷ (vs ++ (p ∷ ys))) =
                e
                ∙ ap (λ ws. before ++ (current ∷ (ws ++ (p ∷ ys)))) at
                ∙ ap (λ ws. before ++ (current ∷ ws)) (append_assoc us (c ∷ vs) (p ∷ ys))
                ∙ sym (append_assoc before (current ∷ us) (c ∷ (vs ++ (p ∷ ys)))) in
              inr (
                length vs,
                omega (arith, ap length at, length-append us (c ∷ vs)),
                later (before ++ (current ∷ us)) vs ys place,
              )
        ])

  pub earlier-Nearer :
      (xs ys after : List ℕ)
      → run ≡ xs ++ (p ∷ (ys ++ (current ∷ after)))
      → Nearer run p
          (length after + length xs)
          (first_ready task (after ++ (xs ++ (p ∷ ys))) current)
  earlier-Nearer xs ys after e =
      rw
        (
          first_ready-append task p current ready after (xs ++ (p ∷ ys)),
          first_ready-stop task p current ready xs ys,
        )
        (elim (first_ready-split task after (first_ready task xs p)) [
          | inl at ↦ rw at (elim (first_ready-split task xs p) [
            | inl here ↦ inl here
            | inr (us, vs, here) ↦
                let c = first_ready task xs p in
                let place : run ≡ us ++ (c ∷ (vs ++ (p ∷ (ys ++ (current ∷ after))))) =
                  e
                  ∙ ap (λ ws. ws ++ (p ∷ (ys ++ (current ∷ after)))) here
                  ∙ append_assoc us (c ∷ vs) (p ∷ (ys ++ (current ∷ after))) in
                inr (
                  length vs,
                  omega (arith, ap length here, length-append us (c ∷ vs)),
                  later us vs (ys ++ (current ∷ after)) place,
                )
          ])
          | inr (us, vs, at) ↦
              let c = first_ready task after (first_ready task xs p) in
              let place : run ≡ xs ++ (p ∷ ((ys ++ (current ∷ us)) ++ (c ∷ vs))) =
                e
                ∙ ap (λ ws. xs ++ (p ∷ (ys ++ (current ∷ ws)))) at
                ∙ ap (λ ws. xs ++ (p ∷ ws)) (sym (append_assoc ys (current ∷ us) (c ∷ vs))) in
              inr (
                length vs + length xs,
                omega (arith, ap length at, length-append us (c ∷ vs)),
                earlier xs (ys ++ (current ∷ us)) vs place,
              )
        ])
