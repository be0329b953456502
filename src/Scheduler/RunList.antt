-- ===== src/Scheduler/RunList.antt =====
-- The run list of kernel/src/scheduler/scheduler.c: adding a task and taking one off.
use bethany.Prelude.{
  ℕ, zero, suc, ◌<◌, ◌≡◌, ◌≢◌, inl, inr, refl, List, [], ◌∷◌, ◌++◌, true, false, arith, ◌==◌,
  if◌then◌else◌, length, length-append, update, ◌∙◌, ap, sym, Bool-cases,
}
use mathlib.Core.Path.{subst, fun_ext}
use bethany.Tasks.{Task, Kernel, state_of, set_next}
use bethany.Tasks.Links.{Linked, Avoids, Distinct, Linked-split}
use bethany.Tasks.Ends.{
  last_link, last_link-last, last_view, Linked-append, Linked-remove, Linked-head, Linked-node,
  head_not, snoc-append, Avoids-append, Distinct-append, Distinct-last, Distinct-remove,
}
use bethany.Scheduler.{last_loop, before_loop, scheduler_add, scheduler_remove, task_destroy}

abbrev pub next_of : Kernel → ℕ → ℕ
next_of k p = (k.task p).next

-- The run list consists of the tasks `xs`, in this order.
pub record HasTasks (k : Kernel) (xs : List ℕ) : Type 0 where
  pub linked : Linked (next_of k) k.first xs 0
  pub distinct : Distinct xs

last_loop-last_link :
    (n : ℕ) (task : ℕ → Task) (it : ℕ) → last_loop n task it ≡ last_link n (λ p. (task p).next) it
unfolding last_loop last_link
last_loop-last_link zero task it = refl
last_loop-last_link (suc n) task it = rw (last_loop-last_link n task (task it).next) refl

before_loop-before :
    (n : ℕ) (task : ℕ → Task) (p x y : ℕ) (xs zs : List ℕ)
    → length xs < n
    → Linked (λ q. (task q).next) p (xs ++ (y ∷ x ∷ zs)) 0
    → Avoids x xs
    → y ≢ x
    → before_loop n task x p ≡ y
unfolding before_loop
before_loop-before zero task p x y xs zs h l o ne = absurd (omega arith)
before_loop-before (suc n) task p x y [] zs h l o ne =
    let here : ((task p).next == x) ≡ true = ground (arith, ap (λ q. (task q).next) l.0, l.2.0) in
    elim (Bool-cases ((task p).next == 0)) [ inl e ↦ rw e l.0 | inr e ↦ rw (e, here) l.0 ]
before_loop-before (suc n) task p x y (z ∷ xs) zs h l o ne =
    let onward : Linked (λ q. (task q).next) (task p).next (xs ++ (y ∷ x ∷ zs)) 0 = rw l.0 l.2 in
    let some_task : ((task p).next == 0) ≡ false =
      ground (arith, Linked-head (λ q. (task q).next) (task p).next 0 y xs (x ∷ zs) onward) in
    let more : ((task p).next == x) ≡ false =
      ground (arith, head_not (λ q. (task q).next) (task p).next 0 y x xs (x ∷ zs) onward o.1 ne) in
    rw (some_task, more)
      (before_loop-before n task (task p).next x y xs zs (omega arith) onward o.1 ne)

set_next-next_of : (k : Kernel) (x a q : ℕ) → next_of (set_next x a k) q ≡ update (next_of k) x a q
unfolding set_next
set_next-next_of k x a q = ground arith

set_next-first : (k : Kernel) (x a : ℕ) → (set_next x a k).first ≡ k.first
unfolding set_next
set_next-first k x a = refl

relink :
    (k : Kernel) (x a : ℕ) (zs : List ℕ)
    → Linked (update (next_of k) x a) k.first zs 0
    → Linked (next_of (set_next x a k)) (set_next x a k).first zs 0
unfolding set_next
relink k x a zs l =
    subst (λ f. Linked f k.first zs 0) (fun_ext λ q. sym (set_next-next_of k x a q)) l

HasTasks-last :
    (n : ℕ) (k : Kernel) (a x : ℕ) (ys : List ℕ)
    → HasTasks k (ys ++ (x ∷ []))
    → length ys < n
    → a ≢ 0
    → Avoids a (ys ++ (x ∷ []))
    → next_of k a ≡ 0
    → (scheduler_add n a k ≡ set_next x a k)
      × HasTasks (set_next x a k) ((ys ++ (x ∷ [])) ++ (a ∷ []))
unfolding scheduler_add
HasTasks-last n k a x ys has fuel na out end =
    let some_task : (a == 0) ≡ false = ground arith in
    let nonempty : (k.first == 0) ≡ false =
      ground (arith, Linked-head (next_of k) k.first 0 x ys [] has.linked) in
    let at : last_loop n k.task k.first ≡ x =
      last_loop-last_link n k.task k.first
      ∙ last_link-last n (next_of k) k.first x ys fuel has.linked in
    let apart = (Distinct-append x ys [] has.distinct).0 in
    let other = (Avoids-append a x ys [] out).0 in
    (
      rw (some_task, nonempty, at) refl,
      record {
        linked =
            relink k x a ((ys ++ (x ∷ [])) ++ (a ∷ [])) (
              Linked-append (next_of k) k.first x a ys has.linked apart na (λ e. other (sym e))
                end);
        distinct = Distinct-last a (ys ++ (x ∷ [])) has.distinct out;
      },
    )

-- The task that is current after `task` was added.
abbrev pub current_with : ℕ → Kernel → ℕ
current_with task k = if k.first == 0 then task else k.current

module _ (n : ℕ) (k : Kernel) (a : ℕ) (na : a ≢ 0) (end : next_of k a ≡ 0) where
  added_first :
      HasTasks k []
      → HasTasks (scheduler_add n a k) (a ∷ []) × ((scheduler_add n a k).current ≡ current_with a k)
  unfolding scheduler_add
  added_first has =
      let some_task : (a == 0) ≡ false = ground arith in
      let empty : (k.first == 0) ≡ true = ground (arith, has.linked) in
      (
        rw (some_task, empty) (record { linked = (refl, na, end); distinct = (tt, tt) }),
        rw (some_task, empty) refl,
      )

  added_last :
      (x : ℕ) (ys : List ℕ)
      → HasTasks k (ys ++ (x ∷ []))
      → length ys < n
      → Avoids a (ys ++ (x ∷ []))
      → HasTasks (scheduler_add n a k) ((ys ++ (x ∷ [])) ++ (a ∷ []))
        × ((scheduler_add n a k).current ≡ current_with a k)
  unfolding set_next
  added_last x ys has fuel out =
      let nonempty : (k.first == 0) ≡ false =
        ground (arith, Linked-head (next_of k) k.first 0 x ys [] has.linked) in
      let (e, is) = HasTasks-last n k a x ys has fuel na out end in
      (subst (λ k'. HasTasks k' ((ys ++ (x ∷ [])) ++ (a ∷ []))) (sym e) is, rw (e, nonempty) refl)

  -- With more rounds than tasks, `scheduler_add` puts a task that is not on the run list and has no
  -- successor at the end of the list, and the others keep their order. It becomes the current task
  -- exactly if the list was empty.
  pub scheduler_add_lem :
      (xs : List ℕ)
      → HasTasks k xs
      → length xs < n
      → Avoids a xs
      → HasTasks (scheduler_add n a k) (xs ++ (a ∷ []))
        × ((scheduler_add n a k).current ≡ current_with a k)
  scheduler_add_lem xs has fuel out = elim (last_view xs) [
    | inl e ↦ rw e (added_first (subst (HasTasks k) e has))
    | inr (ys, x, e) ↦ rw e (
        added_last x ys (subst (HasTasks k) e has)
          (omega (arith, ap length e, length-append ys (x ∷ []))) (subst (Avoids a) e out))
  ]

-- The task behind the one that was taken off, `first` at the end of the list.
abbrev pub heir : ℕ → List ℕ → ℕ
heir first [] = first
heir first (z ∷ zs) = z

-- What is left when `a` is taken off the list: the other tasks in their order, and if `a` was
-- current, the one behind it.
pub record Removed (k : Kernel) (a : ℕ) (ys zs : List ℕ) (k' : Kernel) : Type 0 where
  pub rest : HasTasks k' (ys ++ zs)
  pub current : k'.current ≡ (if k.current == a then heir k'.first zs else k.current)
  pub states : (p : ℕ) → state_of k' p ≡ state_of k p

module _ (n : ℕ) (k : Kernel) (a : ℕ) where
  first_off : (zs : List ℕ) → HasTasks k (a ∷ zs) → Removed k a [] zs (scheduler_remove n a k)
  unfolding scheduler_remove task_destroy
  first_off zs has =
      let some_task : (a == 0) ≡ false = ground (arith, has.linked.1) in
      let nonempty : (k.first == 0) ≡ false = ground (arith, has.linked) in
      let here : (a == k.first) ≡ true = ground (arith, has.linked.0) in
      let front : next_of k k.first ≡ next_of k a = ap (next_of k) has.linked.0 in
      let k1 : Kernel = record k { first = next_of k k.first } in
      let next : next_of k k.first ≡ heir (next_of k k.first) zs =
        front ∙ at_heir zs has.linked.2 in
      elim (Bool-cases (k.current == a)) [
        | inl e ↦
            rw (some_task, nonempty, here, e)
              (record {
                rest = record { linked = rw front has.linked.2; distinct = has.distinct.1 };
                current = rw e next;
                states = λ p. refl;
              })
        | inr e ↦
            rw (some_task, nonempty, here, e)
              (record {
                rest = record { linked = rw front has.linked.2; distinct = has.distinct.1 };
                current = rw e refl;
                states = λ p. refl;
              })
      ]
    where
      at_heir :
          (us : List ℕ)
          → Linked (next_of k) (next_of k a) us 0
          → next_of k a ≡ heir (next_of k k.first) us
      at_heir [] l = ap (next_of k) (sym has.linked.0)
      at_heir (u ∷ us) l = l.0

  -- The list when the task behind `y` was taken out, whatever task is current then.
  unlinked :
      (y c : ℕ) (ys zs : List ℕ)
      → HasTasks k ((ys ++ (y ∷ [])) ++ (a ∷ zs))
      → HasTasks (record (set_next y (next_of k a) k) { current = c }) ((ys ++ (y ∷ [])) ++ zs)
  unfolding set_next
  unlinked y c ys zs has = record {
    linked = relink k y (next_of k a) ((ys ++ (y ∷ [])) ++ zs) (
        subst (λ us. Linked (update (next_of k) y (next_of k a)) k.first us 0)
          (sym (snoc-append ys y zs))
          (Linked-remove (next_of k) k.first a y ys zs
            (subst (λ us. Linked (next_of k) k.first us 0) (snoc-append ys y (a ∷ zs)) has.linked)
            (subst Distinct (snoc-append ys y (a ∷ zs)) has.distinct)));
    distinct = Distinct-remove a (ys ++ (y ∷ [])) zs has.distinct;
  }

  -- The new current task of `scheduler_remove` behind the first one.
  abbrev replaced : ℕ → ℕ
  replaced c = if c == a then (if next_of k a == 0 then k.first else next_of k a) else c

  replaced-heir :
      (y : ℕ) (ys zs : List ℕ)
      → Linked (next_of k) k.first ((ys ++ (y ∷ [])) ++ (a ∷ zs)) 0
      → replaced k.current ≡ (if k.current == a then heir k.first zs else k.current)
  replaced-heir y ys [] l =
      let (m, _, back) = Linked-split (next_of k) k.first 0 (ys ++ (y ∷ [])) (a ∷ []) l in
      let end : (next_of k a == 0) ≡ true = ground (arith, back.2) in rw end refl
  replaced-heir y ys (z ∷ zs) l =
      let (m, _, back) = Linked-split (next_of k) k.first 0 (ys ++ (y ∷ [])) (a ∷ z ∷ zs) l in
      let more : (next_of k a == 0) ≡ false = ground (arith, back.2.0, back.2.1) in
      rw more (rw back.2.0 refl)

  remove-set_next :
      (y : ℕ) (ys zs : List ℕ)
      → HasTasks k ((ys ++ (y ∷ [])) ++ (a ∷ zs))
      → length ys < n
      → scheduler_remove n a k
        ≡ record (set_next y (next_of k a) k) { current = replaced k.current }
  unfolding scheduler_remove task_destroy set_next
  remove-set_next y ys zs has fuel =
      let whole : Linked (next_of k) k.first (ys ++ (y ∷ a ∷ zs)) 0 =
        subst (λ us. Linked (next_of k) k.first us 0) (snoc-append ys y (a ∷ zs)) has.linked in
      let (other, apart, _) =
        Avoids-append a y ys [] (Distinct-append a (ys ++ (y ∷ [])) zs has.distinct).0 in
      let some_task : (a == 0) ≡ false =
        ground (arith, Linked-node (next_of k) k.first 0 a (ys ++ (y ∷ [])) zs has.linked) in
      let nonempty : (k.first == 0) ≡ false =
        ground (arith, Linked-head (next_of k) k.first 0 y ys (a ∷ zs) whole) in
      let inner : (a == k.first) ≡ false =
        ground (arith, head_not (next_of k) k.first 0 y a ys (a ∷ zs) whole apart other) in
      let at : before_loop n k.task a k.first ≡ y =
        before_loop-before n k.task k.first a y ys zs fuel whole apart other in
      let (m, _, back) = Linked-split (next_of k) k.first 0 ys (y ∷ a ∷ zs) whole in
      let link : next_of k y ≡ a = back.2.0 in
      let found : (next_of k y == 0) ≡ false = ground (arith, link) in
      rw (some_task, nonempty, inner, at, found)
        (elim (Bool-cases (k.current == a)) [
          | inl e ↦ let same : (y == y) ≡ true = ground arith in rw (e, same) refl
          | inr e ↦ rw e refl
        ])

  later_off :
      (y : ℕ) (ys zs : List ℕ)
      → HasTasks k ((ys ++ (y ∷ [])) ++ (a ∷ zs))
      → length ys < n
      → Removed k a (ys ++ (y ∷ [])) zs (scheduler_remove n a k)
  unfolding set_next
  later_off y ys zs has fuel =
      subst (Removed k a (ys ++ (y ∷ [])) zs) (sym (remove-set_next y ys zs has fuel)) (record {
        rest = unlinked y (replaced k.current) ys zs has;
        current = replaced-heir y ys zs has.linked;
        states = λ p. ground arith;
      })

  -- With more rounds than tasks, `scheduler_remove` takes a task off the run list; the others keep
  -- their order and all tasks their states. If the task was current, the one behind it is, or the
  -- first one if it was the last.
  pub scheduler_remove_lem :
      (ys zs : List ℕ)
      → HasTasks k (ys ++ (a ∷ zs))
      → length ys < n
      → Removed k a ys zs (scheduler_remove n a k)
  scheduler_remove_lem ys zs has fuel = elim (last_view ys) [
    | inl e ↦ rw e (first_off zs (subst (λ us. HasTasks k (us ++ (a ∷ zs))) e has))
    | inr (xs, y, e) ↦ rw e (
        later_off y xs zs (subst (λ us. HasTasks k (us ++ (a ∷ zs))) e has)
          (omega (arith, ap length e, length-append xs (y ∷ []))))
  ]
