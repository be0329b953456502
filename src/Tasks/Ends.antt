-- ===== src/Tasks/Ends.antt =====
-- Adding a node at the end of a linked list, and taking one out: what the run list, the lists of
-- waiters and the children of a directory have in common.
use bethany.Prelude.{
  ℕ, zero, suc, ◌<◌, ◌≡◌, ◌≢◌, ◌⊎◌, inl, inr, refl, List, [], ◌∷◌, ◌++◌, true, false, arith, ◌==◌,
  if◌then◌else◌, length, update, ◌∙◌, ap, sym,
}
use bethany.Tasks.Links.{Linked, Avoids, Distinct, Linked-frame}

-- `while(link(it)) it = link(it)`
unfoldable pub last_link : ℕ → (ℕ → ℕ) → ℕ → ℕ
last_link zero link it = it
last_link (suc n) link it =
    let rest = last_link n link (link it) in if link it == 0 then it else rest

-- `while(it && link(it) != x) it = link(it)`
unfoldable pub before_link : ℕ → (ℕ → ℕ) → ℕ → ℕ → ℕ
before_link zero link x it = it
before_link (suc n) link x it =
    let rest = before_link n link x (link it) in
    if it == 0 then 0 else if link it == x then it else rest

-- The first node of a list that is not empty is not null.
pub Linked-head :
    (link : ℕ → ℕ) (p q x : ℕ) (xs ys : List ℕ) → Linked link p (xs ++ (x ∷ ys)) q → p ≢ 0
Linked-head link p q x [] ys l = λ e. l.1 (sym l.0 ∙ e)
Linked-head link p q x (z ∷ xs) ys l = λ e. l.1 (sym l.0 ∙ e)

pub head_not :
    (link : ℕ → ℕ) (p q y x : ℕ) (xs ys : List ℕ)
    → Linked link p (xs ++ (y ∷ ys)) q
    → Avoids x xs
    → y ≢ x
    → p ≢ x
head_not link p q y x [] ys l o ne = λ e. ne (sym l.0 ∙ e)
head_not link p q y x (z ∷ xs) ys l o ne = λ e. o.0 (sym l.0 ∙ e)

pub last_link-last :
    (n : ℕ) (link : ℕ → ℕ) (p x : ℕ) (xs : List ℕ)
    → length xs < n
    → Linked link p (xs ++ (x ∷ [])) 0
    → last_link n link p ≡ x
unfolding last_link
last_link-last zero link p x xs h l = absurd (omega arith)
last_link-last (suc n) link p x [] h l =
    let end : (link p == 0) ≡ true = ground (arith, ap link l.0, l.2) in rw end l.0
last_link-last (suc n) link p x (y ∷ xs) h l =
    let head : link y ≢ 0 = Linked-head link (link y) 0 x xs [] l.2 in
    let more : (link p == 0) ≡ false = ground (arith, ap link l.0) in
    rw more (last_link-last n link (link p) x xs (omega arith) (rw l.0 l.2))

pub Avoids-append :
    (a x : ℕ) (xs ys : List ℕ) → Avoids a (xs ++ (x ∷ ys)) → (x ≢ a) × Avoids a xs × Avoids a ys
Avoids-append a x [] ys o = (o.0, tt, o.1)
Avoids-append a x (y ∷ xs) ys o = let (p, q, r) = Avoids-append a x xs ys o.1 in (p, (o.0, q), r)

pub Distinct-append :
    (x : ℕ) (xs ys : List ℕ) → Distinct (xs ++ (x ∷ ys)) → Avoids x xs × Avoids x ys
Distinct-append x [] ys d = (tt, d.0)
Distinct-append x (y ∷ xs) ys d =
    let (p, q) = Distinct-append x xs ys d.1 in
    (((λ e. (Avoids-append y x xs ys d.0).0 (sym e)), p), q)

pub before_link-before :
    (n : ℕ) (link : ℕ → ℕ) (p x y : ℕ) (xs zs : List ℕ)
    → length xs < n
    → Linked link p (xs ++ (y ∷ x ∷ zs)) 0
    → Avoids x xs
    → y ≢ x
    → before_link n link x p ≡ y
unfolding before_link
before_link-before zero link p x y xs zs h l o ne = absurd (omega arith)
before_link-before (suc n) link p x y [] zs h l o ne =
    let some_node : (p == 0) ≡ false = ground (arith, l.0, l.1) in
    let here : (link p == x) ≡ true = ground (arith, ap link l.0, l.2.0) in rw (some_node, here) l.0
before_link-before (suc n) link p x y (z ∷ xs) zs h l o ne =
    let some_node : (p == 0) ≡ false = ground (arith, l.0, l.1) in
    let other : link p ≢ x = head_not link (link p) 0 y x xs (x ∷ zs) (rw l.0 l.2) o.1 ne in
    let more : (link p == x) ≡ false = ground arith in
    rw (some_node, more)
      (before_link-before n link (link p) x y xs zs (omega arith) (rw l.0 l.2) o.1 ne)

-- A new last node.
pub Linked-append :
    (link : ℕ → ℕ) (p x a : ℕ) (xs : List ℕ)
    → Linked link p (xs ++ (x ∷ [])) 0
    → Avoids x xs
    → a ≢ 0
    → a ≢ x
    → link a ≡ 0
    → Linked (update link x a) p ((xs ++ (x ∷ [])) ++ (a ∷ [])) 0
Linked-append link p x a [] l o na ne end = (l.0, l.1, (ground arith, na, ground arith))
Linked-append link p x a (y ∷ xs) l o na ne end =
    let kept : update link x a y ≡ link y = ground (arith, o.0) in
    (l.0, l.1, rw kept (Linked-append link (link y) x a xs l.2 o.1 na ne end))

-- The node behind `y` is taken out.
pub Linked-remove :
    (link : ℕ → ℕ) (p x y : ℕ) (xs zs : List ℕ)
    → Linked link p (xs ++ (y ∷ x ∷ zs)) 0
    → Distinct (xs ++ (y ∷ x ∷ zs))
    → Linked (update link y (link x)) p (xs ++ (y ∷ zs)) 0
Linked-remove link p x y [] zs l d =
    let at : update link y (link x) y ≡ link x = ground arith in
    (
      l.0,
      l.1,
      rw at (
          Linked-frame link (update link y (link x)) (link x) 0 y zs (λ b ne. ground arith) d.0.1
            l.2.2),
    )
Linked-remove link p x y (z ∷ xs) zs l d =
    let other = (Avoids-append z y xs (x ∷ zs) d.0).0 in
    let kept : update link y (link x) z ≡ link z = ground (arith, other) in
    (l.0, l.1, rw kept (Linked-remove link (link z) x y xs zs l.2 d.1))

Avoids-last : (a x : ℕ) (xs : List ℕ) → Avoids a xs → x ≢ a → Avoids a (xs ++ (x ∷ []))
Avoids-last a x [] o ne = (ne, tt)
Avoids-last a x (y ∷ xs) o ne = (o.0, Avoids-last a x xs o.1 ne)

pub Distinct-last : (a : ℕ) (xs : List ℕ) → Distinct xs → Avoids a xs → Distinct (xs ++ (a ∷ []))
Distinct-last a [] d o = (tt, tt)
Distinct-last a (x ∷ xs) d o =
    (Avoids-last x a xs d.0 (λ e. o.0 (sym e)), Distinct-last a xs d.1 o.1)

-- Taking out a node keeps the others different.
pub Avoids-remove : (a x : ℕ) (xs ys : List ℕ) → Avoids a (xs ++ (x ∷ ys)) → Avoids a (xs ++ ys)
Avoids-remove a x [] ys o = o.1
Avoids-remove a x (y ∷ xs) ys o = (o.0, Avoids-remove a x xs ys o.1)

pub Distinct-remove : (x : ℕ) (xs ys : List ℕ) → Distinct (xs ++ (x ∷ ys)) → Distinct (xs ++ ys)
Distinct-remove x [] ys d = d.1
Distinct-remove x (y ∷ xs) ys d = (Avoids-remove y x xs ys d.0, Distinct-remove x xs ys d.1)

pub snoc-append : (xs : List ℕ) (x : ℕ) (ys : List ℕ) → (xs ++ (x ∷ [])) ++ ys ≡ xs ++ (x ∷ ys)
snoc-append [] x ys = refl
snoc-append (y ∷ xs) x ys = λ i. y ∷ snoc-append xs x ys i

pub Linked-node :
    (link : ℕ → ℕ) (p q x : ℕ) (xs ys : List ℕ) → Linked link p (xs ++ (x ∷ ys)) q → x ≢ 0
Linked-node link p q x [] ys l = l.1
Linked-node link p q x (y ∷ xs) ys l = Linked-node link (link y) q x xs ys l.2

pub Linked-tail :
    (link : ℕ → ℕ) (p x : ℕ) (xs : List ℕ) → Linked link p (x ∷ xs) 0 → Linked link (link x) xs 0
Linked-tail link p x xs l = l.2

-- A list that is empty, or has a last element.
pub last_view : (xs : List ℕ) → (xs ≡ []) ⊎ ((ys : List ℕ) × (x : ℕ) × (xs ≡ ys ++ (x ∷ [])))
last_view [] = inl refl
last_view (x ∷ xs) = elim (last_view xs) [
  | inl e ↦ inr ([], x, λ i. x ∷ e i)
  | inr (ys, y, e) ↦ inr (x ∷ ys, y, λ i. x ∷ e i)
]
