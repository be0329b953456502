-- ===== src/Tasks/Links.antt =====
-- Lists that are linked through a field of their nodes: the run list and the lists of waiters.
use bethany.Prelude.{ℕ, ◌≡◌, ◌≢◌, List, [], ◌∷◌, ◌++◌, refl}

-- From `p` the links lead through the nodes `xs` to `q`.
abbrev pub Linked : (ℕ → ℕ) → ℕ → List ℕ → ℕ → Type 0
Linked link p [] q = p ≡ q
Linked link p (x ∷ xs) q = (p ≡ x) × (x ≢ 0) × Linked link (link x) xs q

-- No node of the list is `a`.
abbrev pub Avoids : ℕ → List ℕ → Type 0
Avoids a [] = Unit
Avoids a (x ∷ xs) = (x ≢ a) × Avoids a xs

abbrev pub Distinct : List ℕ → Type 0
Distinct [] = Unit
Distinct (x ∷ xs) = Avoids x xs × Distinct xs

pub Linked-split :
    (link : ℕ → ℕ) (p q : ℕ) (xs ys : List ℕ)
    → Linked link p (xs ++ ys) q
    → (m : ℕ) × Linked link p xs m × Linked link m ys q
Linked-split link p q [] ys l = (p, refl, l)
Linked-split link p q (x ∷ xs) ys l =
    let (m, front, back) = Linked-split link (link x) q xs ys l.2 in (m, (l.0, l.1, front), back)

pub Linked-join :
    (link : ℕ → ℕ) (p m q : ℕ) (xs ys : List ℕ)
    → Linked link p xs m
    → Linked link m ys q
    → Linked link p (xs ++ ys) q
Linked-join link p m q [] ys front back = rw front back
Linked-join link p m q (x ∷ xs) ys front back =
    (front.0, front.1, Linked-join link (link x) m q xs ys front.2 back)

-- A list survives any change of the links that spares its own nodes.
pub Linked-frame :
    (link link' : ℕ → ℕ) (p q a : ℕ) (xs : List ℕ)
    → ((b : ℕ) → b ≢ a → link' b ≡ link b)
    → Avoids a xs
    → Linked link p xs q
    → Linked link' p xs q
Linked-frame link link' p q a [] same out l = l
Linked-frame link link' p q a (x ∷ xs) same out l =
    (l.0, l.1, rw (same x out.0) (Linked-frame link link' (link x) q a xs same out.1 l.2))
