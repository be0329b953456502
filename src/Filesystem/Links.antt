-- ===== src/Filesystem/Links.antt =====
-- The children of a directory in kernel/src/filesystem/ramfs/ramfs.c: finding, adding and removing.
use bethany.Prelude.{
  ℕ, zero, suc, ◌<◌, ◌≡◌, ◌≢◌, ◌⊎◌, inl, inr, refl, List, [], ◌∷◌, ◌++◌, true, false, arith, ◌==◌,
  length, length-append, update, ◌∙◌, ap, sym, Bool-cases,
}
use mathlib.Core.Path.{subst, fun_ext}
use bethany.Tasks.Links.{Linked, Avoids, Distinct}
use bethany.Tasks.Ends.{
  last_link, before_link, last_link-last, before_link-before, Linked-append, Linked-remove,
  Linked-head, Linked-node, Linked-tail, head_not, snoc-append, Avoids-append, Distinct-append,
  Distinct-last, Distinct-remove, last_view,
}
use bethany.Memory.Heap.{PageMapper}
use bethany.Text.Strings.{strcmp}
use bethany.Text.Strings.Laws.{IsText, strcmp_lem}
use bethany.Filesystem.{
  RamfsNode, Ramfs, set_node, last_child, before_child, find_loop, ramfs_find, append_child,
  unlink_child,
}

last_child-last_link :
    (n : ℕ) (node : ℕ → RamfsNode) (it : ℕ)
    → last_child n node it ≡ last_link n (λ q. (node q).next) it
unfolding last_child last_link
last_child-last_link zero node it = refl
last_child-last_link (suc n) node it = rw (last_child-last_link n node (node it).next) refl

before_child-before_link :
    (n : ℕ) (node : ℕ → RamfsNode) (x it : ℕ)
    → before_child n node x it ≡ before_link n (λ q. (node q).next) x it
unfolding before_child before_link
before_child-before_link zero node x it = refl
before_child-before_link (suc n) node x it =
    rw (before_child-before_link n node x (node it).next) refl

module _ (v : PageMapper) where
  abbrev pub next_of : Ramfs v → ℕ → ℕ
  next_of s q = (s.node q).next

  -- The children of `p` are the nodes `xs`, in this order.
  pub record HasChildren (s : Ramfs v) (p : ℕ) (xs : List ℕ) : Type 0 where
    pub linked : Linked (next_of s) (s.node p).children xs 0
    pub distinct : Distinct xs

  -- `r` is the first of the nodes whose name is `key`, or null if there is none; `text` gives the
  -- characters of the names.
  abbrev pub Finds : (ℕ → List ℕ) → List ℕ → List ℕ → ℕ → Type 0
  Finds text key [] r = r ≡ 0
  Finds text key (x ∷ xs) r =
      ((text x ≡ key) × (r ≡ x)) ⊎ ((text x ≡ key → ⊥) × Finds text key xs r)

  -- The names of the nodes stand in memory, each with fewer than `n` characters.
  abbrev pub Named : ℕ → Ramfs v → (ℕ → List ℕ) → List ℕ → Type 0
  Named n s text [] = Unit
  Named n s text (x ∷ xs) =
      IsText s.bytes (s.node x).name (text x) × (length (text x) < n) × Named n s text xs

  module _ (n : ℕ) (s : Ramfs v) (text : ℕ → List ℕ) (name : ℕ) (key : List ℕ)
      (bytes : (i : ℕ) → s.bytes i < 256) (is : IsText s.bytes name key) where
    find_loop-Finds :
        (k it : ℕ) (xs : List ℕ)
        → Linked (next_of s) it xs 0
        → Named n s text xs
        → length xs < k
        → Finds text key xs (find_loop v n k it name s)
    unfolding find_loop
    find_loop-Finds zero it xs l named h = absurd (omega arith)
    find_loop-Finds (suc k) it [] l named h = rw l refl
    find_loop-Finds (suc k) it (x ∷ xs) l named h =
        let some_node : (x == 0) ≡ false = ground (arith, l.1) in
        let (there, back) =
          strcmp_lem n s.bytes (s.node x).name name (text x) key bytes named.1 named.0 is in
        elim (Bool-cases (strcmp n s.bytes (s.node x).name name == 0)) [
          | inl e ↦
              let hit : find_loop v n (suc k) it name s ≡ x =
                subst (λ y. find_loop v n (suc k) y name s ≡ x) (sym l.0)
                  (rw (some_node, e) refl) in
              inl (back (ground arith), hit)
          | inr e ↦
              let onward : find_loop v n (suc k) it name s
                  ≡ find_loop v n k (s.node x).next name s =
                subst (λ y. find_loop v n (suc k) y name s ≡ find_loop v n k (s.node x).next name s)
                  (sym l.0) (rw (some_node, e) refl) in
              let other : text x ≡ key → ⊥ = λ q. ground (arith, there q) in
              inr (
                other,
                subst (Finds text key xs) (sym onward)
                    (find_loop-Finds k (s.node x).next xs l.2 named.2 (omega arith)),
              )
        ]

    -- When memory holds bytes, the names end, and there are more rounds than children and than
    -- characters in a name, `ramfs_find` returns the first child of a node with the name, and null
    -- if there is none.
    pub ramfs_find-Finds :
        (p : ℕ) (xs : List ℕ)
        → p ≢ 0
        → HasChildren s p xs
        → Named n s text xs
        → length xs < n
        → Finds text key xs (ramfs_find v n p name s)
    unfolding ramfs_find
    ramfs_find-Finds p xs np has named h =
        let some_node : (p == 0) ≡ false = ground arith in
        rw some_node (find_loop-Finds n (s.node p).children xs has.linked named h)

  -- Writing the link of a node changes no other field of any node.
  set_next-kept :
      (s : Ramfs v) (x a q : ℕ)
      → let s' = set_node v x (record (s.node x) { next = a }) s in
        (next_of s' q ≡ update (next_of s) x a q)
        × ((s'.node q).children ≡ (s.node q).children)
        × ((s'.node q).parent ≡ (s.node q).parent)
  set_next-kept s x a q = ground arith

  set_children-kept :
      (s : Ramfs v) (p a q : ℕ)
      → let s' = set_node v p (record (s.node p) { children = a }) s in
        (next_of s' q ≡ next_of s q) × ((s'.node p).children ≡ a)
  set_children-kept s p a q = ground arith

  relink :
      (s : Ramfs v) (x a p : ℕ) (zs : List ℕ)
      → Linked (update (next_of s) x a) (s.node p).children zs 0
      → Distinct zs
      → HasChildren (set_node v x (record (s.node x) { next = a }) s) p zs
  relink s x a p zs l d = record {
    linked =
        subst (λ c. Linked (next_of (set_node v x (record (s.node x) { next = a }) s)) c zs 0)
          (sym (set_next-kept s x a p).1)
          (subst (λ f. Linked f (s.node p).children zs 0)
            (fun_ext λ q. sym (set_next-kept s x a q).0) l);
    distinct = d;
  }

  rechild :
      (s : Ramfs v) (p c : ℕ) (zs : List ℕ)
      → Linked (next_of s) c zs 0
      → Distinct zs
      → HasChildren (set_node v p (record (s.node p) { children = c }) s) p zs
  rechild s p c zs l d = record {
    linked =
        subst (λ c'. Linked (next_of (set_node v p (record (s.node p) { children = c }) s)) c' zs 0)
          (sym (set_children-kept s p c p).1)
          (subst (λ f. Linked f c zs 0) (fun_ext λ q. sym (set_children-kept s p c q).0) l);
    distinct = d;
  }

  -- A directory with children gets a new one behind its last.
  pub append_child-last :
      (n : ℕ) (s : Ramfs v) (p a x : ℕ) (ys : List ℕ)
      → HasChildren s p (ys ++ (x ∷ []))
      → length ys < n
      → append_child v n p a s ≡ set_node v x (record (s.node x) { next = a }) s
  unfolding append_child
  append_child-last n s p a x ys has fuel =
      let nonempty : ((s.node p).children == 0) ≡ false =
        ground (arith, Linked-head (next_of s) (s.node p).children 0 x ys [] has.linked) in
      let at : last_child n s.node (s.node p).children ≡ x =
        last_child-last_link n s.node (s.node p).children
        ∙ last_link-last n (next_of s) (s.node p).children x ys fuel has.linked in
      rw (nonempty, at) refl

  HasChildren-last :
      (n : ℕ) (s : Ramfs v) (p a x : ℕ) (ys : List ℕ)
      → HasChildren s p (ys ++ (x ∷ []))
      → length ys < n
      → a ≢ 0
      → Avoids a (ys ++ (x ∷ []))
      → next_of s a ≡ 0
      → HasChildren (append_child v n p a s) p ((ys ++ (x ∷ [])) ++ (a ∷ []))
  HasChildren-last n s p a x ys has fuel na out end =
      let apart = (Distinct-append x ys [] has.distinct).0 in
      let other = (Avoids-append a x ys [] out).0 in
      let longer =
        Linked-append (next_of s) (s.node p).children x a ys has.linked apart na
          (λ e. other (sym e)) end in
      rw (append_child-last n s p a x ys has fuel) (
        relink s x a p ((ys ++ (x ∷ [])) ++ (a ∷ [])) longer
          (Distinct-last a (ys ++ (x ∷ [])) has.distinct out))

  module _ (n : ℕ) (s : Ramfs v) (p a : ℕ) (na : a ≢ 0) (end : next_of s a ≡ 0) where
    HasChildren-first : HasChildren s p [] → HasChildren (append_child v n p a s) p (a ∷ [])
    unfolding append_child
    HasChildren-first has =
        let empty : ((s.node p).children == 0) ≡ true = ground (arith, has.linked) in
        let kept = set_children-kept s p a a in
        rw empty (record { linked = (kept.1, na, kept.0 ∙ end); distinct = (tt, tt) })

    -- A node with no successor that is not among the children becomes the last of them.
    pub append_child-HasChildren :
        (xs : List ℕ)
        → HasChildren s p xs
        → length xs < n
        → Avoids a xs
        → HasChildren (append_child v n p a s) p (xs ++ (a ∷ []))
    append_child-HasChildren xs has fuel out = elim (last_view xs) [
      | inl e ↦
          subst (λ zs. HasChildren (append_child v n p a s) p (zs ++ (a ∷ []))) (sym e)
            (HasChildren-first (subst (HasChildren s p) e has))
      | inr (ys, x, e) ↦
          subst (λ zs. HasChildren (append_child v n p a s) p (zs ++ (a ∷ []))) (sym e)
            (HasChildren-last n s p a x ys (subst (HasChildren s p) e has)
              (omega (arith, ap length e, length-append ys (x ∷ []))) na (subst (Avoids a) e out)
              end)
    ]

  -- A child behind others is passed over by the link of the one before it.
  pub unlink_child-inner :
      (n : ℕ) (s : Ramfs v) (p a y : ℕ) (ys zs : List ℕ)
      → HasChildren s p ((ys ++ (y ∷ [])) ++ (a ∷ zs))
      → length ys < n
      → unlink_child v n p a s ≡ (true, set_node v y (record (s.node y) { next = next_of s a }) s)
  unfolding unlink_child
  unlink_child-inner n s p a y ys zs has fuel =
      let whole : Linked (next_of s) (s.node p).children (ys ++ (y ∷ a ∷ zs)) 0 =
        subst (λ us. Linked (next_of s) (s.node p).children us 0) (snoc-append ys y (a ∷ zs))
          has.linked in
      let (other, apart, _) =
        Avoids-append a y ys [] (Distinct-append a (ys ++ (y ∷ [])) zs has.distinct).0 in
      let inner : ((s.node p).children == a) ≡ false =
        ground
          (arith, head_not (next_of s) (s.node p).children 0 y a ys (a ∷ zs) whole apart other) in
      let at : before_child n s.node a (s.node p).children ≡ y =
        before_child-before_link n s.node a (s.node p).children
        ∙ before_link-before n (next_of s) (s.node p).children a y ys zs fuel whole apart other in
      let some_node : (y == 0) ≡ false =
        ground (arith, Linked-node (next_of s) (s.node p).children 0 y ys (a ∷ zs) whole) in
      rw (inner, at, some_node) refl

  HasChildren-unlink :
      (n : ℕ) (s : Ramfs v) (p a y : ℕ) (ys zs : List ℕ)
      → HasChildren s p ((ys ++ (y ∷ [])) ++ (a ∷ zs))
      → length ys < n
      → HasChildren (unlink_child v n p a s).1 p ((ys ++ (y ∷ [])) ++ zs)
  HasChildren-unlink n s p a y ys zs has fuel =
      let shorter =
        subst (λ us. Linked (update (next_of s) y (next_of s a)) (s.node p).children us 0)
          (sym (snoc-append ys y zs))
          (Linked-remove (next_of s) (s.node p).children a y ys zs
            (subst (λ us. Linked (next_of s) (s.node p).children us 0) (snoc-append ys y (a ∷ zs))
              has.linked)
            (subst Distinct (snoc-append ys y (a ∷ zs)) has.distinct)) in
      rw (unlink_child-inner n s p a y ys zs has fuel) (
        relink s y (next_of s a) p ((ys ++ (y ∷ [])) ++ zs) shorter
          (Distinct-remove a (ys ++ (y ∷ [])) zs has.distinct))

  module _ (n : ℕ) (s : Ramfs v) (p a : ℕ) where
    HasChildren-unlink_first :
        (zs : List ℕ) → HasChildren s p (a ∷ zs) → HasChildren (unlink_child v n p a s).1 p zs
    unfolding unlink_child
    HasChildren-unlink_first zs has =
        let here : ((s.node p).children == a) ≡ true = ground (arith, has.linked.0) in
        rw here (
          rechild s p (next_of s a) zs (Linked-tail (next_of s) (s.node p).children a zs has.linked)
            has.distinct.1)

    -- A child is taken out, and the others keep their order.
    pub unlink_child-HasChildren :
        (ys zs : List ℕ)
        → HasChildren s p (ys ++ (a ∷ zs))
        → length ys < n
        → HasChildren (unlink_child v n p a s).1 p (ys ++ zs)
    unlink_child-HasChildren ys zs has fuel = elim (last_view ys) [
      | inl e ↦
          subst (λ xs. HasChildren (unlink_child v n p a s).1 p (xs ++ zs)) (sym e)
            (HasChildren-unlink_first zs (subst (λ xs. HasChildren s p (xs ++ (a ∷ zs))) e has))
      | inr (xs, y, e) ↦
          subst (λ us. HasChildren (unlink_child v n p a s).1 p (us ++ zs)) (sym e)
            (HasChildren-unlink n s p a y xs zs
              (subst (λ us. HasChildren s p (us ++ (a ∷ zs))) e has)
              (omega (arith, ap length e, length-append xs (y ∷ []))))
    ]
