-- ===== src/Filesystem/Delete.antt =====
-- Deleting a directory with everything in it: `ramfs_delete` of kernel/src/filesystem/ramfs/ramfs.c.
use bethany.Prelude.{
  ℕ, zero, suc, ◌+◌, ◌<◌, ◌≡◌, ◌≢◌, refl, List, [], ◌∷◌, ◌++◌, true, false, ◌||◌, arith, ◌==◌,
  length, update, ◌∙◌, ap, sym,
}
use mathlib.Core.Path.{subst}
use native.Mathlib.Decide.{ℕ_discrete}
use bethany.Tasks.Links.{Linked}
use bethany.Memory.Heap.{PageMapper}
use bethany.Filesystem.{RamfsNode, Ramfs, set_node, unlink_child, ramfs_remove, ramfs_delete}
use bethany.Filesystem.Links.{HasChildren, next_of}
use bethany.Filesystem.Files.{ramfs_remove_lem}

-- The children of a directory, each with what is below it, and the children behind it.
pub data Forest : Type 0 where
  end : Forest
  entry : ℕ → Forest → Forest → Forest

abbrev pub size : Forest → ℕ
size end = 0
size (entry a below rest) = 1 + size below + size rest

abbrev pub Every : (ℕ → Type 0) → Forest → Type 0
Every P end = Unit
Every P (entry a below rest) = P a × Every P below × Every P rest

Every-zip :
    (P Q R : ℕ → Type 0) (f : Forest)
    → ((q : ℕ) → P q → Q q → R q)
    → Every P f
    → Every Q f
    → Every R f
Every-zip P Q R end h p q = tt
Every-zip P Q R (entry a below rest) h p q =
    (h a p.0 q.0, Every-zip P Q R below h p.1 q.1, Every-zip P Q R rest h p.2 q.2)

-- No node of the forest is `q`.
abbrev pub Misses : ℕ → Forest → Type 0
Misses q = Every (λ a. a ≢ q)

-- All nodes of the forest are different.
abbrev pub Different : Forest → Type 0
Different end = Unit
Different (entry a below rest) =
    Misses a below
    × Misses a rest
    × Every (λ q. Misses q below) rest
    × Different below
    × Different rest

module _ (v : PageMapper) where
  -- From `it` on stand the children of `p`: each has `p` as its parent and is not the root.
  abbrev pub IsForest : Ramfs v → ℕ → ℕ → Forest → Type 0
  IsForest s p it end = it ≡ 0
  IsForest s p it (entry a below rest) =
      (it ≡ a)
      × (a ≢ 0)
      × (a ≢ s.root)
      × ((s.node a).parent ≡ p)
      × IsForest s a (s.node a).children below
      × IsForest s p (s.node a).next rest

  IsForest-frame :
      (s s' : Ramfs v) (p it : ℕ) (f : Forest)
      → s'.root ≡ s.root
      → Every (λ q. s'.node q ≡ s.node q) f
      → IsForest s p it f
      → IsForest s' p it f
  IsForest-frame s s' p it end e same is = is
  IsForest-frame s s' p it (entry a below rest) e same is = (
    is.0,
    is.1,
    rw e is.2,
    rw same.0 is.3,
    rw same.0 (IsForest-frame s s' a (s.node a).children below e same.1 is.4),
    rw same.0 (IsForest-frame s s' p (s.node a).next rest e same.2 is.5),
  )

  -- Taking out a first child writes one field of its parent.
  remove_first :
      (n : ℕ) (s : Ramfs v) (p a : ℕ)
      → a ≢ 0
      → a ≢ s.root
      → (s.node a).children ≡ 0
      → (s.node a).parent ≡ p
      → p ≢ 0
      → (s.node p).children ≡ a
      → ramfs_remove v n a s ≡ set_node v p (record (s.node p) { children = (s.node a).next }) s
  unfolding ramfs_remove unlink_child
  remove_first n s p a na nr leaf up np first =
      let live : ((a == 0) || (a == s.root)) ≡ false = ground arith in
      let empty : ((s.node a).children == 0) ≡ true = ground arith in
      let child : ((s.node a).parent == 0) ≡ false = ground arith in
      let here : ((s.node p).children == a) ≡ true = ground arith in
      rw (live, empty, child, up, here) refl

  -- The calls below `a` are done: only the call that removes `a` itself is left, in a state `after`
  -- in which `a` has no children and the nodes outside are as before.
  record Emptied (n rounds : ℕ) (s : Ramfs v) (a : ℕ) (below : Forest) : Type 0 where
    after : Ramfs v
    runs : ramfs_delete v n rounds a s ≡ (true, ramfs_remove v n a after)
    same : after ≡ record s { node = after.node }
    empty : after.node a ≡ record (s.node a) { children = 0 }
    others : (q : ℕ) → q ≢ a → Misses q below → after.node q ≡ s.node q

  delete_leaf :
      (n r : ℕ) (s : Ramfs v) (a : ℕ)
      → a ≢ 0
      → (s.node a).children ≡ 0
      → ramfs_delete v n (suc r) a s ≡ (true, ramfs_remove v n a s)
  unfolding ramfs_delete
  delete_leaf n r s a na leaf =
      let some_node : (a == 0) ≡ false = ground arith in
      let none_left : ((s.node a).children == 0) ≡ true = ground arith in
      rw (some_node, none_left, ramfs_delete) refl

  delete_more :
      (n r : ℕ) (s : Ramfs v) (a c : ℕ)
      → a ≢ 0
      → c ≢ 0
      → (s.node a).children ≡ c
      → ramfs_delete v n (suc r) a s ≡ ramfs_delete v n r a (ramfs_delete v n r c s).1
  unfolding ramfs_delete
  delete_more n r s a c na nc first =
      let some_node : (a == 0) ≡ false = ground arith in
      let more : ((s.node a).children == 0) ≡ false = ground arith in
      rw (some_node, more, ramfs_delete)
        (ap (λ x. ramfs_delete v n r a (ramfs_delete v n r x s).1) first)

  -- What is left after the first child `c` of `a` was emptied and removed: `t` is the state before
  -- the removal.
  module _ (n : ℕ) (s t : Ramfs v) (a c : ℕ) (b rest : Forest)
      (is : IsForest s a (s.node a).children (entry c b rest)) (na : a ≢ 0)
      (out : Misses a (entry c b rest)) (diff : Different (entry c b rest))
      (same : t ≡ record s { node = t.node })
      (empty : t.node c ≡ record (s.node c) { children = 0 })
      (others : (q : ℕ) → q ≢ c → Misses q b → t.node q ≡ s.node q) where
    abbrev shorter : Ramfs v
    shorter = set_node v a (record (t.node a) { children = (t.node c).next }) t

    root_kept : t.root ≡ s.root
    root_kept = ap (λ (x : Ramfs v). x.root) same

    parent_kept : t.node a ≡ s.node a
    parent_kept = others a (λ e. out.0 (sym e)) out.1

    removed-shorter : ramfs_remove v n c t ≡ shorter
    removed-shorter =
        remove_first n t a c is.1 (λ e. is.2 (e ∙ root_kept))
          (ap (λ (x : RamfsNode). x.children) empty) (ap (λ (x : RamfsNode). x.parent) empty ∙ is.3)
          na (ap (λ (x : RamfsNode). x.children) parent_kept ∙ is.0)

    shorter-others : (q : ℕ) → q ≢ a → q ≢ c → Misses q b → shorter.node q ≡ s.node q
    shorter-others q na nc miss = ground (arith, others q nc miss)

    shorter-parent : shorter.node a ≡ record (s.node a) { children = (s.node c).next }
    shorter-parent =
        let here : update t.node a (record (t.node a) { children = (t.node c).next }) a
            ≡ record (t.node a) { children = (t.node c).next } =
          ground arith in
        here ∙ λ i. record (parent_kept i) { children = (empty i).next }

    untouched : Every (λ q. shorter.node q ≡ s.node q) rest
    untouched =
        Every-zip (λ q. (q ≢ a) × (q ≢ c)) (λ q. Misses q b) (λ q. shorter.node q ≡ s.node q) rest
          (λ q ne miss. shorter-others q ne.0 ne.1 miss)
          (Every-zip (λ q. q ≢ a) (λ q. q ≢ c) (λ q. (q ≢ a) × (q ≢ c)) rest (λ q x y. (x, y)) out.2
            diff.1)
          diff.2

    shorter-IsForest : IsForest shorter a (shorter.node a).children rest
    shorter-IsForest =
        rw (ap (λ (x : RamfsNode). x.children) shorter-parent)
          (IsForest-frame s shorter a (s.node c).next rest root_kept untouched is.5)

  ramfs_delete-Emptied :
      (n rounds : ℕ) (s : Ramfs v) (a : ℕ) (below : Forest)
      → size below < rounds
      → a ≢ 0
      → IsForest s a (s.node a).children below
      → Misses a below
      → Different below
      → Emptied n rounds s a below
  ramfs_delete-Emptied n zero s a below h na is out diff = absurd (omega arith)
  ramfs_delete-Emptied n (suc r) s a end h na is out diff = record {
    after = s;
    runs = delete_leaf n r s a na is;
    same = refl;
    empty = λ i. record (s.node a) { children = is i };
    others = λ q ne miss. refl;
  }
  ramfs_delete-Emptied n (suc r) s a (entry c b rest) h na is out diff =
      let one = ramfs_delete-Emptied n r s c b (omega arith) is.1 is.4 diff.0 diff.3 in
      let t = one.after in
      let s1 = shorter n s t a c b rest is na out diff one.same one.empty one.others in
      let gone : ramfs_delete v n r c s ≡ (true, s1) = one.runs ∙ λ i.
      (true, removed-shorter n s t a c b rest is na out diff one.same one.empty one.others i) in
      let at_a = shorter-parent n s t a c b rest is na out diff one.same one.empty one.others in
      let two =
        ramfs_delete-Emptied n r s1 a rest (omega arith) na
          (shorter-IsForest n s t a c b rest is na out diff one.same one.empty one.others) out.2
          diff.4 in
      record {
        after = two.after;
        runs =
            delete_more n r s a c na is.1 is.0 ∙ ap (λ x. ramfs_delete v n r a x.1) gone ∙ two.runs;
        same = two.same ∙ λ i. record (one.same i) { node = two.after.node };
        empty = two.empty ∙ λ i. record (at_a i) { children = 0 };
        others = λ q ne miss.
            two.others q ne miss.2
            ∙ shorter-others n s t a c b rest is na out diff one.same one.empty one.others q ne
                (λ e. miss.0 (sym e)) miss.1;
      }

-- No node of the list lies in the forest.
abbrev pub Beside : List ℕ → Forest → Type 0
Beside [] f = Unit
Beside (x ∷ xs) f = Misses x f × Beside xs f

Linked-agree :
    (link link' : ℕ → ℕ) (p q : ℕ) (xs : List ℕ) (f : Forest)
    → ((x : ℕ) → Misses x f → link' x ≡ link x)
    → Beside xs f
    → Linked link p xs q
    → Linked link' p xs q
Linked-agree link link' p q [] f same beside l = l
Linked-agree link link' p q (x ∷ xs) f same beside l =
    (l.0, l.1, rw (same x beside.0) (Linked-agree link link' (link x) q xs f same beside.1 l.2))

module _ (v : PageMapper) (n rounds : ℕ) (s : Ramfs v) (p a : ℕ) (ys zs : List ℕ)
    (below : Forest) where
  -- `ramfs_delete` of a child of `p` that is not the root, with everything below it, ends: with more
  -- rounds than there are nodes below it returns true, the node is no longer among the children of
  -- `p`, and the others keep their order. The nodes below are all different, none of them is `p` or a
  -- child of `p`, and the walk along those children has rounds enough.
  pub ramfs_delete_lem :
      size below < rounds
      → a ≢ 0
      → a ≢ s.root
      → (s.node a).parent ≡ p
      → p ≢ 0
      → p ≢ a
      → IsForest v s a (s.node a).children below
      → Different below
      → Misses p below
      → HasChildren v s p (ys ++ (a ∷ zs))
      → Beside (ys ++ (a ∷ zs)) below
      → Misses a below
      → length ys < n
      → let (done, s') = ramfs_delete v n rounds a s in
        (done ≡ true) × HasChildren v s' p (ys ++ zs)
  ramfs_delete_lem h na nr up np other is diff miss has beside out fuel =
      let e = ramfs_delete-Emptied v n rounds s a below h na is out diff in
      let t = e.after in
      let root : t.root ≡ s.root = ap (λ (x : Ramfs v). x.root) e.same in
      let link : (x : ℕ) → Misses x below → (t.node x).next ≡ (s.node x).next = λ x away.
        elim (ℕ_discrete x a) [
          | yes same ↦ rw same (ap (λ (y : RamfsNode). y.next) e.empty)
          | no ne ↦ ap (λ (y : RamfsNode). y.next) (e.others x ne away)
        ] in
      let has' : HasChildren v t p (ys ++ (a ∷ zs)) = record {
        linked =
            subst (λ c. Linked (next_of v t) c (ys ++ (a ∷ zs)) 0)
              (sym (ap (λ (y : RamfsNode). y.children) (e.others p other miss)))
              (Linked-agree (next_of v s) (next_of v t) (s.node p).children 0 (ys ++ (a ∷ zs)) below
                link beside has.linked);
        distinct = has.distinct;
      } in
      rw e.runs (
        refl,
        ramfs_remove_lem v n t p a ys zs na (λ q. nr (q ∙ root))
            (ap (λ (y : RamfsNode). y.children) e.empty)
            (ap (λ (y : RamfsNode). y.parent) e.empty ∙ up) np has' fuel,
      )
