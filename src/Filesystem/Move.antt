-- ===== src/Filesystem/Move.antt =====
-- Moving a node to another directory: `ramfs_move` of kernel/src/filesystem/ramfs/ramfs.c.
use bethany.Prelude.{
  ℕ, ◌<◌, ◌≡◌, ◌≢◌, refl, List, [], ◌∷◌, ◌++◌, true, false, ◌||◌, arith, ◌==◌, sym, ◌∙◌, length,
}
use bethany.Tasks.Links.{Avoids}
use bethany.Tasks.Ends.{Linked-node, Distinct-append}
use bethany.Memory.Heap.{PageMapper}
use bethany.Filesystem.{Ramfs, set_node, append_child, unlink_child, ramfs_move}
use bethany.Filesystem.Directory.{
  Directory, Owned, Owned-Avoids, Owned-middle, keep_next, keep_parent, unlink_child-other,
  append_child-other, unlink_child-parent, Owned-map, unlink_child-found, Owned-reparent,
  Owned-adopt, Avoids-join,
}
use bethany.Filesystem.Files.{append_child-kept}
use bethany.Filesystem.Links.{
  HasChildren, next_of, unlink_child-HasChildren, append_child-HasChildren,
}

module _ (v : PageMapper) where
  -- From `s` to `s'` the node `a` goes from the directory `p`, where it stood between `ys` and `zs`, to
  -- the end of the directory `q`, and the other directories keep their children.
  pub record Moved (s : Ramfs v) (p q a : ℕ) (ys zs xs : List ℕ) (s' : Ramfs v) : Type 0 where
    pub left : Directory v s' p (ys ++ zs)
    pub arrived : Directory v s' q (xs ++ (a ∷ []))
    pub others : (c : ℕ) (us : List ℕ) → c ≢ p → c ≢ q → Directory v s c us → Directory v s' c us

  module _ (n : ℕ) (s : Ramfs v) (p q a : ℕ) (ys zs xs : List ℕ)
      (from : Directory v s p (ys ++ (a ∷ zs))) (to : Directory v s q xs) (apart : p ≢ q)
      (rounds : length ys < n) (more_rounds : length xs < n) where
    abbrev taken : Ramfs v
    taken = (unlink_child v n p a s).1

    abbrev loose : Ramfs v
    loose = set_node v a (record (taken.node a) { next = 0 }) taken

    abbrev added : Ramfs v
    added = append_child v n q a loose

    abbrev moved : Ramfs v
    moved = set_node v a (record (added.node a) { parent = q }) added

    mine : (s.node a).parent ≡ p
    mine = (Owned-middle v s p a ys zs from.owned).0

    loose-parent : (b : ℕ) → (loose.node b).parent ≡ (s.node b).parent
    loose-parent b =
        let kept = unlink_child-parent v n s p a ys zs from.listed rounds b in ground (arith, kept)

    -- A directory that does not hold `a`, when `a` has been taken out of `p`.
    loose-Directory :
        (c : ℕ) (us : List ℕ)
        → HasChildren v taken c us
        → Avoids a us
        → Owned v s c us
        → Directory v loose c us
    loose-Directory c us has out o = record {
      listed = keep_next v taken a c 0 us out has;
      owned = Owned-map v s loose c us loose-parent o;
    }

    -- A directory that does not hold `a`, at the end.
    moved-Directory :
        (c : ℕ) (us : List ℕ)
        → q ≢ c
        → Directory v loose q xs
        → Avoids a us
        → Directory v loose c us
        → Directory v moved c us
    moved-Directory c us ne to' out dir = record {
      listed =
          keep_parent v added a c q us
            (append_child-other v n loose q a c xs us to' more_rounds ne dir);
      owned =
          Owned-reparent v added a q c us out
            (Owned-map v loose added c us (λ b. (append_child-kept v n q a b loose).1) dir.owned);
    }

    moved-From : Avoids a xs → Directory v loose q xs → Directory v moved p (ys ++ zs)
    moved-From out to' =
        let (left, right) = Distinct-append a ys zs from.listed.distinct in
        let out' = Avoids-join v a ys zs left right in
        moved-Directory p (ys ++ zs) (λ e. apart (sym e)) to' out'
          (loose-Directory p (ys ++ zs)
            (unlink_child-HasChildren v n s p a ys zs from.listed rounds) out'
            (Owned-middle v s p a ys zs from.owned).1)

    moved-To : a ≢ 0 → Avoids a xs → Directory v loose q xs → Directory v moved q (xs ++ (a ∷ []))
    moved-To na out to' = record {
      listed =
          keep_parent v added a q q (xs ++ (a ∷ [])) (
            append_child-HasChildren v n loose q a na (ground arith) xs to'.listed more_rounds out);
      owned =
          Owned-adopt v added a q xs
            (Owned-map v loose added q xs (λ b. (append_child-kept v n q a b loose).1) to'.owned);
    }

    moved-Other :
        (c : ℕ) (us : List ℕ)
        → c ≢ p
        → c ≢ q
        → Directory v loose q xs
        → Directory v s c us
        → Directory v moved c us
    moved-Other c us cp cq to' dir =
        let out = Owned-Avoids v s c a us (λ e. cp (sym e ∙ mine)) dir.owned in
        moved-Directory c us (λ e. cq (sym e)) to' out
          (loose-Directory c us
            (unlink_child-other v n s p a c ys zs us from rounds (λ e. cp (sym e)) dir) out
            dir.owned)

    moved-Moved : Moved s p q a ys zs xs moved
    moved-Moved =
        let na = Linked-node (next_of v s) (s.node p).children 0 a ys zs from.listed.linked in
        let out = Owned-Avoids v s q a xs (λ e. apart (sym mine ∙ e)) to.owned in
        let to' =
          loose-Directory q xs (unlink_child-other v n s p a q ys zs xs from rounds apart to) out
            to.owned in
        record {
          left = moved-From out to';
          arrived = moved-To na out to';
          others = λ c us cp cq dir. moved-Other c us cp cq to' dir;
        }

    -- Moving a child `a` of the directory `p` to another directory `q`, where it is neither the root
    -- nor `q`, nor has `q` as its first child: `ramfs_move` succeeds, `a` leaves the children of `p`,
    -- whose others keep their order, and becomes the last child of `q`; every other directory keeps
    -- its children. There must be more rounds than children before `a` and children of `q`.
    pub ramfs_move_lem :
        p ≢ 0
        → q ≢ 0
        → a ≢ s.root
        → a ≢ q
        → (s.node a).children ≢ q
        → let (ok, s') = ramfs_move v n a q s in (ok ≡ true) × Moved s p q a ys zs xs s'
    unfolding ramfs_move
    ramfs_move_lem np nq nr ne first =
        let na = Linked-node (next_of v s) (s.node p).children 0 a ys zs from.listed.linked in
        let live : ((a == 0) || (q == 0) || (a == s.root) || (a == q)) ≡ false = ground arith in
        let some_parent : (p == 0) ≡ false = ground arith in
        let outside : ((s.node a).children == q) ≡ false = ground arith in
        rw (mine, live, some_parent, outside, unlink_child-found v n s p a ys zs from.listed rounds)
          (refl, moved-Moved)
