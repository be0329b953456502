-- ===== src/Filesystem/Directory.antt =====
-- Directories of kernel/src/filesystem/ramfs/ramfs.c, with the links in both directions, and what
-- linking and unlinking a node leaves alone.
use bethany.Prelude.{
  ℕ, ◌<◌, ◌≡◌, ◌≢◌, ◌⊎◌, inl, inr, refl, List, [], ◌∷◌, ◌++◌, true, arith, ◌==◌, ap, sym, ◌∙◌,
  length, length-append,
}
use mathlib.Core.Path.{subst, fun_ext}
use bethany.Tasks.Links.{Linked, Avoids, Linked-frame}
use bethany.Tasks.Ends.{last_view}
use bethany.Memory.Heap.{PageMapper}
use bethany.Filesystem.{Ramfs, set_node, append_child, unlink_child}
use bethany.Filesystem.Links.{HasChildren, next_of, unlink_child-inner, append_child-last}

module _ (v : PageMapper) where
  -- The nodes name `p` as their parent.
  abbrev pub Owned : Ramfs v → ℕ → List ℕ → Type 0
  Owned s p [] = Unit
  Owned s p (x ∷ xs) = ((s.node x).parent ≡ p) × Owned s p xs

  -- The links to the children, and the links back.
  pub record Directory (s : Ramfs v) (p : ℕ) (xs : List ℕ) : Type 0 where
    pub listed : HasChildren v s p xs
    pub owned : Owned s p xs

  pub Owned-Avoids :
      (s : Ramfs v) (p a : ℕ) (xs : List ℕ) → (s.node a).parent ≢ p → Owned s p xs → Avoids a xs
  Owned-Avoids s p a [] other o = tt
  Owned-Avoids s p a (x ∷ xs) other o =
      ((λ e. other (ap (λ q. (s.node q).parent) (sym e) ∙ o.0)), Owned-Avoids s p a xs other o.1)

  pub Owned-middle :
      (s : Ramfs v) (p a : ℕ) (ys zs : List ℕ)
      → Owned s p (ys ++ (a ∷ zs))
      → ((s.node a).parent ≡ p) × Owned s p (ys ++ zs)
  Owned-middle s p a [] zs o = o
  Owned-middle s p a (y ∷ ys) zs o =
      let (at, rest) = Owned-middle s p a ys zs o.1 in (at, (o.0, rest))

  -- Unlinking writes the link of one child, or the parent's pointer to the first.
  unlink_view :
      (n : ℕ) (s : Ramfs v) (p a : ℕ) (ys zs : List ℕ)
      → HasChildren v s p (ys ++ (a ∷ zs))
      → length ys < n
      → (unlink_child v n p a s
          ≡ (true, set_node v p (record (s.node p) { children = next_of v s a }) s))
        ⊎ ((us : List ℕ) × (y : ℕ) × (ys ≡ us ++ (y ∷ []))
            × (unlink_child v n p a s
                ≡ (true, set_node v y (record (s.node y) { next = next_of v s a }) s)))
  unfolding unlink_child
  unlink_view n s p a ys zs has fuel = elim (last_view ys) [
    | inl e ↦
        let first = subst (λ us. HasChildren v s p (us ++ (a ∷ zs))) e has in
        let here : ((s.node p).children == a) ≡ true = ground (arith, first.linked.0) in
        inl (rw here refl)
    | inr (us, y, e) ↦ inr (
      us,
      y,
      e,
      unlink_child-inner v n s p a y us zs (subst (λ us. HasChildren v s p (us ++ (a ∷ zs))) e has)
          (omega (arith, ap length e, length-append us (y ∷ []))),
    )
  ]

  append_view :
      (n : ℕ) (s : Ramfs v) (p a : ℕ) (xs : List ℕ)
      → HasChildren v s p xs
      → length xs < n
      → (append_child v n p a s ≡ set_node v p (record (s.node p) { children = a }) s)
        ⊎ ((us : List ℕ) × (x : ℕ) × (xs ≡ us ++ (x ∷ []))
            × (append_child v n p a s ≡ set_node v x (record (s.node x) { next = a }) s))
  unfolding append_child
  append_view n s p a xs has fuel = elim (last_view xs) [
    | inl e ↦
        let none_yet = subst (HasChildren v s p) e has in
        let here : ((s.node p).children == 0) ≡ true = ground (arith, none_yet.linked) in
        inl (rw here refl)
    | inr (us, x, e) ↦ inr (
      us,
      x,
      e,
      append_child-last v n s p a x us (subst (HasChildren v s p) e has)
          (omega (arith, ap length e, length-append us (x ∷ []))),
    )
  ]

  -- The children of a node survive writes that spare the links among them.
  spared :
      (s s' : Ramfs v) (q a : ℕ) (xs : List ℕ)
      → ((b : ℕ) → b ≢ a → next_of v s' b ≡ next_of v s b)
      → (s'.node q).children ≡ (s.node q).children
      → Avoids a xs
      → HasChildren v s q xs
      → HasChildren v s' q xs
  spared s s' q a xs same first out has = record {
    linked =
        subst (λ c. Linked (next_of v s') c xs 0) (sym first)
          (Linked-frame (next_of v s) (next_of v s') (s.node q).children 0 a xs same out
            has.linked);
    distinct = has.distinct;
  }

  unlinked :
      (s s' : Ramfs v) (q : ℕ) (xs : List ℕ)
      → ((b : ℕ) → next_of v s' b ≡ next_of v s b)
      → (s'.node q).children ≡ (s.node q).children
      → HasChildren v s q xs
      → HasChildren v s' q xs
  unlinked s s' q xs same first has = record {
    linked =
        subst (λ c. Linked (next_of v s') c xs 0) (sym first)
          (subst (λ f. Linked f (s.node q).children xs 0) (fun_ext λ b. sym (same b)) has.linked);
    distinct = has.distinct;
  }

  keep_children :
      (s : Ramfs v) (p q c : ℕ) (xs : List ℕ)
      → p ≢ q
      → HasChildren v s q xs
      → HasChildren v (set_node v p (record (s.node p) { children = c }) s) q xs
  keep_children s p q c xs ne has =
      unlinked s (set_node v p (record (s.node p) { children = c }) s) q xs (λ b. ground arith)
        (ground arith) has

  pub keep_next :
      (s : Ramfs v) (y q c : ℕ) (xs : List ℕ)
      → Avoids y xs
      → HasChildren v s q xs
      → HasChildren v (set_node v y (record (s.node y) { next = c }) s) q xs
  keep_next s y q c xs out has =
      spared s (set_node v y (record (s.node y) { next = c }) s) q y xs (λ b ne. ground arith)
        (ground arith) out has

  pub keep_parent :
      (s : Ramfs v) (a q p : ℕ) (xs : List ℕ)
      → HasChildren v s q xs
      → HasChildren v (set_node v a (record (s.node a) { parent = p }) s) q xs
  keep_parent s a q p xs has =
      unlinked s (set_node v a (record (s.node a) { parent = p }) s) q xs (λ b. ground arith)
        (ground arith) has

  Owned-last :
      (s : Ramfs v) (p x : ℕ) (us : List ℕ) → Owned s p (us ++ (x ∷ [])) → (s.node x).parent ≡ p
  Owned-last s p x us o = (Owned-middle s p x us [] o).0

  Owned-front : (s : Ramfs v) (p : ℕ) (ys zs : List ℕ) → Owned s p (ys ++ zs) → Owned s p ys
  Owned-front s p [] zs o = tt
  Owned-front s p (y ∷ ys) zs o = (o.0, Owned-front s p ys zs o.1)

  -- Another directory keeps its children when one is taken out of `p`.
  pub unlink_child-other :
      (n : ℕ) (s : Ramfs v) (p a q : ℕ) (ys zs xs : List ℕ)
      → Directory s p (ys ++ (a ∷ zs))
      → length ys < n
      → p ≢ q
      → Directory s q xs
      → HasChildren v (unlink_child v n p a s).1 q xs
  unlink_child-other n s p a q ys zs xs from fuel ne to =
      elim (unlink_view n s p a ys zs from.listed fuel) [
        | inl e ↦ rw e (keep_children s p q (next_of v s a) xs ne to.listed)
        | inr (us, y, at, e) ↦
            let mine =
              Owned-last s p y us (subst (Owned s p) at (Owned-front s p ys (a ∷ zs) from.owned)) in
            rw e (
              keep_next s y q (next_of v s a) xs
                (Owned-Avoids s q y xs (λ h. ne (sym mine ∙ h)) to.owned) to.listed)
      ]

  -- Another directory keeps its children when one is added to `q`.
  pub append_child-other :
      (n : ℕ) (s : Ramfs v) (q a c : ℕ) (xs us : List ℕ)
      → Directory s q xs
      → length xs < n
      → q ≢ c
      → Directory s c us
      → HasChildren v (append_child v n q a s) c us
  append_child-other n s q a c xs us to fuel ne other =
      elim (append_view n s q a xs to.listed fuel) [
        | inl e ↦ rw e (keep_children s q c a us ne other.listed)
        | inr (ws, x, at, e) ↦
            let mine = Owned-last s q x ws (subst (Owned s q) at to.owned) in
            rw e (
              keep_next s x c a us (Owned-Avoids s c x us (λ h. ne (sym mine ∙ h)) other.owned)
                other.listed)
      ]

  pub unlink_child-parent :
      (n : ℕ) (s : Ramfs v) (p a : ℕ) (ys zs : List ℕ)
      → HasChildren v s p (ys ++ (a ∷ zs))
      → length ys < n
      → (b : ℕ) → ((unlink_child v n p a s).1.node b).parent ≡ (s.node b).parent
  unlink_child-parent n s p a ys zs has fuel b = elim (unlink_view n s p a ys zs has fuel) [
    | inl e ↦ rw e (ground arith)
    | inr (us, y, at, e) ↦ rw e (ground arith)
  ]

  pub Owned-map :
      (s s' : Ramfs v) (p : ℕ) (xs : List ℕ)
      → ((b : ℕ) → (s'.node b).parent ≡ (s.node b).parent)
      → Owned s p xs
      → Owned s' p xs
  Owned-map s s' p [] same o = tt
  Owned-map s s' p (x ∷ xs) same o = (same x ∙ o.0, Owned-map s s' p xs same o.1)

  pub unlink_child-found :
      (n : ℕ) (s : Ramfs v) (p a : ℕ) (ys zs : List ℕ)
      → HasChildren v s p (ys ++ (a ∷ zs))
      → length ys < n
      → (unlink_child v n p a s).0 ≡ true
  unlink_child-found n s p a ys zs has fuel = elim (unlink_view n s p a ys zs has fuel) [
    | inl e ↦ rw e refl
    | inr (us, y, at, e) ↦ rw e refl
  ]

  -- The node `a` without parent: a directory that does not name it stays one.
  pub Owned-reparent :
      (s : Ramfs v) (a q p : ℕ) (xs : List ℕ)
      → Avoids a xs
      → Owned s p xs
      → Owned (set_node v a (record (s.node a) { parent = q }) s) p xs
  Owned-reparent s a q p [] out o = tt
  Owned-reparent s a q p (x ∷ xs) out o =
      (ground (arith, o.0, out.0), Owned-reparent s a q p xs out.1 o.1)

  pub Owned-adopt :
      (s : Ramfs v) (a q : ℕ) (xs : List ℕ)
      → Owned s q xs
      → Owned (set_node v a (record (s.node a) { parent = q }) s) q (xs ++ (a ∷ []))
  Owned-adopt s a q [] o = (ground arith, tt)
  Owned-adopt s a q (x ∷ xs) o = (ground (arith, o.0), Owned-adopt s a q xs o.1)

  pub Avoids-join : (a : ℕ) (ys zs : List ℕ) → Avoids a ys → Avoids a zs → Avoids a (ys ++ zs)
  Avoids-join a [] zs l r = r
  Avoids-join a (y ∷ ys) zs l r = (l.0, Avoids-join a ys zs l.1 r)
