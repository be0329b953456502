-- ===== src/Filesystem/Files.antt =====
-- Creating, removing and reading nodes in kernel/src/filesystem/ramfs/ramfs.c.
use bethany.Prelude.{
  ℕ, ◌+◌, ◌-◌, ◌<◌, ◌≤◌, ◌≡◌, ◌≢◌, ◌⊎◌, inl, inr, refl, List, [], ◌∷◌, ◌++◌, true, false, ◌||◌,
  arith, ◌==◌, leb, ltb, if◌then◌else◌, length, Bool-cases,
}
use bethany.Memory.Heap.{PageMapper}
use bethany.Memory.Heap.Alloc
use bethany.Text.Strings.{memcpy}
use bethany.Text.Strings.Laws.{memcpy_lem, Outside}
use bethany.Filesystem.{
  FsNodeType, is_directory, RamfsNode, Ramfs, set_node, node_size, allocate, duplicate,
  append_child, ramfs_remove, ramfs_read,
}
use bethany.Filesystem.Links.{HasChildren, unlink_child-HasChildren}

module _ (v : PageMapper) (n : ℕ) (s : Ramfs v) where
  -- Removing a child that is not the root and has no children itself takes it out of its parent's
  -- children, and the others keep their order.
  pub ramfs_remove_lem :
      (p a : ℕ) (ys zs : List ℕ)
      → a ≢ 0
      → a ≢ s.root
      → (s.node a).children ≡ 0
      → (s.node a).parent ≡ p
      → p ≢ 0
      → HasChildren v s p (ys ++ (a ∷ zs))
      → length ys < n
      → HasChildren v (ramfs_remove v n a s) p (ys ++ zs)
  unfolding ramfs_remove
  ramfs_remove_lem p a ys zs na nr leaf up np has fuel =
      let live : ((a == 0) || (a == s.root)) ≡ false = ground arith in
      let empty : ((s.node a).children == 0) ≡ true = ground arith in
      let child : ((s.node a).parent == 0) ≡ false = ground arith in
      rw (live, empty, child, up) (unlink_child-HasChildren v n s p a ys zs has fuel)

  -- A node with children is not removed, and neither are the root and null.
  pub ramfs_remove-kept :
      (a : ℕ) → (a ≡ 0) ⊎ (a ≡ s.root) ⊎ ((s.node a).children ≢ 0) → ramfs_remove v n a s ≡ s
  unfolding ramfs_remove
  ramfs_remove-kept a why = ground arith

  -- The bytes that `ramfs_read` copies: what was asked for and is there.
  abbrev pub readable : ℕ → ℕ → ℕ → ℕ
  readable a size offset =
      if (a == 0) || is_directory (s.node a).type
      then 0
      else if ltb ((s.node a).size - offset) size
      then (s.node a).size - offset
      else size

  ramfs_read-readable :
      (a buffer size offset : ℕ)
      → ramfs_read v n a buffer size offset s ≡ (
        readable a size offset,
        record s {
          bytes = memcpy s.bytes buffer ((s.node a).contents + offset) (readable a size offset);
        },
      )
  unfolding ramfs_read memcpy
  ramfs_read-readable a buffer size offset = elim (Bool-cases (a == 0)) [
    | inl null ↦ rw null refl
    | inr some_node ↦ elim (Bool-cases (is_directory (s.node a).type)) [
      | inl dir ↦ rw (some_node, dir) refl
      | inr file ↦ elim (Bool-cases (leb (s.node a).size offset)) [
        | inl beyond ↦
            let nothing : (if ltb ((s.node a).size - offset) size
                  then (s.node a).size - offset
                  else size)
                ≡ 0 =
              ground arith in
            rw (some_node, file, beyond, nothing) refl
        | inr inside ↦ rw (some_node, file, inside) refl
      ]
    ]
  ]

  -- `ramfs_read` to a buffer that does not overlap the file's data copies what was asked for, cut at
  -- the end of the file, and nothing for null or a directory. It changes no other byte and nothing
  -- else, and returns the number of bytes.
  pub ramfs_read_lem :
      (a buffer size offset : ℕ)
      → ((buffer + size ≤ (s.node a).contents + offset)
          ⊎ ((s.node a).contents + offset + size ≤ buffer))
      → let (count, s') = ramfs_read v n a buffer size offset s in
        (count ≡ readable a size offset)
        × ((i : ℕ) → i < count → s'.bytes (buffer + i) ≡ s.bytes ((s.node a).contents + offset + i))
        × ((x : ℕ) → Outside buffer count x → s'.bytes x ≡ s.bytes x)
        × (s' ≡ record s { bytes = s'.bytes })
  ramfs_read_lem a buffer size offset apart =
      let short : readable a size offset ≤ size = ground arith in
      let (copied, kept) =
        memcpy_lem s.bytes buffer ((s.node a).contents + offset) (readable a size offset)
          (elim apart [ inl h ↦ inl (omega arith) | inr h ↦ inr (omega arith) ]) in
      rw (ramfs_read-readable a buffer size offset) (refl, copied, kept, refl)

-- All nodes lie below `end`.
abbrev pub Below : ℕ → List ℕ → Type 0
Below end [] = Unit
Below end (x ∷ xs) = (x < end) × Below end xs

module _ (v : PageMapper) where
  -- Adding a child changes no node's type and parent.
  pub append_child-kept :
      (n p a q : ℕ) (s : Ramfs v)
      → (((append_child v n p a s).node q).type ≡ (s.node q).type)
        × (((append_child v n p a s).node q).parent ≡ (s.node q).parent)
  unfolding append_child
  append_child-kept n p a q s = elim (Bool-cases ((s.node p).children == 0)) [
    | inl e ↦ rw e (ground arith)
    | inr e ↦ rw e (ground arith)
  ]

  -- A page is refused that a new node needs.
  abbrev pub NoNode : Ramfs v → Type 0
  NoNode s = Alloc.NoMemory v (s.heap.heap_current + node_size + 16) s.heap.heap_end s.space

  -- `a` is a new last child of `p`; or a page was refused that the new node needs, and the nodes are as
  -- before.
  abbrev pub Creates : Ramfs v → ℕ → List ℕ → FsNodeType → ℕ × Ramfs v → Type 0
  Creates s p xs type (a, s') =
      ((a ≡ 0) × (s'.node ≡ s.node) × NoNode s)
      ⊎ ((a ≢ 0)
          × HasChildren v s' p (xs ++ (a ∷ []))
          × ((s'.node a).type ≡ type)
          × ((s'.node a).parent ≡ p))

  module _ (n : ℕ) (s : Ramfs v) (p name : ℕ) (type : FsNodeType) (xs : List ℕ) where
    abbrev fresh : ℕ × Ramfs v
    fresh = allocate v n node_size s

    abbrev named : ℕ × Ramfs v
    named = duplicate v n name fresh.1

    abbrev new_node : RamfsNode
    new_node = record {
      name = named.0;
      type = type;
      contents = 0;
      size = 0;
      parent = p;
      children = 0;
      next = 0;
    }

    abbrev created : ℕ × Ramfs v
    created =
        if fresh.0 == 0
        then (0, fresh.1)
        else (fresh.0, append_child v n p fresh.0 (set_node v fresh.0 new_node named.1))
