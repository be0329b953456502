-- ===== src/Filesystem/Copy.antt =====
-- Copying a file or a directory: `ramfs_copy` of kernel/src/filesystem/ramfs/ramfs.c.
use bethany.Prelude.{ℕ, zero, suc, ◌+◌, true, false, ◌||◌, ◌==◌, if◌then◌else◌, update}
use bethany.Memory.Heap.{PageMapper}
use bethany.Text.Strings.{strlen, memcpy}
use bethany.Filesystem.{
  is_directory, Ramfs, set_node, allocate, ramfs_find, ramfs_create, ramfs_delete,
}

-- `n` bounds the rounds of the loops of the other functions. `suffix` is the address of the constant
-- "_copy", and `new_name` gives the address of the array of that name on the stack, which every call
-- has its own of; the calls are told apart by the rounds that are left.
module _ (v : PageMapper) (n suffix : ℕ) (new_name : ℕ → ℕ) where
  -- The name of the copy and the memory: a name that is taken gets the suffix.
  unfoldable pub copy_name : ℕ → ℕ → ℕ → Ramfs v → ℕ × Ramfs v
  copy_name at node new_parent s =
      let name = (s.node node).name in
      let len = strlen n s.bytes name in
      let copied = memcpy (memcpy s.bytes at name len) (at + len) suffix 5 in
      if ramfs_find v n new_parent name s == 0
      then (name, s)
      else (at, record s { bytes = update copied (at + len + 5) 0 })

  -- The contents of the file `node` in the new file `copy`.
  unfoldable pub copy_contents : ℕ → ℕ → ℕ → Ramfs v → ℕ × Ramfs v
  copy_contents rounds node copy s =
      let size = (s.node node).size in
      let (p, s1) = allocate v n size s in
      let s2 = set_node v copy (record (s1.node copy) { contents = p }) s1 in
      let s3 = record s2 { bytes = memcpy s2.bytes p (s2.node node).contents size } in
      if size == 0
      then (copy, s)
      else if p == 0
      then (0, (ramfs_delete v n rounds copy s2).1)
      else (copy, set_node v copy (record (s3.node copy) { size = size }) s3)

  unfoldable mutual
    pub ramfs_copy : ℕ → ℕ → ℕ → Ramfs v → ℕ × Ramfs v
    ramfs_copy zero node new_parent s = (0, s)
    ramfs_copy (suc r) node new_parent s =
        let (name, s1) = copy_name (new_name r) node new_parent s in
        let (copy, s2) = ramfs_create v n new_parent name (s1.node node).type s1 in
        elim ((node == 0) || (new_parent == 0)) [
          | true ↦ (0, s)
          | false ↦ elim (copy == 0) [
            | true ↦ (0, s2)
            | false ↦ elim (is_directory (s2.node node).type) [
              | false ↦ copy_contents r node copy s2
              | true ↦ (copy, copy_children r (s2.node node).children copy s2)
            ]
          ]
        ]

    -- `while(child){ ramfs_copy(child, copy); child = child->next; }`
    pub copy_children : ℕ → ℕ → ℕ → Ramfs v → Ramfs v
    copy_children zero child copy s = s
    copy_children (suc r) child copy s = elim (child == 0) [
      | true ↦ s
      | false ↦
          let s1 = (ramfs_copy r child copy s).1 in copy_children r (s1.node child).next copy s1
    ]
