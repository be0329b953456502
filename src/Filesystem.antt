-- ===== src/Filesystem.antt =====
-- The file system in memory, kernel/src/filesystem/ramfs/ramfs.c. A node is named by its address, 0
-- for null, and `node` is the memory that holds the nodes; names and data are bytes of memory. In the
-- section, `n` bounds the rounds of every loop, and of the calls that functions make of themselves.
pub mod Contents
pub mod Copy
pub mod Directory
pub mod Delete
pub mod Files
pub mod Links
pub mod Move
mod Tests
use bethany.Prelude.{
  ℕ, zero, suc, ◌+◌, ◌-◌, Bool, true, false, not, ◌&&◌, ◌||◌, leb, ltb, ◌==◌, if◌then◌else◌, update,
  wrap64,
}
use bethany.Memory.Heap.{PageMapper, Heap, kmalloc}
use bethany.Text.Strings.{strlen, strcmp, strdup, memcpy}

pub data FsNodeType : Type 0 where
  fs_file fs_directory : FsNodeType

abbrev pub is_directory : FsNodeType → Bool
is_directory fs_directory = true
is_directory fs_file = false

pub record RamfsNode : Type 0 where
  pub name : ℕ
  pub type : FsNodeType
  pub contents : ℕ
  pub size : ℕ
  pub parent : ℕ
  pub children : ℕ
  pub next : ℕ

-- `sizeof(ramfs_node_t)`
abbrev pub node_size : ℕ
node_size = 56

-- `while(it->next) it = it->next`
unfoldable pub last_child : ℕ → (ℕ → RamfsNode) → ℕ → ℕ
last_child zero node it = it
last_child (suc n) node it =
    let rest = last_child n node (node it).next in if (node it).next == 0 then it else rest

-- `while(it && it->next != node) it = it->next`
unfoldable pub before_child : ℕ → (ℕ → RamfsNode) → ℕ → ℕ → ℕ
before_child zero nodes node it = it
before_child (suc n) nodes node it =
    let rest = before_child n nodes node (nodes it).next in
    if it == 0 then 0 else if (nodes it).next == node then it else rest

module _ (v : PageMapper) where
  pub record Ramfs : Type 0 where
    pub node : ℕ → RamfsNode
    pub root : ℕ
    pub bytes : ℕ → ℕ
    pub heap : Heap
    pub space : v.Space

  -- `*p = x`
  abbrev pub set_node : ℕ → RamfsNode → Ramfs → Ramfs
  set_node p x s = record s { node = update s.node p x }

  module _ (n : ℕ) where
    unfoldable pub allocate : ℕ → Ramfs → ℕ × Ramfs
    allocate size s =
        let (p, heap, space) = kmalloc v n size s.heap s.space in
        (p, record s { heap = heap; space = space })

    unfoldable pub duplicate : ℕ → Ramfs → ℕ × Ramfs
    duplicate str s =
        let (p, bytes, heap, space) = strdup v n str s.bytes s.heap s.space in
        (p, record s { bytes = bytes; heap = heap; space = space })

    -- `slash` is the address of the constant "/".
    unfoldable pub ramfs_init : ℕ → Ramfs → Ramfs
    ramfs_init slash s =
        let (p, s1) = allocate node_size s in
        let (name, s2) = duplicate slash s1 in
        if p == 0
        then record s1 { root = 0 }
        else set_node p
            (record {
              name = name;
              type = fs_directory;
              contents = 0;
              size = 0;
              parent = 0;
              children = 0;
              next = 0;
            })
            (record s2 { root = p })

    unfoldable pub ramfs_root : Ramfs → ℕ
    ramfs_root s = s.root

    -- The loop of `ramfs_find`.
    unfoldable pub find_loop : ℕ → ℕ → ℕ → Ramfs → ℕ
    find_loop zero it name s = 0
    find_loop (suc k) it name s =
        let rest = find_loop k (s.node it).next name s in
        if it == 0 then 0 else if strcmp n s.bytes (s.node it).name name == 0 then it else rest

    unfoldable pub ramfs_find : ℕ → ℕ → Ramfs → ℕ
    ramfs_find parent name s =
        if parent == 0 then 0 else find_loop n (s.node parent).children name s

    unfoldable pub ramfs_exists : ℕ → ℕ → Ramfs → Bool
    ramfs_exists parent name s = not (ramfs_find parent name s == 0)

    -- The end of `ramfs_create` and of `ramfs_move`: `node` becomes the last child.
    unfoldable pub append_child : ℕ → ℕ → Ramfs → Ramfs
    append_child parent node s =
        let first = (s.node parent).children in
        let last = last_child n s.node first in
        if first == 0
        then set_node parent (record (s.node parent) { children = node }) s
        else set_node last (record (s.node last) { next = node }) s

    unfoldable pub ramfs_create : ℕ → ℕ → FsNodeType → Ramfs → ℕ × Ramfs
    ramfs_create parent name type s =
        let (p, s1) = allocate node_size s in
        let (copy, s2) = duplicate name s1 in
        if parent == 0
        then (0, s)
        else if not (is_directory (s.node parent).type)
        then (0, s)
        else if not (ramfs_find parent name s == 0)
        then (0, s)
        else if p == 0
        then (0, s1)
        else (
          p,
          append_child parent p (
              set_node p
                (record {
                  name = copy;
                  type = type;
                  contents = 0;
                  size = 0;
                  parent = parent;
                  children = 0;
                  next = 0;
                })
                s2),
        )

    unfoldable pub ramfs_mkdir : ℕ → ℕ → Ramfs → ℕ × Ramfs
    ramfs_mkdir parent name s = ramfs_create parent name fs_directory s

    -- What `ramfs_remove` and `ramfs_move` do to the children of `parent`: `node` is taken out. False
    -- if it is not among them.
    unfoldable pub unlink_child : ℕ → ℕ → Ramfs → Bool × Ramfs
    unlink_child parent node s =
        let first = (s.node parent).children in
        let it = before_child n s.node node first in
        if first == node
        then (true, set_node parent (record (s.node parent) { children = (s.node node).next }) s)
        else if it == 0
        then (false, s)
        else (true, set_node it (record (s.node it) { next = (s.node node).next }) s)

    -- Freeing the name, the data and the node does nothing.
    unfoldable pub ramfs_remove : ℕ → Ramfs → Ramfs
    ramfs_remove node s =
        if node == 0 || node == s.root
        then s
        else if not ((s.node node).children == 0)
        then s
        else if (s.node node).parent == 0
        then s
        else (unlink_child (s.node node).parent node s).1

    unfoldable pub ramfs_read : ℕ → ℕ → ℕ → ℕ → Ramfs → ℕ × Ramfs
    ramfs_read node buffer size offset s =
        let file = s.node node in
        let remaining = file.size - offset in
        let count = if ltb remaining size then remaining else size in
        if node == 0
        then (0, s)
        else if is_directory file.type
        then (0, s)
        else if leb file.size offset
        then (0, s)
        else (count, record s { bytes = memcpy s.bytes buffer (file.contents + offset) count })

    unfoldable pub ramfs_write : ℕ → ℕ → ℕ → Ramfs → Bool × Ramfs
    ramfs_write node buffer size s =
        let (p, s1) = allocate size s in
        let s2 = set_node node (record (s1.node node) { contents = p }) s1 in
        let s3 = record s2 { bytes = memcpy s2.bytes p buffer size } in
        if node == 0
        then (false, s)
        else if is_directory (s.node node).type
        then (false, s)
        else if p == 0
        then (false, s2)
        else (true, set_node node (record (s3.node node) { size = size }) s3)

    unfoldable pub ramfs_rename : ℕ → ℕ → Ramfs → Bool × Ramfs
    ramfs_rename node new_name s =
        let (copy, s1) = duplicate new_name s in
        let s2 = set_node node (record (s1.node node) { name = copy }) s1 in
        if node == 0
        then (false, s)
        else if not (ramfs_find (s.node node).parent new_name s == 0)
        then (false, s)
        else (not (copy == 0), s2)

    unfoldable pub ramfs_move : ℕ → ℕ → Ramfs → Bool × Ramfs
    ramfs_move node new_parent s =
        let (found, s1) = unlink_child (s.node node).parent node s in
        let s2 = set_node node (record (s1.node node) { next = 0 }) s1 in
        let s3 = append_child new_parent node s2 in
        if node == 0 || new_parent == 0 || node == s.root || node == new_parent
        then (false, s)
        else if (s.node node).parent == 0
        then (false, s)
        else if (s.node node).children == new_parent
        then (false, s)
        else if not found
        then (false, s)
        else (true, set_node node (record (s3.node node) { parent = new_parent }) s3)

    -- `while(node->children) ramfs_delete(node->children)`, then `ramfs_remove(node)`: `rounds` counts
    -- the calls and the rounds of the loop on the way to a node.
    unfoldable pub ramfs_delete : ℕ → ℕ → Ramfs → Bool × Ramfs
    ramfs_delete zero node s = (false, s)
    ramfs_delete (suc rounds) node s =
        let child = (s.node node).children in
        elim (node == 0) [
          | true ↦ (false, s)
          | false ↦ elim (child == 0) [
            | true ↦ (true, ramfs_remove node s)
            | false ↦ ramfs_delete rounds node (ramfs_delete rounds child s).1
          ]
        ]
