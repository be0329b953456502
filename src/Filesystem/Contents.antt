-- ===== src/Filesystem/Contents.antt =====
-- What a file holds: `ramfs_write` and then `ramfs_read` of kernel/src/filesystem/ramfs/ramfs.c.
use bethany.Prelude.{ℕ, ◌+◌, ◌-◌, ◌<◌, ◌≤◌, ◌≡◌, ◌≢◌, ◌⊎◌, false, ltb, if◌then◌else◌}
use bethany.Memory.Heap.{PageMapper}
use bethany.Memory.Heap.Alloc
use bethany.Filesystem.{is_directory, RamfsNode, Ramfs, allocate, ramfs_read}

-- Blocks of `size` bytes at `p` and `q` do not overlap.
abbrev pub Apart : ℕ → ℕ → ℕ → Type 0
Apart size p q = (p + size ≤ q) ⊎ (q + size ≤ p)

module _ (v : PageMapper) (n : ℕ) (s : Ramfs v) (a buffer size : ℕ) (na : a ≢ 0)
    (file : is_directory (s.node a).type ≡ false) where
  abbrev block : ℕ × Ramfs v
  block = allocate v n size s

  -- The file with its new contents.
  abbrev filled : RamfsNode
  filled = record (s.node a) { contents = block.0; size = size }

-- The bytes that a read of `m` bytes at `offset` gets from `size` bytes.
abbrev pub cut : ℕ → ℕ → ℕ → ℕ
cut size m offset = if ltb (size - offset) m then size - offset else m

-- What was written to the file `a` from `buffer` is read from it to `dest`.
abbrev pub ReadsBack : (v : PageMapper) → ℕ → Ramfs v → ℕ → ℕ → ℕ → ℕ → ℕ → ℕ → Ramfs v → Type 0
ReadsBack v n s a buffer size dest m offset s' =
    let (count, s'') = ramfs_read v n a dest m offset s' in
    (count ≡ cut size m offset)
    × ((i : ℕ) → i < count → s''.bytes (dest + i) ≡ s.bytes (buffer + offset + i))
