-- ===== src/Filesystem/Tests.antt =====
-- The theorems on kernel/src/filesystem/ramfs/ramfs.c and kernel/src/string/string.c at a directory
-- with two files.
use bethany.Prelude.{ℕ, ◌<◌, ◌≡◌, refl, List, [], ◌∷◌, ◌++◌, true, arith, ◌==◌, if◌then◌else◌}
use bethany.Memory.Heap.{PageMapper}
use bethany.Memory.Heap.Alloc
use bethany.Filesystem.{
  FsNodeType, fs_file, fs_directory, RamfsNode, Ramfs, ramfs_find, ramfs_remove, ramfs_delete,
  ramfs_move,
}
use bethany.Filesystem.Links.{HasChildren, Finds, ramfs_find-Finds}
use bethany.Filesystem.Files.{ramfs_remove_lem}
use bethany.Filesystem.Directory.{Directory}
use bethany.Filesystem.Move.{Moved, ramfs_move_lem}
use bethany.Filesystem.Delete.{Forest, end, entry, ramfs_delete_lem}

abbrev mapper : PageMapper
mapper = record { Space = ℕ; alloc_page = λ virt flags s. (true, s) }

abbrev file : ℕ → ℕ → RamfsNode
file name next = record {
  name = name;
  type = fs_file;
  contents = 200;
  size = 5;
  parent = 10;
  children = 0;
  next = next;
}

abbrev directory : RamfsNode
directory = record {
  name = 98;
  type = fs_directory;
  contents = 0;
  size = 0;
  parent = 0;
  children = 20;
  next = 0;
}

-- The files are "a" and "b"; "b" stands at 300 again, and "c" at 302.
abbrev disk : Ramfs mapper
disk = record {
  node = λ q. if q == 10 then directory else if q == 20 then file 100 30 else file 110 0;
  root = 10;
  bytes = λ i.
      if i == 100
      then 97
      else if i == 110
      then 98
      else if i == 300
      then 98
      else if i == 302
      then 99
      else 0;
  heap = record { heap_start = 16; heap_end = 4096; heap_current = 1024 };
  space = 0;
}

disk-bytes : (i : ℕ) → disk.bytes i < 256
disk-bytes i = ground arith

abbrev text : ℕ → List ℕ
text q = if q == 20 then 97 ∷ [] else 98 ∷ []

disk-HasChildren : HasChildren mapper disk 10 (20 ∷ 30 ∷ [])
disk-HasChildren = record { linked = omega arith; distinct = omega arith }

ramfs_find-Finds_example :
    Finds mapper text (98 ∷ []) (20 ∷ 30 ∷ []) (ramfs_find mapper 9 10 300 disk)
ramfs_find-Finds_example =
    ramfs_find-Finds mapper 9 disk text 300 (98 ∷ []) disk-bytes (refl, omega arith, refl) 10
      (20 ∷ 30 ∷ []) (omega arith) disk-HasChildren
      ((refl, omega arith, refl), omega arith, ((refl, omega arith, refl), omega arith, tt))
      (omega arith)

ramfs_remove_lem_example : HasChildren mapper (ramfs_remove mapper 9 30 disk) 10 ((20 ∷ []) ++ [])
ramfs_remove_lem_example =
    ramfs_remove_lem mapper 9 disk 10 30 (20 ∷ []) [] (omega arith) (omega arith) refl refl
      (omega arith) disk-HasChildren (omega arith)

-- The directory 40 holds the directory 50, with the file 60 in it, and the file 70.
abbrev entry_of : FsNodeType → ℕ → ℕ → ℕ → RamfsNode
entry_of type parent children next = record {
  name = 100;
  type = type;
  contents = 0;
  size = 0;
  parent = parent;
  children = children;
  next = next;
}

abbrev nested : Ramfs mapper
nested = record disk {
  node = λ q.
      if q == 10
      then entry_of fs_directory 0 40 0
      else if q == 40
      then entry_of fs_directory 10 50 80
      else if q == 50
      then entry_of fs_directory 40 60 70
      else if q == 60
      then entry_of fs_file 50 0 0
      else if q == 70
      then entry_of fs_file 40 0 0
      else entry_of fs_file 10 0 0;
}

abbrev inside : Forest
inside = entry 50 (entry 60 end end) (entry 70 end end)

ramfs_delete_lem_example :
    let (done, s') = ramfs_delete mapper 9 4 40 nested in
    (done ≡ true) × HasChildren mapper s' 10 ([] ++ (80 ∷ []))
ramfs_delete_lem_example =
    ramfs_delete_lem mapper 9 4 nested 10 40 [] (80 ∷ []) inside (omega arith) (omega arith)
      (omega arith) refl (omega arith) (omega arith)
      (
        refl,
        omega arith,
        omega arith,
        refl,
        (refl, omega arith, omega arith, refl, refl, refl),
        (refl, omega arith, omega arith, refl, refl, refl),
      )
      (omega arith) (omega arith) (record { linked = omega arith; distinct = omega arith })
      (omega arith) (omega arith) (omega arith)

nested-from : Directory mapper nested 40 ((50 ∷ []) ++ (70 ∷ []))
nested-from = record {
  listed = record { linked = omega arith; distinct = omega arith };
  owned = (refl, (refl, tt));
}

nested-to : Directory mapper nested 50 (60 ∷ [])
nested-to = record {
  listed = record { linked = omega arith; distinct = omega arith };
  owned = (refl, tt);
}

-- The file 70 goes from the directory 40 into the directory 50.
ramfs_move_lem_example :
    let (ok, s') = ramfs_move mapper 9 70 50 nested in
    (ok ≡ true) × Moved mapper nested 40 50 70 (50 ∷ []) [] (60 ∷ []) s'
ramfs_move_lem_example =
    ramfs_move_lem mapper 9 nested 40 50 70 (50 ∷ []) [] (60 ∷ []) nested-from nested-to
      (omega arith) (omega arith) (omega arith) (omega arith) (omega arith) (omega arith)
      (omega arith) (omega arith)
