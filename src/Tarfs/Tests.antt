-- ===== src/Tarfs/Tests.antt =====
-- A small tree and an archive.
use munt3os.Base.{
  ℕ, ◌≡◌, refl, some, List, [], ◌∷◌, ◌++◌, arith, ◌==◌, if◌then◌else◌, take, drop, replicate,
}
use munt3os.Strings.{strcmp, c_str}
use munt3os.Cmdline.{span}
use munt3os.Tarfs.{
  Node, file, dir, end, entry, tarfs_finddir, find_node, change_node, visit, add_file, tarfs_read,
  octal_from, octal_to_int, tarfs_mount, mount_from, mount_entry, entry_size, full_name, dir_parts,
  cut_slashes, skip_slashes, path_parts, split_last,
}
use munt3os.Tarfs.Paths.{lookup-add_file}
use munt3os.Tarfs.Reading.{contents, tarfs_read-contents}
use munt3os.Tarfs.Stays.{visit-stays}
use munt3os.Tarfs.Tree.{lookup}

-- `x` in the root.
abbrev old_file : Node
old_file = file (120 ∷ []) 2 5 512

abbrev root : Node
root = dir (47 ∷ []) 1 (entry old_file end)

lookup-add_file_example :
    (r : ℕ × Node) × (j : ℕ) × (visit ((100 ∷ []) ∷ []) (add_file (102 ∷ []) 7 1024) 3 root
      ≡ some r)
    × (lookup ((100 ∷ []) ∷ (102 ∷ []) ∷ []) r.1 ≡ some (file (102 ∷ []) j 7 1024))
unfolding find_node strcmp
lookup-add_file_example =
    lookup-add_file ((100 ∷ []) ∷ []) (102 ∷ []) 7 1024 3 root (omega arith, tt) (omega arith) tt

abbrev root_with_d : Node
root_with_d =
    dir (47 ∷ []) 1
      (entry (dir (100 ∷ []) 3 (entry (file (102 ∷ []) 4 7 1024) end)) (entry old_file end))

visited : visit ((100 ∷ []) ∷ []) (add_file (102 ∷ []) 7 1024) 3 root ≡ some (5, root_with_d)
unfolding visit add_file find_node change_node strcmp
visited = refl

visit-stays_example : lookup ((120 ∷ []) ∷ []) root_with_d ≡ some old_file
unfolding lookup tarfs_finddir find_node strcmp
visit-stays_example =
    visit-stays (102 ∷ []) 7 1024 (omega arith) old_file refl ((100 ∷ []) ∷ []) ((120 ∷ []) ∷ []) 3
      root 5 root_with_d (omega arith, tt) visited refl (λ through. ground (arith, through.0))

abbrev image : List ℕ
image = 0 ∷ 1 ∷ 2 ∷ 3 ∷ 4 ∷ 5 ∷ 6 ∷ 7 ∷ []

tarfs_read-contents_example :
    tarfs_read (λ o n. take n (drop o image)) (file (102 ∷ []) 4 4 2) 1 9
    ≡ take 9 (drop 1 (contents image 4 2))
tarfs_read-contents_example =
    tarfs_read-contents image (λ o n. take n (drop o image)) (102 ∷ []) 4 4 2 1 9 (λ o n. refl)
      (omega arith) (omega arith)

three_bytes : take 9 (drop 1 (contents image 4 2)) ≡ 3 ∷ 4 ∷ 5 ∷ []
three_bytes = refl

-- The header of a file `d/f` of 7 bytes.
abbrev header : List ℕ
header = (100 ∷ 47 ∷ 102 ∷ replicate 121 0) ++ (replicate 10 48 ++ (55 ∷ 0 ∷ replicate 376 0))

mounted :
    tarfs_mount 2 [] (λ o n. if o == 0 then header else []) 1
    ≡ some (4, dir (47 ∷ []) 1 (entry (dir (100 ∷ []) 2 (entry (file (102 ∷ []) 3 7 512) end)) end))
unfolding tarfs_mount mount_from mount_entry entry_size full_name dir_parts cut_slashes skip_slashes
    path_parts split_last visit add_file find_node change_node strcmp octal_to_int octal_from span
    c_str
mounted = refl
