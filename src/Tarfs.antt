-- ===== src/Tarfs.antt =====
-- krnl/fs/tarfs.c: the tree of an archive. A node is what this file sets of it, with the children of a
-- directory, the newest first; a name is the bytes before its terminator. All allocations succeed. The
-- archive is the argument `read`, which gives the bytes that the source's `read` puts in the buffer.
pub mod Names
pub mod Numbers
pub mod Paths
pub mod Reading
pub mod Stays
pub mod Tree
mod Tests
use munt3os.Base.{
  ℕ, zero, suc, ◌+◌, ◌-◌, ◌*◌, ◌/◌, ◌%◌, ◌^◌, ◌≤◌, ◌<◌, min, max, ◌≡◌, refl, sym, ap, ap₂, ◌∙◌, ◌≢◌,
  ◌↔◌, ◌⊎◌, inl, inr, Bool, true, false, not, ◌&&◌, ◌||◌, Option, none, some, List, [], ◌∷◌, ◌++◌,
  map, append-nil, append_assoc, arith, ℕ_discrete, ltb, leb, ◌==◌, if◌then◌else◌, ltb→lt, lt→ltb,
  ltb→le, le→ltb, leb→le, ==_iff, ==_refl, suc-ne-zero, zero-lt-suc, Bool-cases, Option-cases,
  length, get_elem?, get_or, set, take, drop, replicate, length-append, length-set,
  length-replicate, length-take, length-drop, take_last, drop-nil, drop_all, take_all, drop-append,
  drop-drop, take_last-append, take_last-append_long, take_last_all, take-append-drop, get_or-set,
  get_or_ext, get_or-replicate, mod-wrap, u64, u32, u8, add_u64, sub_u64, add_u32, sub_u32, mul_u32,
  mul_u64, page_size, ℤ, pos, negsuc, sub_ℕ, neg,
}
use munt3os.Cmdline.{span}
use munt3os.Strings.{c_str}
use munt3os.Vfs.{slash, str_eq}

-- The loop of `octal_to_int`.
unfoldable pub octal_from : ℕ → List ℕ → ℕ → ℕ
octal_from n [] size = n
octal_from n (c ∷ cs) zero = n
octal_from n (c ∷ cs) (suc size) =
    octal_from (if leb 48 c && leb c 55 then add_u32 (mul_u32 n 8) (c - 48) else n) cs size

unfoldable pub octal_to_int : List ℕ → ℕ → ℕ
unfolding octal_from
octal_to_int str size = octal_from 0 str size

-- A file, with the offset of its data, or a directory.
mutual
  pub data Node : Type 0 where
    file : List ℕ → ℕ → ℕ → ℕ → Node
    dir : List ℕ → ℕ → Nodes → Node

  pub data Nodes : Type 0 where
    end : Nodes
    entry : Node → Nodes → Nodes

abbrev pub name_of : Node → List ℕ
name_of (file name inode size offset) = name
name_of (dir name inode children) = name

-- `tarfs_read` of a file: `offset + size` is a `uint32_t`, and so is the offset that the `read` of the source
-- node takes.
unfoldable pub tarfs_read : (ℕ → ℕ → List ℕ) → Node → ℕ → ℕ → List ℕ
tarfs_read read (dir name inode children) offset size = []
tarfs_read read (file name inode total data_offset) offset size =
    if leb total offset
    then []
    else read (u32 (add_u64 data_offset offset))
        (if ltb total (add_u32 offset size) then total - offset else size)

-- `tarfs_readdir`
unfoldable pub nth_node : Nodes → ℕ → Option Node
nth_node end i = none
nth_node (entry n ns) zero = some n
nth_node (entry n ns) (suc i) = nth_node ns i

abbrev pub inode_of : Node → ℕ
inode_of (file name inode size offset) = inode
inode_of (dir name inode children) = inode

unfoldable pub tarfs_readdir : Node → ℕ → Option (List ℕ × ℕ)
unfolding nth_node
tarfs_readdir (file name inode size offset) i = none
tarfs_readdir (dir name inode children) i = elim (nth_node children i) [
  | none ↦ none
  | some n ↦ some (take 255 (name_of n), inode_of n)
]

-- `tarfs_finddir`, from an entry on.
unfoldable pub find_node : List ℕ → Nodes → Option Node
find_node name end = none
find_node name (entry n ns) =
    let rest = find_node name ns in if str_eq (name_of n) name then some n else rest

unfoldable pub tarfs_finddir : Node → List ℕ → Option Node
unfolding find_node
tarfs_finddir (file name inode size offset) wanted = none
tarfs_finddir (dir name inode children) wanted = find_node wanted children

-- The first entry of that name gets what `change` makes of it.
unfoldable pub change_node : List ℕ → (Node → Option (ℕ × Node)) → Nodes → Option (ℕ × Nodes)
change_node name change end = none
change_node name change (entry n ns) =
    let rest = change_node name change ns in
    if str_eq (name_of n) name
    then elim (change n) [ none ↦ none | some r ↦ some (r.0, entry r.1 ns) ]
    else elim rest [ none ↦ none | some r ↦ some (r.0, entry n r.1) ]

-- The loop of `tarfs_get_or_create_dir` over the tokens, and then `f` on the node that it returns; with the
-- next inode number. Where a token is looked for in a file, the code writes an entry into the data of the
-- file, as if they were those of a directory: `none`.
unfoldable pub visit : List (List ℕ) → (ℕ → Node → Option (ℕ × Node)) → ℕ → Node → Option (ℕ × Node)
unfolding find_node change_node
visit [] f inode n = f inode n
visit (p ∷ ps) f inode (file name i size offset) = none
visit (p ∷ ps) f inode (dir name i ns) =
    let below = visit ps f in
    elim (find_node p ns) [
      | none ↦ elim (below (u32 (inode + 1)) (dir (take 255 p) inode end)) [
        | none ↦ none
        | some r ↦ some (r.0, dir name i (entry r.1 ns))
      ]
      | some n ↦ elim (change_node p (below inode) ns) [
        | none ↦ none
        | some r ↦ some (r.0, dir name i r.1)
      ]
    ]

-- The slashes at the end are cut off.
unfoldable pub cut_slashes : List ℕ → List ℕ
cut_slashes [] = []
cut_slashes (x ∷ xs) =
    let rest = cut_slashes xs in if (x == slash) && ltb (length rest) 1 then [] else x ∷ rest

unfoldable pub skip_slashes : List ℕ → List ℕ
skip_slashes [] = []
skip_slashes (x ∷ xs) = if x == slash then skip_slashes xs else x ∷ xs

-- The tokens of the path, of which there are at most `n`.
unfoldable pub path_parts : ℕ → List ℕ → List (List ℕ)
unfolding span skip_slashes
path_parts zero p = []
path_parts (suc n) [] = []
path_parts (suc n) (x ∷ xs) =
    let r = span (λ c. c == slash) (x ∷ xs) in r.0 ∷ path_parts n (skip_slashes r.1)

unfoldable pub dir_parts : List ℕ → List (List ℕ)
unfolding cut_slashes path_parts
dir_parts path = path_parts 256 (cut_slashes (take 255 path))

-- What stands before and behind the last slash.
unfoldable pub split_last : List ℕ → Option (List ℕ × List ℕ)
split_last [] = none
split_last (x ∷ xs) = elim (split_last xs) [
  | some r ↦ some (x ∷ r.0, r.1)
  | none ↦ if x == slash then some ([], xs) else none
]

-- The file is put in the directory that `tarfs_get_or_create_dir` returns, with the next inode number.
unfoldable pub add_file : List ℕ → ℕ → ℕ → ℕ → Node → Option (ℕ × Node)
add_file name size offset inode (file n i s o) = none
add_file name size offset inode (dir n i ns) =
    some (u32 (inode + 1), dir n i (entry (file (take 127 name) inode size offset) ns))

-- `fn`: the name, with the prefix if there is one; `junk` is what lies behind the prefix on the stack.
unfoldable pub full_name : List ℕ → List ℕ → List ℕ
unfolding c_str
full_name junk header =
    let name = c_str (take 100 header) in
    let prefix = take 155 (drop 345 header) in
    if get_or prefix 0 0 == 0 then name else take 255 (c_str (prefix ++ junk) ++ (slash ∷ name))

-- One entry of the archive.
unfoldable pub mount_entry : List ℕ → List ℕ → ℕ → ℕ → Node → Option (ℕ × Node)
unfolding full_name dir_parts visit split_last add_file octal_to_int
mount_entry junk header offset inode root =
    let size = octal_to_int (drop 124 header) 11 in
    let name = full_name junk header in
    let is_dir = (get_or header 156 0 == 53) || (get_or name (length name - 1) 0 == slash) in
    let as_file : Option (ℕ × Node) = elim (split_last name) [
      | none ↦ add_file name size (add_u64 offset 512) inode root
      | some r ↦ visit (dir_parts r.0) (add_file r.1 size (add_u64 offset 512)) inode root
    ] in
    if is_dir then visit (dir_parts name) (λ i n. some (i, n)) inode root else as_file

-- `512 + (blocks * 512)`, a `uint32_t`
unfoldable pub entry_size : ℕ → ℕ
entry_size size = add_u32 512 (mul_u32 (add_u32 size 511 / 512) 512)

-- The loop of `tarfs_mount`, for at most `n` entries. The `read` of the source node takes a `uint32_t`.
unfoldable pub mount_from : ℕ → List ℕ → (ℕ → ℕ → List ℕ) → ℕ → ℕ → Node → Option (ℕ × Node)
unfolding mount_entry entry_size octal_to_int
mount_from zero junk read offset inode root = some (inode, root)
mount_from (suc n) junk read offset inode root =
    let header = read (u32 offset) 512 in
    let rest =
      mount_from n junk read (add_u64 offset (entry_size (octal_to_int (drop 124 header) 11))) in
    if ltb (length header) 512 || (get_or header 0 0 == 0)
    then some (inode, root)
    else elim (mount_entry junk header offset inode root) [ none ↦ none | some r ↦ rest r.0 r.1 ]

-- `tarfs_mount`, from the value of `inode_counter` on.
unfoldable pub tarfs_mount : ℕ → List ℕ → (ℕ → ℕ → List ℕ) → ℕ → Option (ℕ × Node)
unfolding mount_from
tarfs_mount entries junk read inode =
    mount_from entries junk read 0 (u32 (inode + 1)) (dir (slash ∷ []) inode end)
