-- ===== src/Vfs.antt =====
-- krnl/fs/vfs.c: paths, permissions and the walk to a node. A node of the tree is a record of what this
-- file reads of it; `finddir` of the file systems is an argument, and whether an allocation succeeds.
pub mod Paths
pub mod Render
mod Tests
use munt3os.Base.{
  ℕ, zero, suc, ◌+◌, ◌-◌, ◌*◌, ◌/◌, ◌%◌, ◌^◌, ◌≤◌, ◌<◌, min, max, ◌≡◌, refl, sym, ap, ap₂, ◌∙◌, ◌≢◌,
  ◌↔◌, ◌⊎◌, inl, inr, Bool, true, false, not, ◌&&◌, ◌||◌, Option, none, some, List, [], ◌∷◌, ◌++◌,
  map, append-nil, append_assoc, arith, ℕ_discrete, ltb, leb, ◌==◌, if◌then◌else◌, ltb→lt, lt→ltb,
  ltb→le, le→ltb, leb→le, ==_iff, ==_refl, suc-ne-zero, zero-lt-suc, Bool-cases, Option-cases,
  length, get_elem?, get_or, set, take, drop, replicate, length-append, length-set,
  length-replicate, length-take, length-drop, take_last, drop-nil, drop_all, take_all, drop-append,
  drop-drop, take_last-append, take_last-append_long, take_last_all, take-append-drop, get_or-set,
  get_or_ext, get_or-replicate, mod-wrap, u64, u32, u8, add_u64, sub_u64, add_u32, sub_u32, mul_u32,
  mul_u64, page_size, ℤ, pos, negsuc, sub_ℕ, neg,
}
use Prim.Native.Nat.{bit_and, bit_or}
use munt3os.Strings.{strlen, strcmp, strcpy, strncpy, strncat}
use munt3os.HashMap.{is_zero}

abbrev pub path_size : ℕ
path_size = 1024

abbrev pub slash : ℕ
slash = 47

abbrev pub str_eq : List ℕ → List ℕ → Bool
str_eq a b = is_zero (strcmp a b)

-- `resolved`: the path itself if it is absolute, else what it is behind the working directory.
unfoldable pub with_slash : List ℕ → List ℕ
unfolding strlen
with_slash a =
    let n = strlen a in
    if ltb 0 n && not (get_or a (n - 1) 0 == slash) && ltb n 1023
    then set (set a n slash) (n + 1) 0
    else a

unfoldable pub from_root : Option (List ℕ) → List ℕ → List ℕ
unfolding strncpy strncat strlen with_slash
from_root pwd path =
    let blank = replicate path_size 0 in
    let base : List ℕ = elim pwd [
      | none ↦ set (set blank 0 slash) 1 0
      | some p ↦ strncpy blank p 1023
    ] in
    let dir = with_slash base in
    if get_or path 0 0 == slash
    then strncpy blank path 1023
    else strncat dir path (sub_u64 1023 (strlen dir))

-- The tokens between the slashes, in the loop over `temp`; `w` is the token that was begun.
abbrev pub emit : List ℕ → List (List ℕ)
emit [] = []
emit (x ∷ xs) = (x ∷ xs) ∷ []

unfoldable pub tokens : List ℕ → List ℕ → List (List ℕ)
tokens w [] = emit w
tokens w (x ∷ xs) =
    let ended = tokens [] xs in
    let longer = tokens (w ++ (x ∷ [])) xs in
    if x == 0 then emit w else if x == slash then emit w ++ ended else longer

abbrev pub dot : List ℕ
dot = 46 ∷ []

abbrev pub dot_dot : List ℕ
dot_dot = 46 ∷ 46 ∷ []

-- What a token does to the array `tokens`.
unfoldable pub push_token : List (List ℕ) → List ℕ → List (List ℕ)
push_token stack token =
    if str_eq token dot
    then stack
    else if str_eq token dot_dot
    then take (length stack - 1) stack
    else if ltb (length stack) 128
    then stack ++ (token ∷ [])
    else stack

unfoldable pub push_all : List (List ℕ) → List (List ℕ) → List (List ℕ)
unfolding push_token
push_all stack [] = stack
push_all stack (t ∷ ts) = push_all (push_token stack t) ts

-- The loop that builds `normalized`.
unfoldable pub append_bounded : List ℕ → List ℕ → List ℕ
unfolding strncat strlen
append_bounded a t = strncat a t (sub_u64 1023 (strlen a))

unfoldable pub join_tokens : List ℕ → List (List ℕ) → List ℕ
unfolding append_bounded
join_tokens a [] = a
join_tokens a (t ∷ ts) =
    let more = join_tokens (append_bounded (append_bounded a t) (slash ∷ [])) ts in
    elim ts [ [] ↦ append_bounded a t | u ∷ us ↦ more ]

-- The array `tokens` after the loop over `temp`.
unfoldable pub components : Option (List ℕ) → List ℕ → List (List ℕ)
unfolding from_root tokens push_all strncpy
components pwd path =
    push_all [] (tokens [] (strncpy (replicate path_size 0) (from_root pwd path) 1023))

-- `buffers` and `last` say whether the first four allocations and the last succeed. The test for an
-- empty `normalized` is left out: the string starts with a slash.
unfoldable pub vfs_resolve_path : Bool → Bool → Option (List ℕ) → Option (List ℕ) → Option (List ℕ)
unfolding components join_tokens strlen strcpy
vfs_resolve_path buffers last pwd none = none
vfs_resolve_path buffers last pwd (some path) =
    let normalized =
      join_tokens (set (set (replicate path_size 0) 0 slash) 1 0) (components pwd path) in
    if not buffers
    then none
    else if not last
    then none
    else some (strcpy (replicate (strlen normalized + 1) 0) normalized).1

-- What this file reads of a `vfs_node_t`.
pub record Node : Type 0 where
  pub inode : ℕ
  pub mask : ℕ
  pub uid : ℕ
  pub gid : ℕ
  pub is_directory : Bool

-- The effective ids of the current thread, if there is one.
pub record Ids : Type 0 where
  pub euid : ℕ
  pub egid : ℕ

unfoldable pub has_permission : Node → ℕ → ℕ → ℕ → Bool
has_permission node uid gid perm =
    if uid == 0
    then true
    else if uid == node.uid
    then not (bit_and node.mask (perm * 64) == 0)
    else if gid == node.gid
    then not (bit_and node.mask (perm * 8) == 0)
    else not (bit_and node.mask perm == 0)

abbrev pub permitted : Option Ids → ℕ → Node → Option Node
permitted none perm node = some node
permitted (some ids) perm node =
    if has_permission node ids.euid ids.egid perm then some node else none

module _ (finddir : Node → List ℕ → Option Node) where
  -- The name that ends the path; an empty one is no round of the loop.
  abbrev pub walk_last : Node → List ℕ → Option Node
  walk_last n [] = some n
  walk_last n (x ∷ xs) = finddir n (x ∷ xs)

  -- The walk of `kopen` along the path behind its first slash; `w` is the name that was begun.
  unfoldable pub walk : Option Node → List ℕ → List ℕ → Option Node
  walk none w rest = none
  walk (some n) w [] = walk_last n w
  walk (some n) w (x ∷ xs) =
      let ended = walk_last n w in
      let next = walk (finddir n w) [] xs in
      let longer = walk (some n) (w ++ (x ∷ [])) xs in
      if x == 0 then ended else if x == slash then next else longer

  -- `kopen`; `root` is `fs_root`, and `me` the current thread.
  unfoldable pub kopen : Bool → Bool → Option Node → Option Ids → Option (List ℕ) → Option Node
  unfolding walk vfs_resolve_path has_permission
  kopen buffers last root me path =
      let tail : List ℕ → List ℕ = λ p. if get_or p 0 0 == slash then drop 1 p else p in
      let checked : Option Node → Option Node =
        λ o. elim o [ none ↦ none | some n ↦ permitted me 4 n ] in
      elim (vfs_resolve_path buffers last (some (slash ∷ [])) path) [
        | none ↦ none
        | some resolved ↦ checked (walk root [] (tail resolved))
      ]

  -- The bits that `uopen` asks for: read, and write for `O_WRONLY` or `O_RDWR`.
  abbrev pub open_perm : ℕ → ℕ
  open_perm mode =
      let w = if bit_and mode 1 == 0 then 4 else bit_or 4 2 in
      if bit_and mode 2 == 0 then w else bit_or w 6

  unfoldable pub uopen : Bool → Bool → Option Node → Option Ids → Option (List ℕ) → ℕ → Option Node
  unfolding kopen has_permission
  uopen buffers last root me path mode = elim (kopen buffers last root me path) [
    | none ↦ none
    | some n ↦ permitted me (open_perm mode) n
  ]

  unfoldable pub uopendir : Bool → Bool → Option Node → Option Ids → Option (List ℕ) → Option Node
  unfolding kopen has_permission
  uopendir buffers last root me path =
      let dir : Node → Option Node = λ n. elim me [
        | none ↦ some n
        | some ids ↦
            if not (has_permission n ids.euid ids.egid 4) || not n.is_directory
            then none
            else some n
      ] in
      elim (kopen buffers last root me path) [ none ↦ none | some n ↦ dir n ]
