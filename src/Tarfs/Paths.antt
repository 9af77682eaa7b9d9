-- ===== src/Tarfs/Paths.antt =====
-- Files that are added to the tree, and the paths.
use munt3os.Base.{
  ℕ, ◌+◌, ◌≤◌, ◌≡◌, refl, sym, ap, ◌∙◌, inl, inr, true, Option, none, some, List, [], ◌∷◌, ◌++◌,
  Bool-cases, length, take, take_all, u32,
}
use mathlib.Core.Option.{some-injective, none-ne-some}
use mathlib.Core.Path.{subst}
use munt3os.Vfs.{str_eq}
use munt3os.Tarfs.{
  Node, Nodes, file, dir, end, entry, name_of, tarfs_finddir, find_node, change_node, visit,
  add_file,
}
use munt3os.Tarfs.Tree.{lookup, KeepsName, find_node-here, find_node-later, visit-cases}
use munt3os.Tarfs.Names.{str_eq_refl, lookup-step}

-- Names that are not cut.
abbrev pub Short : List (List ℕ) → Type 0
Short [] = Unit {0}
Short (p ∷ ps) = (length p ≤ 255) × Short ps

lookup-append :
    (ps : List (List ℕ)) (q : List ℕ) (n m : Node)
    → lookup ps n ≡ some m
    → lookup (ps ++ (q ∷ [])) n ≡ lookup (q ∷ []) m
unfolding lookup
lookup-append [] q n m e = ap (lookup (q ∷ [])) (some-injective _ _ e)
lookup-append (p ∷ ps) q n m e =
    by_child (tarfs_finddir n p) e (λ k found. lookup-append ps q k m found)
  where
    by_child :
        (o : Option Node)
        → Path (Option Node) (elim o [ none ↦ none | some k ↦ lookup ps k ]) (some m)
        → ((k : Node) → lookup ps k ≡ some m → lookup (ps ++ (q ∷ [])) k ≡ lookup (q ∷ []) m)
        → Path
            (Option Node)
            (elim o [ none ↦ none | some k ↦ lookup (ps ++ (q ∷ [])) k ])
            (lookup (q ∷ []) m)
    by_child none e rest = absurd (none-ne-some _ e)
    by_child (some k) e rest = rest k e

pub visit-KeepsName :
    (ps : List (List ℕ)) (f : ℕ → Node → Option (ℕ × Node))
    → ((j : ℕ) → KeepsName (f j))
    → (j : ℕ) → KeepsName (visit ps f j)
unfolding visit
visit-KeepsName [] f keeps j m i m' e = keeps j m i m' e
visit-KeepsName (p ∷ ps) f keeps j (file n k s o) i m' e = absurd (none-ne-some _ e)
visit-KeepsName (p ∷ ps) f keeps j (dir n k ns) i m' e =
    elim (visit-cases p ps f j n k ns i m' (visit-KeepsName ps f keeps j) e) [
      | inl made ↦ ap name_of made.result
      | inr went ↦ ap name_of went.result
    ]

-- The node that a visit leaves behind is where the path leads.
record Reached (ps : List (List ℕ)) (f : ℕ → Node → Option (ℕ × Node)) (i' : ℕ) (n' : Node)
    : Type 0 where
  pub at : ℕ
  pub before : Node
  pub after : Node
  pub step : f at before ≡ some (i', after)
  pub found : lookup ps n' ≡ some after

visit-Reached :
    (ps : List (List ℕ)) (f : ℕ → Node → Option (ℕ × Node)) (inode : ℕ) (n : Node) (i' : ℕ)
    (n' : Node)
    → ((j : ℕ) → KeepsName (f j))
    → Short ps
    → visit ps f inode n ≡ some (i', n')
    → Reached ps f i' n'
unfolding visit lookup
visit-Reached [] f inode n i' n' keeps short e = record {
  at = inode;
  before = n;
  after = n';
  step = e;
  found = refl;
}
visit-Reached (p ∷ ps) f inode (file n k s o) i' n' keeps short e = absurd (none-ne-some _ e)
visit-Reached (p ∷ ps) f inode (dir n k ns) i' n' keeps short e =
    elim (visit-cases p ps f inode n k ns i' n' (visit-KeepsName ps f keeps inode) e) [
      | inl made ↦
          let named : name_of made.sub ≡ p =
            visit-KeepsName ps f keeps _ _ _ _ made.step ∙ take_all 255 p short.0 in
          let r =
            visit-Reached ps f (u32 (inode + 1)) (dir (take 255 p) inode end) i' made.sub keeps
              short.1 made.step in
          record {
            at = r.at;
            before = r.before;
            after = r.after;
            step = r.step;
            found =
                ap (lookup (p ∷ ps)) made.result
                ∙ (lookup-step p ps n k (entry made.sub ns) made.sub
                      (find_node-here p made.sub ns (ap (λ a. str_eq a p) named ∙ str_eq_refl p))
                    ∙ r.found);
          }
      | inr went ↦
          let r =
            visit-Reached ps f inode went.changed.before i' went.changed.after keeps short.1
              went.changed.step in
          record {
            at = r.at;
            before = r.before;
            after = r.after;
            step = r.step;
            found =
                ap (lookup (p ∷ ps)) went.result
                ∙ (lookup-step p ps n k went.children went.changed.after went.changed.now
                    ∙ r.found);
          }
    ]

module _ (name : List ℕ) (size offset : ℕ) where
  pub add_file-KeepsName : (j : ℕ) → KeepsName (add_file name size offset j)
  unfolding add_file
  add_file-KeepsName j (file n i s o) k m' e = absurd (none-ne-some _ e)
  add_file-KeepsName j (dir n i ns) k m' e =
      sym (ap (λ (r : ℕ × Node). name_of r.1) (some-injective _ _ e))

  found-add_file :
      (j : ℕ) (n : Node) (i' : ℕ) (n' : Node)
      → length name ≤ 127
      → add_file name size offset j n ≡ some (i', n')
      → lookup (name ∷ []) n' ≡ some (file name j size offset)
  unfolding add_file lookup
  found-add_file j (file n i s o) i' n' short e = absurd (none-ne-some _ e)
  found-add_file j (dir n i ns) i' n' short e =
      let kept : take 127 name ≡ name = take_all 127 name short in
      subst (λ (m : Node). lookup (name ∷ []) m ≡ some (file name j size offset))
        (ap (λ (r : ℕ × Node). r.1) (some-injective _ _ e))
        (lookup-step name [] n i (entry (file (take 127 name) j size offset) ns)
            (file (take 127 name) j size offset)
            (find_node-here name (file (take 127 name) j size offset) ns
              (ap (λ a. str_eq a name) kept ∙ str_eq_refl name))
          ∙ ap (λ a. some (file a j size offset)) kept)

-- The path leads through directories, as far as it leads, and not to a file.
abbrev pub Dirs : List (List ℕ) → Node → Type 0
Dirs ps (file n i s o) = ⊥
Dirs [] (dir n i ns) = Unit {0}
Dirs (p ∷ ps) (dir n i ns) = elim (find_node p ns) [ none ↦ Unit {0} | some m ↦ Dirs ps m ]

Dirs-empty : (ps : List (List ℕ)) (n : List ℕ) (i : ℕ) → Dirs ps (dir n i end)
unfolding find_node
Dirs-empty [] n i = tt
Dirs-empty (p ∷ ps) n i = tt

change_node-some :
    (p : List ℕ) (f : Node → Option (ℕ × Node)) (ns : Nodes) (m : Node) (r : ℕ × Node)
    → find_node p ns ≡ some m
    → f m ≡ some r
    → (r' : ℕ × Nodes) × (change_node p f ns ≡ some r')
unfolding change_node find_node
change_node-some p f end m r found step = absurd (none-ne-some _ found)
change_node-some p f (entry n ns) m r found step = elim (Bool-cases (str_eq (name_of n) p)) [
  | inl here ↦
      let same : n ≡ m = some-injective _ _ (sym (find_node-here p n ns here) ∙ found) in
      (
        (r.0, entry r.1 ns),
        rw (change_node, here)
            (ap
              (λ (o : Option (ℕ × Node)). elim o as (λ k. Option (ℕ × Nodes)) [
                | none ↦ none
                | some r ↦ some (r.0, entry r.1 ns)
              ])
              (ap f same ∙ step)),
      )
  | inr there ↦
      let (r', rest) =
        change_node-some p f ns m r (sym (find_node-later p n ns there) ∙ found) step in
      ((r'.0, entry n r'.1), rw (change_node, there, rest))
]

visit-some :
    (ps : List (List ℕ)) (name : List ℕ) (size offset inode : ℕ) (root : Node)
    → Dirs ps root
    → (r : ℕ × Node) × (visit ps (add_file name size offset) inode root ≡ some r)
unfolding visit add_file
visit-some ps name size offset inode (file n i s o) dirs = absurd dirs
visit-some [] name size offset inode (dir n i ns) dirs = (_, refl)
visit-some (p ∷ ps) name size offset inode (dir n i ns) dirs =
    by_child (find_node p ns) refl dirs (visit-some ps name size offset)
  where
    f : ℕ → Node → Option (ℕ × Node)
    f = add_file name size offset

    by_child :
        (o : Option Node)
        → find_node p ns ≡ o
        → elim o as (λ k. Type 0) [ none ↦ Unit {0} | some m ↦ Dirs ps m ]
        → ((j : ℕ) (m : Node) → Dirs ps m → (r : ℕ × Node) × (visit ps f j m ≡ some r))
        → (r : ℕ × Node) × (visit (p ∷ ps) f inode (dir n i ns) ≡ some r)
    by_child none found dirs rest =
        let (r, e) =
          rest (u32 (inode + 1)) (dir (take 255 p) inode end) (Dirs-empty ps (take 255 p) inode) in
        ((r.0, dir n i (entry r.1 ns)), rw (visit, found, e))
    by_child (some m) found dirs rest =
        let (r, e) = rest inode m dirs in
        let (r', c) = change_node-some p (visit ps f inode) ns m r found e in
        ((r'.0, dir n i r'.1), rw (visit, found, c))

-- A file that is added with a path which does not lead to a file, where the names are not cut: the path is
-- made, and it and the name lead to the file.
pub lookup-add_file :
    (ps : List (List ℕ)) (name : List ℕ) (size offset inode : ℕ) (root : Node)
    → Short ps
    → length name ≤ 127
    → Dirs ps root
    → (r : ℕ × Node) × (j : ℕ) × (visit ps (add_file name size offset) inode root ≡ some r)
      × (lookup (ps ++ (name ∷ [])) r.1 ≡ some (file name j size offset))
lookup-add_file ps name size offset inode root short short_name dirs =
    let (r, e) = visit-some ps name size offset inode root dirs in
    let reached =
      visit-Reached ps (add_file name size offset) inode root r.0 r.1
        (add_file-KeepsName name size offset) short e in
    (
      r,
      reached.at,
      e,
      lookup-append ps name r.1 reached.after reached.found
          ∙ found-add_file name size offset reached.at reached.before r.0 reached.after short_name
              reached.step,
    )

-- A path that leads through another one.
abbrev pub Through : List (List ℕ) → List (List ℕ) → Type 0
Through [] qs = Unit {0}
Through (p ∷ ps) [] = ⊥
Through (p ∷ ps) (q ∷ qs) = (str_eq p q ≡ true) × Through ps qs
