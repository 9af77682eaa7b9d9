-- ===== src/Tarfs/Stays.antt =====
-- Files that were in the tree before another is added.
use munt3os.Base.{
  ℕ, ◌≤◌, ◌≡◌, sym, ap, ◌∙◌, inl, inr, true, false, some, List, [], ◌∷◌, ◌++◌, Bool-cases, length,
  take, take_all,
}
use mathlib.Core.Option.{some-injective, none-ne-some}
use munt3os.Vfs.{str_eq}
use munt3os.Tarfs.{Node, Nodes, file, dir, entry, name_of, visit, add_file}
use munt3os.Tarfs.Names.{
  lookup-step, lookup-other, lookup-absent, str_eq_off, find_node-same, find_node-name, is_file,
}
use munt3os.Tarfs.Paths.{Short, Through, add_file-KeepsName, visit-KeepsName}
use munt3os.Tarfs.Tree.{lookup, find_node-later, Made, Went, visit-cases}

not_file :
    (n : List ℕ) (i : ℕ) (ns : Nodes) (m : Node) → some (dir n i ns) ≡ some m → is_file m ≡ false
not_file n i ns m e = sym (ap is_file (some-injective _ _ e))

module _ (name : List ℕ) (size offset : ℕ) (short_name : length name ≤ 127) (m : Node)
    (whole : is_file m ≡ true) where
  -- The new file is put in front.
  front_stays :
      (q : List ℕ) (qs : List (List ℕ)) (j : ℕ) (n : List ℕ) (i : ℕ) (ns : Nodes)
      → (Through (name ∷ []) (q ∷ qs) → ⊥)
      → lookup (q ∷ qs) (dir n i (entry (file (take 127 name) j size offset) ns))
        ≡ lookup (q ∷ qs) (dir n i ns)
  front_stays q qs j n i ns apart = elim (Bool-cases (str_eq (take 127 name) q)) [
    | inl here ↦
        absurd (apart ((ap (λ a. str_eq a q) (sym (take_all 127 name short_name)) ∙ here), tt))
    | inr other ↦
        lookup-other q qs n i ns _ (find_node-later q (file (take 127 name) j size offset) ns other)
  ]

  add_file-stays :
      (qs : List (List ℕ)) (j : ℕ) (n : Node) (i' : ℕ) (n' : Node)
      → add_file name size offset j n ≡ some (i', n')
      → lookup qs n ≡ some m
      → (Through (name ∷ []) qs → ⊥)
      → lookup qs n' ≡ some m
  unfolding add_file lookup
  add_file-stays qs j (file n i s o) i' n' e was apart = absurd (none-ne-some _ e)
  add_file-stays [] j (dir n i ns) i' n' e was apart = let bad = not_file n i ns m was in cc
  add_file-stays (q ∷ qs) j (dir n i ns) i' n' e was apart =
      ap (λ (r : ℕ × Node). lookup (q ∷ qs) r.1) (sym (some-injective _ _ e))
      ∙ (front_stays q qs j n i ns apart ∙ was)

  module _ (p : List ℕ) (ps : List (List ℕ)) (inode : ℕ) (n : List ℕ) (k : ℕ) (ns : Nodes) (i' : ℕ)
      (n' : Node) (q : List ℕ) (qs : List (List ℕ))
      (was : lookup (q ∷ qs) (dir n k ns) ≡ some m) where
    made_stays :
        length p ≤ 255
        → Made p ps (add_file name size offset) inode n k ns i' n'
        → lookup (q ∷ qs) n' ≡ some m
    made_stays short made =
        let named : name_of made.sub ≡ p =
          visit-KeepsName ps (add_file name size offset) (add_file-KeepsName name size offset) _ _ _
            _ made.step
          ∙ take_all 255 p short in
        ap (lookup (q ∷ qs)) made.result ∙ elim (Bool-cases (str_eq p q)) [
          | inl here ↦ absurd (
              none-ne-some _
                (sym (lookup-absent q qs n k ns (find_node-same p q ns here ∙ made.absent)) ∙ was))
          | inr other ↦
              lookup-other q qs n k ns _
                (find_node-later q made.sub ns (ap (λ a. str_eq a q) named ∙ other))
              ∙ was
        ]

    went_stays :
        (went : Went p ps (add_file name size offset) inode n k ns i' n')
        → (Through (p ∷ (ps ++ (name ∷ []))) (q ∷ qs) → ⊥)
        → (lookup qs went.changed.before ≡ some m
            → (Through (ps ++ (name ∷ [])) qs → ⊥)
            → lookup qs went.changed.after ≡ some m)
        → lookup (q ∷ qs) n' ≡ some m
    went_stays went apart rest =
        let c = went.changed in
        ap (lookup (q ∷ qs)) went.result ∙ elim (Bool-cases (str_eq p q)) [
          | inl here ↦
              lookup-step q qs n k went.children c.after
                (find_node-same p q went.children here ∙ c.now)
              ∙ rest
                  (sym (lookup-step q qs n k ns c.before (find_node-same p q ns here ∙ c.was))
                    ∙ was)
                  (λ through. apart (here, through))
          | inr other ↦
              lookup-other q qs n k ns went.children (
                c.others q
                  (str_eq_off (name_of c.before) p q (find_node-name p ns c.before c.was) other))
              ∙ was
        ]

  -- Adding a file, where neither the path's directories have names of more than 255 bytes nor the file one of
  -- more than 127: a file in the tree, at a path that does not lead through that of the file which is added,
  -- stays where it is.
  pub visit-stays :
      (ps qs : List (List ℕ)) (inode : ℕ) (root : Node) (i' : ℕ) (root' : Node)
      → Short ps
      → visit ps (add_file name size offset) inode root ≡ some (i', root')
      → lookup qs root ≡ some m
      → (Through (ps ++ (name ∷ [])) qs → ⊥)
      → lookup qs root' ≡ some m
  unfolding visit lookup
  visit-stays [] qs inode root i' root' short e was apart =
      add_file-stays qs inode root i' root' e was apart
  visit-stays (p ∷ ps) qs inode (file n i s o) i' root' short e was apart =
      absurd (none-ne-some _ e)
  visit-stays (p ∷ ps) [] inode (dir n k ns) i' root' short e was apart =
      let bad = not_file n k ns m was in cc
  visit-stays (p ∷ ps) (q ∷ qs) inode (dir n k ns) i' root' short e was apart =
      elim (visit-cases p ps (add_file name size offset) inode n k ns i' root'
        (visit-KeepsName ps (add_file name size offset) (add_file-KeepsName name size offset) inode)
        e) [
          | inl made ↦ made_stays p ps inode n k ns i' root' q qs was short.0 made
          | inr went ↦ went_stays p ps inode n k ns i' root' q qs was went apart (
              visit-stays ps qs inode went.changed.before i' went.changed.after short.1
                went.changed.step)
        ]
