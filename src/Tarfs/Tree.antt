-- ===== src/Tarfs/Tree.antt =====
-- The tree against its paths.
use munt3os.Base.{
  ℕ, zero, suc, ◌+◌, ◌≡◌, refl, sym, ap, ◌∙◌, ◌↔◌, ◌⊎◌, inl, inr, true, false, Option, none, some,
  List, [], ◌∷◌, arith, Bool-cases, take, u32, ℤ, pos, negsuc,
}
use mathlib.Core.Option.{some-injective, none-ne-some}
use mathlib.Core.Path.{subst}
use munt3os.HashMap.{is_zero}
use munt3os.Strings.{c_str, strcmp}
use munt3os.Strings.Compare.{strcmp-zero}
use munt3os.Vfs.{str_eq}
use munt3os.Tarfs.{
  Node, Nodes, dir, end, entry, name_of, tarfs_finddir, find_node, change_node, visit,
}

-- The walk along a path.
unfoldable pub lookup : List (List ℕ) → Node → Option Node
unfolding tarfs_finddir
lookup [] n = some n
lookup (p ∷ ps) n = elim (tarfs_finddir n p) [ none ↦ none | some m ↦ lookup ps m ]

is_zero_iff : (z : ℤ) → (is_zero z ≡ true) ↔ (z ≡ pos 0)
is_zero_iff (pos zero) = (λ e. refl, λ e. refl)
is_zero_iff (pos (suc n)) = ground arith
is_zero_iff (negsuc n) = ground arith

pub str_eq-c_str : (a b : List ℕ) → (str_eq a b ≡ true) ↔ (c_str a ≡ c_str b)
str_eq-c_str a b = (
  λ e. (strcmp-zero a b).0 ((is_zero_iff (strcmp a b)).0 e),
  λ e. (is_zero_iff (strcmp a b)).1 ((strcmp-zero a b).1 e),
)

abbrev pub KeepsName : (Node → Option (ℕ × Node)) → Type 0
KeepsName f = (m : Node) (i : ℕ) (m' : Node) → f m ≡ some (i, m') → name_of m' ≡ name_of m

-- What `change_node` does to the entry that it finds.
pub record Changed (p : List ℕ) (f : Node → Option (ℕ × Node)) (ns : Nodes) (i : ℕ) (ns' : Nodes)
    : Type 0 where
  pub before : Node
  pub after : Node
  pub was : find_node p ns ≡ some before
  pub step : f before ≡ some (i, after)
  pub now : find_node p ns' ≡ some after
  pub others : (q : List ℕ) → str_eq (name_of before) q ≡ false → find_node q ns' ≡ find_node q ns

pub find_node-here :
    (q : List ℕ) (n : Node) (ns : Nodes)
    → str_eq (name_of n) q ≡ true
    → find_node q (entry n ns) ≡ some n
unfolding find_node
find_node-here q n ns here = rw (find_node, here)

pub find_node-later :
    (q : List ℕ) (n : Node) (ns : Nodes)
    → str_eq (name_of n) q ≡ false
    → find_node q (entry n ns) ≡ find_node q ns
unfolding find_node
find_node-later q n ns there = rw (find_node, there)

change-Changed :
    (p : List ℕ) (f : Node → Option (ℕ × Node)) (ns : Nodes) (i : ℕ) (ns' : Nodes)
    → KeepsName f
    → change_node p f ns ≡ some (i, ns')
    → Changed p f ns i ns'
unfolding change_node
change-Changed p f end i ns' keeps e = absurd (none-ne-some _ e)
change-Changed p f (entry n ns) i ns' keeps e = elim (Bool-cases (str_eq (name_of n) p)) [
  | inl here ↦ at_front here (f n) refl (sym (rw (change_node, here)) ∙ e)
  | inr there ↦
      behind there (λ j ns2. change-Changed p f ns j ns2 keeps) (change_node p f ns) refl
        (sym (rw (change_node, there)) ∙ e)
]
  where
    at_front :
        str_eq (name_of n) p ≡ true
        → (r : Option (ℕ × Node)) → f n ≡ r
        → Path
            (Option (ℕ × Nodes))
            (elim r [ none ↦ none | some r ↦ some (r.0, entry r.1 ns) ])
            (some (i, ns'))
        → Changed p f (entry n ns) i ns'
    at_front here none made e = absurd (none-ne-some _ e)
    at_front here (some (j, m)) made e =
        let named : name_of m ≡ name_of n = keeps n j m made in
        subst (λ (r : ℕ × Nodes). Changed p f (entry n ns) r.0 r.1) (some-injective _ _ e)
          (record {
            before = n;
            after = m;
            was = find_node-here p n ns here;
            step = made;
            now = find_node-here p m ns (ap (λ a. str_eq a p) named ∙ here);
            others = λ q other.
                find_node-later q m ns (ap (λ a. str_eq a q) named ∙ other)
                ∙ sym (find_node-later q n ns other);
          })

    behind :
        str_eq (name_of n) p ≡ false
        → ((j : ℕ) (ns2 : Nodes) → change_node p f ns ≡ some (j, ns2) → Changed p f ns j ns2)
        → (r : Option (ℕ × Nodes)) → change_node p f ns ≡ r
        → Path
            (Option (ℕ × Nodes))
            (elim r [ none ↦ none | some r ↦ some (r.0, entry n r.1) ])
            (some (i, ns'))
        → Changed p f (entry n ns) i ns'
    behind there rest none made e = absurd (none-ne-some _ e)
    behind there rest (some (j, ns2)) made e =
        let c = rest j ns2 made in
        subst (λ (r : ℕ × Nodes). Changed p f (entry n ns) r.0 r.1) (some-injective _ _ e)
          (record {
            before = c.before;
            after = c.after;
            was = find_node-later p n ns there ∙ c.was;
            step = c.step;
            now = find_node-later p n ns2 there ∙ c.now;
            others = λ q other. elim (Bool-cases (str_eq (name_of n) q)) [
              | inl at ↦ find_node-here q n ns2 at ∙ sym (find_node-here q n ns at)
              | inr no_match ↦
                  find_node-later q n ns2 no_match
                  ∙ (c.others q other ∙ sym (find_node-later q n ns no_match))
            ];
          })

-- The three ways of a visit.
module _ (p : List ℕ) (ps : List (List ℕ)) (f : ℕ → Node → Option (ℕ × Node)) (inode : ℕ)
    (name : List ℕ) (i : ℕ) (ns : Nodes) (i' : ℕ) (n' : Node) where
  -- A directory that is made, or one that is there.
  pub record Made : Type 0 where
    pub sub : Node
    pub absent : find_node p ns ≡ none
    pub step : visit ps f (u32 (inode + 1)) (dir (take 255 p) inode end) ≡ some (i', sub)
    pub result : n' ≡ dir name i (entry sub ns)

  pub record Went : Type 0 where
    pub children : Nodes
    pub changed : Changed p (visit ps f inode) ns i' children
    pub result : n' ≡ dir name i children

  pub visit-cases :
      KeepsName (visit ps f inode)
      → visit (p ∷ ps) f inode (dir name i ns) ≡ some (i', n')
      → Made ⊎ Went
  unfolding visit
  visit-cases keeps e = by_child (find_node p ns) refl e
    where
      made_from :
          find_node p ns ≡ none
          → (r : Option (ℕ × Node)) → visit ps f (u32 (inode + 1)) (dir (take 255 p) inode end) ≡ r
          → Path
              (Option (ℕ × Node))
              (elim r [ none ↦ none | some r ↦ some (r.0, dir name i (entry r.1 ns)) ])
              (some (i', n'))
          → Made
      made_from absent none made e = absurd (none-ne-some _ e)
      made_from absent (some (j, m)) made e =
          let same : Path (ℕ × Node) (j, dir name i (entry m ns)) (i', n') = some-injective _ _ e in
          record {
            sub = m;
            absent = absent;
            step = made ∙ ap (λ (k : ℕ). some (k, m)) (ap (λ (r : ℕ × Node). r.0) same);
            result = sym (ap (λ (r : ℕ × Node). r.1) same);
          }

      went_to :
          (r : Option (ℕ × Nodes))
          → change_node p (visit ps f inode) ns ≡ r
          → Path
              (Option (ℕ × Node))
              (elim r [ none ↦ none | some r ↦ some (r.0, dir name i r.1) ])
              (some (i', n'))
          → Went
      went_to none made e = absurd (none-ne-some _ e)
      went_to (some (j, ns2)) made e =
          let same : Path (ℕ × Node) (j, dir name i ns2) (i', n') = some-injective _ _ e in
          record {
            children = ns2;
            changed =
                change-Changed p (visit ps f inode) ns i' ns2 keeps
                  (made ∙ ap (λ (k : ℕ). some (k, ns2)) (ap (λ (r : ℕ × Node). r.0) same));
            result = sym (ap (λ (r : ℕ × Node). r.1) same);
          }

      by_child :
          (o : Option Node)
          → find_node p ns ≡ o
          → Path
              (Option (ℕ × Node))
              (elim o [
                | none ↦ elim (visit ps f (u32 (inode + 1)) (dir (take 255 p) inode end)) [
                  | none ↦ none
                  | some r ↦ some (r.0, dir name i (entry r.1 ns))
                ]
                | some n ↦ elim (change_node p (visit ps f inode) ns) [
                  | none ↦ none
                  | some r ↦ some (r.0, dir name i r.1)
                ]
              ])
              (some (i', n'))
          → Made ⊎ Went
      by_child none found e =
          inl (made_from found (visit ps f (u32 (inode + 1)) (dir (take 255 p) inode end)) refl e)
      by_child (some m) found e = inr (went_to (change_node p (visit ps f inode) ns) refl e)
