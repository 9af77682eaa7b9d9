-- ===== src/Tarfs/Names.antt =====
-- Names that are compared, and the steps of a walk.
use munt3os.Base.{
  ℕ, ◌≡◌, refl, sym, ap, ◌∙◌, inl, inr, Bool, true, false, Option, none, some, List, ◌∷◌,
  Bool-cases,
}
use mathlib.Core.Option.{some-injective, none-ne-some}
use munt3os.Vfs.{str_eq}
use munt3os.Tarfs.{Node, Nodes, file, dir, end, entry, name_of, tarfs_finddir, find_node}
use munt3os.Tarfs.Tree.{lookup, str_eq-c_str, find_node-here, find_node-later}

pub str_eq_refl : (a : List ℕ) → str_eq a a ≡ true
str_eq_refl a = (str_eq-c_str a a).1 refl

pub lookup-step :
    (p : List ℕ) (ps : List (List ℕ)) (name : List ℕ) (i : ℕ) (ns : Nodes) (m : Node)
    → find_node p ns ≡ some m
    → lookup (p ∷ ps) (dir name i ns) ≡ lookup ps m
unfolding lookup tarfs_finddir
lookup-step p ps name i ns m found = rw (lookup, found)

pub lookup-other :
    (q : List ℕ) (qs : List (List ℕ)) (n : List ℕ) (i : ℕ) (ns ns' : Nodes)
    → find_node q ns' ≡ find_node q ns
    → lookup (q ∷ qs) (dir n i ns') ≡ lookup (q ∷ qs) (dir n i ns)
unfolding lookup tarfs_finddir
lookup-other q qs n i ns ns' same =
    ap (λ (o : Option Node). elim o [ none ↦ none | some m ↦ lookup qs m ]) same

pub str_eq_trans : (a b c : List ℕ) → str_eq a b ≡ true → str_eq b c ≡ true → str_eq a c ≡ true
str_eq_trans a b c h k = (str_eq-c_str a c).1 ((str_eq-c_str a b).0 h ∙ (str_eq-c_str b c).0 k)

pub str_eq_sym : (a b : List ℕ) → str_eq a b ≡ true → str_eq b a ≡ true
str_eq_sym a b h = (str_eq-c_str b a).1 (sym ((str_eq-c_str a b).0 h))

-- If one of two equal names is compared with a third, so is the other.
pub str_eq_off : (a b c : List ℕ) → str_eq a b ≡ true → str_eq b c ≡ false → str_eq a c ≡ false
str_eq_off a b c h k = elim (Bool-cases (str_eq a c)) [
  | inl e ↦ let bad = str_eq_trans b a c (str_eq_sym a b h) e in cc
  | inr ne ↦ ne
]

pub find_node-same :
    (p q : List ℕ) (ns : Nodes) → str_eq p q ≡ true → find_node q ns ≡ find_node p ns
unfolding find_node
find_node-same p q end h = refl
find_node-same p q (entry n ns) h = elim (Bool-cases (str_eq (name_of n) p)) [
  | inl here ↦
      find_node-here q n ns (str_eq_trans (name_of n) p q here h) ∙ sym (find_node-here p n ns here)
  | inr there ↦
      let off : str_eq (name_of n) q ≡ false = elim (Bool-cases (str_eq (name_of n) q)) [
        | inl e ↦ let bad = str_eq_trans (name_of n) q p e (str_eq_sym p q h) in cc
        | inr ne ↦ ne
      ] in
      find_node-later q n ns off ∙ (find_node-same p q ns h ∙ sym (find_node-later p n ns there))
]

pub find_node-name :
    (p : List ℕ) (ns : Nodes) (m : Node) → find_node p ns ≡ some m → str_eq (name_of m) p ≡ true
unfolding find_node
find_node-name p end m e = absurd (none-ne-some _ e)
find_node-name p (entry n ns) m e = elim (Bool-cases (str_eq (name_of n) p)) [
  | inl here ↦
      ap (λ (k : Node). str_eq (name_of k) p)
        (sym (some-injective _ _ (sym (find_node-here p n ns here) ∙ e)))
      ∙ here
  | inr there ↦ find_node-name p ns m (sym (find_node-later p n ns there) ∙ e)
]

abbrev pub is_file : Node → Bool
is_file (file n i s o) = true
is_file (dir n i ns) = false

pub lookup-absent :
    (q : List ℕ) (qs : List (List ℕ)) (n : List ℕ) (i : ℕ) (ns : Nodes)
    → find_node q ns ≡ none
    → lookup (q ∷ qs) (dir n i ns) ≡ none
unfolding lookup tarfs_finddir
lookup-absent q qs n i ns absent = rw (lookup, absent)
