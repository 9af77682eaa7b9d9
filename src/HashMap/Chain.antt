-- ===== src/HashMap/Chain.antt =====
-- One chain: what the searches and the updates do, by the keys.
use munt3os.Base.{
  ℕ, ◌+◌, ◌≤◌, ◌≡◌, refl, inl, inr, Bool, true, false, Option, none, some, List, [], ◌∷◌, arith,
  if◌then◌else◌, Bool-cases, length,
}
use munt3os.HashMap.{Chain, hash_str, matches, find, assign, unlink}
use munt3os.HashMap.Key.{key_eq, key_eq_left, key_eq_symm, matches_lem}

-- Every entry holds the hash of its key.
abbrev pub IsHashed : Chain → Type 0
IsHashed [] = Unit {0}
IsHashed (e ∷ es) = (e.hash ≡ hash_str e.key) × IsHashed es

unfoldable pub look : List ℕ → Chain → Option ℕ
look q [] = none
look q (e ∷ es) = if key_eq e.key q then some e.value else look q es

abbrev pub one_if : Bool → ℕ
one_if true = 1
one_if false = 0

-- How many entries have a key equal to `q`.
unfoldable pub occurrences : List ℕ → Chain → ℕ
occurrences q [] = 0
occurrences q (e ∷ es) = one_if (key_eq e.key q) + occurrences q es

pub find-look : (q : List ℕ) (c : Chain) → IsHashed c → find (hash_str q) q c ≡ look q c
unfolding find look
find-look q [] h = refl
find-look q (e ∷ es) h = rw (matches_lem q e h.0, find-look q es h.1)

pub look-none : (q : List ℕ) (c : Chain) → occurrences q c ≡ 0 → look q c ≡ none
unfolding look occurrences
look-none q [] h = refl
look-none q (e ∷ es) h = ground (arith, look-none q es)

pub occurrences-zero : (q : List ℕ) (c : Chain) → look q c ≡ none → occurrences q c ≡ 0
unfolding look occurrences
occurrences-zero q [] h = refl
occurrences-zero q (e ∷ es) h = ground (arith, occurrences-zero q es)

pub occurrences_congr :
    (a b : List ℕ) (c : Chain) → key_eq a b ≡ true → occurrences a c ≡ occurrences b c
unfolding occurrences
occurrences_congr a b [] e = refl
occurrences_congr a b (x ∷ xs) e = ground (
  arith,
  occurrences_congr a b xs,
  key_eq_left a b x.key e,
  key_eq_symm x.key a,
  key_eq_symm x.key b,
)

module _ (k : List ℕ) where
  pub look-assign :
      (q : List ℕ) (v old : ℕ) (c : Chain)
      → IsHashed c
      → look k c ≡ some old
      → look q (assign (hash_str k) k v c) ≡ (if key_eq k q then some v else look q c)
  unfolding look assign
  look-assign q v old [] h found = cc
  look-assign q v old (e ∷ es) h found = rw (matches_lem k e h.0) (
      ground (
        arith,
        look-assign q v old es h.1,
        key_eq_left e.key k q,
        key_eq_left k q e.key,
        key_eq_symm e.key q,
        key_eq_symm e.key k,
      ))

  pub occurrences-assign :
      (q : List ℕ) (v : ℕ) (c : Chain) → occurrences q (assign (hash_str k) k v c) ≡ occurrences q c
  unfolding occurrences assign
  occurrences-assign q v [] = refl
  occurrences-assign q v (e ∷ es) = ground (arith, occurrences-assign q v es)

  pub assign-IsHashed : (v : ℕ) (c : Chain) → IsHashed c → IsHashed (assign (hash_str k) k v c)
  unfolding assign
  assign-IsHashed v [] h = tt
  assign-IsHashed v (e ∷ es) h = elim (Bool-cases (matches (hash_str k) k e)) [
    | inl at ↦ rw at (h.0, h.1)
    | inr past ↦ rw past (h.0, assign-IsHashed v es h.1)
  ]

  pub length-assign : (v : ℕ) (c : Chain) → length (assign (hash_str k) k v c) ≡ length c
  unfolding assign
  length-assign v [] = refl
  length-assign v (e ∷ es) = ground (arith, length-assign v es)

  pub look-unlink :
      (q : List ℕ) (c : Chain)
      → IsHashed c
      → occurrences q c ≤ 1
      → look q (unlink (hash_str k) k c) ≡ (if key_eq k q then none else look q c)
  unfolding look unlink occurrences
  look-unlink q [] h once = ground arith
  look-unlink q (e ∷ es) h once = rw (matches_lem k e h.0) (
      ground (
        arith,
        look-unlink q es h.1,
        look-none q es,
        key_eq_left e.key k q,
        key_eq_left k q e.key,
        key_eq_symm e.key q,
        key_eq_symm e.key k,
      ))

  pub occurrences-unlink :
      (q : List ℕ) (c : Chain) → occurrences q (unlink (hash_str k) k c) ≤ occurrences q c
  unfolding occurrences unlink
  occurrences-unlink q [] = omega arith
  occurrences-unlink q (e ∷ es) = ground (arith, occurrences-unlink q es)

  pub unlink-IsHashed : (c : Chain) → IsHashed c → IsHashed (unlink (hash_str k) k c)
  unfolding unlink
  unlink-IsHashed [] h = tt
  unlink-IsHashed (e ∷ es) h = elim (Bool-cases (matches (hash_str k) k e)) [
    | inl at ↦ rw at h.1
    | inr past ↦ rw past (h.0, unlink-IsHashed es h.1)
  ]

  pub length-unlink :
      (old : ℕ) (c : Chain)
      → IsHashed c
      → look k c ≡ some old
      → length (unlink (hash_str k) k c) + 1 ≡ length c
  unfolding look unlink
  length-unlink old [] h found = cc
  length-unlink old (e ∷ es) h found =
      rw (matches_lem k e h.0) (ground (arith, length-unlink old es h.1))
