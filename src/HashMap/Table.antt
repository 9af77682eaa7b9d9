-- ===== src/HashMap/Table.antt =====
-- Where the entries stand in the table, what it maps a key to, and the writes to one chain.
use munt3os.Base.{
  ℕ, zero, suc, ◌+◌, ◌%◌, ◌≤◌, ◌<◌, max, ◌≡◌, refl, ap, ◌∙◌, ◌≢◌, inl, inr, true, Option, none,
  some, List, [], ◌∷◌, arith, ◌==◌, if◌then◌else◌, ==_iff, Bool-cases, length, get_or, set,
  length-set, get_or-set,
}
use native.Mathlib.Nat.{mod-lt}
use munt3os.HashMap.{Entry, Chain, hash_str}
use munt3os.HashMap.Chain.{IsHashed, look, occurrences, one_if, occurrences-zero, occurrences_congr}
use munt3os.HashMap.Key.{key_eq, hash_str_congr}

abbrev pub home : List ℕ → ℕ → ℕ
home q cap = hash_str q % cap

-- A key stands at most once in the table, and in its own chain.
pub record Placed (cap : ℕ) (bs : List Chain) : Type 0 where
  pub width : length bs ≡ cap
  pub hashed : (i : ℕ) → IsHashed (get_or bs i [])
  pub once : (q : List ℕ) (i : ℕ) → occurrences q (get_or bs i []) ≤ 1
  pub at_home : (q : List ℕ) (i : ℕ) → home q cap ≢ i → occurrences q (get_or bs i []) ≡ 0

-- What the table maps a key to.
abbrev pub view : ℕ → List Chain → List ℕ → Option ℕ
view cap bs q = look q (get_or bs (home q cap) [])

abbrev pub held : ℕ → List Chain → List ℕ → ℕ
held cap bs q = occurrences q (get_or bs (home q cap) [])

unfoldable pub total : List Chain → ℕ
total [] = 0
total (c ∷ cs) = length c + total cs

pub total-set :
    (bs : List Chain) (i : ℕ) (c : Chain)
    → i < length bs
    → total (set bs i c) + length (get_or bs i []) ≡ total bs + length c
unfolding total
total-set [] i c h = absurd (omega arith)
total-set (b ∷ bs) zero c h = omega arith
total-set (b ∷ bs) (suc i) c h = omega (arith, total-set bs i c (omega arith))

home-lt : (q : List ℕ) (cap : ℕ) → 0 < cap → home q cap < cap
home-lt q cap h = mod-lt (hash_str q) h

pub home_congr : (a b : List ℕ) (cap : ℕ) → key_eq a b ≡ true → home a cap ≡ home b cap
home_congr a b cap e = ap (λ h. h % cap) (hash_str_congr a b e)

module _ (cap : ℕ) (bs : List Chain) (positive : 0 < cap) (p : Placed cap bs) (k : List ℕ)
    (c : Chain) where
  abbrev old : Chain
  old = get_or bs (home k cap) []

  home_in : home k cap < length bs
  home_in = omega (arith, home-lt k cap positive, p.width)

  -- The chain of `k` is replaced by one that holds at most `k` besides what was there.
  pub set-Placed :
      IsHashed c
      → ((q : List ℕ) → occurrences q c ≤ max (one_if (key_eq k q)) (occurrences q old))
      → Placed cap (set bs (home k cap) c)
  set-Placed hashed few = record {
    width = length-set bs (home k cap) c ∙ p.width;
    hashed = λ i.
        rw (get_or-set bs (home k cap) i c [] home_in) (elim (Bool-cases (home k cap == i)) [
          | inl here ↦ rw here hashed
          | inr there ↦ rw there (p.hashed i)
        ]);
    once = λ q i.
        rw (get_or-set bs (home k cap) i c [] home_in)
          (ground (arith, few q, p.once q i, p.once q (home k cap)));
    at_home = λ q i ne.
        rw (get_or-set bs (home k cap) i c [] home_in)
          (ground (arith, few q, p.at_home q i, p.at_home q (home k cap), home_congr k q cap));
  }

  pub view-set :
      (v : Option ℕ) (q : List ℕ)
      → look q c ≡ (if key_eq k q then v else look q old)
      → view cap (set bs (home k cap) c) q ≡ (if key_eq k q then v else view cap bs q)
  view-set v q e =
      rw (get_or-set bs (home k cap) (home q cap) c [] home_in)
        (elim (Bool-cases (home k cap == home q cap)) [
          | inl here ↦
              let same : home k cap ≡ home q cap = (==_iff _ _).0 here in rw (here, e, same)
          | inr there ↦ elim (Bool-cases (key_eq k q)) [
            | inl eq ↦ absurd (ground (arith, home_congr k q cap eq))
            | inr ne ↦ rw (there, ne)
          ]
        ])

  pub held-set :
      (q : List ℕ)
      → occurrences q c ≡ one_if (key_eq k q) + occurrences q old
      → held cap (set bs (home k cap) c) q ≡ one_if (key_eq k q) + held cap bs q
  held-set q e =
      rw (get_or-set bs (home k cap) (home q cap) c [] home_in)
        (elim (Bool-cases (home k cap == home q cap)) [
          | inl here ↦
              let same : home k cap ≡ home q cap = (==_iff _ _).0 here in rw (here, e, same)
          | inr there ↦ elim (Bool-cases (key_eq k q)) [
            | inl eq ↦ absurd (ground (arith, home_congr k q cap eq))
            | inr ne ↦ rw (there, ne) (omega arith)
          ]
        ])

  pub total_set : total (set bs (home k cap) c) + length old ≡ total bs + length c
  total_set = total-set bs (home k cap) c home_in

-- A new entry at the front of its chain, for a key that is not there.
module _ (cap : ℕ) (bs : List Chain) (positive : 0 < cap) (p : Placed cap bs) (e : Entry)
    (hash : e.hash ≡ hash_str e.key) (absent : view cap bs e.key ≡ none) where
  abbrev pub longer : Chain
  longer = e ∷ get_or bs (home e.key cap) []

  abbrev pub grown : List Chain
  grown = set bs (home e.key cap) longer

  few :
      (q : List ℕ)
      → occurrences q longer
        ≤ max (one_if (key_eq e.key q)) (occurrences q (get_or bs (home e.key cap) []))
  unfolding occurrences
  few q = ground (
    arith,
    occurrences_congr e.key q (get_or bs (home e.key cap) []),
    occurrences-zero e.key (get_or bs (home e.key cap) []) absent,
  )

  pub grown-Placed : Placed cap grown
  grown-Placed = set-Placed cap bs positive p e.key longer (hash, p.hashed (home e.key cap)) few

  pub grown-view :
      (q : List ℕ) → view cap grown q ≡ (if key_eq e.key q then some e.value else view cap bs q)
  unfolding look
  grown-view q = view-set cap bs positive p e.key longer (some e.value) q refl

  pub grown-held : (q : List ℕ) → held cap grown q ≡ one_if (key_eq e.key q) + held cap bs q
  unfolding occurrences
  grown-held q = held-set cap bs positive p e.key longer q refl

  pub grown-total : total grown ≡ total bs + 1
  grown-total = omega (arith, total_set cap bs positive p e.key longer)
