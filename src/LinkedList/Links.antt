-- ===== src/LinkedList/Links.antt =====
-- The addresses of the nodes, in order, and what the links say of them.
use munt3os.Base.{
  ℕ, ◌+◌, ◌^◌, ◌≤◌, ◌<◌, ◌≡◌, refl, sym, ap, ◌∙◌, ◌≢◌, inl, inr, false, List, [], ◌∷◌, ◌++◌, arith,
  ◌==◌, if◌then◌else◌, ==_iff, ==_refl, Bool-cases, length,
}
use munt3os.LinkedList.{Store, Handle}

-- How often an address stands in a list.
unfoldable pub times : ℕ → List ℕ → ℕ
times a [] = 0
times a (x ∷ xs) = (if a == x then 1 else 0) + times a xs

abbrev pub first_or : ℕ → List ℕ → ℕ
first_or q [] = q
first_or q (x ∷ xs) = x

abbrev pub last_or : ℕ → List ℕ → ℕ
last_or p [] = p
last_or p (x ∷ xs) = last_or x xs

-- The nodes at `xs` are linked both ways, from `p` before them to `q` behind them.
abbrev pub Linked : Store → ℕ → List ℕ → ℕ → Type 0
Linked s p [] q = Unit {0}
Linked s p (x ∷ xs) q =
    (x ≢ 0) × (((s x).prev ≡ p) × (((s x).next ≡ first_or q xs) × Linked s x xs q))

pub record IsList (s : Store) (l : Handle) (xs : List ℕ) : Type 0 where
  pub chain : Linked s 0 xs 0
  pub head : l.head ≡ first_or 0 xs
  pub tail : l.tail ≡ last_or 0 xs
  pub size : l.size ≡ length xs
  pub once : (a : ℕ) → times a xs ≤ 1
  pub few : length xs < 2 ^ 32

pub times-append : (a : ℕ) (xs ys : List ℕ) → times a (xs ++ ys) ≡ times a xs + times a ys
unfolding times
times-append a [] ys = omega arith
times-append a (x ∷ xs) ys = omega (arith, times-append a xs ys)

pub times-last_or : (x : ℕ) (xs : List ℕ) → 0 < times (last_or x xs) (x ∷ xs)
unfolding times
times-last_or x [] = ground arith
times-last_or x (y ∷ ys) = ground (arith, times-last_or y ys)

pub last_or-append : (p x : ℕ) (xs ys : List ℕ) → last_or p (xs ++ (x ∷ ys)) ≡ last_or x ys
last_or-append p x [] ys = refl
last_or-append p x (z ∷ zs) ys = last_or-append z x zs ys

pub first_or-append : (q : ℕ) (xs ys : List ℕ) → first_or q (xs ++ ys) ≡ first_or (first_or q ys) xs
first_or-append q [] ys = refl
first_or-append q (x ∷ xs) ys = refl

-- An address that stands in a list is none that does not.
pub apart : (x y : ℕ) (xs : List ℕ) → times x xs ≡ 0 → 0 < times y xs → (x == y) ≡ false
apart x y xs out m = elim (Bool-cases (x == y)) [
  | inl same ↦ absurd (omega (arith, ap (λ (a : ℕ). times a xs) ((==_iff x y).0 same), out, m))
  | inr other ↦ other
]

-- The first node of a list without repetition stands nowhere behind.
pub times-head : (x : ℕ) (xs : List ℕ) → times x (x ∷ xs) ≤ 1 → times x xs ≡ 0
unfolding times
times-head x xs once = ground (arith, ==_refl x, once)

pub times_self : (x : ℕ) (xs : List ℕ) → 0 < times x (x ∷ xs)
unfolding times
times_self x xs = ground (arith, ==_refl x)

module _ (s : Store) where
  pub Linked-split :
      (p q : ℕ) (xs ys : List ℕ)
      → Linked s p (xs ++ ys) q
      → Linked s p xs (first_or q ys) × Linked s (last_or p xs) ys q
  Linked-split p q [] ys l = (tt, l)
  Linked-split p q (x ∷ xs) ys l =
      let (front, back) = Linked-split x q xs ys l.1.1.1 in
      ((l.0, (l.1.0, (l.1.1.0 ∙ first_or-append q xs ys, front))), back)

  pub Linked-join :
      (p q : ℕ) (xs ys : List ℕ)
      → Linked s p xs (first_or q ys)
      → Linked s (last_or p xs) ys q
      → Linked s p (xs ++ ys) q
  Linked-join p q [] ys front back = back
  Linked-join p q (x ∷ xs) ys front back = (
    front.0,
    (
      front.1.0,
      (front.1.1.0 ∙ sym (first_or-append q xs ys), Linked-join x q xs ys front.1.1.1 back),
    ),
  )

  pub Linked-ne-zero : (p q a : ℕ) (xs : List ℕ) → Linked s p xs q → 0 < times a xs → a ≢ 0
  unfolding times
  Linked-ne-zero p q a [] l m = absurd (omega arith)
  Linked-ne-zero p q a (x ∷ xs) l m = ground (arith, Linked-ne-zero x q a xs l.1.1.1, l.0)

-- The links of a changed store `t`.
module _ (s t : Store) where
  -- Only the link from the last node goes elsewhere.
  pub Linked-retarget :
      (p q q' : ℕ) (xs : List ℕ)
      → ((a : ℕ) → times a xs ≤ 1)
      → ((a : ℕ) → 0 < times a xs → (t a).prev ≡ (s a).prev)
      → ((a : ℕ) → 0 < times a xs → (t a).next ≡ (if a == last_or 0 xs then q' else (s a).next))
      → Linked s p xs q
      → Linked t p xs q'
  unfolding times
  Linked-retarget p q q' [] once prevs nexts l = tt
  Linked-retarget p q q' (x ∷ []) once prevs nexts l =
      (l.0, (prevs x (ground arith) ∙ l.1.0, (ground (arith, nexts x), tt)))
  Linked-retarget p q q' (x ∷ (y ∷ ys)) once prevs nexts l =
      let other : (x == last_or y ys) ≡ false =
        apart x (last_or y ys) (y ∷ ys) (times-head x (y ∷ ys) (once x)) (times-last_or y ys) in
      let inner =
        Linked-retarget x q q' (y ∷ ys) (λ a. omega (arith, once a))
          (λ a m. prevs a (omega (arith, m))) (λ a m. nexts a (omega (arith, m))) l.1.1.1 in
      let x_next = nexts x (times_self x (y ∷ ys)) ∙ rw other refl in
      (l.0, (prevs x (times_self x (y ∷ ys)) ∙ l.1.0, (x_next ∙ l.1.1.0, inner)))

  -- Only the link back from the first node goes elsewhere.
  pub Linked-frame :
      (p q : ℕ) (xs : List ℕ)
      → ((a : ℕ) → 0 < times a xs → (t a).prev ≡ (s a).prev)
      → ((a : ℕ) → 0 < times a xs → (t a).next ≡ (s a).next)
      → Linked s p xs q
      → Linked t p xs q
  unfolding times
  Linked-frame p q [] prevs nexts l = tt
  Linked-frame p q (x ∷ xs) prevs nexts l = (
    l.0,
    (
      prevs x (ground arith) ∙ l.1.0,
      (
        nexts x (ground arith) ∙ l.1.1.0,
        Linked-frame x q xs (λ a m. prevs a (omega (arith, m))) (λ a m. nexts a (omega (arith, m)))
            l.1.1.1,
      ),
    ),
  )

  pub Linked-reparent :
      (p q p' : ℕ) (xs : List ℕ)
      → ((a : ℕ) → times a xs ≤ 1)
      → ((a : ℕ) → 0 < times a xs → (t a).prev ≡ (if a == first_or 0 xs then p' else (s a).prev))
      → ((a : ℕ) → 0 < times a xs → (t a).next ≡ (s a).next)
      → Linked s p xs q
      → Linked t p' xs q
  unfolding times
  Linked-reparent p q p' [] once prevs nexts l = tt
  Linked-reparent p q p' (x ∷ xs) once prevs nexts l = (
    l.0,
    (
      ground (arith, prevs x),
      (
        nexts x (ground arith) ∙ l.1.1.0,
        Linked-frame x q xs (λ a m. ground (arith, m, prevs a, once a))
            (λ a m. nexts a (omega (arith, m))) l.1.1.1,
      ),
    ),
  )
