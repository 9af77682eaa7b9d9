-- ===== src/LinkedList/Walk.antt =====
-- The walks: `list_at` from either end, and `list_find`.
use munt3os.Base.{
  ℕ, zero, suc, ◌+◌, ◌-◌, ◌/◌, ◌≤◌, ◌<◌, ◌≡◌, refl, sym, ap, ap₂, ◌∙◌, inl, inr, false, List, [],
  ◌∷◌, arith, ltb, leb, leb→le, Bool-cases, length, get_or,
}
use munt3os.LinkedList.{Store, World, walk_next, walk_prev, list_at}
use munt3os.LinkedList.Links.{first_or, last_or, Linked, IsList}

walk_next_lem :
    (s : Store) (p : ℕ) (n : ℕ) (xs : List ℕ)
    → n < length xs
    → Linked s p xs 0
    → walk_next n s (first_or 0 xs) ≡ get_or xs n 0
unfolding walk_next
walk_next_lem s p n [] h l = absurd (omega arith)
walk_next_lem s p zero (x ∷ xs) h l = refl
walk_next_lem s p (suc n) (x ∷ xs) h l =
    rw (l.1.1.0) (walk_next_lem s x n xs (omega (arith, h)) l.1.1.1)

prev_at :
    (s : Store) (p : ℕ) (i : ℕ) (xs : List ℕ)
    → suc i < length xs
    → Linked s p xs 0
    → (s (get_or xs (suc i) 0)).prev ≡ get_or xs i 0
prev_at s p i [] h l = absurd (omega arith)
prev_at s p i (x ∷ []) h l = absurd (omega arith)
prev_at s p zero (x ∷ (y ∷ ys)) h l = l.1.1.1.1.0
prev_at s p (suc i) (x ∷ (y ∷ ys)) h l = prev_at s x i (y ∷ ys) (omega (arith, h)) l.1.1.1

walk_prev_lem :
    (s : Store) (xs : List ℕ) (m i : ℕ)
    → i + m < length xs
    → Linked s 0 xs 0
    → walk_prev m s (get_or xs (i + m) 0) ≡ get_or xs i 0
unfolding walk_prev
walk_prev_lem s xs zero i h l = ap (λ (j : ℕ). get_or xs j 0) (omega arith)
walk_prev_lem s xs (suc m) i h l =
    let step : i + suc m ≡ suc (i + m) = omega arith in
    let back : (s (get_or xs (i + suc m) 0)).prev ≡ get_or xs (i + m) 0 =
      ap (λ (j : ℕ). (s (get_or xs j 0)).prev) step ∙ prev_at s 0 (i + m) xs (omega (arith, h)) l in
    ap (walk_prev m s) back ∙ walk_prev_lem s xs m i (omega (arith, h)) l

last_or_lem : (p : ℕ) (xs : List ℕ) → 0 < length xs → last_or p xs ≡ get_or xs (length xs - 1) 0
last_or_lem p [] h = absurd (omega arith)
last_or_lem p (x ∷ []) h = refl
last_or_lem p (x ∷ (y ∷ ys)) h =
    last_or_lem x (y ∷ ys) (omega arith)
    ∙ ap (λ (i : ℕ). get_or (x ∷ (y ∷ ys)) i 0) {x = suc (length (y ∷ ys) - 1)}
        {y = length (x ∷ (y ∷ ys)) - 1} (omega arith)

-- `list_at` returns the node at the index, from whichever end it walks, and NULL behind the end.
pub list_at_lem :
    (w : World) (xs : List ℕ) (index : ℕ)
    → IsList w.store w.list xs
    → list_at index w ≡ get_or xs index 0
unfolding list_at
list_at_lem w xs index l = elim (Bool-cases (leb w.list.size index)) [
  | inl out ↦
      rw (list_at, out)
        (sym (get_or_out xs index (omega (arith, l.size, leb→le w.list.size index out))))
  | inr inside ↦
      let small : index < length xs = omega (arith, l.size, leb→gt w.list.size index inside) in
      elim (Bool-cases (ltb index (w.list.size / 2))) [
        | inl early ↦
            rw (list_at, inside, early)
              (ap (walk_next index w.store) l.head ∙ walk_next_lem w.store 0 index xs small l.chain)
        | inr late ↦ rw (list_at, inside, late) (from_tail small)
      ]
]
  where
    leb→gt : (a b : ℕ) → leb a b ≡ false → b < a
    leb→gt a b e = ground (arith, e)

    from_tail :
        index < length xs
        → walk_prev (w.list.size - 1 - index) w.store w.list.tail ≡ get_or xs index 0
    from_tail small =
        let m = length xs - 1 - index in
        let last : w.list.tail ≡ get_or xs (index + m) 0 =
          l.tail
          ∙ (last_or_lem 0 xs (omega (arith, small))
              ∙ ap (λ (i : ℕ). get_or xs i 0) (omega (arith, small))) in
        ap₂ (λ (n t : ℕ). walk_prev n w.store t) (ap (λ (n : ℕ). n - 1 - index) l.size) last
        ∙ walk_prev_lem w.store xs m index (omega (arith, small)) l.chain

    get_or_out : (ys : List ℕ) (i : ℕ) → length ys ≤ i → get_or ys i 0 ≡ 0
    get_or_out [] i h = refl
    get_or_out (y ∷ ys) zero h = absurd (omega arith)
    get_or_out (y ∷ ys) (suc i) h = get_or_out ys i (omega (arith, h))
