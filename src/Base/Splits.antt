-- ===== src/Base/Splits.antt =====
-- Two ways to cut one list.
use mathlib.Core.Path.{◌≡◌, refl, sym, ap, ap₂}
use mathlib.Core.Logic.{◌⊎◌, inl, inr}
use mathlib.Core.List.{List, [], ◌∷◌, ◌++◌}

module _ {ℓ} {A : Type ℓ} where
  -- The list before the second cut is a part of `xs`, or it goes beyond it.
  pub append-split :
      (xs zs ys ws : List A) (t : A)
      → xs ++ ys ≡ zs ++ (t ∷ ws)
      → ((r : List A) × (xs ≡ zs ++ (t ∷ r)) × (ws ≡ r ++ ys))
        ⊎ ((r : List A) × (zs ≡ xs ++ r) × (ys ≡ r ++ (t ∷ ws)))
  append-split [] zs ys ws t e = inr (zs, refl, e)
  append-split (x ∷ xs) [] ys ws t e = inl (xs, ap (λ a. a ∷ xs) cc, cc)
  append-split (x ∷ xs) (z ∷ zs) ys ws t e =
      let first : x ≡ z = cc in
      elim (append-split xs zs ys ws t cc) [
        | inl (r, p, q) ↦ inl (r, ap₂ (λ (a : A) (l : List A). a ∷ l) first p, q)
        | inr (r, p, q) ↦ inr (r, ap₂ (λ (a : A) (l : List A). a ∷ l) (sym first) p, q)
      ]
