-- ===== src/Base/Drops.antt =====
-- Prefixes and suffixes of joined lists.
use Prim.Native.Nat.{ℕ, zero, suc, ◌+◌, ◌-◌, ◌≤◌}
use mathlib.Core.Path.{◌≡◌, refl, sym, ap, ap₂, ◌∙◌}
use mathlib.Core.List.{List, [], ◌∷◌, ◌++◌}
use native.Mathlib.Omega.{arith}
use munt3os.Base.Lists.{length, take, drop, length-append, length-drop}

module _ {ℓ} {A : Type ℓ} where
  -- The last `n` elements, or all of a shorter list.
  abbrev pub take_last : ℕ → List A → List A
  take_last n xs = drop (length xs - n) xs

  pub drop-nil : (n : ℕ) → drop {A = A} n [] ≡ []
  drop-nil zero = refl
  drop-nil (suc n) = refl

  pub drop_all : (n : ℕ) (xs : List A) → length xs ≤ n → drop n xs ≡ []
  drop_all n [] h = drop-nil n
  drop_all zero (x ∷ xs) h = absurd (omega arith)
  drop_all (suc n) (x ∷ xs) h = drop_all n xs (omega arith)

  pub take_all : (n : ℕ) (xs : List A) → length xs ≤ n → take n xs ≡ xs
  take_all zero [] h = refl
  take_all (suc n) [] h = refl
  take_all zero (x ∷ xs) h = absurd (omega arith)
  take_all (suc n) (x ∷ xs) h = ap (λ t. x ∷ t) (take_all n xs (omega arith))

  pub take-take : (m n : ℕ) (xs : List A) → m ≤ n → take m (take n xs) ≡ take m xs
  take-take zero n xs h = refl
  take-take (suc m) zero xs h = absurd (omega (arith, h))
  take-take (suc m) (suc n) [] h = refl
  take-take (suc m) (suc n) (x ∷ xs) h = ap (λ t. x ∷ t) (take-take m n xs (omega (arith, h)))

  pub drop-take : (m n : ℕ) (xs : List A) → m ≤ n → drop m (take n xs) ≡ take (n - m) (drop m xs)
  drop-take zero n xs h = ap (λ k. take k xs) (omega arith)
  drop-take (suc m) zero xs h = absurd (omega (arith, h))
  drop-take (suc m) (suc n) [] h = sym (take_all (suc n - suc m) [] (omega arith))
  drop-take (suc m) (suc n) (x ∷ xs) h =
      drop-take m n xs (omega (arith, h)) ∙ ap (λ k. take k (drop m xs)) (omega arith)

  drop_from : (xs ys : List A) {i j : ℕ} → i ≡ j → xs ++ drop i ys ≡ xs ++ drop j ys
  drop_from xs ys e = ap (λ k. xs ++ drop k ys) e

  pub drop-append :
      (n : ℕ) (xs ys : List A) → drop n (xs ++ ys) ≡ drop n xs ++ drop (n - length xs) ys
  drop-append zero [] ys = refl
  drop-append zero (x ∷ xs) ys =
      drop_from (x ∷ xs) ys {i = 0} {j = 0 - length (x ∷ xs)} (omega arith)
  drop-append (suc n) [] ys = drop_from [] ys {i = suc n} {j = suc n - 0} (omega arith)
  drop-append (suc n) (x ∷ xs) ys =
      drop-append n xs ys
      ∙ drop_from (drop n xs) ys {i = n - length xs} {j = suc n - length (x ∷ xs)} (omega arith)

  pub drop-drop : (m n : ℕ) (xs : List A) → drop m (drop n xs) ≡ drop (n + m) xs
  drop-drop m zero xs = ap (λ k. drop k xs) (omega arith)
  drop-drop m (suc n) [] = rw (drop-nil m, drop-nil (suc n + m))
  drop-drop m (suc n) (x ∷ xs) = drop-drop m n xs ∙ ap (λ k. drop k (x ∷ xs)) step
    where
      step : suc (n + m) ≡ suc n + m
      step = omega arith

  pub take_last-append :
      (n : ℕ) (xs ys : List A) → take_last n (take_last n xs ++ ys) ≡ take_last n (xs ++ ys)
  take_last-append n xs ys =
      let k = length xs - n in
      let cut : drop k xs ++ ys ≡ drop k (xs ++ ys) =
        drop_from (drop k xs) ys {i = 0} {j = k - length xs} (omega arith)
        ∙ sym (drop-append k xs ys) in
      let both : k + (length (drop k (xs ++ ys)) - n) ≡ length (xs ++ ys) - n =
        omega (arith, length-append xs ys, length-drop k (xs ++ ys)) in
      rw (cut, drop-drop) (ap (λ j. drop j (xs ++ ys)) both)

  pub take_last-append_long :
      (n : ℕ) (xs ys : List A) → n ≤ length ys → take_last n (xs ++ ys) ≡ take_last n ys
  take_last-append_long n xs ys h =
      let k = length (xs ++ ys) - n in
      let all : drop k xs ≡ [] = drop_all k xs (omega (arith, length-append xs ys)) in
      let rest : k - length xs ≡ length ys - n = omega (arith, length-append xs ys) in
      drop-append k xs ys ∙ ap₂ (λ a j. a ++ drop j ys) all rest

  pub take_last_all : (n : ℕ) (xs : List A) → length xs ≤ n → take_last n xs ≡ xs
  take_last_all n xs h = ap (λ k. drop k xs) zero_lem
    where
      zero_lem : length xs - n ≡ 0
      zero_lem = omega arith
