-- ===== src/Strings/Splice.antt =====
-- A list written over an array from an index on.
use munt3os.Base.{
  ℕ, zero, suc, ◌+◌, ◌<◌, ◌≡◌, refl, ap, List, [], ◌∷◌, ◌++◌, arith, length, set, drop,
}

unfoldable pub splice {ℓ} : {A : Type ℓ} → ℕ → List A → List A → List A
splice zero dest ys = ys ++ drop (length ys) dest
splice (suc i) [] ys = []
splice (suc i) (d ∷ ds) ys = d ∷ splice i ds ys

module _ {ℓ} {A : Type ℓ} where
  -- One cell is written, then the rest behind it.
  pub splice-set :
      (i : ℕ) (dest : List A) (x : A) (ys : List A)
      → i < length dest
      → splice (i + 1) (set dest i x) ys ≡ splice i dest (x ∷ ys)
  unfolding splice
  splice-set zero [] x ys h = absurd (omega arith)
  splice-set zero (d ∷ ds) x ys h = refl
  splice-set (suc i) [] x ys h = absurd (omega arith)
  splice-set (suc i) (d ∷ ds) x ys h =
      let e : suc i + 1 ≡ suc (i + 1) = omega arith in
      rw e (ap (λ t. d ∷ t) (splice-set i ds x ys (omega arith)))

  pub set-splice :
      (i : ℕ) (dest : List A) (x : A) → i < length dest → set dest i x ≡ splice i dest (x ∷ [])
  unfolding splice
  set-splice zero [] x h = absurd (omega arith)
  set-splice zero (d ∷ ds) x h = refl
  set-splice (suc i) [] x h = absurd (omega arith)
  set-splice (suc i) (d ∷ ds) x h = ap (λ t. d ∷ t) (set-splice i ds x (omega arith))
