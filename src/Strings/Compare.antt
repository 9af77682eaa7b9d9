-- ===== src/Strings/Compare.antt =====
-- `strcmp` compares what stands before the terminators.
use munt3os.Base.{ℕ, zero, suc, ◌≡◌, refl, ap, ◌↔◌, List, [], ◌∷◌, arith, length, take, pos}
use munt3os.Strings.{strlen, c_str, strcmp, strncmp}

pub length-c_str : (xs : List ℕ) → length (c_str xs) ≡ strlen xs
unfolding c_str strlen
length-c_str [] = refl
length-c_str (x ∷ xs) = ground (arith, length-c_str xs)

cons-eq : (x : ℕ) (xs ys : List ℕ) → (xs ≡ ys) ↔ (x ∷ xs ≡ x ∷ ys)
cons-eq x xs ys = (λ e. ap (λ t. x ∷ t) e, λ e. cc)

-- `strcmp` is 0 exactly on equal strings.
pub strcmp-zero : (xs ys : List ℕ) → (strcmp xs ys ≡ pos 0) ↔ (c_str xs ≡ c_str ys)
unfolding strcmp c_str
strcmp-zero [] [] = (λ e. refl, λ e. refl)
strcmp-zero [] (y ∷ ys) = ground arith
strcmp-zero (x ∷ xs) [] = ground arith
strcmp-zero (x ∷ xs) (y ∷ ys) = ground (arith, strcmp-zero xs ys)

-- `strncmp` is 0 exactly if the first `n` bytes of the strings are equal.
pub strncmp-zero :
    (n : ℕ) (xs ys : List ℕ) → (strncmp xs ys n ≡ pos 0) ↔ (take n (c_str xs) ≡ take n (c_str ys))
unfolding strncmp c_str
strncmp-zero zero xs ys = (λ e. refl, λ e. refl)
strncmp-zero (suc n) [] [] = (λ e. refl, λ e. refl)
strncmp-zero (suc n) [] (y ∷ ys) = ground arith
strncmp-zero (suc n) (x ∷ xs) [] = ground arith
strncmp-zero (suc n) (x ∷ xs) (y ∷ ys) = ground (arith, strncmp-zero n xs ys)
