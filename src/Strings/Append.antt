-- ===== src/Strings/Append.antt =====
-- What `strcpy`, `strcat` and `strncat` leave in the destination.
use munt3os.Base.{
  ℕ, zero, suc, ◌+◌, ◌<◌, min, ◌≡◌, refl, sym, ap, ap₂, ◌∙◌, inl, inr, List, [], ◌∷◌, ◌++◌,
  append_assoc, arith, ◌==◌, Bool-cases, length, set, take, drop, length-append, length-set,
}
use munt3os.Strings.{strlen, c_str, copy_str, strcpy, strcat, strncat, strncat_from}
use munt3os.Strings.Compare.{length-c_str}
use munt3os.Strings.Splice.{splice, splice-set, set-splice}

copy_str-splice :
    (src dest : List ℕ) (i : ℕ)
    → i + strlen src < length dest
    → copy_str dest src i ≡ (i + strlen src, splice i dest (c_str src ++ (0 ∷ [])))
unfolding copy_str strlen c_str
copy_str-splice [] dest i h = ap₂ (λ a b. (a, b)) (omega arith) (set-splice i dest 0 (omega arith))
copy_str-splice (x ∷ xs) dest i h = elim (Bool-cases (x == 0)) [
  | inl end ↦ rw end (ap₂ (λ a b. (a, b)) (omega arith) (set-splice i dest 0 (omega arith)))
  | inr more ↦
      let room : i + 1 + strlen xs < length (set dest i x) = ground (arith, length-set dest i x) in
      rw (more, copy_str-splice xs (set dest i x) (i + 1) room)
        (ap₂ (λ a b. (a, b)) (omega arith)
          (splice-set i dest x (c_str xs ++ (0 ∷ [])) (ground arith)))
]

pub c_str-terminated : (src rest : List ℕ) → c_str (c_str src ++ 0 ∷ rest) ≡ c_str src
unfolding c_str
c_str-terminated [] rest = refl
c_str-terminated (x ∷ xs) rest = ground (arith, c_str-terminated xs rest)

-- A string of nonzero bytes, then its terminator, put where the destination's string ends.
c_str-splice :
    (dest src : List ℕ)
    → strlen dest < length dest
    → c_str (splice (strlen dest) dest (c_str src ++ (0 ∷ []))) ≡ c_str dest ++ c_str src
unfolding c_str strlen splice
c_str-splice [] src h = absurd (omega arith)
c_str-splice (d ∷ ds) src h = elim (Bool-cases (d == 0)) [
  | inl end ↦
      rw (end, append_assoc) (c_str-terminated src (drop (length (c_str src ++ (0 ∷ []))) (d ∷ ds)))
  | inr more ↦ rw (more, more) (ap (λ t. d ∷ t) (c_str-splice ds src (ground arith)))
]

-- `strcpy` into an array with room for the string and its terminator returns the length and stores
-- exactly the string and the terminator at the front.
pub strcpy_lem :
    (dest src : List ℕ)
    → strlen src < length dest
    → strcpy dest src ≡ (strlen src, c_str src ++ 0 ∷ drop (strlen src + 1) dest)
unfolding strcpy splice
strcpy_lem dest src h =
    let n : length (c_str src ++ (0 ∷ [])) ≡ strlen src + 1 =
      omega (arith, length-append (c_str src) (0 ∷ []), length-c_str src) in
    let e : 0 + strlen src ≡ strlen src = omega arith in
    rw (copy_str-splice src dest 0 (omega arith), n, append_assoc, e)

-- `strcat` appends the second string, where the array has room for both and the terminator.
pub c_str-strcat :
    (dest src : List ℕ)
    → strlen dest + strlen src < length dest
    → c_str (strcat dest src) ≡ c_str dest ++ c_str src
unfolding strcat
c_str-strcat dest src h =
    ap (λ t. c_str t.1) (copy_str-splice src dest (strlen dest) h)
    ∙ c_str-splice dest src (omega arith)

strncat_from-splice :
    (n : ℕ) (src dest : List ℕ) (i : ℕ)
    → i + min n (strlen src) < length dest
    → strncat_from dest src i n ≡ splice i dest (take n (c_str src) ++ (0 ∷ []))
unfolding strncat_from strlen c_str
strncat_from-splice zero src dest i h = set-splice i dest 0 (omega arith)
strncat_from-splice (suc n) [] dest i h = set-splice i dest 0 (omega arith)
strncat_from-splice (suc n) (x ∷ xs) dest i h = elim (Bool-cases (x == 0)) [
  | inl end ↦ rw end (set-splice i dest 0 (omega arith))
  | inr more ↦
      let room : i + 1 + min n (strlen xs) < length (set dest i x) =
        ground (arith, length-set dest i x) in
      rw (more, strncat_from-splice n xs (set dest i x) (i + 1) room)
        (splice-set i dest x (take n (c_str xs) ++ (0 ∷ [])) (ground arith))
]

take-c_str : (n : ℕ) (src : List ℕ) → c_str (take n (c_str src)) ≡ take n (c_str src)
unfolding c_str
take-c_str zero src = refl
take-c_str (suc n) [] = refl
take-c_str (suc n) (x ∷ xs) = ground (arith, take-c_str n xs)

-- `strncat` appends the first `n` bytes of the second string, where the array has room for them and
-- the terminator.
pub c_str-strncat :
    (dest src : List ℕ) (n : ℕ)
    → strlen dest + min n (strlen src) < length dest
    → c_str (strncat dest src n) ≡ c_str dest ++ take n (c_str src)
unfolding strncat
c_str-strncat dest src n h =
    let part = take n (c_str src) in
    ap c_str (strncat_from-splice n src dest (strlen dest) h)
    ∙ (ap (λ t. c_str (splice (strlen dest) dest (t ++ (0 ∷ [])))) (sym (take-c_str n src))
        ∙ (c_str-splice dest part (omega arith) ∙ ap (λ t. c_str dest ++ t) (take-c_str n src)))
