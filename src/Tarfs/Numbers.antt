-- ===== src/Tarfs/Numbers.antt =====
-- The numbers of the headers.
use munt3os.Base.{
  ℕ, zero, suc, ◌+◌, ◌-◌, ◌/◌, ◌%◌, ◌^◌, ◌<◌, ◌≡◌, refl, ap, ◌∙◌, true, List, [], ◌∷◌, ◌++◌, arith,
  leb, length, length-append, add_u32, mul_u32,
}
use native.Mathlib.Nat.{pow-suc}
use munt3os.Tarfs.{octal_from, octal_to_int}

-- The last `w` octal digits of a number.
unfoldable pub octal_digits : ℕ → ℕ → List ℕ
octal_digits zero n = []
octal_digits (suc w) n = octal_digits w (n / 8) ++ ((48 + n % 8) ∷ [])

length-octal_digits : (w n : ℕ) → length (octal_digits w n) ≡ w
unfolding octal_digits
length-octal_digits zero n = refl
length-octal_digits (suc w) n = omega (
  arith,
  length-append (octal_digits w (n / 8)) ((48 + n % 8) ∷ []),
  length-octal_digits w (n / 8),
)

octal_from-append :
    (a b : List ℕ) (n k m : ℕ)
    → k ≡ length a + m
    → octal_from n (a ++ b) k ≡ octal_from (octal_from n a (length a)) b m
unfolding octal_from
octal_from-append [] b n k m e = let same : k ≡ m = omega (arith, e) in ap (octal_from n b) same
octal_from-append (x ∷ xs) b n zero m e = absurd (omega (arith, e))
octal_from-append (x ∷ xs) b n (suc k) m e = octal_from-append xs b _ k m (omega (arith, e))

octal_from_stop : (n : ℕ) (rest : List ℕ) → octal_from n rest 0 ≡ n
unfolding octal_from
octal_from_stop n [] = refl
octal_from_stop n (c ∷ cs) = refl

octal_from_one : (n d : ℕ) → d < 8 → octal_from n ((48 + d) ∷ []) 1 ≡ add_u32 (mul_u32 n 8) d
unfolding octal_from
octal_from_one n d h =
    let low : leb 48 (48 + d) ≡ true = ground arith in
    let high : leb (48 + d) 55 ≡ true = ground (arith, h) in
    let digit : 48 + d - 48 ≡ d = omega arith in rw (octal_from, low, high, digit)

octal_from-digits : (w n : ℕ) → n < 8 ^ w → n < 2 ^ 32 → octal_from 0 (octal_digits w n) w ≡ n
unfolding octal_digits octal_from
octal_from-digits zero n h small = omega (arith, h)
octal_from-digits (suc w) n h small =
    octal_from-append (octal_digits w (n / 8)) ((48 + n % 8) ∷ []) 0 (suc w) 1
      (omega (arith, length-octal_digits w (n / 8)))
    ∙ (ap (λ (k : ℕ). octal_from (octal_from 0 (octal_digits w (n / 8)) k) ((48 + n % 8) ∷ []) 1)
          (length-octal_digits w (n / 8))
        ∙ (ap (λ (k : ℕ). octal_from k ((48 + n % 8) ∷ []) 1)
              (octal_from-digits w (n / 8) (omega (arith, h, pow-suc 8 w)) (omega (arith, small)))
            ∙ (octal_from_one (n / 8) (n % 8) (omega arith) ∙ omega (arith, small))))

-- octal_to_int reads a number below 2^32 back from its octal digits, whatever stands behind them.
pub octal_to_int-digits :
    (w n : ℕ) (rest : List ℕ)
    → n < 8 ^ w
    → n < 2 ^ 32
    → octal_to_int (octal_digits w n ++ rest) w ≡ n
unfolding octal_to_int
octal_to_int-digits w n rest h small =
    octal_from-append (octal_digits w n) rest 0 w 0 (omega (arith, length-octal_digits w n))
    ∙ (octal_from_stop _ rest
        ∙ (ap (octal_from 0 (octal_digits w n)) (length-octal_digits w n)
            ∙ octal_from-digits w n h small))
