-- ===== src/Base/Bits.antt =====
-- The operations on bits, one low digit at a time.
use Prim.Native.Nat.{
  ℕ, zero, suc, ◌+◌, ◌-◌, ◌*◌, ◌/◌, ◌%◌, ◌^◌, ◌≤◌, ◌<◌, max, digits, bitwise, differ, bit_or,
  bit_xor, bit_or-bitwise, bit_xor-bitwise,
}
use mathlib.Core.Path.{◌≡◌, refl, sym, ap, ap₂, ◌∙◌}
use mathlib.Core.Logic.{◌⊎◌, inl, inr}
use native.Mathlib.Nat.{pow-suc, le_refl}
use native.Mathlib.Omega.{arith}

module _ (rest : ℕ → ℕ) (digit : ℕ → ℕ → ℕ) where
  -- Any count of digits will do that is not below the number.
  digits-enough : (m n a b : ℕ) → a ≤ m → a ≤ n → digits rest digit m a b ≡ digits rest digit n a b
  digits-enough zero zero a b p q = refl
  digits-enough zero (suc n) zero b p q = refl
  digits-enough zero (suc n) (suc a) b p q = absurd (omega arith)
  digits-enough (suc m) zero zero b p q = refl
  digits-enough (suc m) zero (suc a) b p q = absurd (omega arith)
  digits-enough (suc m) (suc n) zero b p q = refl
  digits-enough (suc m) (suc n) (suc a) b p q =
      rw (digits-enough m n (suc a / 2) (b / 2) (omega arith) (omega arith))

  lowest_digit :
      (a b : ℕ)
      → bitwise rest digit (suc a) b
        ≡ bitwise rest digit (suc a / 2) (b / 2) * 2 + digit (suc a % 2) (b % 2)
  lowest_digit a b =
      omega (arith, digits-enough a (suc a / 2) (suc a / 2) (b / 2) (omega arith) (le_refl _))

pub bit_or_halves : (a b : ℕ) → bit_or a b ≡ bit_or (a / 2) (b / 2) * 2 + max (a % 2) (b % 2)
bit_or_halves zero b = simp bit_or-bitwise (omega arith)
bit_or_halves (suc a) b = simp bit_or-bitwise (lowest_digit (λ y. y) max a b)

bit_xor_halves : (a b : ℕ) → bit_xor a b ≡ bit_xor (a / 2) (b / 2) * 2 + differ (a % 2) (b % 2)
bit_xor_halves zero b = simp bit_xor-bitwise (omega arith)
bit_xor_halves (suc a) b = simp bit_xor-bitwise (lowest_digit (λ y. y) differ a b)

pub bit_or-zero : (n q : ℕ) → q ≤ n → bit_or q 0 ≡ q
bit_or-zero n zero h = refl
bit_or-zero zero (suc q) h = absurd (omega arith)
bit_or-zero (suc n) (suc q) h =
    omega (arith, bit_or_halves (suc q) 0, bit_or-zero n (suc q / 2) (omega arith))

pow_double : (q k : ℕ) → q * 2 ^ suc k ≡ 2 * (q * 2 ^ k)
pow_double q k = omega (arith, ap (λ (p : ℕ). q * p) (pow-suc 2 k))

-- A number with `k` low zeros, or'ed with one of `k` digits, is their sum.
pub bit_or-add : (k q r : ℕ) → r < 2 ^ k → bit_or (q * 2 ^ k) r ≡ q * 2 ^ k + r
bit_or-add zero q r fits = ground (arith, bit_or-zero q q (le_refl q))
bit_or-add (suc k) q r fits = ground (
  arith,
  bit_or_halves (q * 2 ^ suc k) r,
  pow_double q k,
  pow-suc 2 k,
  bit_or-add k q (r / 2) (omega (arith, fits, pow-suc 2 k)),
)

differ-zero : (d : ℕ) → differ d 0 ≡ d
differ-zero zero = refl
differ-zero (suc d) = refl

bit_xor-zero : (n q : ℕ) → q ≤ n → bit_xor q 0 ≡ q
bit_xor-zero n zero h = refl
bit_xor-zero zero (suc q) h = absurd (omega arith)
bit_xor-zero (suc n) (suc q) h = ground (
  arith,
  bit_xor_halves (suc q) 0,
  differ-zero (suc q % 2),
  bit_xor-zero n (suc q / 2) (omega arith),
)

differ_one : (d : ℕ) → d < 2 → differ d 1 ≡ 1 - d
differ_one zero h = refl
differ_one (suc zero) h = refl
differ_one (suc (suc d)) h = absurd (omega (arith, h))

-- One digit is flipped.
pub bit_xor-pow : (k x : ℕ) → (bit_xor x (2 ^ k) ≡ x + 2 ^ k) ⊎ (x ≡ bit_xor x (2 ^ k) + 2 ^ k)
bit_xor-pow zero x =
    let one : bit_xor x 1 ≡ x / 2 * 2 + (1 - x % 2) =
      bit_xor_halves x 1
      ∙ ap₂ (λ (u v : ℕ). u * 2 + v) (bit_xor-zero (x / 2) (x / 2) (le_refl _))
          (differ_one (x % 2) (omega arith)) in
    ground (arith, one)
bit_xor-pow (suc k) x =
    let half : 2 ^ suc k / 2 ≡ 2 ^ k = omega (arith, pow-suc 2 k) in
    let even : 2 ^ suc k % 2 ≡ 0 = omega (arith, pow-suc 2 k) in
    let digits_of : bit_xor x (2 ^ suc k) ≡ bit_xor (x / 2) (2 ^ k) * 2 + x % 2 =
      bit_xor_halves x (2 ^ suc k)
      ∙ (ap₂ (λ (u v : ℕ). bit_xor (x / 2) u * 2 + differ (x % 2) v) half even
          ∙ ap (λ (d : ℕ). bit_xor (x / 2) (2 ^ k) * 2 + d) (differ-zero (x % 2))) in
    elim (bit_xor-pow k (x / 2)) [
      | inl more ↦ inl (omega (arith, more, digits_of, pow-suc 2 k))
      | inr less ↦ inr (omega (arith, less, digits_of, pow-suc 2 k))
    ]

differ_twice : (d e : ℕ) → d < 2 → e < 2 → (differ d e < 2) × (differ (differ d e) e ≡ d)
differ_twice zero zero h k = (omega arith, refl)
differ_twice zero (suc zero) h k = (omega arith, refl)
differ_twice (suc zero) zero h k = (omega arith, refl)
differ_twice (suc zero) (suc zero) h k = (omega arith, refl)
differ_twice d (suc (suc e)) h k = absurd (omega (arith, k))
differ_twice (suc (suc d)) e h k = absurd (omega (arith, h))

-- Digits that are flipped twice.
bit_xor_back : (n a b : ℕ) → a ≤ n → b ≤ n → bit_xor (bit_xor a b) b ≡ a
bit_xor_back zero a b h k =
    let low : a ≡ 0 = omega (arith, h) in
    let none : b ≡ 0 = omega (arith, k) in
    ap₂ (λ (u v : ℕ). bit_xor (bit_xor u v) v) low none ∙ sym low
bit_xor_back (suc n) a b h k =
    let d = differ (a % 2) (b % 2) in
    let (small, back) = differ_twice (a % 2) (b % 2) (omega arith) (omega arith) in
    let c : bit_xor a b ≡ bit_xor (a / 2) (b / 2) * 2 + d = bit_xor_halves a b in
    let half : bit_xor a b / 2 ≡ bit_xor (a / 2) (b / 2) = omega (arith, c, small) in
    let low : bit_xor a b % 2 ≡ d = omega (arith, c, small) in
    let inner = bit_xor_back n (a / 2) (b / 2) (omega (arith, h)) (omega (arith, k)) in
    bit_xor_halves (bit_xor a b) b
    ∙ (ap₂ (λ (u v : ℕ). bit_xor u (b / 2) * 2 + differ v (b % 2)) half low
        ∙ omega (arith, inner, back))

pub bit_xor_twice : (a b : ℕ) → bit_xor (bit_xor a b) b ≡ a
bit_xor_twice a b = bit_xor_back (a + b) a b (omega arith) (omega arith)
