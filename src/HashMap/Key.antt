-- ===== src/HashMap/Key.antt =====
-- Keys are equal when their strings are; equal keys have one hash.
use munt3os.Base.{
  ℕ, ◌≡◌, refl, sym, ap, ◌∙◌, ◌↔◌, inl, inr, Bool, true, List, [], ◌∷◌, arith, ◌==◌, Bool-cases, u8,
  mul_u32, ℤ, pos, negsuc,
}
use munt3os.HashMap.{Entry, hash_from, hash_str, is_zero, matches}
use munt3os.Strings.{c_str, strcmp}
use munt3os.Strings.Compare.{strcmp-zero}
use Prim.Native.Nat.{bit_xor}

unfoldable pub key_eq : List ℕ → List ℕ → Bool
key_eq a b = is_zero (strcmp a b)

is_zero_iff : (z : ℤ) → (is_zero z ≡ true) ↔ (z ≡ pos 0)
is_zero_iff (pos n) = ground arith
is_zero_iff (negsuc n) = (λ e. cc, λ e. cc)

pub key_eq_iff : (a b : List ℕ) → (key_eq a b ≡ true) ↔ (c_str a ≡ c_str b)
unfolding key_eq
key_eq_iff a b = (
  λ e. (strcmp-zero a b).0 ((is_zero_iff (strcmp a b)).0 e),
  λ e. (is_zero_iff (strcmp a b)).1 ((strcmp-zero a b).1 e),
)

pub key_eq_refl : (a : List ℕ) → key_eq a a ≡ true
key_eq_refl a = (key_eq_iff a a).1 refl

-- A key may stand for an equal one on either side.
pub key_eq_left : (a b c : List ℕ) → key_eq a b ≡ true → key_eq a c ≡ key_eq b c
key_eq_left a b c e = ground (arith, key_eq_iff a b, key_eq_iff a c, key_eq_iff b c)

pub key_eq_symm : (a b : List ℕ) → key_eq a b ≡ key_eq b a
key_eq_symm a b = ground (arith, key_eq_iff a b, key_eq_iff b a)

hash_from-c_str : (xs : List ℕ) (h : ℕ) → hash_from h xs ≡ hash_from h (c_str xs)
unfolding hash_from c_str
hash_from-c_str [] h = refl
hash_from-c_str (x ∷ xs) h = elim (Bool-cases (x == 0)) [
  | inl end ↦ rw end
  | inr more ↦ rw (more, more) (hash_from-c_str xs (mul_u32 (bit_xor h (u8 x)) 16777619))
]

pub hash_str_congr : (a b : List ℕ) → key_eq a b ≡ true → hash_str a ≡ hash_str b
unfolding hash_str
hash_str_congr a b e =
    hash_from-c_str a _
    ∙ (ap (λ t. hash_from 2166136261 t) ((key_eq_iff a b).0 e) ∙ sym (hash_from-c_str b _))

-- An entry that holds the hash of its key is found by its key alone.
pub matches_lem :
    (q : List ℕ) (e : Entry) → e.hash ≡ hash_str e.key → matches (hash_str q) q e ≡ key_eq e.key q
unfolding matches key_eq
matches_lem q e h = elim (Bool-cases (key_eq e.key q)) [
  | inl same ↦ rw (h, hash_str_congr e.key q same) (ground (arith, same))
  | inr other ↦ ground (arith, other)
]
