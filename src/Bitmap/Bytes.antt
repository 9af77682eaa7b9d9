-- ===== src/Bitmap/Bytes.antt =====
-- One bit of one byte, checked at every value.
use munt3os.Base.{
  ℕ_discrete, ℕ, zero, suc, ◌<◌, ◌≡◌, refl, Bool, true, false, not, ◌&&◌, arith, ltb, ◌==◌,
  if◌then◌else◌, ltb→lt,
}
use munt3os.Bitmap.{test_byte, set_byte, clear_byte}

-- `p` holds of every number below the second argument.
passes : (ℕ → Bool) → ℕ → Bool
passes p zero = true
passes p (suc m) = if p m then passes p m else false

passes-at : (p : ℕ → Bool) (m k : ℕ) → k < m → passes p m ≡ true → p k ≡ true
unfolding passes
passes-at p zero k below run = absurd (omega arith)
passes-at p (suc m) k below run = elim (ℕ_discrete k m) [
  | yes e ↦ rw e (ground arith)
  | no ne ↦ passes-at p m k (omega arith) (ground arith)
]

same : Bool → Bool → Bool
same true b = b
same false b = not b

same_sound : (a b : Bool) → same a b ≡ true → a ≡ b
unfolding same
same_sound a b h = ground arith

set_ok : ℕ → ℕ → ℕ → Bool
set_ok b k j =
    ltb (set_byte b k) 256
    && same (test_byte (set_byte b k) j) (if k == j then true else test_byte b j)

clear_ok : ℕ → ℕ → ℕ → Bool
clear_ok b k j =
    ltb (clear_byte b k) 256
    && same (test_byte (clear_byte b k) j) (if k == j then false else test_byte b j)

abbrev table : (ℕ → ℕ → ℕ → Bool) → Bool
table f = passes (λ b. passes (λ k. passes (λ j. f b k j) 8) 8) 256

look_up :
    (f : ℕ → ℕ → ℕ → Bool) (b k j : ℕ) → table f ≡ true → b < 256 → k < 8 → j < 8 → f b k j ≡ true
look_up f b k j t hb hk hj = passes-at _ 8 j hj (passes-at _ 8 k hk (passes-at _ 256 b hb t))

set_table : table set_ok ≡ true
unfolding passes set_ok same test_byte set_byte
set_table = refl

clear_table : table clear_ok ≡ true
unfolding passes clear_ok same test_byte clear_byte
clear_table = refl

and_both : (a b : Bool) → (a && b) ≡ true → (a ≡ true) × (b ≡ true)
and_both a b h = ground arith

module _ (b k j : ℕ) (hb : b < 256) (hk : k < 8) (hj : j < 8) where
  pub set_byte_lem :
      (set_byte b k < 256) × (test_byte (set_byte b k) j ≡ (if k == j then true else test_byte b j))
  unfolding set_ok
  set_byte_lem =
      let (small, bit) = and_both _ _ (look_up set_ok b k j set_table hb hk hj) in
      (ltb→lt _ _ small, same_sound _ _ bit)

  pub clear_byte_lem :
      (clear_byte b k < 256)
      × (test_byte (clear_byte b k) j ≡ (if k == j then false else test_byte b j))
  unfolding clear_ok
  clear_byte_lem =
      let (small, bit) = and_both _ _ (look_up clear_ok b k j clear_table hb hk hj) in
      (ltb→lt _ _ small, same_sound _ _ bit)
