-- ===== src/Buddy/Mates.antt =====
-- The other half of a block, as `kmem_buddy_free` finds it by its address.
use munt3os.Base.{ℕ, ◌+◌, ◌-◌, ◌^◌, ◌≤◌, ◌<◌, ◌≡◌, ap, ◌∙◌, ◌⊎◌, inl, inr, arith, add_u64, sub_u64}
use Prim.Native.Nat.{bit_xor}
use munt3os.Base.{bit_xor-pow, bit_xor_twice}
use munt3os.Buddy.{block_size}
use munt3os.Buddy.Valid.{buddy_at}

module _ (start a k : ℕ) (above : start ≤ a) (no_wrap : a + block_size k < 2 ^ 64) where
  relative : sub_u64 a start ≡ a - start
  relative = omega (arith, above, no_wrap)

  flipped : ℕ
  flipped = bit_xor (a - start) (block_size k)

  flipped-cases : (flipped ≡ a - start + block_size k) ⊎ (a - start ≡ flipped + block_size k)
  unfolding flipped
  flipped-cases = bit_xor-pow (6 + k) (a - start)

  below : start + flipped < 2 ^ 64
  below = elim flipped-cases [
    | inl e ↦ omega (arith, e, above, no_wrap)
    | inr e ↦ omega (arith, e, above, no_wrap)
  ]

  place : buddy_at start a k ≡ start + flipped
  unfolding flipped
  place = ap (λ (y : ℕ). add_u64 start (bit_xor y (block_size k))) relative ∙ omega (arith, below)

  pub buddy_at-cases :
      (start ≤ buddy_at start a k)
      × ((buddy_at start a k ≡ a + block_size k) ⊎ (a ≡ buddy_at start a k + block_size k))
  buddy_at-cases = (
    omega (arith, place),
    elim flipped-cases [
      | inl e ↦ inl (omega (arith, place, e, above))
      | inr e ↦ inr (omega (arith, place, e, above))
    ],
  )

  pub buddy_at_twice : buddy_at start (buddy_at start a k) k ≡ a
  unfolding flipped
  buddy_at_twice =
      let back : sub_u64 (buddy_at start a k) start ≡ flipped = omega (arith, place, below) in
      ap (λ (y : ℕ). add_u64 start (bit_xor y (block_size k))) back
      ∙ (ap (λ (y : ℕ). add_u64 start y) (bit_xor_twice (a - start) (block_size k))
          ∙ omega (arith, above, no_wrap))
