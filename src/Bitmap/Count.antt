-- ===== src/Bitmap/Count.antt =====
-- How many bits are clear, and how one write changes that number.
use munt3os.Base.{
  ℕ, zero, suc, ◌+◌, ◌*◌, ◌≤◌, ◌<◌, ◌≡◌, refl, ap₂, ◌≢◌, Bool, true, false, List, arith, ℕ_discrete,
  length,
}
use munt3os.Bitmap.{bitmap_test, bitmap_set, bitmap_clear}
use munt3os.Bitmap.Laws.{IsBytes, bitmap_test-set, bitmap_test-clear}

abbrev pub weight : Bool → ℕ
weight true = 0
weight false = 1

unfoldable pub count_clear : (ℕ → Bool) → ℕ → ℕ
count_clear f zero = 0
count_clear f (suc n) = count_clear f n + weight (f n)

pub count_clear-le : (f : ℕ → Bool) (n : ℕ) → count_clear f n ≤ n
unfolding count_clear
count_clear-le f zero = omega arith
count_clear-le f (suc n) = ground (arith, count_clear-le f n)

pub count_clear_same :
    (f g : ℕ → Bool) (n : ℕ) → ((j : ℕ) → j < n → f j ≡ g j) → count_clear f n ≡ count_clear g n
unfolding count_clear
count_clear_same f g zero h = refl
count_clear_same f g (suc n) h =
    ap₂ (λ a b. a + weight b) (count_clear_same f g n (λ j p. h j (omega arith)))
      (h n (omega arith))

count_clear_change :
    (f g : ℕ → Bool) (n i : ℕ)
    → i < n
    → ((j : ℕ) → i ≢ j → f j ≡ g j)
    → count_clear f n + weight (g i) ≡ count_clear g n + weight (f i)
unfolding count_clear
count_clear_change f g zero i p h = absurd (omega arith)
count_clear_change f g (suc n) i p h = elim (ℕ_discrete i n) [
  | yes e ↦
      let below = count_clear_same f g n (λ j q. h j (omega arith)) in rw (e, below) (omega arith)
  | no ne ↦ let ih = count_clear_change f g n i (omega arith) h in rw (h n ne) (omega arith)
]

-- The number of page frames below `n` that are free.
abbrev pub free_count : List ℕ → ℕ → ℕ
free_count bm n = count_clear (bitmap_test bm) n

module _ (bm : List ℕ) (bit n : ℕ) (inside : bit < 8 * length bm) (bytes : IsBytes bm)
    (below : bit < n) where
  pub free_count-set :
      free_count (bitmap_set bm bit) n + weight (bitmap_test bm bit) ≡ free_count bm n
  free_count-set =
      let e =
        count_clear_change (bitmap_test (bitmap_set bm bit)) (bitmap_test bm) n bit below
          (λ j ne. ground (arith, bitmap_test-set bm bit inside bytes j)) in
      ground (arith, e, bitmap_test-set bm bit inside bytes bit)

  pub free_count-clear :
      free_count (bitmap_clear bm bit) n + weight (bitmap_test bm bit) ≡ free_count bm n + 1
  free_count-clear =
      let e =
        count_clear_change (bitmap_test (bitmap_clear bm bit)) (bitmap_test bm) n bit below
          (λ j ne. ground (arith, bitmap_test-clear bm bit inside bytes j)) in
      ground (arith, e, bitmap_test-clear bm bit inside bytes bit)
