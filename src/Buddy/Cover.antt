-- ===== src/Buddy/Cover.antt =====
-- How many free blocks an address lies in.
use munt3os.Base.{
  ℕ, zero, suc, ◌+◌, ◌*◌, ◌^◌, ◌≤◌, ◌<◌, ◌≡◌, refl, ap, ap₂, ◌∙◌, ◌≢◌, false, ◌&&◌, List, [], ◌∷◌,
  arith, ℕ_discrete, ltb, leb, ◌==◌, if◌then◌else◌, ==_refl,
}
use native.Mathlib.Nat.{two-pow-succ}
use munt3os.Buddy.{block_size, max_order, buddy_add, buddy_remove, without}

pub size-suc : (k : ℕ) → block_size (suc k) ≡ block_size k + block_size k
size-suc k =
    let more : 6 + suc k ≡ suc (6 + k) = omega arith in
    ap (λ (e : ℕ). 2 ^ e) more ∙ two-pow-succ (6 + k)

pub size-pow : (k : ℕ) → block_size k ≡ 64 * 2 ^ k
size-pow zero = refl
size-pow (suc k) = omega (arith, size-suc k, size-pow k)

pub pow_positive : (k : ℕ) → 0 < 2 ^ k
pow_positive zero = omega arith
pow_positive (suc k) = omega (arith, pow_positive k)

-- 1 if `x` lies in the block of the order at `a`.
abbrev pub in_block : ℕ → ℕ → ℕ → ℕ
in_block x a order = if leb a x && ltb x (a + block_size order) then 1 else 0

unfoldable pub cover_list : ℕ → ℕ → List ℕ → ℕ
cover_list x order [] = 0
cover_list x order (a ∷ rest) = in_block x a order + cover_list x order rest

-- In how many free blocks of the orders below `n` the address lies.
unfoldable pub cover_below : ℕ → ℕ → (ℕ → List ℕ) → ℕ
unfolding cover_list
cover_below zero x lists = 0
cover_below (suc n) x lists = cover_below n x lists + cover_list x n (lists n)

abbrev pub cover : ℕ → (ℕ → List ℕ) → ℕ
cover x lists = cover_below (suc max_order) x lists

-- Both halves of a block.
pub in_block-halves :
    (x a k : ℕ) → in_block x a (suc k) ≡ in_block x a k + in_block x (a + block_size k) k
in_block-halves x a k = ground (arith, size-suc k)

pub cover-empty : (n x : ℕ) → cover_below n x (λ i. []) ≡ 0
unfolding cover_below cover_list
cover-empty zero x = refl
cover-empty (suc n) x = omega (arith, cover-empty n x)

module _ (x k : ℕ) (f g : ℕ → List ℕ) (same : (i : ℕ) → i ≢ k → g i ≡ f i) where
  cover-above : (n : ℕ) → n ≤ k → cover_below n x g ≡ cover_below n x f
  unfolding cover_below
  cover-above zero h = refl
  cover-above (suc n) h =
      ap₂ (λ (c : ℕ) (l : List ℕ). c + cover_list x n l) (cover-above n (omega (arith, h)))
        (same n (omega (arith, h)))

  -- One list changes.
  pub cover-change :
      (n : ℕ)
      → k < n
      → cover_below n x g + cover_list x k (f k) ≡ cover_below n x f + cover_list x k (g k)
  unfolding cover_below
  cover-change zero h = absurd (omega (arith, h))
  cover-change (suc n) h = elim (ℕ_discrete n k) [
    | yes here ↦ at_k here
    | no other ↦
        omega (arith, cover-change n (omega (arith, h, other)), ap (cover_list x n) (same n other))
  ]
    where
      at_k :
          n ≡ k
          → cover_below (suc n) x g + cover_list x k (f k)
            ≡ cover_below (suc n) x f + cover_list x k (g k)
      at_k here = omega (
        arith,
        cover-above n (omega (arith, here)),
        ap (λ (i : ℕ). cover_list x i (f i)) here,
        ap (λ (i : ℕ). cover_list x i (g i)) here,
      )

pub other_list : (k i : ℕ) → i ≢ k → (i == k) ≡ false
other_list k i ne = ground (arith, ne)

pub cover-add :
    (x k a : ℕ) (lists : ℕ → List ℕ)
    → k ≤ max_order
    → cover x (buddy_add k a lists) ≡ cover x lists + in_block x a k
unfolding buddy_add cover_list
cover-add x k a lists small =
    let here : buddy_add k a lists k ≡ a ∷ lists k = rw (buddy_add, ==_refl k) in
    let change =
      cover-change x k lists (buddy_add k a lists) (λ i ne. rw (buddy_add, other_list k i ne)) 19
        (omega (arith, small)) in
    omega (arith, change, ap (cover_list x k) here)

pub cover-take :
    (x k a : ℕ) (rest : List ℕ) (lists : ℕ → List ℕ)
    → k ≤ max_order
    → lists k ≡ a ∷ rest
    → cover x (buddy_remove k a lists) + in_block x a k ≡ cover x lists
unfolding buddy_remove without cover_list
cover-take x k a rest lists small front =
    let here : buddy_remove k a lists k ≡ rest =
      rw (buddy_remove, ==_refl k) (ap (without a) front ∙ rw (==_refl a)) in
    let change =
      cover-change x k lists (buddy_remove k a lists) (λ i ne. rw (buddy_remove, other_list k i ne))
        19 (omega (arith, small)) in
    omega (arith, change, ap (cover_list x k) here, ap (cover_list x k) front)
