-- ===== src/Buddy/Valid.antt =====
-- The state of the allocator between two calls, and in the middle of one. The blocks that are not in a free
-- list are `loose`: those that were given, and those that a call has in hand; each with its header.
use munt3os.Base.{
  ℕ, suc, ◌+◌, ◌^◌, ◌≤◌, ◌<◌, ◌≡◌, ap, ◌∙◌, ◌⊎◌, inl, inr, Bool, true, some, List, [], ◌∷◌, ◌++◌,
  arith, ℕ_discrete, add_u64, sub_u64,
}
use Prim.Native.Nat.{bit_xor}
use mathlib.Core.List.{Memᴰ}
use mathlib.Core.List.Memᴰ
use mathlib.Core.Path.{subst}
use munt3os.Buddy.{Header, Buddy, block_size, max_order}
use munt3os.Buddy.Blocks.{cover-member}
use munt3os.Buddy.Cover.{in_block, cover, size-suc}
use munt3os.Buddy.Init.{in_pool}

abbrev pub Loose : Type 0
Loose = List (ℕ × Header)

-- In how many loose blocks the address lies.
unfoldable pub held : ℕ → Loose → ℕ
held x [] = 0
held x (r ∷ rest) = in_block x r.0 r.1.order + held x rest

abbrev pub free_at : ℕ → Header
free_at k = record { is_free = true; order = k }

-- The address that `kmem_buddy_free` takes for the other half.
abbrev pub buddy_at : ℕ → ℕ → ℕ → ℕ
buddy_at start a k = add_u64 start (bit_xor (sub_u64 a start) (block_size k))

-- The block of order `p` at `c` has halves, or halves of halves and so on, of order `k`, the upper of which is
-- at `z`.
pub data Inner (z k : ℕ) : ℕ → ℕ → Type 0 where
  inner_here : {c p : ℕ} → z ≡ c + block_size k → p ≡ suc k → Inner z k c p
  inner_low : {c p q : ℕ} → q ≡ suc p → Inner z k c p → Inner z k c q
  inner_high : {c d p q : ℕ} → d ≡ c + block_size p → q ≡ suc p → Inner z k d p → Inner z k c q

pub Inner-bounds :
    {z k c p : ℕ}
    → Inner z k c p
    → (k < p) × ((c + block_size k ≤ z) × (z + block_size k ≤ c + block_size p))
Inner-bounds {z} {k} {c} {p} (inner_here place level) = (
  omega (arith, level),
  (omega (arith, place), omega (arith, place, ap block_size level, size-suc k)),
)
Inner-bounds {z} {k} {c} (inner_low {p = p} level rest) =
    let (less, (low, high)) = Inner-bounds rest in
    (omega (arith, less, level), (low, omega (arith, high, ap block_size level, size-suc p)))
Inner-bounds {z} {k} {c} (inner_high {p = p} place level rest) =
    let (less, (low, high)) = Inner-bounds rest in
    (
      omega (arith, less, level),
      (omega (arith, low, place), omega (arith, high, place, ap block_size level, size-suc p)),
    )

pub Inner-cases :
    {z k c q : ℕ} (p : ℕ)
    → q ≡ suc p
    → Inner z k c q
    → ((z ≡ c + block_size p) × (k ≡ p)) ⊎ (Inner z k c p ⊎ Inner z k (c + block_size p) p)
Inner-cases {z} {k} {c} p e (inner_here place level) =
    let same : k ≡ p = omega (arith, e, level) in
    inl (place ∙ ap (λ (j : ℕ). c + block_size j) same, same)
Inner-cases {z} {k} {c} p e (inner_low {p = j} level rest) =
    let same : j ≡ p = omega (arith, e, level) in inr (inl (subst (Inner z k c) same rest))
Inner-cases {z} {k} {c} p e (inner_high {d = d} {p = j} place level rest) =
    let same : j ≡ p = omega (arith, e, level) in
    let at : d ≡ c + block_size p = place ∙ ap (λ (i : ℕ). c + block_size i) same in
    inr (inr (subst (λ (d : ℕ). Inner z k d p) at (subst (Inner z k d) same rest)))

-- A block that is in a free list or loose.
abbrev pub Live : Buddy → Loose → ℕ → ℕ → Type 0
Live b loose c p =
    ((p ≤ max_order) × Memᴰ c (b.free_lists p))
    ⊎ ((f : Bool) × Memᴰ (c, record { is_free = f; order = p }) loose)

-- An old header: it was the upper half of a pair that is now inside a block.
pub record Stale (b : Buddy) (loose : Loose) (z k : ℕ) : Type 0 where
  pub upper : z ≡ buddy_at b.pool_start z k + block_size k
  pub around : ℕ
  pub level : ℕ
  pub live : Live b loose around level
  pub inner : Inner z k around level

abbrev pub Held : Loose → ℕ → Type 0
Held loose z = (h : Header) × Memᴰ (z, h) loose

-- Each unit of the pool lies in one block, and the headers of the blocks are right; a header that says free is
-- that of a free block or of a loose one, or old.
pub record IsValid (b : Buddy) (loose : Loose) : Type 0 where
  pub no_wrap : b.pool_start + b.pool_size < 2 ^ 64
  pub once : (x : ℕ) → cover x b.free_lists + held x loose ≡ in_pool x b.pool_start b.pool_size
  pub free_headers :
      (z k : ℕ) → k ≤ max_order → Memᴰ z (b.free_lists k) → b.header z ≡ some (free_at k)
  pub loose_headers :
      (z : ℕ) (h : Header) → Memᴰ (z, h) loose → (b.header z ≡ some h) × (h.order ≤ max_order)
  pub truth :
      (z k : ℕ)
      → b.header z ≡ some (free_at k)
      → ((k ≤ max_order) × Memᴰ z (b.free_lists k)) ⊎ (Held loose z ⊎ Stale b loose z k)

pub held-append : (x : ℕ) (s t : Loose) → held x (s ++ t) ≡ held x s + held x t
unfolding held
held-append x [] t = omega arith
held-append x (r ∷ s) t = omega (arith, held-append x s t)

pub held-member :
    (x a : ℕ) (h : Header) (loose : Loose) → Memᴰ (a, h) loose → in_block x a h.order ≤ held x loose
unfolding held
held-member x a h [] m = absurd (Memᴰ.not-nil m)
held-member x a h (r ∷ rest) m = elim (Memᴰ.cases_cons m) [
  | inl same ↦
      let e : in_block x a h.order ≡ in_block x r.0 r.1.order =
        ap (λ (q : ℕ × Header). in_block x q.0 q.1.order) same in
      omega (arith, e)
  | inr later ↦ omega (arith, held-member x a h rest later)
]

pub Live-covers :
    (b : Buddy) (loose : Loose) (c p x : ℕ)
    → Live b loose c p
    → in_block x c p ≤ cover x b.free_lists + held x loose
Live-covers b loose c p x (inl (small, m)) = omega (arith, cover-member p c b.free_lists x small m)
Live-covers b loose c p x (inr (f, m)) = omega (arith, held-member x c _ loose m)

pub in_pool_le : (x start size : ℕ) → in_pool x start size ≤ 1
in_pool_le x start size = ground arith

pub Held-cases : (loose : Loose) (z : ℕ) → Held loose z ⊎ ((h : Header) → Memᴰ (z, h) loose → ⊥)
Held-cases [] z = inr (λ h m. Memᴰ.not-nil m)
Held-cases (r ∷ rest) z = elim (ℕ_discrete z r.0) [
  | yes here ↦ inl (r.1, Memᴰ.head (ap (λ (y : ℕ). (y, r.1)) here))
  | no there ↦ elim (Held-cases rest z) [
    | inl (h, m) ↦ inl (h, Memᴰ.tail m)
    | inr missing ↦ inr (λ h m. elim (Memᴰ.cases_cons m) [
      | inl same ↦ there (ap (λ (q : ℕ × Header). q.0) same)
      | inr later ↦ missing h later
    ])
  ]
]
