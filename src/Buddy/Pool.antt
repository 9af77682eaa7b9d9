-- ===== src/Buddy/Pool.antt =====
-- Where the pool lies: no call changes it.
use munt3os.Base.{
  ℕ, zero, suc, ◌-◌, ◌/◌, min, ◌≡◌, refl, inl, inr, not, ◌||◌, Option, List, [], ◌∷◌, ltb, leb,
  ◌==◌, Bool-cases, Option-cases, add_u64, sub_u64,
}
use Prim.Native.Nat.{bit_xor}
use munt3os.Buddy.{
  Header, Buddy, block_size, block_header, max_order, init_from, kmem_buddy_init, fit_order,
  first_order, split_down, take_block, kmem_buddy_alloc, merge_up, kmem_buddy_free,
}

abbrev pub pool_of : Buddy → ℕ × ℕ
pool_of b = (b.pool_start, b.pool_size)

init_from-pool_of :
    (n a remaining : ℕ) (b : Buddy) → pool_of (init_from n a remaining b) ≡ pool_of b
unfolding init_from
init_from-pool_of zero a remaining b = refl
init_from-pool_of (suc n) a remaining b = elim (Bool-cases (leb (block_size 0) remaining)) [
  | inl more ↦ rw (init_from, more) (init_from-pool_of n _ _ _)
  | inr less ↦ rw (init_from, less) refl
]

pub kmem_buddy_init-pool_of :
    (start size : ℕ) (header : ℕ → Option Header)
    → pool_of (kmem_buddy_init start size header) ≡ (start, size)
unfolding kmem_buddy_init
kmem_buddy_init-pool_of start size header = init_from-pool_of (size / 64) start size _

split_down-pool_of : (k target a : ℕ) (b : Buddy) → pool_of (split_down k target a b) ≡ pool_of b
unfolding split_down
split_down-pool_of zero target a b = refl
split_down-pool_of (suc k) target a b = split_down-pool_of k target a _

take_block-pool_of :
    (target order : ℕ) (front : List ℕ) (b : Buddy)
    → pool_of (take_block target order front b).1 ≡ pool_of b
unfolding take_block
take_block-pool_of target order [] b = refl
take_block-pool_of target order (a ∷ rest) b = split_down-pool_of (order - target) target a _

pub kmem_buddy_alloc-pool_of :
    (size : ℕ) (b : Buddy) → pool_of (kmem_buddy_alloc size b).1 ≡ pool_of b
unfolding kmem_buddy_alloc
kmem_buddy_alloc-pool_of size b =
    let target = fit_order 19 0 (add_u64 size block_header) in
    let order = first_order 19 target b.free_lists in
    elim (Bool-cases (size == 0)) [
      | inl none_asked ↦ rw (kmem_buddy_alloc, none_asked) refl
      | inr asked ↦ elim (Bool-cases (ltb max_order target)) [
        | inl huge ↦ rw (kmem_buddy_alloc, asked, huge) refl
        | inr fits ↦ elim (Bool-cases (ltb max_order order)) [
          | inl full ↦ rw (kmem_buddy_alloc, asked, fits, full) refl
          | inr found ↦
              rw (kmem_buddy_alloc, asked, fits, found)
                (take_block-pool_of target order (b.free_lists order) b)
        ]
      ]
    ]

merge_up-pool_of : (n k a : ℕ) (b : Buddy) → pool_of (merge_up n k a b).after ≡ pool_of b
unfolding merge_up
merge_up-pool_of zero k a b = refl
merge_up-pool_of (suc n) k a b =
    let mate : ℕ = add_u64 b.pool_start (bit_xor (sub_u64 a b.pool_start) (block_size k)) in
    elim (Bool-cases (leb (add_u64 b.pool_start b.pool_size) mate)) [
      | inl outside ↦ rw (merge_up, outside) refl
      | inr inside ↦ elim (Option-cases (b.header mate)) [
        | inl bare ↦ rw (merge_up, inside, bare) refl
        | inr (h, is) ↦ elim (Bool-cases (not h.is_free || not (h.order == k))) [
          | inl other ↦ rw (merge_up, inside, is, other) refl
          | inr same ↦ rw (merge_up, inside, is, same) (merge_up-pool_of n (suc k) (min mate a) _)
        ]
      ]
    ]

pub kmem_buddy_free-pool_of : (ptr : ℕ) (b : Buddy) → pool_of (kmem_buddy_free ptr b) ≡ pool_of b
unfolding kmem_buddy_free
kmem_buddy_free-pool_of ptr b =
    let a = sub_u64 ptr block_header in
    elim (Bool-cases (ptr == 0)) [
      | inl null ↦ rw (kmem_buddy_free, null) refl
      | inr some_ptr ↦ elim (Option-cases (b.header a)) [
        | inl bare ↦ rw (kmem_buddy_free, some_ptr, bare) refl
        | inr (h, is) ↦ elim (Bool-cases h.is_free) [
          | inl free ↦ rw (kmem_buddy_free, some_ptr, is, free) refl
          | inr used ↦
              rw (kmem_buddy_free, some_ptr, is, used)
                (merge_up-pool_of (max_order - h.order) h.order a b)
        ]
      ]
    ]
