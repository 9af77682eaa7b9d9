-- ===== src/Buddy/Init.antt =====
-- How `kmem_buddy_init` cuts the pool.
use munt3os.Base.{
  ℕ, zero, suc, ◌+◌, ◌-◌, ◌*◌, ◌/◌, ◌%◌, ◌^◌, ◌≤◌, ◌<◌, ◌≡◌, ap₂, ◌∙◌, inl, inr, true, ◌&&◌, Option,
  some, List, arith, ltb, leb, ◌==◌, if◌then◌else◌, leb→le, Bool-cases, add_u64, sub_u64,
}
use munt3os.Buddy.{
  Header, Buddy, max_order, block_size, buddy_add, put_header, init_order, init_from,
  kmem_buddy_init,
}
use munt3os.Buddy.Cover.{in_block, cover, cover-empty, size-pow, pow_positive, cover-add}

-- 1 if `x` lies in the whole units of 64 bytes from `a` on.
abbrev pub in_pool : ℕ → ℕ → ℕ → ℕ
in_pool x a size = if leb a x && ltb x (a + size / 64 * 64) then 1 else 0

pub init_order_le : (n a remaining : ℕ) → init_order n a remaining ≤ n
unfolding init_order
init_order_le zero a remaining = omega arith
init_order_le (suc k) a remaining = ground (arith, init_order_le k a remaining)

pub init_order_fits :
    (n a remaining : ℕ) → 64 ≤ remaining → block_size (init_order n a remaining) ≤ remaining
unfolding init_order
init_order_fits zero a remaining h = h
init_order_fits (suc k) a remaining h =
    elim (Bool-cases (leb (block_size (suc k)) remaining && (a % block_size (suc k) == 0))) [
      | inl here ↦ rw here (ground (arith, here))
      | inr smaller ↦ rw smaller (init_order_fits k a remaining h)
    ]

-- One round: the block that is cut off, and what is left.
module _ (order a remaining : ℕ) (fits : block_size order ≤ remaining)
    (no_wrap : a + remaining < 2 ^ 64) where
  pub behind : add_u64 a (block_size order) ≡ a + block_size order
  behind = omega (arith, fits, no_wrap)

  pub left : sub_u64 remaining (block_size order) ≡ remaining - block_size order
  left = omega (arith, fits, no_wrap)

  left_units : (remaining - block_size order) / 64 ≡ remaining / 64 - 2 ^ order
  left_units = omega (arith, size-pow order, fits)

  pub left_rounds : (n : ℕ) → remaining / 64 ≤ suc n → sub_u64 remaining (block_size order) / 64 ≤ n
  left_rounds n rounds = omega (arith, left, left_units, pow_positive order, rounds)

  pub left_no_wrap : add_u64 a (block_size order) + sub_u64 remaining (block_size order) < 2 ^ 64
  left_no_wrap = omega (arith, behind, left, fits, no_wrap)

  pool_cut :
      (x : ℕ)
      → in_block x a order
          + in_pool x (add_u64 a (block_size order)) (sub_u64 remaining (block_size order))
        ≡ in_pool x a remaining
  pool_cut x =
      let units : 2 ^ order ≤ remaining / 64 = omega (arith, size-pow order, fits) in
      let back : (remaining - block_size order) / 64 * 64 + block_size order ≡ remaining / 64 * 64 =
        omega (arith, left_units, size-pow order, units) in
      ap₂ (λ (u v : ℕ). in_block x a order + in_pool x u v) behind left ∙ ground (arith, back)

  cut-cover :
      (x : ℕ) (lists : ℕ → List ℕ)
      → order ≤ max_order
      → cover x (buddy_add order a lists)
          + in_pool x (add_u64 a (block_size order)) (sub_u64 remaining (block_size order))
        ≡ cover x lists + in_pool x a remaining
  cut-cover x lists small = omega (arith, cover-add x order a lists small, pool_cut x)

init_from-cover :
    (x n a remaining : ℕ) (b : Buddy)
    → remaining / 64 ≤ n
    → a + remaining < 2 ^ 64
    → cover x (init_from n a remaining b).free_lists ≡ cover x b.free_lists + in_pool x a remaining
unfolding init_from
init_from-cover x zero a remaining b rounds no_wrap = ground (arith, rounds)
init_from-cover x (suc n) a remaining b rounds no_wrap =
    elim (Bool-cases (leb (block_size 0) remaining)) [
      | inr less ↦ rw less (ground (arith, less))
      | inl more ↦
          let order = init_order max_order a remaining in
          let fits = init_order_fits max_order a remaining (leb→le 64 remaining more) in
          let cut : Buddy = record b {
            free_lists = buddy_add order a b.free_lists;
            header = put_header a (some (record { is_free = true; order = order })) b.header;
          } in
          rw more (
            init_from-cover x n _ _ cut (left_rounds order a remaining fits no_wrap n rounds)
              (left_no_wrap order a remaining fits no_wrap)
            ∙ cut-cover order a remaining fits no_wrap x b.free_lists
                (init_order_le max_order a remaining))
    ]

-- For a pool that does not go round the address space, `kmem_buddy_init` cuts the whole units of 64 bytes
-- from its start on into free blocks: each of their addresses lies in exactly one free block, and no other
-- address lies in any. So the loop ends within its rounds.
pub kmem_buddy_init_lem :
    (start size x : ℕ) (header : ℕ → Option Header)
    → start + size < 2 ^ 64
    → cover x (kmem_buddy_init start size header).free_lists ≡ in_pool x start size
unfolding kmem_buddy_init
kmem_buddy_init_lem start size x header no_wrap =
    init_from-cover x (size / 64) start size _ (omega arith) no_wrap
    ∙ omega (arith, cover-empty 19 x)
