-- ===== src/Buddy/Tests.antt =====
-- A pool of 4096 bytes at 0x10000.
use munt3os.Base.{ℕ, ◌≡◌, refl, ◌⊎◌, none, [], ◌∷◌, map, arith}
use munt3os.Buddy.{
  Buddy, kmem_buddy_init, init_from, init_order, kmem_buddy_alloc, kmem_buddy_free, fit_order,
  first_order, take_block, split_down, buddy_add, buddy_remove, without, merge_up,
}
use munt3os.Buddy.Calls.{Calls, calls_init, calls_alloc, calls_free, Shared, kmem_buddy-Shared}
use munt3os.Buddy.Alloc.{Given, NoneFits, kmem_buddy_alloc_lem}

abbrev pool : Buddy
pool = kmem_buddy_init 0x10000 4096 (λ a. none)

kmem_buddy_alloc_lem_example :
    let size : ℕ = 100 in
    let r = kmem_buddy_alloc size pool in
    ((r ≡ (0, pool)) × ((size ≡ 0) ⊎ NoneFits size pool)) ⊎ Given 100 pool r.0 r.1
kmem_buddy_alloc_lem_example = kmem_buddy_alloc_lem 100 pool (omega arith)

abbrev first : ℕ × Buddy
first = kmem_buddy_alloc 100 pool

abbrev second : ℕ × Buddy
second = kmem_buddy_alloc 2000 first.1

first_test : first.0 ≡ 0x10018
unfolding kmem_buddy_init init_from init_order kmem_buddy_alloc fit_order first_order take_block
    split_down buddy_add buddy_remove without
first_test = refl

second_test : second.0 ≡ 0x10818
unfolding kmem_buddy_init init_from init_order kmem_buddy_alloc fit_order first_order take_block
    split_down buddy_add buddy_remove without
second_test = refl

-- Two blocks are given, and the first is freed.
Calls-test : Calls 0x10000 4096 ((second.0, 2000) ∷ []) (kmem_buddy_free first.0 second.1)
Calls-test = calls_free ((second.0, 2000) ∷ []) [] first.0 100 (
    calls_alloc 2000 (omega arith)
      (calls_alloc 100 (omega arith) calls_init (λ e. omega (arith, e, first_test)))
      (λ e. omega (arith, e, second_test)))

kmem_buddy-Shared_example :
    Shared 0x10000 4096 ((second.0, 2000) ∷ []) (kmem_buddy_free first.0 second.1)
kmem_buddy-Shared_example =
    kmem_buddy-Shared 0x10000 4096 ((second.0, 2000) ∷ []) (kmem_buddy_free first.0 second.1)
      (omega arith) Calls-test

-- The halves of the pool that an allocation leaves, and the pool whole again after it is freed.
halves_test :
    map ((kmem_buddy_alloc 100 pool).1.free_lists) (1 ∷ 2 ∷ 5 ∷ 6 ∷ [])
    ≡ (0x10080 ∷ []) ∷ (0x10100 ∷ []) ∷ (0x10800 ∷ []) ∷ [] ∷ []
unfolding kmem_buddy_init init_from init_order kmem_buddy_alloc fit_order first_order take_block
    split_down buddy_add buddy_remove without
halves_test = refl

again_test :
    let r = kmem_buddy_alloc 100 pool in
    map ((kmem_buddy_free r.0 r.1).free_lists) (1 ∷ 2 ∷ 5 ∷ 6 ∷ [])
    ≡ [] ∷ [] ∷ [] ∷ (0x10000 ∷ []) ∷ []
unfolding kmem_buddy_init init_from init_order kmem_buddy_alloc fit_order first_order take_block
    split_down buddy_add buddy_remove without kmem_buddy_free merge_up
again_test = refl
