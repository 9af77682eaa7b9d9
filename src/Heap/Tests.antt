-- ===== src/Heap/Tests.antt =====
-- A heap of one page.
use munt3os.Base.{
  ℕ, ◌+◌, ◌*◌, ◌≡◌, refl, ◌⊎◌, Bool, false, none, some, List, [], ◌∷◌, arith, page_size,
}
use munt3os.Heap.{Heap, fit, claim, split_block, khmalloc, khaligned_alloc, heap_init}
use munt3os.Heap.Aligned.{Aligned, khaligned_alloc_lem}
use munt3os.Heap.Calls.{Call, malloc, free, realloc, write, heap_after_all}
use munt3os.Heap.Methods.{Allocated, heap_init-IsValid, khmalloc_lem}

abbrev blank : Heap
blank = record {
  blocks = [];
  stat = record {
    total_size = 0;
    used_size = 0;
    free_size = 0;
    block_count = 0;
    initialized = false;
  };
  back = λ p. 0;
}

abbrev page : Heap
page = heap_init 1 (some 0x10000) blank

-- Nothing but the blocks of the list has the magic number.
abbrev no_magic : ℕ → Bool
no_magic a = false

-- Two payloads, the first freed twice, the second made longer, and a pointer that was never given. Before
-- the last call, the word before it leads to no block.
abbrev calls : List Call
calls =
    malloc 100
    ∷ malloc 200
    ∷ free no_magic 0x10028
    ∷ free no_magic 0x10028
    ∷ realloc no_magic 0x100b8 300
    ∷ write (λ p. 7)
    ∷ free no_magic 0x1234
    ∷ []

abbrev heap_at_end : Heap
heap_at_end = elim (heap_after_all calls page) [ none ↦ page | some k ↦ k ]

khmalloc_test : (khmalloc 100 page).0 ≡ 0x10028
unfolding heap_init khmalloc fit claim split_block
khmalloc_test = refl

khmalloc_lem_example :
    let r = khmalloc 100 page in
    (r ≡ (0, page)) ⊎ Allocated no_magic 100 0x10000 (0x10000 + 1 * page_size) page r.0 r.1
khmalloc_lem_example =
    khmalloc_lem no_magic 100 0x10000 (0x10000 + 1 * page_size) page
      (heap_init-IsValid 1 0x10000 blank (omega arith) (omega arith)) (omega arith)

khaligned_alloc_lem_example :
    let r = khaligned_alloc 64 100 page in
    (r ≡ (0, page)) ⊎ Aligned no_magic 64 100 0x10000 (0x10000 + 1 * page_size) page r.0 r.1
khaligned_alloc_lem_example =
    khaligned_alloc_lem no_magic 64 100 0x10000 (0x10000 + 1 * page_size) page
      (heap_init-IsValid 1 0x10000 blank (omega arith) (omega arith)) (omega arith) (omega arith)

-- The payload lies at a multiple of 64 behind the header of the first block.
khaligned_alloc_test : (khaligned_alloc 64 100 page).0 ≡ 0x10040
unfolding heap_init khmalloc khaligned_alloc fit claim split_block
khaligned_alloc_test = refl
