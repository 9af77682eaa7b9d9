-- ===== src/Kmalloc.antt =====
-- krnl/mm.c: `kmalloc` and its kin, over the slab caches and the buddy allocator. `page` is what the next
-- `pmm_alloc` gives. The magic numbers are those of the slabs of the caches and of the headers of the
-- buddy allocator; the contents of the memory are left out.
pub mod Classes
pub mod Sizes
mod Tests
use munt3os.Base.{
  ℕ, zero, suc, ◌+◌, ◌-◌, ◌*◌, ◌/◌, ◌%◌, ◌^◌, ◌≤◌, ◌<◌, min, max, ◌≡◌, refl, sym, ap, ap₂, ◌∙◌, ◌≢◌,
  ◌↔◌, ◌⊎◌, inl, inr, Bool, true, false, not, ◌&&◌, ◌||◌, Option, none, some, List, [], ◌∷◌, ◌++◌,
  map, append-nil, append_assoc, arith, ℕ_discrete, ltb, leb, ◌==◌, if◌then◌else◌, ltb→lt, lt→ltb,
  ltb→le, le→ltb, leb→le, ==_iff, ==_refl, suc-ne-zero, zero-lt-suc, Bool-cases, Option-cases,
  length, get_elem?, get_or, set, take, drop, replicate, length-append, length-set,
  length-replicate, length-take, length-drop, take_last, drop-nil, drop_all, take_all, drop-append,
  drop-drop, take_last-append, take_last-append_long, take_last_all, take-append-drop, get_or-set,
  get_or_ext, get_or-replicate, mod-wrap, u64, u32, u8, add_u64, sub_u64, add_u32, sub_u32, mul_u32,
  mul_u64, page_size, ℤ, pos, negsuc, sub_ℕ, neg,
}
use munt3os.Buddy.{Buddy, block_header, kmem_buddy_alloc, kmem_buddy_free}
use munt3os.Slab.{Slab, Cache, kmem_cache_alloc, kmem_cache_free, find_slab}

-- `kmallocs` and `kbuddy`
pub record Mm : Type 0 where
  pub caches : ℕ → Cache
  pub buddy : Buddy

-- The number of caches that are made: KMALLOC_4096 is not.
abbrev pub class_count : ℕ
class_count = 9

-- The sizes that `mm_init` makes the caches with.
abbrev pub class_size : ℕ → ℕ
class_size i = get_or (32 ∷ 64 ∷ 96 ∷ 128 ∷ 196 ∷ 256 ∷ 512 ∷ 1024 ∷ 2048 ∷ []) i 0

unfoldable pub size_class : ℕ → Option ℕ
size_class size =
    if leb size 32
    then some 0
    else if leb size 64
    then some 1
    else if leb size 96
    then some 2
    else if leb size 128
    then some 3
    else if leb size 196
    then some 4
    else if leb size 256
    then some 5
    else if leb size 512
    then some 6
    else if leb size 1024
    then some 7
    else if leb size 2048
    then some 8
    else none

abbrev pub put_cache : ℕ → Cache → (ℕ → Cache) → ℕ → Cache
put_cache i c caches j = if j == i then c else caches j

-- The allocator of the class: a cache, or the buddy allocator.
unfoldable pub alloc_in : Option ℕ → ℕ → Option ℕ → Mm → ℕ × Mm
alloc_in page size (some i) m =
    let r = kmem_cache_alloc page (m.caches i) in
    (r.0, record m { caches = put_cache i r.1 m.caches })
alloc_in page size none m = let r = kmem_buddy_alloc size m.buddy in (r.0, record m { buddy = r.1 })

unfoldable pub kmalloc : Option ℕ → ℕ → Mm → ℕ × Mm
unfolding alloc_in size_class
kmalloc page size m = if size == 0 then (0, m) else alloc_in page size (size_class size) m

-- The first of `n` caches, from `i` on, that has a slab at the address.
unfoldable pub owner_from : ℕ → ℕ → ℕ → (ℕ → Cache) → Option ℕ
owner_from zero i a caches = none
owner_from (suc n) i a caches =
    let c = caches i in
    let later = owner_from n (suc i) a caches in
    elim (find_slab a (c.slabs_partial ++ (c.slabs_full ++ c.slabs_free))) [
      | none ↦ later
      | some s ↦ some i
    ]

-- The loop of `kfree` over the alignments, for `n` more.
unfoldable pub free_aligned : ℕ → ℕ → ℕ → Mm → Option Mm
unfolding owner_from
free_aligned zero align ptr m = some m
free_aligned (suc n) align ptr m =
    let later = free_aligned n (align * 2) ptr m in
    elim (owner_from class_count 0 (ptr / align * align) m.caches) [
      | none ↦ later
      | some i ↦ elim (kmem_cache_free (m.caches i) ptr) [
        | none ↦ none
        | some c ↦ some (record m { caches = put_cache i c m.caches })
      ]
    ]

-- Three alignments: 0x1000, 0x2000, 0x4000. The magic number before the object is read from the memory there,
-- which callers write too: `header` of the buddy allocator is what lies at any address.
unfoldable pub kfree : ℕ → Mm → Option Mm
unfolding free_aligned
kfree ptr m = if ptr == 0 then some m else elim (m.buddy.header (sub_u64 ptr block_header)) [
  | some h ↦ some (record m { buddy = kmem_buddy_free ptr m.buddy })
  | none ↦ free_aligned 3 page_size ptr m
]

unfoldable pub kcalloc : Option ℕ → ℕ → ℕ → Mm → ℕ × Mm
unfolding kmalloc
kcalloc page count size m = kmalloc page (mul_u64 count size) m

-- The old object is freed.
unfoldable pub free_old : ℕ → ℕ → Mm → Option (ℕ × Mm)
unfolding kfree
free_old ptr new m = elim (kfree ptr m) [ none ↦ none | some k ↦ some (new, k) ]

unfoldable pub krealloc : Option ℕ → ℕ → ℕ → Mm → Option (ℕ × Mm)
unfolding kmalloc free_old
krealloc page ptr new_size m =
    if ptr == 0
    then some (kmalloc page new_size m)
    else if new_size == 0
    then free_old ptr 0 m
    else let r = kmalloc page new_size m in (if r.0 == 0 then some r else free_old ptr r.0 r.1)

-- The contents, which `kcfree` clears, are left out.
unfoldable pub kcfree : ℕ → Mm → Option Mm
unfolding kfree
kcfree ptr m = if ptr == 0 then some m else kfree ptr m
