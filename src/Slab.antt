-- ===== src/Slab.antt =====
-- krnl/mem/kslab.c: caches of objects of one size. The three lists of a cache are lists of slabs, and
-- the chain of free objects of a slab is the list of their addresses. `kmem_cache_dump_info`, which only
-- prints, and the chain of all caches, which it walks, are left out.
pub mod Calls
pub mod Objects
mod Tests
use munt3os.Base.{
  ℕ, zero, suc, ◌+◌, ◌-◌, ◌*◌, ◌/◌, ◌%◌, ◌^◌, ◌≤◌, ◌<◌, min, max, ◌≡◌, refl, sym, ap, ap₂, ◌∙◌, ◌≢◌,
  ◌↔◌, ◌⊎◌, inl, inr, Bool, true, false, not, ◌&&◌, ◌||◌, Option, none, some, List, [], ◌∷◌, ◌++◌,
  map, append-nil, append_assoc, arith, ℕ_discrete, ltb, leb, ◌==◌, if◌then◌else◌, ltb→lt, lt→ltb,
  ltb→le, le→ltb, leb→le, ==_iff, ==_refl, suc-ne-zero, zero-lt-suc, Bool-cases, Option-cases,
  length, get_elem?, get_or, set, take, drop, replicate, length-append, length-set,
  length-replicate, length-take, length-drop, take_last, drop-nil, drop_all, take_all, drop-append,
  drop-drop, take_last-append, take_last-append_long, take_last_all, take-append-drop, get_or-set,
  get_or_ext, get_or-replicate, mod-wrap, u64, u32, u8, add_u64, sub_u64, add_u32, sub_u32, mul_u32,
  mul_u64, page_size, ℤ, pos, negsuc, sub_ℕ, neg,
}

-- `slab_t`, with its own address in place of the links.
pub record Slab : Type 0 where
  pub address : ℕ
  pub free_list : List ℕ
  pub free_count : ℕ

-- `kmem_cache_t`
pub record Cache : Type 0 where
  pub object_size : ℕ
  pub objects_per_slab : ℕ
  pub pages_per_slab : ℕ
  pub slabs_partial : List Slab
  pub slabs_full : List Slab
  pub slabs_free : List Slab

-- `(sizeof(slab_t) + 7) & ~7`
abbrev pub slab_header : ℕ
slab_header = 48

-- `list_remove`
unfoldable pub slab_remove : ℕ → List Slab → List Slab
slab_remove a [] = []
slab_remove a (s ∷ ss) = if s.address == a then ss else s ∷ slab_remove a ss

-- `list_add`
abbrev pub slab_add : Slab → List Slab → List Slab
slab_add s ss = s ∷ ss

-- The loop of `kmem_cache_init`, for at most `n` rounds: from one page it stops at 16 after four.
unfoldable pub double_pages : ℕ → ℕ → ℕ → ℕ
double_pages zero size pages = pages
double_pages (suc n) size pages =
    let more = double_pages n size (pages * 2) in
    if ((pages * page_size - slab_header) / size == 0) && ltb pages 16 then more else pages

-- `kmem_cache_create` and `kmem_cache_init`, for a size that fits a slab.
unfoldable pub kmem_cache_create : Bool → ℕ → Option Cache
unfolding double_pages
kmem_cache_create false size = none
kmem_cache_create true size =
    let rounded = add_u64 (max size 8) 7 / 8 * 8 in
    let pages = double_pages 4 rounded 1 in
    some (record {
      object_size = rounded;
      objects_per_slab = (pages * page_size - slab_header) / rounded;
      pages_per_slab = pages;
      slabs_partial = [];
      slabs_full = [];
      slabs_free = [];
    })

-- The loop of `allocate_slab_page`: `n` objects from an address on.
unfoldable pub objects_from : ℕ → ℕ → ℕ → List ℕ
objects_from a size zero = []
objects_from a size (suc n) = a ∷ objects_from (a + size) size n

unfoldable pub allocate_slab_page : ℕ → Cache → Slab
unfolding objects_from
allocate_slab_page page cache = record {
  address = page;
  free_list = objects_from (page + slab_header) cache.object_size cache.objects_per_slab;
  free_count = cache.objects_per_slab;
}

-- The slab that `kmem_cache_alloc` takes from is at the front of `slabs_partial` of what this gives;
-- `page` is where `pmm_alloc` maps new pages, if it has them. The last two arguments are the lists of
-- the cache.
unfoldable pub with_partial : Option ℕ → Cache → List Slab → List Slab → Option Cache
unfolding allocate_slab_page
with_partial page cache (s ∷ ss) free = some cache
with_partial page cache [] (s ∷ ss) =
    some (record cache { slabs_free = ss; slabs_partial = slab_add s [] })
with_partial none cache [] [] = none
with_partial (some p) cache [] [] =
    some (record cache { slabs_partial = slab_add (allocate_slab_page p cache) [] })

-- The object is taken from the slab `s` at the front, with the free objects `xs`; the slab is full after
-- its last.
unfoldable pub take_in : Cache → Slab → List Slab → List ℕ → ℕ × Cache
take_in cache s ss [] = (0, cache)
take_in cache s ss (x ∷ xs) =
    let t : Slab = record s { free_list = xs; free_count = sub_u64 s.free_count 1 } in
    (
      x,
      if t.free_count == 0
          then record cache { slabs_partial = ss; slabs_full = slab_add t cache.slabs_full }
          else record cache { slabs_partial = t ∷ ss },
    )

unfoldable pub take_object : Cache → List Slab → ℕ × Cache
unfolding take_in
take_object cache [] = (0, cache)
take_object cache (s ∷ ss) = take_in cache s ss s.free_list

unfoldable pub kmem_cache_alloc : Option ℕ → Cache → ℕ × Cache
unfolding with_partial take_object
kmem_cache_alloc page cache = elim (with_partial page cache cache.slabs_partial cache.slabs_free) [
  | none ↦ (0, cache)
  | some c ↦ take_object c c.slabs_partial
]

unfoldable pub find_slab : ℕ → List Slab → Option Slab
find_slab a [] = none
find_slab a (s ∷ ss) = if s.address == a then some s else find_slab a ss

unfoldable pub replace_slab : Slab → List Slab → List Slab
replace_slab t [] = []
replace_slab t (s ∷ ss) = if s.address == t.address then t ∷ ss else s ∷ replace_slab t ss

-- The slab an object lies in, by its address.
abbrev pub slab_of : Cache → ℕ → ℕ
slab_of cache obj = let slab_size = cache.pages_per_slab * page_size in obj / slab_size * slab_size

unfoldable pub is_listed : ℕ → List ℕ → Bool
is_listed x [] = false
is_listed x (y ∷ ys) = (y == x) || is_listed x ys

-- `kmem_cache_free`. It gives `none` where the code leaves what is modelled: if no slab with objects in use lies at
-- the masked address, it writes there all the same, and if the object is in the free list already, the
-- chain of the free objects becomes a cycle.
unfoldable pub kmem_cache_free : Cache → ℕ → Option Cache
unfolding slab_remove find_slab replace_slab is_listed
kmem_cache_free cache obj =
    let a = slab_of cache obj in
    let put : Slab → Slab =
      λ s. record s { free_list = obj ∷ s.free_list; free_count = add_u64 s.free_count 1 } in
    let filed : Slab → Cache = λ s.
      if s.free_count == 1
      then record cache {
        slabs_full = slab_remove a cache.slabs_full;
        slabs_partial = slab_add s cache.slabs_partial;
      }
      else if s.free_count == cache.objects_per_slab
      then record cache {
        slabs_partial = slab_remove a cache.slabs_partial;
        slabs_free = slab_add s cache.slabs_free;
      }
      else record cache { slabs_partial = replace_slab s cache.slabs_partial } in
    if obj == 0 then some cache else elim (find_slab a (cache.slabs_partial ++ cache.slabs_full)) [
      | none ↦ none
      | some s ↦ if is_listed obj s.free_list then none else some (filed (put s))
    ]
