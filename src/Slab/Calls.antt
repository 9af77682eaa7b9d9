-- ===== src/Slab/Calls.antt =====
-- Sequences of calls of a cache.
use munt3os.Base.{
  ℕ, zero, suc, ◌+◌, ◌-◌, ◌*◌, ◌/◌, ◌≤◌, ◌<◌, max, ◌≡◌, refl, sym, ◌∙◌, inl, inr, true, ◌&&◌,
  Option, some, List, [], ◌∷◌, ◌++◌, arith, ltb, ◌==◌, Bool-cases, Option-cases, length, add_u64,
  page_size,
}
use mathlib.Core.Path.{subst}
use mathlib.Core.Option.{some-injective}
use native.Mathlib.Nat.{le-div_iff_mul-le, div-le_self}
use munt3os.Base.{none}
use munt3os.Slab.{is_listed}
use munt3os.Slab.{
  slab_header, Slab, Cache, slab_remove, find_slab, replace_slab, slab_of, kmem_cache_create,
  double_pages, kmem_cache_alloc, kmem_cache_free,
}
use munt3os.Slab.Objects.{IsValid, Partial, Full, kmem_cache_alloc-IsValid}

Partial-slab_remove : (n a : ℕ) (ss : List Slab) → Partial n ss → Partial n (slab_remove a ss)
unfolding slab_remove
Partial-slab_remove n a [] p = tt
Partial-slab_remove n a (s ∷ ss) p = elim (Bool-cases (s.address == a)) [
  | inl here ↦ rw here (p.1.1.1)
  | inr other ↦ rw other (p.0, (p.1.0, (p.1.1.0, Partial-slab_remove n a ss p.1.1.1)))
]

Full-slab_remove : (a : ℕ) (ss : List Slab) → Full ss → Full (slab_remove a ss)
unfolding slab_remove
Full-slab_remove a [] p = tt
Full-slab_remove a (s ∷ ss) p = elim (Bool-cases (s.address == a)) [
  | inl here ↦ rw here (p.1.1)
  | inr other ↦ rw other (p.0, (p.1.0, Full-slab_remove a ss p.1.1))
]

Partial-replace_slab :
    (n : ℕ) (t : Slab) (ss : List Slab)
    → t.free_count ≡ length t.free_list
    → 0 < t.free_count
    → t.free_count ≤ n
    → Partial n ss
    → Partial n (replace_slab t ss)
unfolding replace_slab
Partial-replace_slab n t [] count some_free most p = tt
Partial-replace_slab n t (s ∷ ss) count some_free most p =
    elim (Bool-cases (s.address == t.address)) [
      | inl here ↦ rw here (count, (some_free, (most, p.1.1.1)))
      | inr other ↦
          rw other
            (p.0, (p.1.0, (p.1.1.0, Partial-replace_slab n t ss count some_free most p.1.1.1)))
    ]

-- The count of a slab that is found.
found_count :
    (n a : ℕ) (ps fs : List Slab) (s : Slab)
    → Partial n ps
    → Full fs
    → find_slab a (ps ++ fs) ≡ some s
    → s.free_count ≡ length s.free_list
unfolding find_slab
found_count n a [] [] s p f e = cc
found_count n a [] (t ∷ ts) s p f e = elim (Bool-cases (t.address == a)) [
  | inl here ↦
      let same : t ≡ s = ground (arith, here, e) in
      subst (λ (u : Slab). u.free_count ≡ length u.free_list) same f.1.0
  | inr other ↦ found_count n a [] ts s p f.1.1 (ground (arith, other, e))
]
found_count n a (t ∷ ts) fs s p f e = elim (Bool-cases (t.address == a)) [
  | inl here ↦
      let same : t ≡ s = ground (arith, here, e) in
      subst (λ (u : Slab). u.free_count ≡ length u.free_list) same p.0
  | inr other ↦ found_count n a ts fs s p.1.1.1 f (ground (arith, other, e))
]

-- The object is one of those of a slab of the cache, which has objects in use.
pub record InUse (cache : Cache) (obj : ℕ) : Type 0 where
  pub slab : Slab
  pub found : find_slab (slab_of cache obj) (cache.slabs_partial ++ cache.slabs_full) ≡ some slab
  pub few : slab.free_count < cache.objects_per_slab
  pub number : ℕ
  pub small : number < cache.objects_per_slab
  pub place : obj ≡ slab.address + slab_header + number * cache.object_size

abbrev Kept : Option Cache → Type 0
Kept none = Unit {0}
Kept (some c) = IsValid c

kmem_cache_free-Kept :
    (cache : Cache) (obj : ℕ) → IsValid cache → InUse cache obj → Kept (kmem_cache_free cache obj)
unfolding kmem_cache_free
kmem_cache_free-Kept cache obj v in_use = elim (Bool-cases (obj == 0)) [
  | inl null ↦ rw (kmem_cache_free, null) v
  | inr some_obj ↦
      let a = slab_of cache obj in
      elim (Option-cases (find_slab a (cache.slabs_partial ++ cache.slabs_full))) [
        | inl missing ↦ rw (kmem_cache_free, some_obj, missing) tt
        | inr (s, found) ↦
            let n = cache.objects_per_slab in
            let same : in_use.slab ≡ s = some-injective _ _ (sym in_use.found ∙ found) in
            let used : s.free_count < cache.objects_per_slab =
              subst (λ (u : Slab). u.free_count < cache.objects_per_slab) same in_use.few in
            let count =
              found_count n a cache.slabs_partial cache.slabs_full s v.partial v.full found in
            let t : Slab = record s {
              free_list = obj ∷ s.free_list;
              free_count = add_u64 s.free_count 1;
            } in
            let more : t.free_count ≡ suc s.free_count = omega (arith, used, v.few_objects) in
            let counted : t.free_count ≡ length t.free_list = omega (arith, more, count) in
            elim (Bool-cases (is_listed obj s.free_list)) [
              | inl twice ↦ rw (kmem_cache_free, some_obj, found, twice) tt
              | inr fresh ↦ elim (Bool-cases (t.free_count == 1)) [
                | inl first ↦
                    rw (kmem_cache_free, some_obj, found, fresh, first)
                      (record {
                        some_objects = v.some_objects;
                        few_objects = v.few_objects;
                        partial = (
                          counted,
                          (omega (arith, more), (omega (arith, more, used), v.partial)),
                        );
                        full = Full-slab_remove a cache.slabs_full v.full;
                        free = v.free;
                      })
                | inr later ↦ elim (Bool-cases (t.free_count == n)) [
                  | inl whole ↦
                      rw (kmem_cache_free, some_obj, found, fresh, later, whole)
                        (record {
                          some_objects = v.some_objects;
                          few_objects = v.few_objects;
                          partial = Partial-slab_remove n a cache.slabs_partial v.partial;
                          full = v.full;
                          free =
                              (counted, (omega (arith, more), (omega (arith, more, used), v.free)));
                        })
                  | inr some_used ↦
                      rw (kmem_cache_free, some_obj, found, fresh, later, some_used)
                        (record {
                          some_objects = v.some_objects;
                          few_objects = v.few_objects;
                          partial =
                              Partial-replace_slab n t cache.slabs_partial counted
                                (omega (arith, more)) (omega (arith, more, used)) v.partial;
                          full = v.full;
                          free = v.free;
                        })
                ]
              ]
            ]
      ]
]

-- A call of the cache. An object of a slab with objects in use is freed that is not free already.
pub data Step (cache : Cache) : Cache → Type 0 where
  step_alloc : (page : Option ℕ) → Step cache (kmem_cache_alloc page cache).1
  step_free :
      {after : Cache} (obj : ℕ)
      → InUse cache obj
      → kmem_cache_free cache obj ≡ some after
      → Step cache after

pub data Reach (cache : Cache) : Cache → Type 0 where
  reach_here : Reach cache cache
  reach_step : {a b : Cache} → Reach cache a → Step a b → Reach cache b

Step-IsValid : {a b : Cache} → Step a b → IsValid a → IsValid b
Step-IsValid {a} (step_alloc page) v = kmem_cache_alloc-IsValid page a v
Step-IsValid {a} (step_free obj in_use freed) v =
    subst Kept freed (kmem_cache_free-Kept a obj v in_use)

Reach-Valid : {a b : Cache} → Reach a b → IsValid a → IsValid b
Reach-Valid reach_here v = v
Reach-Valid (reach_step r step) v = Step-IsValid step (Reach-Valid r v)

-- The pages after `n` doublings.
abbrev doubled : ℕ → ℕ → ℕ
doubled zero pages = pages
doubled (suc n) pages = doubled n (pages * 2)

doubled_le : (n pages : ℕ) → pages ≤ doubled n pages
doubled_le zero pages = omega arith
doubled_le (suc n) pages = omega (arith, doubled_le n (pages * 2))

-- The pages hold an object and the header, if 16 pages do.
double_pages-fits :
    (n size pages : ℕ)
    → 0 < size
    → size + slab_header ≤ 16 * page_size
    → 16 ≤ doubled n pages
    → size + slab_header ≤ double_pages n size pages * page_size
unfolding double_pages
double_pages-fits zero size pages positive small enough = omega (arith, small, enough)
double_pages-fits (suc n) size pages positive small enough =
    elim (Bool-cases (((pages * page_size - slab_header) / size == 0) && ltb pages 16)) [
      | inl more ↦ rw more (double_pages-fits n size (pages * 2) positive small enough)
      | inr stop ↦ rw stop (
          ground (
            arith,
            stop,
            small,
            positive,
            (le-div_iff_mul-le {k = size} {x = 1} {y = pages * page_size - slab_header} positive).0,
          ))
    ]

double_pages_le : (n size pages : ℕ) → double_pages n size pages ≤ doubled n pages
unfolding double_pages
double_pages_le zero size pages = omega arith
double_pages_le (suc n) size pages =
    elim (Bool-cases (((pages * page_size - slab_header) / size == 0) && ltb pages 16)) [
      | inl more ↦ rw more (double_pages_le n size (pages * 2))
      | inr stop ↦ rw stop (omega (arith, doubled_le n (pages * 2)))
    ]

-- For every size up to 65488 the loop of `kmem_cache_init` finds within its rounds a number of pages that
-- hold an object, and the new cache is valid.
pub kmem_cache_create-IsValid :
    (size : ℕ)
    → size ≤ 65488
    → (cache : Cache) × (kmem_cache_create true size ≡ some cache) × IsValid cache
unfolding kmem_cache_create
kmem_cache_create-IsValid size small =
    let rounded = add_u64 (max size 8) 7 / 8 * 8 in
    let positive : 0 < rounded = omega (arith, small) in
    let fits : rounded + slab_header ≤ 16 * page_size = omega (arith, small) in
    let pages = double_pages 4 rounded 1 in
    let room = double_pages-fits 4 rounded 1 positive fits (omega arith) in
    let few = double_pages_le 4 rounded 1 in
    let objects = (pages * page_size - slab_header) / rounded in
    (
      _,
      refl,
      record {
        some_objects =
            (le-div_iff_mul-le {k = rounded} {x = 1} {y = pages * page_size - slab_header}
                positive).1
              (omega (arith, room));
        few_objects = omega (arith, div-le_self (pages * page_size - slab_header) rounded, few);
        partial = tt;
        full = tt;
        free = tt;
      },
    )

-- From `kmem_cache_create` of a size up to 4048 on, any sequence of calls of `kmem_cache_alloc`, with or without
-- new pages, and of `kmem_cache_free`, of objects of the cache's slabs with objects in use, none of which is free
-- already, leaves the cache valid: the slabs of `slabs_partial` and `slabs_free` have free objects, those of
-- `slabs_full` have none, and every count is the number of objects in the free list of its slab.
pub cache_calls-IsValid :
    (size : ℕ) (new cache : Cache)
    → size ≤ 4048
    → kmem_cache_create true size ≡ some new
    → Reach new cache
    → IsValid cache
cache_calls-IsValid size new cache small made r =
    let (first, same, v) = kmem_cache_create-IsValid size (omega (arith, small)) in
    Reach-Valid r (subst IsValid (some-injective _ _ (sym same ∙ made)) v)
