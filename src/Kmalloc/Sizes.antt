-- ===== src/Kmalloc/Sizes.antt =====
-- The sizes of the objects of the caches, through any sequence of calls.
use munt3os.Base.{
  ℕ, zero, suc, ◌*◌, ◌/◌, ◌^◌, ◌≤◌, ◌<◌, max, ◌≡◌, refl, sym, ap, ◌∙◌, inl, inr, true, false,
  Option, none, some, List, [], ◌∷◌, ◌++◌, arith, ◌==◌, ==_iff, Bool-cases, Option-cases, add_u64,
  sub_u64, mul_u64, page_size,
}
use mathlib.Core.Option.{some-injective, none-ne-some}
use munt3os.Buddy.{block_header}
use mathlib.Core.Path.{subst}
use munt3os.Base.{Bool, true, false, if◌then◌else◌}
use munt3os.Buddy.{Header}
use munt3os.Slab.{is_listed}
use munt3os.Slab.{
  Slab, Cache, kmem_cache_create, kmem_cache_alloc, kmem_cache_free, with_partial, take_object,
  take_in, find_slab, slab_of,
}
use munt3os.Kmalloc.{
  Mm, class_count, class_size, size_class, put_cache, alloc_in, kmalloc, owner_from, free_aligned,
  kfree, kcalloc, free_old, krealloc,
}

take_in-object_size :
    (c : Cache) (s : Slab) (ss : List Slab) (xs : List ℕ)
    → (take_in c s ss xs).1.object_size ≡ c.object_size
unfolding take_in
take_in-object_size c s ss [] = refl
take_in-object_size c s ss (x ∷ xs) = elim (Bool-cases (sub_u64 s.free_count 1 == 0)) [
  | inl last ↦ rw last
  | inr more ↦ rw more
]

take_object-object_size :
    (c : Cache) (ss : List Slab) → (take_object c ss).1.object_size ≡ c.object_size
unfolding take_object
take_object-object_size c [] = refl
take_object-object_size c (s ∷ ss) = take_in-object_size c s ss s.free_list

with_partial-object_size :
    (page : Option ℕ) (c : Cache) (ps fs : List Slab) (c' : Cache)
    → with_partial page c ps fs ≡ some c'
    → c'.object_size ≡ c.object_size
unfolding with_partial
with_partial-object_size page c (s ∷ ss) fs c' e =
    ap (λ (d : Cache). d.object_size) (sym (some-injective _ _ e))
with_partial-object_size page c [] (s ∷ ss) c' e =
    ap (λ (d : Cache). d.object_size) (sym (some-injective _ _ e))
with_partial-object_size none c [] [] c' e = absurd (none-ne-some _ e)
with_partial-object_size (some p) c [] [] c' e =
    ap (λ (d : Cache). d.object_size) (sym (some-injective _ _ e))

alloc-object_size :
    (page : Option ℕ) (c : Cache) → (kmem_cache_alloc page c).1.object_size ≡ c.object_size
unfolding kmem_cache_alloc
alloc-object_size page c = elim (Option-cases (with_partial page c c.slabs_partial c.slabs_free)) [
  | inl nothing ↦ rw (kmem_cache_alloc, nothing)
  | inr (d, found) ↦
      rw (kmem_cache_alloc, found)
        (take_object-object_size d d.slabs_partial
          ∙ with_partial-object_size page c c.slabs_partial c.slabs_free d found)
]

-- The cache that is left, if one is, has objects of the size.
abbrev SizeIs : ℕ → Option Cache → Type 0
SizeIs size none = Unit {0}
SizeIs size (some c) = c.object_size ≡ size

free-object_size : (c : Cache) (obj : ℕ) → SizeIs c.object_size (kmem_cache_free c obj)
unfolding kmem_cache_free
free-object_size c obj = elim (Bool-cases (obj == 0)) [
  | inl null ↦ rw (kmem_cache_free, null) refl
  | inr used ↦ elim (Option-cases (find_slab (slab_of c obj) (c.slabs_partial ++ c.slabs_full))) [
    | inl missing ↦ rw (kmem_cache_free, used, missing) tt
    | inr (s, found) ↦ elim (Bool-cases (is_listed obj s.free_list)) [
      | inl twice ↦ rw (kmem_cache_free, used, found, twice) tt
      | inr fresh ↦ elim (Bool-cases (add_u64 s.free_count 1 == 1)) [
        | inl first ↦ rw (kmem_cache_free, used, found, fresh, first) refl
        | inr later ↦ elim (Bool-cases (add_u64 s.free_count 1 == c.objects_per_slab)) [
          | inl whole ↦ rw (kmem_cache_free, used, found, fresh, later, whole) refl
          | inr part ↦ rw (kmem_cache_free, used, found, fresh, later, part) refl
        ]
      ]
    ]
  ]
]

-- Calls leave the sizes of the objects of the caches.
abbrev pub SameSizes : Mm → Mm → Type 0
SameSizes m m' = (i : ℕ) → (m'.caches i).object_size ≡ (m.caches i).object_size

put_cache-SameSizes :
    (m : Mm) (i : ℕ) (c : Cache)
    → c.object_size ≡ (m.caches i).object_size
    → SameSizes m (record m { caches = put_cache i c m.caches })
put_cache-SameSizes m i c same j = elim (Bool-cases (j == i)) [
  | inl here ↦ rw here same ∙ ap (λ (k : ℕ). (m.caches k).object_size) (sym ((==_iff j i).0 here))
  | inr other ↦ rw other
]

alloc_in-SameSizes :
    (page : Option ℕ) (size : ℕ) (o : Option ℕ) (m : Mm) → SameSizes m (alloc_in page size o m).1
unfolding alloc_in
alloc_in-SameSizes page size none m i = refl
alloc_in-SameSizes page size (some k) m i =
    put_cache-SameSizes m k _ (alloc-object_size page (m.caches k)) i

kmalloc-SameSizes : (page : Option ℕ) (size : ℕ) (m : Mm) → SameSizes m (kmalloc page size m).1
unfolding kmalloc
kmalloc-SameSizes page size m i = elim (Bool-cases (size == 0)) [
  | inl null ↦ rw (kmalloc, null)
  | inr used ↦ rw (kmalloc, used) (alloc_in-SameSizes page size (size_class size) m i)
]

abbrev KeptSizes : Mm → Option Mm → Type 0
KeptSizes m none = Unit {0}
KeptSizes m (some k) = SameSizes m k

-- The state of what `krealloc` gives.
abbrev pub mm_of : Option (ℕ × Mm) → Option Mm
mm_of none = none
mm_of (some r) = some r.1

put_back-KeptSizes :
    (m : Mm) (i : ℕ) (o : Option Cache)
    → SizeIs (m.caches i).object_size o
    → KeptSizes m
        (elim o [ none ↦ none | some c ↦ some (record m { caches = put_cache i c m.caches }) ])
put_back-KeptSizes m i none same = tt
put_back-KeptSizes m i (some c) same = put_cache-SameSizes m i c same

free_aligned-KeptSizes : (n align ptr : ℕ) (m : Mm) → KeptSizes m (free_aligned n align ptr m)
unfolding free_aligned
free_aligned-KeptSizes zero align ptr m = λ i. refl
free_aligned-KeptSizes (suc n) align ptr m =
    elim (Option-cases (owner_from class_count 0 (ptr / align * align) m.caches)) [
      | inl missing ↦ rw (free_aligned, missing) (free_aligned-KeptSizes n (align * 2) ptr m)
      | inr (k, found) ↦
          rw (free_aligned, found) (put_back-KeptSizes m k _ (free-object_size (m.caches k) ptr))
    ]

kfree-KeptSizes : (ptr : ℕ) (m : Mm) → KeptSizes m (kfree ptr m)
unfolding kfree
kfree-KeptSizes ptr m = elim (Bool-cases (ptr == 0)) [
  | inl null ↦ rw (kfree, null) (λ i. refl)
  | inr used ↦ elim (Option-cases (m.buddy.header (sub_u64 ptr block_header))) [
    | inl slab ↦ rw (kfree, used, slab) (free_aligned-KeptSizes 3 page_size ptr m)
    | inr (h, block) ↦ rw (kfree, used, block) (λ i. refl)
  ]
]

KeptSizes-after :
    (m k : Mm) (x : ℕ) (o : Option Mm)
    → SameSizes m k
    → KeptSizes k o
    → KeptSizes m (mm_of (elim o [ none ↦ none | some q ↦ some (x, q) ]))
KeptSizes-after m k x none same kept = tt
KeptSizes-after m k x (some q) same kept = λ i. kept i ∙ same i

KeptSizes-either :
    (m : Mm) (b : Bool) (x y : Option (ℕ × Mm))
    → KeptSizes m (mm_of x)
    → KeptSizes m (mm_of y)
    → KeptSizes m (mm_of (if b then x else y))
KeptSizes-either m true x y kx ky = kx
KeptSizes-either m false x y kx ky = ky

krealloc-KeptSizes :
    (page : Option ℕ) (ptr size : ℕ) (m : Mm) → KeptSizes m (mm_of (krealloc page ptr size m))
unfolding krealloc free_old
krealloc-KeptSizes page ptr size m =
    let r = kmalloc page size m in
    let grown = kmalloc-SameSizes page size m in
    KeptSizes-either m (ptr == 0) (some r) _ grown (
      KeptSizes-either m (size == 0) _ _
        (KeptSizes-after m m 0 _ (λ i. refl) (kfree-KeptSizes ptr m))
        (KeptSizes-either m (r.0 == 0) (some r) _ grown
          (KeptSizes-after m r.1 r.0 _ grown (kfree-KeptSizes ptr r.1))))

-- What `mm_init` sets up: a cache of each size, and the buddy allocator.
pub record Booted (m : Mm) : Type 0 where
  pub made : (i : ℕ) → i < class_count → kmem_cache_create true (class_size i) ≡ some (m.caches i)

-- The calls, with any arguments for which they stay in what is modelled, and what callers write.
pub data Step (m : Mm) : Mm → Type 0 where
  step_kmalloc : (page : Option ℕ) (size : ℕ) → Step m (kmalloc page size m).1
  step_kcalloc : (page : Option ℕ) (count size : ℕ) → Step m (kcalloc page count size m).1
  step_krealloc :
      {k : Mm} (page : Option ℕ) (ptr size : ℕ)
      → mm_of (krealloc page ptr size m) ≡ some k
      → Step m k
  step_kfree : {k : Mm} (ptr : ℕ) → kfree ptr m ≡ some k → Step m k
  step_write :
      (header : ℕ → Option Header)
      → Step m (record m { buddy = record m.buddy { header = header } })

pub data Reach (m : Mm) : Mm → Type 0 where
  reach_here : Reach m m
  reach_step : {a b : Mm} → Reach m a → Step a b → Reach m b

Step-SameSizes : {a b : Mm} → Step a b → SameSizes a b
unfolding kcalloc
Step-SameSizes {a} (step_kmalloc page size) = kmalloc-SameSizes page size a
Step-SameSizes {a} (step_kcalloc page count size) = kmalloc-SameSizes page (mul_u64 count size) a
Step-SameSizes {a} (step_krealloc page ptr size is) =
    subst (KeptSizes a) is (krealloc-KeptSizes page ptr size a)
Step-SameSizes {a} (step_kfree ptr is) = subst (KeptSizes a) is (kfree-KeptSizes ptr a)
Step-SameSizes {a} (step_write header) = λ i. refl

pub Reach-SameSizes : {a b : Mm} → Reach a b → SameSizes a b
Reach-SameSizes reach_here i = refl
Reach-SameSizes (reach_step r step) i = Step-SameSizes step i ∙ Reach-SameSizes r i

pub created_size :
    (size : ℕ) (c : Cache)
    → size < 2 ^ 32
    → kmem_cache_create true size ≡ some c
    → size ≤ c.object_size
unfolding kmem_cache_create
created_size size c small e =
    let same : add_u64 (max size 8) 7 / 8 * 8 ≡ c.object_size =
      ap (λ (d : Cache). d.object_size) (some-injective _ _ e) in
    omega (arith, same, small)
