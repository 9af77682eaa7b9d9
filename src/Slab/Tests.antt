-- ===== src/Slab/Tests.antt =====
-- A cache of 64-byte objects, without slabs.
use munt3os.Base.{◌≡◌, refl, some, [], arith}
use munt3os.Slab.{
  Cache, kmem_cache_alloc, with_partial, take_object, take_in, allocate_slab_page, objects_from,
}
use munt3os.Base.{true}
use munt3os.Slab.{kmem_cache_create, double_pages, kmem_cache_free, find_slab}
use munt3os.Base.{none}
use munt3os.Slab.{is_listed, slab_remove, replace_slab}
use munt3os.Slab.Calls.{
  InUse, reach_here, reach_step, step_alloc, step_free, kmem_cache_create-IsValid,
  cache_calls-IsValid,
}
use munt3os.Slab.Objects.{IsValid}

abbrev cache_64 : Cache
cache_64 = record {
  object_size = 64;
  objects_per_slab = 63;
  pages_per_slab = 1;
  slabs_partial = [];
  slabs_full = [];
  slabs_free = [];
}

cache_64-IsValid : IsValid cache_64
cache_64-IsValid = record {
  some_objects = omega arith;
  few_objects = omega arith;
  partial = tt;
  full = tt;
  free = tt;
}

alloc_test : (kmem_cache_alloc (some 0x4000) cache_64).0 ≡ 0x4030
unfolding kmem_cache_alloc with_partial take_object take_in allocate_slab_page objects_from
alloc_test = refl

-- An object is taken and given back.
abbrev taken : Cache
taken = (kmem_cache_alloc (some 0x4000) cache_64).1

kmem_cache_create-IsValid_example :
    (cache : Cache) × (kmem_cache_create true 3000 ≡ some cache) × IsValid cache
kmem_cache_create-IsValid_example = kmem_cache_create-IsValid 3000 (omega arith)

taken-InUse : InUse taken 0x4030
unfolding kmem_cache_alloc with_partial take_object take_in allocate_slab_page objects_from
    find_slab
taken-InUse = record {
  slab = _;
  found = refl;
  few = omega arith;
  number = 0;
  small = omega arith;
  place = refl;
}

abbrev back : Cache
back = elim (kmem_cache_free taken 0x4030) [ none ↦ taken | some c ↦ c ]

cache_calls-IsValid_example : IsValid back
unfolding kmem_cache_create double_pages kmem_cache_alloc with_partial take_object take_in
    allocate_slab_page objects_from find_slab kmem_cache_free is_listed slab_remove replace_slab
cache_calls-IsValid_example = cache_calls-IsValid 64 cache_64 back (omega arith) refl (
    reach_step (reach_step reach_here (step_alloc (some 0x4000)))
      (step_free 0x4030 taken-InUse refl))
