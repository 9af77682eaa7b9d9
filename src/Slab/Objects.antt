-- ===== src/Slab/Objects.antt =====
-- The counts of the slabs, and the lists they stand in.
use munt3os.Base.{
  ℕ, zero, suc, ◌+◌, ◌^◌, ◌≤◌, ◌<◌, ◌≡◌, refl, sym, ap, inl, inr, Option, none, some, List, [], ◌∷◌,
  arith, ◌==◌, Bool-cases, Option-cases, length, sub_u64,
}
use mathlib.Core.Path.{subst}
use mathlib.Core.Option.{some-injective, none-ne-some}
use munt3os.Slab.{
  Slab, Cache, objects_from, allocate_slab_page, with_partial, take_in, take_object,
  kmem_cache_alloc,
}

-- The count says how many objects are free: some, all of them, none.
abbrev pub Partial : ℕ → List Slab → Type 0
Partial n [] = Unit {0}
Partial n (s ∷ ss) =
    (s.free_count ≡ length s.free_list) × ((0 < s.free_count) × ((s.free_count ≤ n) × Partial n ss))

abbrev pub Full : List Slab → Type 0
Full [] = Unit {0}
Full (s ∷ ss) = (s.free_count ≡ 0) × ((s.free_count ≡ length s.free_list) × Full ss)

pub record IsValid (cache : Cache) : Type 0 where
  pub some_objects : 0 < cache.objects_per_slab
  pub few_objects : cache.objects_per_slab < 2 ^ 32
  pub partial : Partial cache.objects_per_slab cache.slabs_partial
  pub full : Full cache.slabs_full
  pub free : Partial cache.objects_per_slab cache.slabs_free

length-objects_from : (n a size : ℕ) → length (objects_from a size n) ≡ n
unfolding objects_from
length-objects_from zero a size = refl
length-objects_from (suc n) a size = ap suc (length-objects_from n (a + size) size)

module _ (cache : Cache) (v : IsValid cache) where
  take_in-IsValid :
      (s : Slab) (ss : List Slab) (xs : List ℕ)
      → s.free_count ≡ length xs
      → s.free_count ≤ cache.objects_per_slab
      → Partial cache.objects_per_slab ss
      → IsValid (take_in cache s ss xs).1
  unfolding take_in
  take_in-IsValid s ss [] count most rest = v
  take_in-IsValid s ss (x ∷ xs) count most rest = elim (Bool-cases (sub_u64 s.free_count 1 == 0)) [
    | inl last ↦ rw last (record {
      some_objects = v.some_objects;
      few_objects = v.few_objects;
      partial = rest;
      full = (ground (arith, last), (omega (arith, count, most, v.few_objects), v.full));
      free = v.free;
    })
    | inr more ↦ rw more (record {
      some_objects = v.some_objects;
      few_objects = v.few_objects;
      partial = (
        omega (arith, count, most, v.few_objects),
        (ground (arith, more), (omega (arith, count, most, v.few_objects), rest)),
      );
      full = v.full;
      free = v.free;
    })
  ]

  take_object-IsValid :
      (ps : List Slab) → Partial cache.objects_per_slab ps → IsValid (take_object cache ps).1
  unfolding take_object
  take_object-IsValid [] h = v
  take_object-IsValid (s ∷ ss) h = take_in-IsValid s ss s.free_list h.0 h.1.1.0 h.1.1.1

  with_partial-IsValid :
      (page : Option ℕ) (ps fs : List Slab) (c : Cache)
      → Partial cache.objects_per_slab fs
      → with_partial page cache ps fs ≡ some c
      → IsValid c
  unfolding with_partial allocate_slab_page
  with_partial-IsValid page (s ∷ ss) fs c h e = subst IsValid (some-injective _ _ e) v
  with_partial-IsValid page [] (s ∷ ss) c h e = subst IsValid (some-injective _ _ e) (record {
    some_objects = v.some_objects;
    few_objects = v.few_objects;
    partial = (h.0, (h.1.0, (h.1.1.0, tt)));
    full = v.full;
    free = h.1.1.1;
  })
  with_partial-IsValid none [] [] c h e = absurd (none-ne-some c e)
  with_partial-IsValid (some p) [] [] c h e = subst IsValid (some-injective _ _ e) (record {
    some_objects = v.some_objects;
    few_objects = v.few_objects;
    partial = (
      sym (length-objects_from cache.objects_per_slab (p + 48) cache.object_size),
      (v.some_objects, (omega arith, tt)),
    );
    full = v.full;
    free = v.free;
  })

-- `kmem_cache_alloc` on a valid cache, whether or not there are new pages, leaves a valid cache: the
-- slabs of `slabs_partial` and `slabs_free` have free objects, those of `slabs_full` have none, and every
-- count is the number of objects in the free list of its slab.
pub kmem_cache_alloc-IsValid :
    (page : Option ℕ) (cache : Cache) → IsValid cache → IsValid (kmem_cache_alloc page cache).1
unfolding kmem_cache_alloc
kmem_cache_alloc-IsValid page cache v =
    elim (Option-cases (with_partial page cache cache.slabs_partial cache.slabs_free)) [
      | inl nothing ↦ rw (kmem_cache_alloc, nothing) v
      | inr (c, found) ↦
          let w =
            with_partial-IsValid cache v page cache.slabs_partial cache.slabs_free c v.free found in
          rw (kmem_cache_alloc, found) (take_object-IsValid c w c.slabs_partial w.partial)
    ]
