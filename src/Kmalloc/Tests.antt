-- ===== src/Kmalloc/Tests.antt =====
-- The allocators as `mm_init` makes them.
use munt3os.Base.{◌+◌, ◌^◌, ◌≡◌, refl, true, Option, none, some, []}
use munt3os.Buddy.{
  kmem_buddy_init, kmem_buddy_alloc, init_from, init_order, buddy_add, fit_order, first_order,
  take_block, buddy_remove, without, split_down,
}
use munt3os.Slab.{
  Cache, kmem_cache_create, kmem_cache_alloc, with_partial, take_object, take_in,
  allocate_slab_page, objects_from, double_pages,
}
use munt3os.Kmalloc.{Mm, class_size, size_class, alloc_in, kmalloc, kcalloc}

abbrev from_some : Option Cache → Cache
from_some none = record {
  object_size = 0;
  objects_per_slab = 0;
  pages_per_slab = 0;
  slabs_partial = [];
  slabs_full = [];
  slabs_free = [];
}
from_some (some c) = c

abbrev start : Mm
start = record {
  caches = λ i. from_some (kmem_cache_create true (class_size i));
  buddy = kmem_buddy_init 65536 8192 (λ a. none);
}

-- A slab at 4096, and a block behind its header.
small_object : (kmalloc (some 4096) 100 start).0 ≡ 4144
unfolding kmalloc size_class alloc_in kmem_cache_alloc kmem_cache_create with_partial take_object
    take_in allocate_slab_page objects_from double_pages
small_object = refl

large_block : (kmalloc none 3000 start).0 ≡ 65560
unfolding kmalloc size_class alloc_in kmem_buddy_alloc kmem_buddy_init init_from init_order
    buddy_add fit_order first_order take_block buddy_remove without split_down
large_block = refl

-- The product wraps, and gives 16 bytes.
wrapped_product : kcalloc (some 4096) (2 ^ 60 + 1) 16 start ≡ kmalloc (some 4096) 16 start
unfolding kcalloc
wrapped_product = refl

abbrev later : Mm
later = (kcalloc (some 4096) 2 50 start).1
