-- ===== src/Kmalloc/Classes.antt =====
-- Where `kmalloc` takes the memory from.
use munt3os.Base.{ℕ, ◌^◌, ◌≤◌, ◌<◌, ◌≡◌, ◌≢◌, ◌⊎◌, Option, none, some, List, [], ◌∷◌}
use munt3os.Buddy.{Buddy}
use munt3os.Buddy.Alloc.{Given, NoneFits}
use munt3os.Slab.{kmem_cache_alloc}
use munt3os.Kmalloc.{Mm, class_count, class_size}

-- The class of a size is the first whose size is enough.
abbrev pub IsClass : ℕ → Option ℕ → Type 0
IsClass size none = 2048 < size
IsClass size (some i) =
    ((i < class_count) × (size ≤ class_size i)) × ((j : ℕ) → j < i → class_size j < size)

abbrev Above : ℕ → ℕ → Type 0
Above size i = (j : ℕ) → j < i → class_size j < size

abbrev Small : List ℕ → Type 0
Small [] = Unit {0}
Small (x ∷ xs) = (x < 2 ^ 32) × Small xs

-- An object of the cache of the smallest class that is enough for the size.
pub record FromCache (page : Option ℕ) (size : ℕ) (m : Mm) (r : ℕ × Mm) : Type 0 where
  pub class : ℕ
  pub enough : (class < class_count) × (size ≤ class_size class)
  pub tight : (j : ℕ) → j < class → class_size j < size
  pub room : size ≤ (m.caches class).object_size
  pub object : r.0 ≡ (kmem_cache_alloc page (m.caches class)).0
  pub others : (j : ℕ) → j ≢ class → r.1.caches j ≡ m.caches j

-- A block of the buddy allocator, or NULL and no change where none fits.
abbrev pub FromBuddy : ℕ → Mm → ℕ × Mm → Type 0
FromBuddy size m r =
    ((2048 < size) × (r.1.caches ≡ m.caches))
    × ((((r.0 ≡ 0) × (r.1.buddy ≡ m.buddy)) × NoneFits size m.buddy)
        ⊎ Given size m.buddy r.0 r.1.buddy)
