-- ===== src/Pmm/Valid.antt =====
-- The invariant of an initialised allocator: the counters say what the bitmap holds.
use munt3os.Base.{◌+◌, ◌*◌, ◌^◌, ◌≤◌, ◌<◌, ◌≡◌, true, length}
use munt3os.Bitmap.Laws.{IsBytes}
use munt3os.Bitmap.Count.{free_count}
use munt3os.Pmm.{Pmm}

-- 2 ^ 52 pages of 4096 bytes are the whole 64-bit address space.
pub record IsValid (p : Pmm) : Type 0 where
  pub started : p.initialized ≡ true
  pub some_pages : 0 < p.total_pages
  pub small : p.total_pages ≤ 2 ^ 52
  pub room : p.total_pages ≤ 8 * length p.bitmap
  pub bytes : IsBytes p.bitmap
  pub cursor : p.last_scanned_bit < p.total_pages
  pub free : p.free_pages ≡ free_count p.bitmap p.total_pages
  pub usable : p.free_pages + p.used_pages ≡ p.usable_pages
  pub usable_small : p.usable_pages ≤ p.total_pages
