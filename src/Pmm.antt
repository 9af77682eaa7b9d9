-- ===== src/Pmm.antt =====
-- krnl/mem/pmm.c: the allocator of page frames, a bitmap that is searched from where the last
-- search ended. The bootloader's memory map and the direct-map offset are arguments of `pmm_init`.
-- The bitmap's address is kept beside its bytes; a log call changes nothing and is left out.
pub mod Scan
pub mod Range
pub mod Counting
pub mod Init
pub mod Boot
pub mod Calls
pub mod Shared
pub mod Valid
pub mod Alloc
pub mod Free
mod Tests
use munt3os.Base.{
  ℕ, zero, suc, ◌+◌, ◌-◌, ◌*◌, ◌/◌, ◌%◌, ◌^◌, ◌≤◌, ◌<◌, min, max, ◌≡◌, refl, sym, ap, ap₂, ◌∙◌, ◌≢◌,
  ◌↔◌, ◌⊎◌, inl, inr, Bool, true, false, not, ◌&&◌, ◌||◌, Option, none, some, List, [], ◌∷◌, ◌++◌,
  map, append-nil, append_assoc, arith, ℕ_discrete, ltb, leb, ◌==◌, if◌then◌else◌, ltb→lt, lt→ltb,
  ltb→le, le→ltb, leb→le, ==_iff, ==_refl, suc-ne-zero, zero-lt-suc, Bool-cases, Option-cases,
  length, get_elem?, get_or, set, take, drop, replicate, length-append, length-set,
  length-replicate, length-take, length-drop, take_last, drop-nil, drop_all, take_all, drop-append,
  drop-drop, take_last-append, take_last-append_long, take_last_all, take-append-drop, get_or-set,
  get_or_ext, get_or-replicate, mod-wrap, u64, u32, u8, add_u64, sub_u64, add_u32, sub_u32, mul_u32,
  mul_u64, page_size,
}
use munt3os.Bitmap.{bitmap_test, bitmap_set, bitmap_clear}

-- The static variables of the file; `struct pmm_stat` is the last five but one.
pub record Pmm : Type 0 where
  pub bitmap : List ℕ
  pub bitmap_addr : ℕ
  pub hhdm_offset : ℕ
  pub free_pages : ℕ
  pub used_pages : ℕ
  pub usable_pages : ℕ
  pub total_pages : ℕ
  pub initialized : Bool
  pub last_scanned_bit : ℕ

-- Before `pmm_init` all of them are zero.
unfoldable pub boot : Pmm
boot = record {
  bitmap = [];
  bitmap_addr = 0;
  hhdm_offset = 0;
  free_pages = 0;
  used_pages = 0;
  usable_pages = 0;
  total_pages = 0;
  initialized = false;
  last_scanned_bit = 0;
}

-- `struct limine_memmap_entry`; `usable` is `type == LIMINE_MEMMAP_USABLE`.
pub record Entry : Type 0 where
  pub base : ℕ
  pub size : ℕ
  pub usable : Bool

unfoldable pub phys_to_virt : Pmm → ℕ → ℕ
phys_to_virt p phys_addr = add_u64 phys_addr p.hhdm_offset

unfoldable pub highest_addr : ℕ → List Entry → ℕ
highest_addr top [] = top
highest_addr top (e ∷ es) =
    highest_addr (if ltb top (add_u64 e.base e.size) then add_u64 e.base e.size else top) es

-- The base of the first usable entry that has room for the bitmap.
unfoldable pub bitmap_place : ℕ → List Entry → Option ℕ
bitmap_place need [] = none
bitmap_place need (e ∷ es) =
    if e.usable && leb need e.size then some e.base else bitmap_place need es

-- The rounds of `for (j = 0; j < length; j += PAGE_SIZE)`.
abbrev pub rounds : ℕ → ℕ
rounds size = (size + 4095) / 4096

unfoldable pub clear_pages : ℕ → ℕ → ℕ → Pmm → Pmm
clear_pages zero j base p = p
clear_pages (suc n) j base p = clear_pages n (j + page_size) base (record p {
  bitmap = bitmap_clear p.bitmap (add_u64 base j / page_size);
  free_pages = add_u64 p.free_pages 1;
})

unfoldable pub clear_entries : List Entry → Pmm → Pmm
unfolding clear_pages
clear_entries [] p = p
clear_entries (e ∷ es) p =
    clear_entries es (if e.usable then clear_pages (rounds e.size) 0 e.base p else p)

-- The bitmap's own pages are taken out again.
unfoldable pub reserve_pages : ℕ → ℕ → ℕ → Pmm → Pmm
reserve_pages zero i base p = p
reserve_pages (suc n) i base p = reserve_pages n (i + page_size) base (record p {
  bitmap = bitmap_set p.bitmap (add_u64 base i / page_size);
  free_pages = sub_u64 p.free_pages 1;
})

-- The bytes of the bitmap for so many pages.
unfoldable pub bitmap_bytes : ℕ → ℕ
bitmap_bytes total = if ltb (total / 8 * 8) total then total / 8 + 1 else total / 8

-- The part of `pmm_init` behind the search for the bitmap's place.
unfoldable pub init_bitmap : ℕ → ℕ → List Entry → Pmm → Pmm
unfolding clear_entries reserve_pages
init_bitmap base bytes mmap p =
    let addr = add_u64 base p.hhdm_offset in
    let filled = record p { bitmap = replicate bytes 0xff; bitmap_addr = addr } in
    let cleared = clear_entries mmap filled in
    let reserved = reserve_pages (rounds bytes) 0 (sub_u64 addr p.hhdm_offset) cleared in
    if addr == 0 then p else (record reserved {
      used_pages = 0;
      initialized = true;
      usable_pages = reserved.free_pages;
    })

unfoldable pub pmm_init : Option (List Entry) → Option ℕ → Pmm → Pmm
unfolding init_bitmap bitmap_place highest_addr bitmap_bytes
pmm_init none offset p = p
pmm_init (some mmap) none p = p
pmm_init (some mmap) (some offset) p =
    let total = highest_addr 0 mmap / page_size in
    let bytes = bitmap_bytes total in
    let sized = record p { hhdm_offset = offset; total_pages = total } in
    elim (bitmap_place bytes mmap) [ none ↦ sized | some base ↦ init_bitmap base bytes mmap sized ]

-- `BITMAP_SET` on `count` bits.
unfoldable pub set_range : List ℕ → ℕ → ℕ → List ℕ
set_range bm start zero = bm
set_range bm start (suc n) = set_range (bitmap_set bm start) (start + 1) n

-- A streak does not go on past the last frame to frame 0.
unfoldable pub kept_streak : ℕ → ℕ → ℕ
kept_streak bit streak = if (bit == 0) && ltb 0 streak then 0 else streak

unfoldable pub run_start : ℕ → ℕ → ℕ → ℕ
run_start bit kept streak_start = if kept == 0 then bit else streak_start

-- The search of `pmm_alloc`, with `left` rounds to go. The result is `streak_start` where
-- `free_streak` reaches `count`. A round that ends neither way goes on in one of two ways.
module _ (bm : List ℕ) (start total count : ℕ) where
  unfoldable pub scan : ℕ → ℕ → ℕ → ℕ → Option ℕ
  scan zero i streak streak_start = none
  scan (suc left) i streak streak_start =
      let bit = add_u64 start i % total in
      let kept = kept_streak bit streak in
      let from = run_start bit kept streak_start in
      let free_next = scan left (i + 1) (kept + 1) from in
      let used_next = scan left (i + 1) 0 streak_start in
      if bitmap_test bm bit then used_next else if kept + 1 == count then some from else free_next

-- What `pmm_alloc` does once the run is found.
unfoldable pub take_pages : Pmm → ℕ → ℕ → Pmm
unfolding set_range
take_pages p start count = record p {
  bitmap = set_range p.bitmap start count;
  last_scanned_bit = (start + count) % p.total_pages;
  free_pages = sub_u64 p.free_pages count;
  used_pages = add_u64 p.used_pages count;
}

-- `pmm_alloc`; the first component is the address, 0 for NULL.
unfoldable pub pmm_alloc : Pmm → ℕ → ℕ × Pmm
unfolding scan take_pages
pmm_alloc p count =
    if not p.initialized || (count == 0)
    then (0, p)
    else (elim (scan p.bitmap p.last_scanned_bit p.total_pages count p.total_pages 0 0 0) [
      | none ↦ (0, p)
      | some start ↦ (mul_u64 start page_size, take_pages p start count)
    ])

-- `pmm_free`: a frame that is free already is reported and left alone.
unfoldable pub free_page : Pmm → ℕ → Pmm
free_page p bit =
    if bitmap_test p.bitmap bit
    then (record p {
      bitmap = bitmap_clear p.bitmap bit;
      free_pages = add_u64 p.free_pages 1;
      used_pages = sub_u64 p.used_pages 1;
    })
    else p

unfoldable pub free_range : Pmm → ℕ → ℕ → Pmm
unfolding free_page
free_range p start zero = p
free_range p start (suc n) = free_range (free_page p start) (start + 1) n

unfoldable pub pmm_free : Pmm → ℕ → ℕ → Pmm
unfolding free_range
pmm_free p ptr count =
    if not p.initialized || ((ptr == 0) || (count == 0))
    then p
    else free_range p (ptr / page_size) count
