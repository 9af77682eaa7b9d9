-- ===== src/Pmm/Boot.antt =====
-- `pmm_init` as a whole.
use munt3os.Base.{
  ℕ, ◌+◌, ◌*◌, ◌/◌, ◌%◌, ◌^◌, ◌≤◌, ◌<◌, ◌≡◌, refl, sym, ap, ◌∙◌, ◌⊎◌, inl, inr, Bool, true, false,
  ◌||◌, none, some, List, arith, ltb, ◌==◌, if◌then◌else◌, lt→ltb, Option-cases, replicate, add_u64,
  sub_u64, page_size,
}
use mathlib.Core.List.{Memᴰ}
use mathlib.Core.Path.{subst}
use munt3os.Bitmap.{bitmap_test}
use munt3os.Bitmap.Count.{free_count, count_clear-le}
use munt3os.Pmm.{
  Pmm, Entry, boot, highest_addr, bitmap_place, rounds, clear_entries, reserve_pages, bitmap_bytes,
  init_bitmap, pmm_init,
}
use munt3os.Pmm.Range.{within}
use munt3os.Pmm.Valid.{IsValid}
use munt3os.Pmm.Counting.{Counted, Counted-same, reserve_pages-Counted}
use munt3os.Pmm.Init.{
  owners, has_frame, WellFormed, highest_addr-member, highest_addr_small, Place, bitmap_place-Place,
  owners-member, full-Counted, clear_entries-Counted,
}

abbrev pub frames_of : List Entry → ℕ
frames_of mmap = highest_addr 0 mmap / page_size

abbrev pub bytes_of : List Entry → ℕ
bytes_of mmap = bitmap_bytes (frames_of mmap)

-- The frame is in no usable entry, or it is one of the bitmap's own.
abbrev pub is_taken : List Entry → ℕ → ℕ → Bool
is_taken mmap base x = (owners mmap x == 0) || within (base / page_size) (rounds (bytes_of mmap)) x

pub record Booted (mmap : List Entry) (offset base : ℕ) (p : Pmm) : Type 0 where
  pub place : bitmap_place (bytes_of mmap) mmap ≡ some base
  pub valid : IsValid p
  pub total : p.total_pages ≡ frames_of mmap
  pub address : p.bitmap_addr ≡ base + offset
  pub none_used : p.used_pages ≡ 0
  pub taken : (x : ℕ) → x < frames_of mmap → bitmap_test p.bitmap x ≡ is_taken mmap base x

module _ (mmap : List Entry) (offset : ℕ) (formed : WellFormed mmap)
    (some_memory : page_size ≤ highest_addr 0 mmap) (mapped : 0 < offset)
    (no_wrap : highest_addr 0 mmap + offset < 2 ^ 64) (base : ℕ)
    (found : bitmap_place (bytes_of mmap) mmap ≡ some base) where
  abbrev total : ℕ
  total = frames_of mmap

  abbrev bytes : ℕ
  bytes = bytes_of mmap

  abbrev start : Pmm
  start = record boot {
    hhdm_offset = offset;
    total_pages = total;
    bitmap_addr = add_u64 base offset;
  }

  small : total ≤ 2 ^ 52
  small = omega (arith, highest_addr_small 0 mmap (omega arith))

  room : total ≤ 8 * bytes
  unfolding bitmap_bytes
  room = ground arith

  p_place : Place bytes base mmap
  p_place = bitmap_place-Place bytes base mmap found

  top : (e : Entry) → Memᴰ e mmap → (e.base + e.size) / page_size ≤ total
  top e m = omega (arith, highest_addr-member 0 mmap e m (formed.no_wrap e m))

  aligned : (p_place.entry.base % page_size ≡ 0) × (p_place.entry.size % page_size ≡ 0)
  aligned = formed.aligned p_place.entry p_place.member p_place.is_usable

  below : base + p_place.entry.size ≤ highest_addr 0 mmap
  below = omega (
    arith,
    highest_addr-member 0 mmap p_place.entry p_place.member
        (formed.no_wrap p_place.entry p_place.member),
    p_place.at,
  )

  address : add_u64 base offset ≡ base + offset
  address = omega (arith, below, no_wrap)

  back : sub_u64 (add_u64 base offset) offset ≡ base
  back = omega (arith, address, no_wrap)

  abbrev filled : Pmm
  filled = record start { bitmap = replicate bytes 0xff }

  cleared :
      Counted start total
        (λ x. if ltb 0 (owners mmap x) then false else true)
        (clear_entries mmap filled)
  unfolding boot
  cleared =
      clear_entries-Counted start total small mmap (λ j. true) filled formed.aligned formed.no_wrap
        top formed.apart (λ x h. refl) (full-Counted start total bytes room refl)

  own :
      (x : ℕ) → within (base / page_size + 0) (rounds bytes) x ≡ true → ltb 0 (owners mmap x) ≡ true
  own x there =
      let has : has_frame p_place.entry x ≡ true =
        ground (arith, there, p_place.at, p_place.is_usable, p_place.fits, aligned.1) in
      lt→ltb 0 (owners mmap x) (owners-member mmap p_place.entry x p_place.member has)

  abbrev reserved : Pmm
  reserved =
      reserve_pages (rounds bytes) 0 (sub_u64 (add_u64 base offset) offset)
        (clear_entries mmap filled)

  final : Counted start total (is_taken mmap base) reserved
  final =
      let first = base / page_size in
      let n = rounds bytes in
      let aligned_base : base ≡ 4096 * first = omega (arith, aligned.0, p_place.at) in
      let fits : first + 0 + n ≤ total =
        omega (
          arith,
          top p_place.entry p_place.member,
          p_place.at,
          p_place.fits,
          aligned.0,
          aligned.1,
        ) in
      let done =
        reserve_pages-Counted start total small first base aligned_base n 0 0
          (λ x. if ltb 0 (owners mmap x) then false else true) (clear_entries mmap filled) refl fits
          (λ x there. rw (own x there) refl) cleared in
      subst
        (λ (y : ℕ).
          Counted start total (is_taken mmap base)
            (reserve_pages n 0 y (clear_entries mmap filled)))
        (sym back) (Counted-same start total small _ _ _ (λ x low. ground arith) done)

  pub pmm_init-Booted : Booted mmap offset base (pmm_init (some mmap) (some offset) boot)
  unfolding pmm_init init_bitmap boot
  pmm_init-Booted =
      let some_addr : (add_u64 base offset == 0) ≡ false = ground (arith, address, mapped) in
      let same_total : reserved.total_pages ≡ total = ap (λ (q : Pmm). q.total_pages) final.rest in
      let few = count_clear-le (bitmap_test reserved.bitmap) total in
      rw (pmm_init, found, some_addr)
        (record {
          place = found;
          valid = record {
            started = refl;
            some_pages = omega (arith, same_total, some_memory);
            small = omega (arith, same_total, small);
            room = omega (arith, same_total, final.room);
            bytes = final.bytes;
            cursor =
                omega
                  (arith, ap (λ (q : Pmm). q.last_scanned_bit) final.rest, same_total, some_memory);
            free = final.count ∙ ap (free_count reserved.bitmap) (sym same_total);
            usable = omega arith;
            usable_small = omega (arith, same_total, final.count, few);
          };
          total = same_total;
          none_used = refl;
          address = ap (λ (q : Pmm). q.bitmap_addr) final.rest ∙ address;
          taken = final.bits;
        })

-- For a well-formed memory map of at least one frame, mapped behind an offset that does not wrap: if no usable entry
-- has room for the bitmap, `pmm_init` leaves the allocator uninitialised; or it puts the bitmap at the base of
-- the first that has, and the allocator is valid, its counters included, with a frame taken exactly if it is in
-- no usable entry or holds the bitmap.
pub pmm_init_lem :
    (mmap : List Entry) (offset : ℕ)
    → WellFormed mmap
    → page_size ≤ highest_addr 0 mmap
    → 0 < offset
    → highest_addr 0 mmap + offset < 2 ^ 64
    → let p = pmm_init (some mmap) (some offset) boot in
      ((bitmap_place (bytes_of mmap) mmap ≡ none) × (p.initialized ≡ false))
      ⊎ ((base : ℕ) × Booted mmap offset base p)
unfolding pmm_init boot
pmm_init_lem mmap offset formed some_memory mapped no_wrap =
    elim (Option-cases (bitmap_place (bytes_of mmap) mmap)) [
      | inl none_found ↦ inl (none_found, rw (pmm_init, none_found) refl)
      | inr (base, found) ↦
          inr (base, pmm_init-Booted mmap offset formed some_memory mapped no_wrap base found)
    ]
