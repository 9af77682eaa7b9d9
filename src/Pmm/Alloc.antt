-- ===== src/Pmm/Alloc.antt =====
-- `pmm_alloc`: what a success and a failure mean, and that it keeps the invariant.
use munt3os.Base.{
  ℕ, suc, ◌+◌, ◌-◌, ◌*◌, ◌%◌, ◌≤◌, ◌<◌, ◌≡◌, refl, ap, ◌∙◌, ◌⊎◌, inl, inr, true, false, Option,
  none, some, arith, if◌then◌else◌, Option-cases, add_u64, sub_u64, mul_u64, page_size,
}
use native.Mathlib.Nat.{mod-lt, mod-eq_of_lt}
use munt3os.Bitmap.{bitmap_test}
use munt3os.Pmm.{Pmm, pmm_alloc, scan, take_pages, kept_streak, run_start}
use munt3os.Pmm.Scan.{IsFree, Streak, scan_full, scan_sound, scan_complete}
use munt3os.Pmm.Range.{within, set_range-Marked, set_range-free_count}
use munt3os.Pmm.Valid.{IsValid}

-- The search as `pmm_alloc` starts it.
abbrev pub search_run : Pmm → ℕ → Option ℕ
search_run p count = scan p.bitmap p.last_scanned_bit p.total_pages count p.total_pages 0 0 0

-- `p'` is `p` with the free frames `s, …, s + n - 1` taken.
pub record Took (p p' : Pmm) (s n : ℕ) : Type 0 where
  pub run_free : IsFree p.bitmap s n
  pub inside : s + n ≤ p.total_pages
  pub marks :
      (j : ℕ) → bitmap_test p'.bitmap j ≡ (if within s n j then true else bitmap_test p.bitmap j)
  pub valid : IsValid p'
  pub total : p'.total_pages ≡ p.total_pages
  pub free : p'.free_pages + n ≡ p.free_pages
  pub used : p'.used_pages ≡ p.used_pages + n

module _ (p : Pmm) (count : ℕ) (v : IsValid p) (pos : 0 < count) where
  pub start_lem : add_u64 p.last_scanned_bit 0 % p.total_pages ≡ p.last_scanned_bit
  start_lem =
      let e : add_u64 p.last_scanned_bit 0 ≡ p.last_scanned_bit =
        omega (arith, v.cursor, v.small) in
      rw e (mod-eq_of_lt v.cursor)

  fresh : (b : ℕ) → Streak p.bitmap p.total_pages count b 0 0
  fresh b = record {
    free = λ j a c. absurd (omega arith);
    within = omega arith;
    short = pos;
    ends = λ z. absurd (omega arith);
  }

  take_pages-Took :
      (s : ℕ)
      → IsFree p.bitmap s count
      → s + count ≤ p.total_pages
      → Took p (take_pages p s count) s count
  unfolding take_pages
  take_pages-Took s free inside =
      let m = set_range-Marked p.bitmap s count (omega (arith, v.room)) v.bytes in
      let c = set_range-free_count p.bitmap s count p.total_pages inside v.room v.bytes free in
      let le : count ≤ p.free_pages = omega (arith, v.free, c) in
      let less : sub_u64 p.free_pages count + count ≡ p.free_pages =
        omega (arith, v.small, v.usable, v.usable_small, le) in
      let more : add_u64 p.used_pages count ≡ p.used_pages + count =
        omega (arith, v.small, v.usable, v.usable_small, le) in
      record {
        run_free = free;
        inside = inside;
        marks = m.marks;
        valid = record {
          started = v.started;
          some_pages = v.some_pages;
          small = v.small;
          room = omega (arith, m.size, v.room);
          bytes = m.bytes;
          cursor = mod-lt (s + count) v.some_pages;
          free = omega (arith, less, c, v.free);
          usable = omega (arith, less, more, v.usable);
          usable_small = v.usable_small;
        };
        total = refl;
        free = less;
        used = more;
      }

  begins : pmm_alloc p count ≡ (elim (search_run p count) [
    | none ↦ (0, p)
    | some start ↦ (mul_u64 start page_size, take_pages p start count)
  ])
  unfolding pmm_alloc
  begins = ground (arith, v.started)

  pub alloc_some :
      (s : ℕ)
      → search_run p count ≡ some s
      → (pmm_alloc p count ≡ (s * page_size, take_pages p s count))
        × Took p (take_pages p s count) s count
  alloc_some s e =
      let (free, inside) =
        scan_sound p.bitmap p.last_scanned_bit p.total_pages count v.cursor (omega (arith, v.small))
          pos p.total_pages 0 0 0 s (omega arith) (fresh _) e in
      let addr : mul_u64 s page_size ≡ s * page_size = omega (arith, v.small) in
      (begins ∙ rw (e, addr), take_pages-Took s free inside)

  alloc_none :
      search_run p count ≡ none
      → (pmm_alloc p count ≡ (0, p))
        × ((t : ℕ)
            → t + count ≤ p.total_pages
            → (p.last_scanned_bit ≤ t) ⊎ (t + count ≤ p.last_scanned_bit)
            → ¬ IsFree p.bitmap t count)
  alloc_none e = (
    begins ∙ rw e,
    λ t w side run.
        scan_complete p.bitmap p.last_scanned_bit p.total_pages count v.cursor
          (omega (arith, v.small)) pos p.total_pages 0 0 0 t (omega arith) w run (fresh _)
          (rw start_lem (omega (arith, v.cursor))) e,
  )

  -- On a valid allocator `pmm_alloc` of at least one frame either returns the address of a run of
  -- free frames inside the memory, marks exactly that run, moves the counters and keeps the
  -- invariant, or it returns NULL, changes nothing, and no such run is free that lies wholly behind
  -- or wholly before the frame where the search started.
  pub pmm_alloc_outcome :
      ((s : ℕ) × (pmm_alloc p count ≡ (s * page_size, take_pages p s count))
        × Took p (take_pages p s count) s count)
      ⊎ ((pmm_alloc p count ≡ (0, p))
          × ((t : ℕ)
              → t + count ≤ p.total_pages
              → (p.last_scanned_bit ≤ t) ⊎ (t + count ≤ p.last_scanned_bit)
              → ¬ IsFree p.bitmap t count))
  pmm_alloc_outcome = elim (Option-cases (search_run p count)) [
    | inl e ↦ inr (alloc_none e)
    | inr (s, e) ↦ inl (s, (alloc_some s e).0, (alloc_some s e).1)
  ]

-- Where the search starts at frame 0 and that frame is free, `pmm_alloc` of one frame takes it and
-- returns its address, which is NULL: the caller sees a failure and the frame is gone.
pub pmm_alloc-zero :
    (p : Pmm)
    → IsValid p
    → p.last_scanned_bit ≡ 0
    → bitmap_test p.bitmap 0 ≡ false
    → ((pmm_alloc p 1).0 ≡ 0)
      × ((pmm_alloc p 1).1.free_pages + 1 ≡ p.free_pages)
      × (bitmap_test (pmm_alloc p 1).1.bitmap 0 ≡ true)
unfolding kept_streak run_start
pmm_alloc-zero p v at_zero clear =
    let k = p.total_pages - 1 in
    let e : p.total_pages ≡ suc k = omega (arith, v.some_pages) in
    let b = start_lem p 1 v (omega arith) ∙ at_zero in
    let found : search_run p 1 ≡ some 0 =
      ap (λ n. scan p.bitmap p.last_scanned_bit p.total_pages 1 n 0 0 0) e
      ∙ (scan_full p.bitmap p.last_scanned_bit p.total_pages 1 k 0 0 0 (rw b clear) (ground arith)
          ∙ ap some (ground (arith, b))) in
    let (run, t) = alloc_some p 1 v (omega arith) 0 found in rw run (refl, t.free, t.marks 0)
