-- ===== src/Pmm/Tests.antt =====
-- The page allocator at a memory of sixteen frames.
use munt3os.Base.{
  ℕ, zero, suc, ◌+◌, ◌*◌, ◌≤◌, ◌<◌, ◌≡◌, refl, ◌⊎◌, true, false, some, List, [], ◌∷◌, arith, get_or,
  page_size,
}
use munt3os.Bitmap.{bitmap_test, bitmap_set, bitmap_clear, set_byte, clear_byte, test_byte}
use munt3os.Bitmap.Count.{count_clear}
use munt3os.Pmm.{
  Pmm, Entry, boot, pmm_init, pmm_alloc, pmm_free, scan, take_pages, kept_streak, run_start,
  free_range, free_page,
}
use munt3os.Pmm.Scan.{IsFree}
use munt3os.Pmm.Alloc.{Took, pmm_alloc_outcome, pmm_alloc-zero}
use munt3os.Pmm.Free.{alloc-free}
use munt3os.Pmm.Valid.{IsValid}
use munt3os.Pmm.Init.{owners, WellFormed}
use munt3os.Pmm.Boot.{bytes_of, Booted, pmm_init_lem}
use munt3os.Pmm.Shared.{Shared}
use munt3os.Pmm.Calls.{Calls, calls_boot, calls_alloc, calls_free, pmm-Shared}
use mathlib.Core.List.Memᴰ
use munt3os.Base.{none, inl, inr, ap}
use munt3os.Pmm.{bitmap_place, highest_addr, bitmap_bytes}

-- Frames 0, 1 and 4 are taken, of which 0 and 1 are not usable.
abbrev sample : Pmm
sample = record {
  bitmap = 0b0001_0011 ∷ 0 ∷ [];
  bitmap_addr = 0x1000;
  hhdm_offset = 0;
  free_pages = 13;
  used_pages = 1;
  usable_pages = 14;
  total_pages = 16;
  initialized = true;
  last_scanned_bit = 5;
}

sample_bytes : (i : ℕ) → get_or sample.bitmap i 0 < 256
sample_bytes zero = omega arith
sample_bytes (suc zero) = omega arith
sample_bytes (suc (suc i)) = omega arith

sample-IsValid : IsValid sample
unfolding count_clear bitmap_test test_byte
sample-IsValid = record {
  started = refl;
  some_pages = omega arith;
  small = omega arith;
  room = omega arith;
  bytes = sample_bytes;
  cursor = omega arith;
  free = refl;
  usable = refl;
  usable_small = omega arith;
}

-- Frame 0 is free here, and the search starts there.
abbrev low : Pmm
low = record sample {
  bitmap = 0b0001_0010 ∷ 0 ∷ [];
  free_pages = 14;
  usable_pages = 15;
  last_scanned_bit = 0;
}

low_bytes : (i : ℕ) → get_or low.bitmap i 0 < 256
low_bytes zero = omega arith
low_bytes (suc zero) = omega arith
low_bytes (suc (suc i)) = omega arith

low-IsValid : IsValid low
unfolding count_clear bitmap_test test_byte
low-IsValid = record {
  started = refl;
  some_pages = omega arith;
  small = omega arith;
  room = omega arith;
  bytes = low_bytes;
  cursor = omega arith;
  free = refl;
  usable = refl;
  usable_small = omega arith;
}

program : Unit {0}
unfolding bitmap_test test_byte bitmap_set set_byte bitmap_clear clear_byte kept_streak run_start
    scan take_pages pmm_alloc pmm_free free_range free_page pmm_init
program = tt

-- The search starts at frame 5.
alloc_three : (pmm_alloc sample 3).0 ≡ 5 * page_size
unfolding program
alloc_three = refl

-- Frames 2 and 3 and frames 5 to 15 are free: no run of twelve.
alloc_twelve : pmm_alloc sample 12 ≡ (0, sample)
unfolding program
alloc_twelve = refl

-- Fifteen frames, the first one not usable; the bitmap takes frame 1.
init_small :
    let map : List Entry =
      record { base = 0; size = 0x1000; usable = false }
      ∷ record { base = 0x1000; size = 0xf000; usable = true }
      ∷ [] in
    let p = pmm_init (some map) (some 0xffff_8000_0000_0000) boot in
    (p.bitmap ≡ 3 ∷ 0 ∷ []) × (p.free_pages ≡ 14) × (p.total_pages ≡ 16)
unfolding program boot
init_small = (refl, refl, refl)

pmm_alloc_outcome_example :
    ((s : ℕ) × (pmm_alloc sample 3 ≡ (s * page_size, take_pages sample s 3))
      × Took sample (take_pages sample s 3) s 3)
    ⊎ ((pmm_alloc sample 3 ≡ (0, sample))
        × ((t : ℕ) → t + 3 ≤ 16 → (5 ≤ t) ⊎ (t + 3 ≤ 5) → ¬ IsFree sample.bitmap t 3))
pmm_alloc_outcome_example = pmm_alloc_outcome sample 3 sample-IsValid (omega arith)

pmm_alloc-zero_example :
    ((pmm_alloc low 1).0 ≡ 0)
    × ((pmm_alloc low 1).1.free_pages + 1 ≡ 14)
    × (bitmap_test (pmm_alloc low 1).1.bitmap 0 ≡ true)
unfolding bitmap_test test_byte
pmm_alloc-zero_example = pmm_alloc-zero low low-IsValid refl refl

alloc-free_example :
    let q = pmm_free (take_pages sample 5 3) (5 * page_size) 3 in
    ((j : ℕ) → bitmap_test q.bitmap j ≡ bitmap_test sample.bitmap j)
    × (q.free_pages ≡ 13)
    × (q.used_pages ≡ 1)
unfolding program
alloc-free_example =
    alloc-free sample (take_pages sample 5 3) 5 3 sample-IsValid (omega arith) (omega arith) refl

-- Fifteen usable frames behind one that is not.
abbrev small_map : List Entry
small_map =
    record { base = 0; size = 0x1000; usable = false }
    ∷ record { base = 0x1000; size = 0xf000; usable = true }
    ∷ []

small_map-WellFormed : WellFormed small_map
unfolding owners
small_map-WellFormed = record {
  no_wrap = λ e m. elim (Memᴰ.cases_cons m) [
    | inl same ↦ omega (arith, ap (λ (d : Entry). d.base) same, ap (λ (d : Entry). d.size) same)
    | inr rest ↦
        let same = Memᴰ.eq_of_singleton rest in
        omega (arith, ap (λ (d : Entry). d.base) same, ap (λ (d : Entry). d.size) same)
  ];
  aligned = λ e m usable. elim (Memᴰ.cases_cons m) [
    | inl same ↦ (
      omega (arith, ap (λ (d : Entry). d.base) same),
      omega (arith, ap (λ (d : Entry). d.size) same),
    )
    | inr rest ↦
        let same = Memᴰ.eq_of_singleton rest in
        (
          omega (arith, ap (λ (d : Entry). d.base) same),
          omega (arith, ap (λ (d : Entry). d.size) same),
        )
  ];
  apart = λ x. ground arith;
}

abbrev offset : ℕ
offset = 0xffff_8000_0000_0000

abbrev booted : Pmm
booted = pmm_init (some small_map) (some offset) boot

pmm_init_lem_example :
    ((bitmap_place (bytes_of small_map) small_map ≡ none) × (booted.initialized ≡ false))
    ⊎ ((base : ℕ) × Booted small_map offset base booted)
unfolding highest_addr
pmm_init_lem_example =
    pmm_init_lem small_map offset small_map-WellFormed (omega arith) (omega arith) (omega arith)

abbrev first : ℕ × Pmm
first = pmm_alloc booted 3

abbrev second : ℕ × Pmm
second = pmm_alloc first.1 2

first_test : first.0 ≡ 0x2000
unfolding program boot
first_test = refl

second_test : second.0 ≡ 0x5000
unfolding program boot
second_test = refl

-- Two runs are given, and the first is freed.
Calls-test : Calls small_map offset ((second.0, 2) ∷ []) (pmm_free second.1 first.0 3)
Calls-test = calls_free ((second.0, 2) ∷ []) [] first.0 3 (
    calls_alloc 2 (calls_alloc 3 calls_boot (λ e. omega (arith, e, first_test)))
      (λ e. omega (arith, e, second_test)))

pmm-Shared_example : Shared small_map 0x1000 ((second.0, 2) ∷ []) (pmm_free second.1 first.0 3)
unfolding highest_addr bitmap_place bitmap_bytes owners
pmm-Shared_example =
    pmm-Shared small_map offset 0x1000 ((second.0, 2) ∷ []) (pmm_free second.1 first.0 3)
      small_map-WellFormed (omega arith) (omega arith) (omega arith) refl refl Calls-test
