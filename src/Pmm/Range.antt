-- ===== src/Pmm/Range.antt =====
-- `set_range`: the loop of `pmm_alloc` that marks the run it found.
use munt3os.Base.{
  ℕ, zero, suc, ◌+◌, ◌*◌, ◌/◌, ◌≤◌, ◌<◌, ◌≡◌, refl, ◌∙◌, Bool, true, ◌&&◌, List, arith, ltb, leb,
  if◌then◌else◌, length, length-set,
}
use munt3os.Bitmap.{bitmap_test, bitmap_set}
use munt3os.Bitmap.Laws.{IsBytes, bitmap_set-IsBytes, bitmap_test-set}
use munt3os.Bitmap.Count.{free_count, free_count-set}
use munt3os.Pmm.{set_range}
use munt3os.Pmm.Scan.{IsFree}

pub length-bitmap_set : (bm : List ℕ) (bit : ℕ) → length (bitmap_set bm bit) ≡ length bm
unfolding bitmap_set
length-bitmap_set bm bit = length-set bm (bit / 8) _

-- Bit `j` lies in the run.
abbrev pub within : ℕ → ℕ → ℕ → Bool
within s n j = leb s j && ltb j (s + n)

-- What the loop leaves behind.
pub record Marked (bm bm' : List ℕ) (s n : ℕ) : Type 0 where
  pub size : length bm' ≡ length bm
  pub bytes : IsBytes bm'
  pub marks : (j : ℕ) → bitmap_test bm' j ≡ (if within s n j then true else bitmap_test bm j)

pub set_range-Marked :
    (bm : List ℕ) (s n : ℕ) → s + n ≤ 8 * length bm → IsBytes bm → Marked bm (set_range bm s n) s n
unfolding set_range
set_range-Marked bm s zero h b = record { size = refl; bytes = b; marks = λ j. ground arith }
set_range-Marked bm s (suc n) h b =
    let bm' = bitmap_set bm s in
    let in_s : s < 8 * length bm = omega arith in
    let m =
      set_range-Marked bm' (s + 1) n (omega (arith, length-bitmap_set bm s))
        (bitmap_set-IsBytes bm s in_s b) in
    record {
      size = m.size ∙ length-bitmap_set bm s;
      bytes = m.bytes;
      marks = λ j. ground (arith, m.marks j, bitmap_test-set bm s in_s b j);
    }

-- Marking a free run takes as many frames from the free ones.
pub set_range-free_count :
    (bm : List ℕ) (s n total : ℕ)
    → s + n ≤ total
    → total ≤ 8 * length bm
    → IsBytes bm
    → IsFree bm s n
    → free_count (set_range bm s n) total + n ≡ free_count bm total
unfolding set_range
set_range-free_count bm s zero total h t b free = omega arith
set_range-free_count bm s (suc n) total h t b free =
    let bm' = bitmap_set bm s in
    let in_s : s < 8 * length bm = omega arith in
    let rest : IsFree bm' (s + 1) n =
      λ j p r. ground (arith, bitmap_test-set bm s in_s b j, free j) in
    let one : free_count bm' total + 1 ≡ free_count bm total =
      rw (free s (omega arith) (omega arith)) at (free_count-set bm s total in_s b (omega arith)) in
    omega (
      arith,
      set_range-free_count bm' (s + 1) n total (omega arith) (omega (arith, length-bitmap_set bm s))
          (bitmap_set-IsBytes bm s in_s b) rest,
      one,
    )
