-- ===== src/Pmm/Counting.antt =====
-- The loops of `pmm_init` on the bitmap: each frees or reserves a run of frames, and counts them.
use munt3os.Base.{
  ℕ, zero, suc, ◌+◌, ◌*◌, ◌/◌, ◌^◌, ◌≤◌, ◌<◌, ◌≡◌, sym, ap, ◌∙◌, Bool, true, false, List, arith,
  ◌==◌, if◌then◌else◌, length, length-set, add_u64, sub_u64, page_size,
}
use mathlib.Core.Path.{subst}
use munt3os.Bitmap.{bitmap_test, bitmap_set, bitmap_clear}
use munt3os.Bitmap.Laws.{
  IsBytes, bitmap_set-IsBytes, bitmap_clear-IsBytes, bitmap_test-set, bitmap_test-clear,
}
use munt3os.Bitmap.Count.{free_count, free_count-set, free_count-clear, count_clear-le}
use munt3os.Pmm.{Pmm, clear_pages, reserve_pages}
use munt3os.Pmm.Range.{within, length-bitmap_set}

length-bitmap_clear : (bm : List ℕ) (bit : ℕ) → length (bitmap_clear bm bit) ≡ length bm
unfolding bitmap_clear
length-bitmap_clear bm bit = length-set bm (bit / 8) _

-- Only the bitmap and the number of free pages differ from `start`; the bits below `total` are those of `f`,
-- and the number is right.
pub record Counted (start : Pmm) (total : ℕ) (f : ℕ → Bool) (p : Pmm) : Type 0 where
  pub room : total ≤ 8 * length p.bitmap
  pub bytes : IsBytes p.bitmap
  pub bits : (j : ℕ) → j < total → bitmap_test p.bitmap j ≡ f j
  pub count : p.free_pages ≡ free_count p.bitmap total
  pub rest : p ≡ record start { bitmap = p.bitmap; free_pages = p.free_pages }

module _ (start : Pmm) (total : ℕ) (small : total ≤ 2 ^ 52) where
  pub Counted-same :
      (f g : ℕ → Bool) (p : Pmm)
      → ((j : ℕ) → j < total → f j ≡ g j)
      → Counted start total f p
      → Counted start total g p
  Counted-same f g p same m = record {
    room = m.room;
    bytes = m.bytes;
    bits = λ j low. m.bits j low ∙ same j low;
    count = m.count;
    rest = m.rest;
  }

  module _ (f : ℕ → Bool) (p : Pmm) (m : Counted start total f p) (bit : ℕ)
      (below : bit < total) where
    inside : bit < 8 * length p.bitmap
    inside = omega (arith, m.room, below)

    cleared-Counted :
        f bit ≡ true
        → Counted start total
            (λ j. if bit == j then false else f j)
            (record p { bitmap = bitmap_clear p.bitmap bit; free_pages = add_u64 p.free_pages 1 })
    cleared-Counted used =
        let one = free_count-clear p.bitmap bit total inside m.bytes below in
        let was : bitmap_test p.bitmap bit ≡ true = m.bits bit below ∙ used in
        let few = count_clear-le (bitmap_test p.bitmap) total in
        record {
          room = omega (arith, m.room, length-bitmap_clear p.bitmap bit);
          bytes = bitmap_clear-IsBytes p.bitmap bit inside m.bytes;
          bits = λ j low.
              bitmap_test-clear p.bitmap bit inside m.bytes j
              ∙ ap (λ (c : Bool). if bit == j then false else c) (m.bits j low);
          count =
              let more : free_count (bitmap_clear p.bitmap bit) total
                  ≡ free_count p.bitmap total + 1 =
                ground (arith, one, was) in
              omega (arith, more, m.count, few, small);
          rest =
              ap
                (λ (q : Pmm). record q {
                  bitmap = bitmap_clear p.bitmap bit;
                  free_pages = add_u64 p.free_pages 1;
                })
                m.rest;
        }

    reserved-Counted :
        f bit ≡ false
        → Counted start total
            (λ j. if bit == j then true else f j)
            (record p { bitmap = bitmap_set p.bitmap bit; free_pages = sub_u64 p.free_pages 1 })
    reserved-Counted free =
        let one = free_count-set p.bitmap bit total inside m.bytes below in
        let was : bitmap_test p.bitmap bit ≡ false = m.bits bit below ∙ free in
        let few = count_clear-le (bitmap_test p.bitmap) total in
        record {
          room = omega (arith, m.room, length-bitmap_set p.bitmap bit);
          bytes = bitmap_set-IsBytes p.bitmap bit inside m.bytes;
          bits = λ j low.
              bitmap_test-set p.bitmap bit inside m.bytes j
              ∙ ap (λ (c : Bool). if bit == j then true else c) (m.bits j low);
          count =
              let less : free_count (bitmap_set p.bitmap bit) total + 1
                  ≡ free_count p.bitmap total =
                ground (arith, one, was) in
              omega (arith, less, m.count, few, small);
          rest =
              ap
                (λ (q : Pmm). record q {
                  bitmap = bitmap_set p.bitmap bit;
                  free_pages = sub_u64 p.free_pages 1;
                })
                m.rest;
        }

  -- Frame `i` of the run that starts at `first`.
  frame :
      (first i j base : ℕ)
      → base ≡ 4096 * first
      → j ≡ 4096 * i
      → first + i < total
      → add_u64 base j / page_size ≡ first + i
  frame first i j base at place below = omega (arith, at, place, below, small)

  module _ (first base : ℕ) (at : base ≡ 4096 * first) where
    pub clear_pages-Counted :
        (n i j : ℕ) (f : ℕ → Bool) (p : Pmm)
        → j ≡ 4096 * i
        → first + i + n ≤ total
        → ((x : ℕ) → within (first + i) n x ≡ true → f x ≡ true)
        → Counted start total f p
        → Counted start total
            (λ x. if within (first + i) n x then false else f x)
            (clear_pages n j base p)
    unfolding clear_pages
    clear_pages-Counted zero i j f p place end used m = Counted-same f _ p (λ x low. ground arith) m
    clear_pages-Counted (suc n) i j f p place end used m =
        let bit = frame first i j base at place (omega (arith, end)) in
        let here : f (first + i) ≡ true = used (first + i) (ground arith) in
        let next : first + (i + 1) ≡ first + i + 1 = omega arith in
        let one =
          subst
            (λ (b : ℕ).
              Counted start total (λ x. if first + i == x then false else f x)
                (record p {
                  bitmap = bitmap_clear p.bitmap b;
                  free_pages = add_u64 p.free_pages 1;
                }))
            (sym bit) (cleared-Counted f p m (first + i) (omega (arith, end)) here) in
        Counted-same _ _ _ (λ x low. ground arith)
          (clear_pages-Counted n (i + 1) (j + page_size)
            (λ x. if first + i == x then false else f x) _ (omega (arith, place))
            (omega (arith, end))
            (λ x there. let old = used x (ground (arith, there)) in ground (arith, there, old)) one)

    pub reserve_pages-Counted :
        (n i j : ℕ) (f : ℕ → Bool) (p : Pmm)
        → j ≡ 4096 * i
        → first + i + n ≤ total
        → ((x : ℕ) → within (first + i) n x ≡ true → f x ≡ false)
        → Counted start total f p
        → Counted start total
            (λ x. if within (first + i) n x then true else f x)
            (reserve_pages n j base p)
    unfolding reserve_pages
    reserve_pages-Counted zero i j f p place end free m =
        Counted-same f _ p (λ x low. ground arith) m
    reserve_pages-Counted (suc n) i j f p place end free m =
        let bit = frame first i j base at place (omega (arith, end)) in
        let here : f (first + i) ≡ false = free (first + i) (ground arith) in
        let one =
          subst
            (λ (b : ℕ).
              Counted start total (λ x. if first + i == x then true else f x)
                (record p { bitmap = bitmap_set p.bitmap b; free_pages = sub_u64 p.free_pages 1 }))
            (sym bit) (reserved-Counted f p m (first + i) (omega (arith, end)) here) in
        Counted-same _ _ _ (λ x low. ground arith)
          (reserve_pages-Counted n (i + 1) (j + page_size)
            (λ x. if first + i == x then true else f x) _ (omega (arith, place))
            (omega (arith, end))
            (λ x there. let old = free x (ground (arith, there)) in ground (arith, there, old)) one)
