-- ===== src/Pmm/Free.antt =====
-- `pmm_free`: which frames it gives back, and that it undoes `pmm_alloc`.
use munt3os.Base.{
  ℕ, zero, suc, ◌+◌, ◌*◌, ◌/◌, ◌≤◌, ◌<◌, ◌≡◌, refl, sym, ap, ◌∙◌, inl, inr, false, List, arith,
  ℕ_discrete, if◌then◌else◌, Bool-cases, length, length-set, add_u64, sub_u64, page_size,
}
use munt3os.Bitmap.{bitmap_test, bitmap_clear}
use munt3os.Bitmap.Laws.{bitmap_clear-IsBytes, bitmap_test-clear}
use munt3os.Bitmap.Count.{free_count, free_count-clear, count_clear_same}
use munt3os.Pmm.{Pmm, pmm_alloc, pmm_free, free_page, free_range, take_pages}
use munt3os.Pmm.Alloc.{Took, pmm_alloc_outcome}
use munt3os.Pmm.Range.{within}
use munt3os.Pmm.Valid.{IsValid}

length-bitmap_clear : (bm : List ℕ) (bit : ℕ) → length (bitmap_clear bm bit) ≡ length bm
unfolding bitmap_clear
length-bitmap_clear bm bit = length-set bm (bit / 8) _

-- What is left after `n` frames from `s` on were given back.
pub record Gave (p p' : Pmm) (s n : ℕ) : Type 0 where
  pub valid : IsValid p'
  pub total : p'.total_pages ≡ p.total_pages
  pub usable : p'.usable_pages ≡ p.usable_pages
  pub marks :
      (j : ℕ) → bitmap_test p'.bitmap j ≡ (if within s n j then false else bitmap_test p.bitmap j)

pub free_page-Gave :
    (p : Pmm) (s : ℕ)
    → IsValid p
    → s < p.total_pages
    → 0 < p.used_pages
    → Gave p (free_page p s) s 1 × (p.used_pages ≤ (free_page p s).used_pages + 1)
unfolding free_page
free_page-Gave p s v inside held = elim (Bool-cases (bitmap_test p.bitmap s)) [
  | inr clear ↦ rw clear (
    record {
      valid = v;
      total = refl;
      usable = refl;
      marks = λ j. elim (ℕ_discrete j s) [
        | yes e ↦ rw e (ground (arith, clear))
        | no ne ↦ ground arith
      ];
    },
    omega arith,
  )
  | inl taken ↦
      let c = free_count-clear p.bitmap s p.total_pages (omega (arith, v.room)) v.bytes inside in
      let c' : free_count (bitmap_clear p.bitmap s) p.total_pages
          ≡ free_count p.bitmap p.total_pages + 1 =
        omega (arith, (rw taken at c)) in
      let more : add_u64 p.free_pages 1 ≡ p.free_pages + 1 =
        omega (arith, v.small, v.usable, v.usable_small) in
      let less : sub_u64 p.used_pages 1 + 1 ≡ p.used_pages =
        omega (arith, v.small, v.usable, v.usable_small) in
      rw taken (
        record {
          valid = record {
            started = v.started;
            some_pages = v.some_pages;
            small = v.small;
            room = omega (arith, length-bitmap_clear p.bitmap s, v.room);
            bytes = bitmap_clear-IsBytes p.bitmap s (omega (arith, v.room)) v.bytes;
            cursor = v.cursor;
            free = omega (arith, more, c', v.free);
            usable = omega (arith, more, less, v.usable);
            usable_small = v.usable_small;
          };
          total = refl;
          usable = refl;
          marks =
              λ j. ground (arith, bitmap_test-clear p.bitmap s (omega (arith, v.room)) v.bytes j);
        },
        omega (arith, less),
      )
]

free_range-Gave :
    (p : Pmm) (s n : ℕ)
    → IsValid p
    → s + n ≤ p.total_pages
    → n ≤ p.used_pages
    → Gave p (free_range p s n) s n
unfolding free_range
free_range-Gave p s zero v inside held = record {
  valid = v;
  total = refl;
  usable = refl;
  marks = λ j. ground arith;
}
free_range-Gave p s (suc n) v inside held =
    let (one, left) = free_page-Gave p s v (omega arith) (omega arith) in
    let rest =
      free_range-Gave (free_page p s) (s + 1) n one.valid (omega (arith, one.total))
        (omega (arith, left)) in
    record {
      valid = rest.valid;
      total = rest.total ∙ one.total;
      usable = rest.usable ∙ one.usable;
      marks = λ j. ground (arith, rest.marks j, one.marks j);
    }

module _ (p : Pmm) (s n : ℕ) (v : IsValid p) where
  pub frees : 0 < s → 0 < n → pmm_free p (s * page_size) n ≡ free_range p s n
  unfolding pmm_free
  frees not_null pos =
      let page : s * page_size / page_size ≡ s = omega arith in ground (arith, v.started, page)

  free_nothing : (ptr : ℕ) → pmm_free p ptr 0 ≡ free_range p s 0
  unfolding pmm_free free_range
  free_nothing ptr = ground arith

  -- `pmm_free` of frames inside the memory, other than frame 0, and no more than are in use,
  -- clears exactly these frames and keeps the invariant, whether or not some were free already.
  pub pmm_free-Gave :
      0 < s → s + n ≤ p.total_pages → n ≤ p.used_pages → Gave p (pmm_free p (s * page_size) n) s n
  pmm_free-Gave not_null inside held = elim (ℕ_discrete n 0) [
    | yes z ↦ rw (z, free_nothing) (free_range-Gave p s 0 v (omega arith) (omega arith))
    | no ne ↦ rw (frees not_null (omega arith)) (free_range-Gave p s n v inside held)
  ]

-- A success of `pmm_alloc` at a frame other than 0 took the frames that it returned.
success-Took :
    (p p' : Pmm) (s n : ℕ)
    → IsValid p
    → 0 < n
    → 0 < s
    → pmm_alloc p n ≡ (s * page_size, p')
    → Took p p' s n
success-Took p p' s n v pos not_null e = elim (pmm_alloc_outcome p n v pos) [
  | inr (failed, _) ↦
      let null : 0 ≡ s * page_size = ap (λ t. t.0) (sym failed ∙ e) in absurd (omega arith)
  | inl (s', took, t) ↦
      let addr : s' * page_size ≡ s * page_size = ap (λ t. t.0) (sym took ∙ e) in
      let state : take_pages p s' n ≡ p' = ap (λ t. t.1) (sym took ∙ e) in
      let same : s' ≡ s = omega arith in rw (← state, ← same) t
]

-- What `pmm_alloc` returned, frame 0 apart, `pmm_free` takes back: every bit and every counter is
-- as it was before.
pub alloc-free :
    (p p' : Pmm) (s n : ℕ)
    → IsValid p
    → 0 < n
    → 0 < s
    → pmm_alloc p n ≡ (s * page_size, p')
    → let q = pmm_free p' (s * page_size) n in
      ((j : ℕ) → bitmap_test q.bitmap j ≡ bitmap_test p.bitmap j)
      × (q.free_pages ≡ p.free_pages)
      × (q.used_pages ≡ p.used_pages)
alloc-free p p' s n v pos not_null e =
    let t = success-Took p p' s n v pos not_null e in
    let g =
      pmm_free-Gave p' s n t.valid not_null (omega (arith, t.inside, t.total))
        (omega (arith, t.used)) in
    let q = pmm_free p' (s * page_size) n in
    let bits : (j : ℕ) → bitmap_test q.bitmap j ≡ bitmap_test p.bitmap j =
      λ j. ground (arith, g.marks j, t.marks j, t.run_free j) in
    let counts : free_count q.bitmap q.total_pages ≡ free_count p.bitmap p.total_pages =
      ap (free_count q.bitmap) (g.total ∙ t.total)
      ∙ count_clear_same (bitmap_test q.bitmap) (bitmap_test p.bitmap) p.total_pages
          (λ j _. bits j) in
    let free : q.free_pages ≡ p.free_pages = g.valid.free ∙ (counts ∙ sym v.free) in
    (bits, free, omega (arith, free, g.valid.usable, g.usable, t.valid.usable, t.free, t.used))
