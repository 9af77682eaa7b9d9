-- ===== src/Pmm/Shared.antt =====
-- The runs of frames that callers hold, and how a call of `pmm_alloc` or `pmm_free` changes them.
use munt3os.Base.{
  ℕ, zero, suc, ◌+◌, ◌*◌, ◌/◌, ◌%◌, ◌≤◌, ◌<◌, ◌≡◌, refl, sym, ap, ◌∙◌, ◌≢◌, inl, inr, Bool, true,
  false, List, [], ◌∷◌, ◌++◌, arith, ℕ_discrete, Bool-cases, page_size,
}
use mathlib.Core.Path.{subst}
use munt3os.Bitmap.{bitmap_test}
use munt3os.Pmm.{Pmm, Entry, take_pages, pmm_alloc, free_page, free_range, pmm_free}
use munt3os.Pmm.Range.{within}
use munt3os.Pmm.Valid.{IsValid}
use munt3os.Pmm.Alloc.{Took, pmm_alloc_outcome}
use munt3os.Pmm.Free.{Gave, free_page-Gave, pmm_free-Gave, frees}
use munt3os.Pmm.Init.{owners}
use munt3os.Pmm.Boot.{frames_of, is_taken}

abbrev pub bit_number : Bool → ℕ
bit_number true = 1
bit_number false = 0

-- `pmm_free` of frames that are all in use lowers the number of used ones by as many.
free_range-used :
    (p : Pmm) (s n : ℕ)
    → IsValid p
    → s + n ≤ p.total_pages
    → n ≤ p.used_pages
    → ((j : ℕ) → within s n j ≡ true → bitmap_test p.bitmap j ≡ true)
    → (free_range p s n).used_pages + n ≡ p.used_pages
unfolding free_range free_page
free_range-used p s zero v inside enough all_taken = omega arith
free_range-used p s (suc n) v inside enough all_taken =
    let one = free_page-Gave p s v (omega (arith, inside)) (omega (arith, enough)) in
    let here : bitmap_test p.bitmap s ≡ true = all_taken s (ground arith) in
    let less : (free_page p s).used_pages + 1 ≡ p.used_pages =
      rw (free_page, here) (omega (arith, v.small, v.usable, v.usable_small, enough)) in
    let rest =
      free_range-used (free_page p s) (s + 1) n one.0.valid (omega (arith, inside, one.0.total))
        (omega (arith, less, enough))
        (λ j there. one.0.marks j ∙ ground (arith, there, all_taken j)) in
    omega (arith, rest, less)

-- How many of the runs have the frame, and how many frames they have.
unfoldable pub holders : List (ℕ × ℕ) → ℕ → ℕ
holders [] x = 0
holders (r ∷ rest) x = bit_number (within (r.0 / page_size) r.1 x) + holders rest x

unfoldable pub held_frames : List (ℕ × ℕ) → ℕ
held_frames [] = 0
held_frames (r ∷ rest) = r.1 + held_frames rest

-- The run starts at a frame other than 0 and lies in the memory.
pub record InMemory (total : ℕ) (r : ℕ × ℕ) : Type 0 where
  pub aligned : r.0 % page_size ≡ 0
  pub some_ptr : 0 < r.0
  pub some_frames : 0 < r.1
  pub inside : r.0 / page_size + r.1 ≤ total

abbrev pub AllInMemory : ℕ → List (ℕ × ℕ) → Type 0
AllInMemory total [] = Unit {0}
AllInMemory total (r ∷ rest) = InMemory total r × AllInMemory total rest

-- Each frame is free, or taken since `pmm_init`, or in exactly one of the runs that are held.
pub record Shared (mmap : List Entry) (base : ℕ) (held : List (ℕ × ℕ)) (p : Pmm) : Type 0 where
  pub valid : IsValid p
  pub total : p.total_pages ≡ frames_of mmap
  pub runs : AllInMemory (frames_of mmap) held
  pub used : p.used_pages ≡ held_frames held
  pub once :
      (x : ℕ)
      → x < frames_of mmap
      → bit_number (bitmap_test p.bitmap x) ≡ bit_number (is_taken mmap base x) + holders held x

holders-append :
    (before after : List (ℕ × ℕ)) (x : ℕ)
    → holders (before ++ after) x ≡ holders before x + holders after x
unfolding holders
holders-append [] after x = omega arith
holders-append (r ∷ before) after x = omega (arith, holders-append before after x)

held_frames-append :
    (before after : List (ℕ × ℕ))
    → held_frames (before ++ after) ≡ held_frames before + held_frames after
unfolding held_frames
held_frames-append [] after = omega arith
held_frames-append (r ∷ before) after = omega (arith, held_frames-append before after)

AllInMemory-one :
    (total : ℕ) (before after : List (ℕ × ℕ)) (r : ℕ × ℕ)
    → AllInMemory total (before ++ (r ∷ after))
    → InMemory total r
AllInMemory-one total [] after r all_in = all_in.0
AllInMemory-one total (q ∷ before) after r all_in = AllInMemory-one total before after r all_in.1

AllInMemory-rest :
    (total : ℕ) (before after : List (ℕ × ℕ)) (r : ℕ × ℕ)
    → AllInMemory total (before ++ (r ∷ after))
    → AllInMemory total (before ++ after)
AllInMemory-rest total [] after r all_in = all_in.1
AllInMemory-rest total (q ∷ before) after r all_in =
    (all_in.0, AllInMemory-rest total before after r all_in.1)

bit_number-false : (b : Bool) → bit_number b ≡ 0 → b ≡ false
bit_number-false true e = absurd (omega (arith, e))
bit_number-false false e = refl

bit_number-true : (b : Bool) → 1 ≤ bit_number b → b ≡ true
bit_number-true true h = refl
bit_number-true false h = absurd (omega (arith, h))

bit_number_le : (b : Bool) → bit_number b ≤ 1
bit_number_le true = omega arith
bit_number_le false = omega arith

nothing_asked : (p : Pmm) → pmm_alloc p 0 ≡ (0, p)
unfolding pmm_alloc
nothing_asked p = ground arith

module _ (mmap : List Entry) (base : ℕ) where
  Took-Shared :
      (held : List (ℕ × ℕ)) (p p' : Pmm) (first n : ℕ)
      → 0 < n
      → 0 < first
      → Took p p' first n
      → Shared mmap base held p
      → Shared mmap base ((first * page_size, n) ∷ held) p'
  unfolding holders held_frames
  Took-Shared held p p' first n some_frames some_ptr t s =
      let back : first * page_size / page_size ≡ first = omega arith in
      record {
        valid = t.valid;
        total = t.total ∙ s.total;
        runs = (
          record {
            aligned = omega arith;
            some_ptr = omega (arith, some_ptr);
            some_frames = some_frames;
            inside = omega (arith, t.inside, s.total, back);
          },
          s.runs,
        );
        used = omega (arith, t.used, s.used);
        once = λ x low. elim (Bool-cases (within first n x)) [
          | inl there ↦
              let was : bitmap_test p.bitmap x ≡ false =
                t.run_free x (ground (arith, there)) (ground (arith, there)) in
              rw (t.marks x, back, there) (omega (arith, s.once x low, ap bit_number was))
          | inr away ↦ rw (t.marks x, back, away) (omega (arith, s.once x low))
        ];
      }

  pub alloc-Shared :
      (held : List (ℕ × ℕ)) (p : Pmm) (n : ℕ)
      → (pmm_alloc p n).0 ≢ 0
      → Shared mmap base held p
      → Shared mmap base (((pmm_alloc p n).0, n) ∷ held) (pmm_alloc p n).1
  alloc-Shared held p n got s = elim (ℕ_discrete n 0) [
    | yes none_asked ↦ absurd (
        got (
          ap (λ (m : ℕ). (pmm_alloc p m).0) none_asked
          ∙ ap (λ (r : ℕ × Pmm). r.0) (nothing_asked p)))
    | no asked ↦ elim (pmm_alloc_outcome p n s.valid (omega (arith, asked))) [
      | inr (failed, _) ↦ absurd (got (ap (λ (r : ℕ × Pmm). r.0) failed))
      | inl (first, is, t) ↦
          let some_ptr : first * page_size ≢ 0 = λ e. got (ap (λ (r : ℕ × Pmm). r.0) is ∙ e) in
          subst (λ (r : ℕ × Pmm). Shared mmap base ((r.0, n) ∷ held) r.1) (sym is)
            (Took-Shared held p (take_pages p first n) first n (omega (arith, asked))
              (omega (arith, some_ptr)) t s)
    ]
  ]

  -- Frame 0 is never given.
  pub null-Shared :
      (held : List (ℕ × ℕ)) (p : Pmm) (n : ℕ)
      → owners mmap 0 ≡ 0
      → (pmm_alloc p n).0 ≡ 0
      → Shared mmap base held p
      → Shared mmap base held (pmm_alloc p n).1
  null-Shared held p n low_taken null s = elim (ℕ_discrete n 0) [
    | yes none_asked ↦
        subst (Shared mmap base held)
          (sym (
            ap (λ (m : ℕ). (pmm_alloc p m).1) none_asked
            ∙ ap (λ (r : ℕ × Pmm). r.1) (nothing_asked p)))
          s
    | no asked ↦ elim (pmm_alloc_outcome p n s.valid (omega (arith, asked))) [
      | inr (failed, _) ↦ subst (Shared mmap base held) (sym (ap (λ (r : ℕ × Pmm). r.1) failed)) s
      | inl (first, is, t) ↦
          let at_zero : first ≡ 0 = omega (arith, ap (λ (r : ℕ × Pmm). r.0) is, null) in
          let free : bitmap_test p.bitmap 0 ≡ false =
            t.run_free 0 (omega (arith, at_zero)) (omega (arith, at_zero, asked)) in
          let kept : is_taken mmap base 0 ≡ true = ground (arith, low_taken) in
          absurd (
            omega (
              arith,
              s.once 0 (omega (arith, s.total, s.valid.some_pages)),
              ap bit_number free,
              ap bit_number kept,
            ))
    ]
  ]

  pub free-Shared :
      (before after : List (ℕ × ℕ)) (ptr n : ℕ) (p : Pmm)
      → Shared mmap base (before ++ ((ptr, n) ∷ after)) p
      → Shared mmap base (before ++ after) (pmm_free p ptr n)
  unfolding holders held_frames
  free-Shared before after ptr n p s =
      let first : ℕ = ptr / page_size in
      let all_held = before ++ ((ptr, n) ∷ after) in
      let r = AllInMemory-one (frames_of mmap) before after (ptr, n) s.runs in
      let place : ptr ≡ first * page_size = omega (arith, r.aligned) in
      let some_ptr : 0 < first = omega (arith, r.aligned, r.some_ptr) in
      let inside : first + n ≤ p.total_pages = omega (arith, r.inside, s.total) in
      let sum = held_frames-append before ((ptr, n) ∷ after) in
      let sum' = held_frames-append before after in
      let count = λ (x : ℕ). holders-append before ((ptr, n) ∷ after) x in
      let count' = λ (x : ℕ). holders-append before after x in
      let enough : n ≤ p.used_pages = omega (arith, s.used, sum) in
      let g : Gave p (pmm_free p ptr n) first n =
        subst (λ (q : ℕ). Gave p (pmm_free p q n) first n) (sym place)
          (pmm_free-Gave p first n s.valid some_ptr inside enough) in
      let was_taken : (j : ℕ) → within first n j ≡ true → bitmap_test p.bitmap j ≡ true = λ j there.
        let mine = ap bit_number there in
        bit_number-true _
          (omega (arith, s.once j (ground (arith, there, inside, s.total)), count j, mine)) in
      let range : pmm_free p ptr n ≡ free_range p first n =
        ap (λ (q : ℕ). pmm_free p q n) place ∙ frees p first n s.valid some_ptr r.some_frames in
      let left : (pmm_free p ptr n).used_pages + n ≡ p.used_pages =
        ap (λ (q : Pmm). q.used_pages + n) range
        ∙ free_range-used p first n s.valid inside enough was_taken in
      record {
        valid = g.valid;
        total = g.total ∙ s.total;
        runs = AllInMemory-rest (frames_of mmap) before after (ptr, n) s.runs;
        used = omega (arith, left, s.used, sum, sum');
        once = λ x low. elim (Bool-cases (within first n x)) [
          | inl there ↦
              let mine = ap bit_number there in
              let one = bit_number_le (bitmap_test p.bitmap x) in
              rw (g.marks x, there) (omega (arith, s.once x low, count x, count' x, mine, one))
          | inr away ↦
              let mine = ap bit_number away in
              rw (g.marks x, away) (omega (arith, s.once x low, count x, count' x, mine))
        ];
      }
