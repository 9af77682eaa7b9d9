-- ===== src/Pmm/Scan.antt =====
-- The search of `pmm_alloc`: what it finds is free, and which runs it does not miss.
use munt3os.Base.{
  ℕ, zero, suc, ◌+◌, ◌-◌, ◌%◌, ◌^◌, ◌≤◌, ◌<◌, ◌≡◌, refl, sym, ◌∙◌, ◌≢◌, ◌⊎◌, inl, inr, true, false,
  Option, none, some, List, arith, ℕ_discrete, ◌==◌, if◌then◌else◌, ==_iff, Bool-cases, mod-wrap,
  add_u64,
}
use native.Mathlib.Nat.{mod-lt}
use munt3os.Bitmap.{bitmap_test}
use munt3os.Pmm.{scan, kept_streak, run_start}

-- The `n` frames from `s` on are free.
abbrev pub IsFree : List ℕ → ℕ → ℕ → Type 0
IsFree bm s n = (k : ℕ) → s ≤ k → k < s + n → bitmap_test bm k ≡ false

-- The bit behind `bit`, going round at `total`.
next_bit :
    (start total i : ℕ)
    → start < total
    → i < total
    → total ≤ 2 ^ 62
    → add_u64 start (i + 1) % total
      ≡ (if add_u64 start i % total + 1 == total then 0 else add_u64 start i % total + 1)
next_bit start total i h p q =
    let a : add_u64 start (i + 1) ≡ start + (i + 1) = omega arith in
    let b : add_u64 start i ≡ start + i = omega arith in
    rw (a, b) (ground (arith, mod-wrap (start + (i + 1)) total, mod-wrap (start + i) total))

bit-lt : (start total i : ℕ) → start < total → add_u64 start i % total < total
bit-lt start total i h = mod-lt (add_u64 start i) (omega arith)

module _ (bm : List ℕ) (total count : ℕ) where
  -- At the bit `b`: the streak so far is free and ends just before `b`, unless the search went round.
  pub record Streak (b streak from : ℕ) : Type 0 where
    pub free : IsFree bm from streak
    pub within : from + streak ≤ total
    pub short : streak < count
    pub ends : 0 < streak → (b ≡ 0) ⊎ (from + streak ≡ b)

  -- What is kept of the streak ends just before `b` in every case.
  kept_lem :
      (b streak from : ℕ)
      → Streak b streak from
      → let kept = kept_streak b streak in
        let from' = run_start b kept from in
        (from' + kept ≡ b) × (kept < count) × (kept ≤ streak) × IsFree bm from' kept
  unfolding kept_streak run_start
  kept_lem b streak from k = (
    ground (arith, k.ends),
    ground (arith, k.short),
    ground arith,
    λ j p r. ground (arith, k.free j),
  )

  used_step : (b streak from c : ℕ) → 0 < count → from ≤ total → Streak c 0 from
  used_step b streak from c pos w = record {
    free = λ j p r. absurd (omega arith);
    within = omega arith;
    short = pos;
    ends = λ z. absurd (omega arith);
  }

  free_step :
      (b streak from c : ℕ)
      → Streak b streak from
      → b < total
      → bitmap_test bm b ≡ false
      → kept_streak b streak + 1 ≢ count
      → c ≡ (if b + 1 == total then 0 else b + 1)
      → Streak c (kept_streak b streak + 1) (run_start b (kept_streak b streak) from)
  free_step b streak from c k lt clear ne e =
      let (ends, short, less, free) = kept_lem b streak from k in
      record {
        free = λ j p r. elim (ℕ_discrete j b) [
          | yes eq ↦ rw eq clear
          | no other ↦ free j p (omega arith)
        ];
        within = omega arith;
        short = omega arith;
        ends = λ z. ground arith;
      }

-- One round of the search, in its three cases.
module _ (bm : List ℕ) (start total count left i streak from : ℕ) where
  abbrev pub here : ℕ
  here = add_u64 start i % total

  abbrev pub going : ℕ
  going = kept_streak here streak

  scan_used :
      bitmap_test bm here ≡ true
      → scan bm start total count (suc left) i streak from
        ≡ scan bm start total count left (i + 1) 0 from
  unfolding scan
  scan_used e = rw e

  pub scan_full :
      bitmap_test bm here ≡ false
      → going + 1 ≡ count
      → scan bm start total count (suc left) i streak from ≡ some (run_start here going from)
  unfolding scan
  scan_full e f = rw (e, (==_iff (going + 1) count).1 f)

  scan_free :
      bitmap_test bm here ≡ false
      → going + 1 ≢ count
      → scan bm start total count (suc left) i streak from
        ≡ scan bm start total count left (i + 1) (going + 1) (run_start here going from)
  unfolding scan
  scan_free e f = rw (e, ne-==) refl
    where
      ne-== : (going + 1 == count) ≡ false
      ne-== = ground arith

kept_ge : (b streak t : ℕ) → b - t ≤ streak → b - t ≤ kept_streak b streak
unfolding kept_streak
kept_ge b streak t h = ground arith

absurd_some : {o : Option ℕ} {a : ℕ} → o ≡ some a → o ≡ none → ⊥
absurd_some p q = cc

module _ (bm : List ℕ) (start total count : ℕ) (h : start < total) (q : total ≤ 2 ^ 62)
    (pos : 0 < count) where
  abbrev bit_at : ℕ → ℕ
  bit_at i = add_u64 start i % total

  -- A run that the search reports is free, has the length asked for, and lies inside the memory.
  pub scan_sound :
      (left i streak from s : ℕ)
      → i + left ≡ total
      → Streak bm total count (bit_at i) streak from
      → scan bm start total count left i streak from ≡ some s
      → IsFree bm s count × (s + count ≤ total)
  scan_sound zero i streak from s e k found = absurd_none found
    where
      absurd_none :
          scan bm start total count zero i streak from ≡ some s
          → IsFree bm s count × (s + count ≤ total)
      absurd_none found' = unfold scan in cc
  scan_sound (suc left) i streak from s e k found =
      let b = bit_at i in
      let kept = kept_streak b streak in
      let from' = run_start b kept from in
      let lt = bit-lt start total i h in
      let next = next_bit start total i h (omega arith) q in
      let (ends, short, less, free) = kept_lem bm total count b streak from k in
      elim (Bool-cases (bitmap_test bm b)) [
        | inl used ↦
            scan_sound left (i + 1) 0 from s (omega arith)
              (used_step bm total count b streak from (bit_at (i + 1)) pos
                (omega (arith, k.within)))
              (rw (scan_used bm start total count left i streak from used) at found)
        | inr clear ↦ elim (ℕ_discrete (kept + 1) count) [
          | yes full ↦
              let at : some from' ≡ some s =
                sym (scan_full bm start total count left i streak from clear full) ∙ found in
              let eq : from' ≡ s = ground arith in
              (
                λ j p r. elim (ℕ_discrete j b) [
                  | yes same ↦ rw same clear
                  | no other ↦ free j (omega arith) (omega arith)
                ],
                omega arith,
              )
          | no more ↦
              scan_sound left (i + 1) (kept + 1) from' s (omega arith)
                (free_step bm total count b streak from (bit_at (i + 1)) k lt clear more next)
                (rw (scan_free bm start total count left i streak from clear more) at found)
        ]
      ]

  -- The run from `t` on is still ahead: in the part that is searched before the search goes round,
  -- or behind that. Or the search is inside it, and the streak holds what lies before.
  abbrev Ahead : ℕ → ℕ → ℕ → ℕ → Type 0
  Ahead t b streak left =
      ((b < t + count) × (b - t ≤ streak) × (t + count - b ≤ left))
      ⊎ ((t < b) × (total - b + (t + count) ≤ left))

  pub scan_complete :
      (left i streak from t : ℕ)
      → i + left ≡ total
      → t + count ≤ total
      → IsFree bm t count
      → Streak bm total count (bit_at i) streak from
      → Ahead t (bit_at i) streak left
      → scan bm start total count left i streak from ≢ none
  scan_complete zero i streak from t e w run k a missed = nothing_ahead a
    where
      nothing_ahead : Ahead t (bit_at i) streak 0 → ⊥
      nothing_ahead a' = omega arith
  scan_complete (suc left) i streak from t e w run k a missed =
      let b = bit_at i in
      let kept = kept_streak b streak in
      let from' = run_start b kept from in
      let lt = bit-lt start total i h in
      let next = next_bit start total i h (omega arith) q in
      let (ends, short, less, free) = kept_lem bm total count b streak from k in
      elim (Bool-cases (bitmap_test bm b)) [
        | inl used ↦
            scan_complete left (i + 1) 0 from t (omega arith) w run
              (used_step bm total count b streak from (bit_at (i + 1)) pos
                (omega (arith, k.within)))
              (ground (arith, a, run b, next, lt))
              (rw (scan_used bm start total count left i streak from used) at missed)
        | inr clear ↦ elim (ℕ_discrete (kept + 1) count) [
          | yes full ↦
              absurd_some (scan_full bm start total count left i streak from clear full) missed
          | no more ↦
              scan_complete left (i + 1) (kept + 1) from' t (omega arith) w run
                (free_step bm total count b streak from (bit_at (i + 1)) k lt clear more next)
                (ground (arith, a, short, next, lt, more, kept_ge b streak t))
                (rw (scan_free bm start total count left i streak from clear more) at missed)
        ]
      ]
