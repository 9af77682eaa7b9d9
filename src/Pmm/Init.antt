-- ===== src/Pmm/Init.antt =====
-- What `pmm_init` makes of the memory map.
use munt3os.Base.{
  ℕ, zero, suc, ◌+◌, ◌*◌, ◌/◌, ◌%◌, ◌^◌, ◌≤◌, ◌<◌, ◌≡◌, refl, sym, ap, ◌∙◌, inl, inr, Bool, true,
  false, ◌&&◌, some, List, [], ◌∷◌, arith, ltb, leb, if◌then◌else◌, Bool-cases, get_or, replicate,
  length-replicate, add_u64, page_size,
}
use mathlib.Core.List.{Memᴰ}
use mathlib.Core.List.Memᴰ
use mathlib.Core.Path.{subst}
use munt3os.Bitmap.{test_byte, bitmap_test}
use munt3os.Bitmap.Laws.{IsBytes}
use munt3os.Bitmap.Count.{count_clear, count_clear_same}
use munt3os.Pmm.{Pmm, Entry, highest_addr, bitmap_place, rounds, clear_pages, clear_entries}
use munt3os.Pmm.Range.{within}
use munt3os.Pmm.Counting.{Counted, Counted-same, clear_pages-Counted}

-- The entry is usable and has the frame.
abbrev pub has_frame : Entry → ℕ → Bool
has_frame e x = e.usable && within (e.base / page_size) (e.size / page_size) x

-- How many usable entries have the frame.
unfoldable pub owners : List Entry → ℕ → ℕ
owners [] x = 0
owners (e ∷ es) x = (if has_frame e x then 1 else 0) + owners es x

-- A memory map as the bootloader's protocol promises it: no entry leaves the address space, the usable
-- ones are aligned to pages, and no two of them share a frame.
pub record WellFormed (mmap : List Entry) : Type 0 where
  pub no_wrap : (e : Entry) → Memᴰ e mmap → e.base + e.size < 2 ^ 64
  pub aligned :
      (e : Entry)
      → Memᴰ e mmap
      → e.usable ≡ true
      → (e.base % page_size ≡ 0) × (e.size % page_size ≡ 0)
  pub apart : (x : ℕ) → owners mmap x ≤ 1

highest_addr_le : (top : ℕ) (es : List Entry) → top ≤ highest_addr top es
unfolding highest_addr
highest_addr_le top [] = omega arith
highest_addr_le top (e ∷ es) =
    let higher =
      highest_addr_le (if ltb top (add_u64 e.base e.size) then add_u64 e.base e.size else top) es in
    ground (arith, higher)

pub highest_addr-member :
    (top : ℕ) (es : List Entry) (e : Entry)
    → Memᴰ e es
    → e.base + e.size < 2 ^ 64
    → e.base + e.size ≤ highest_addr top es
unfolding highest_addr
highest_addr-member top [] e m small = absurd (Memᴰ.not-nil m)
highest_addr-member top (d ∷ es) e m small =
    let next = if ltb top (add_u64 d.base d.size) then add_u64 d.base d.size else top in
    elim (Memᴰ.cases_cons m) [
      | inr later ↦ highest_addr-member next es e later small
      | inl same ↦
          let sum : add_u64 d.base d.size ≡ e.base + e.size =
            ap (λ (g : Entry). add_u64 g.base g.size) (sym same) ∙ omega (arith, small) in
          let above : add_u64 d.base d.size ≤ next = ground arith in
          omega (arith, highest_addr_le next es, sum, above)
    ]

pub highest_addr_small : (top : ℕ) (es : List Entry) → top < 2 ^ 64 → highest_addr top es < 2 ^ 64
unfolding highest_addr
highest_addr_small top [] small = small
highest_addr_small top (e ∷ es) small =
    highest_addr_small (if ltb top (add_u64 e.base e.size) then add_u64 e.base e.size else top) es
      (ground (arith, small))

-- The entry that the bitmap is put in.
pub record Place (need base : ℕ) (es : List Entry) : Type 0 where
  pub entry : Entry
  pub member : Memᴰ entry es
  pub at : entry.base ≡ base
  pub is_usable : entry.usable ≡ true
  pub fits : need ≤ entry.size

pub bitmap_place-Place :
    (need base : ℕ) (es : List Entry) → bitmap_place need es ≡ some base → Place need base es
unfolding bitmap_place
bitmap_place-Place need base [] e = cc
bitmap_place-Place need base (d ∷ es) e = elim (Bool-cases (d.usable && leb need d.size)) [
  | inl here ↦
      let found : some d.base ≡ some base =
        subst (λ (c : Bool). (if c then some d.base else bitmap_place need es) ≡ some base) here
          e in
      record {
        entry = d;
        member = Memᴰ.head refl;
        at = cc;
        is_usable = ground (arith, here);
        fits = ground (arith, here);
      }
  | inr there ↦
      let found : bitmap_place need es ≡ some base =
        subst (λ (c : Bool). (if c then some d.base else bitmap_place need es) ≡ some base) there
          e in
      let p = bitmap_place-Place need base es found in
      record {
        entry = p.entry;
        member = Memᴰ.tail p.member;
        at = p.at;
        is_usable = p.is_usable;
        fits = p.fits;
      }
]

pub owners-member :
    (es : List Entry) (e : Entry) (x : ℕ) → Memᴰ e es → has_frame e x ≡ true → 1 ≤ owners es x
unfolding owners
owners-member [] e x m has = absurd (Memᴰ.not-nil m)
owners-member (d ∷ es) e x m has = elim (Memᴰ.cases_cons m) [
  | inl same ↦
      let here : has_frame d x ≡ true = ap (λ (g : Entry). has_frame g x) (sym same) ∙ has in
      rw here (omega arith)
  | inr later ↦ omega (arith, owners-member es e x later has)
]

-- A byte of ones.
full_byte : (k : ℕ) → k < 8 → test_byte 0xff k ≡ true
unfolding test_byte
full_byte zero h = refl
full_byte (suc zero) h = refl
full_byte (suc (suc zero)) h = refl
full_byte (suc (suc (suc zero))) h = refl
full_byte (suc (suc (suc (suc zero)))) h = refl
full_byte (suc (suc (suc (suc (suc zero))))) h = refl
full_byte (suc (suc (suc (suc (suc (suc zero)))))) h = refl
full_byte (suc (suc (suc (suc (suc (suc (suc zero))))))) h = refl
full_byte (suc (suc (suc (suc (suc (suc (suc (suc k)))))))) h = absurd (omega (arith, h))

full_cell : (n i b : ℕ) → i < n → get_or (replicate n b) i 0 ≡ b
full_cell zero i b h = absurd (omega (arith, h))
full_cell (suc n) zero b h = refl
full_cell (suc n) (suc i) b h = full_cell n i b (omega (arith, h))

full_bytes : (n : ℕ) → IsBytes (replicate n 0xff)
full_bytes zero i = omega arith
full_bytes (suc n) zero = omega arith
full_bytes (suc n) (suc i) = full_bytes n i

count_none : (n : ℕ) → count_clear (λ j. true) n ≡ 0
unfolding count_clear
count_none zero = refl
count_none (suc n) = omega (arith, count_none n)

-- Before the loops every frame is taken.
pub full-Counted :
    (start : Pmm) (total bytes : ℕ)
    → total ≤ 8 * bytes
    → start.free_pages ≡ 0
    → Counted start total (λ j. true) (record start { bitmap = replicate bytes 0xff })
unfolding bitmap_test
full-Counted start total bytes room none_free =
    let bits : (j : ℕ) → j < total → bitmap_test (replicate bytes 0xff) j ≡ true = λ j low.
      ap (λ (c : ℕ). test_byte c (j % 8)) (full_cell bytes (j / 8) 0xff (omega (arith, low, room)))
      ∙ full_byte (j % 8) (omega arith) in
    record {
      room = let n : ℕ = 0xff in omega (arith, room, length-replicate bytes n);
      bytes = full_bytes bytes;
      bits = bits;
      count = none_free ∙ sym (count_clear_same _ (λ j. true) total bits ∙ count_none total);
      rest = refl;
    }

module _ (start : Pmm) (total : ℕ) (small : total ≤ 2 ^ 52) where
  pub clear_entries-Counted :
      (es : List Entry) (f : ℕ → Bool) (p : Pmm)
      → ((e : Entry)
          → Memᴰ e es
          → e.usable ≡ true
          → (e.base % page_size ≡ 0) × (e.size % page_size ≡ 0))
      → ((e : Entry) → Memᴰ e es → e.base + e.size < 2 ^ 64)
      → ((e : Entry) → Memᴰ e es → (e.base + e.size) / page_size ≤ total)
      → ((x : ℕ) → owners es x ≤ 1)
      → ((x : ℕ) → 1 ≤ owners es x → f x ≡ true)
      → Counted start total f p
      → Counted start total (λ x. if ltb 0 (owners es x) then false else f x) (clear_entries es p)
  unfolding clear_entries owners
  clear_entries-Counted [] f p aligned no_wrap top apart used m = m
  clear_entries-Counted (e ∷ es) f p aligned no_wrap top apart used m =
      let rest : (g : ℕ → Bool) (q : Pmm)
          → ((x : ℕ) → 1 ≤ owners es x → g x ≡ true)
          → Counted start total g q
          → Counted start total (λ x. if ltb 0 (owners es x) then false else g x)
              (clear_entries es q) =
        λ g q.
          clear_entries-Counted es g q (λ d i. aligned d (Memᴰ.tail i))
            (λ d i. no_wrap d (Memᴰ.tail i)) (λ d i. top d (Memᴰ.tail i))
            (λ x. ground (arith, apart x)) in
      elim (Bool-cases e.usable) [
        | inr other ↦ rw other (
            Counted-same start total small (λ (x : ℕ). if ltb 0 (owners es x) then false else f x) _
              _ (λ x low. ground arith) (rest f p (λ x h. used x (omega (arith, h))) m))
        | inl usable ↦
            let a = aligned e (Memᴰ.head refl) usable in
            let first = e.base / page_size in
            let n = e.size / page_size in
            let loops : rounds e.size ≡ n = omega (arith, a.1) in
            let cleared : Counted start total (λ x. if within (first + 0) n x then false else f x)
                (clear_pages n 0 e.base p) =
              clear_pages-Counted start total small first e.base (omega (arith, a.0)) n 0 0 f p refl
                (omega (arith, top e (Memᴰ.head refl), a.0, a.1))
                (λ x there. used x (ground (arith, usable, there))) m in
            rw (usable, loops)
              (Counted-same start total small
                (λ (x : ℕ).
                  if ltb 0 (owners es x)
                  then false
                  else (if within (first + 0) n x then false else f x))
                _ _ (λ x low. ground arith)
                (rest _ _
                  (λ x h.
                    let one = apart x in
                    let old = used x (omega (arith, h)) in ground (arith, one, old, usable, h))
                  cleared))
      ]
