-- ===== src/Buddy/Alloc.antt =====
-- What `kmem_buddy_alloc` gives.
use munt3os.Base.{
  ℕ, zero, suc, ◌+◌, ◌-◌, ◌^◌, ◌≤◌, ◌<◌, ◌≡◌, refl, sym, ap, ◌∙◌, ◌⊎◌, inl, inr, Bool, true, false,
  ◌&&◌, some, List, [], ◌∷◌, arith, ℕ_discrete, ltb, leb, ◌==◌, ltb→lt, ltb→le, ==_iff, Bool-cases,
  add_u64,
}
use mathlib.Core.Path.{subst}
use munt3os.Buddy.{
  Buddy, max_order, block_size, block_header, buddy_add, buddy_remove, put_header, put_order,
  fit_order, is_empty, first_order, split_down, take_block, kmem_buddy_alloc,
}
use munt3os.Buddy.Cover.{in_block, cover, in_block-halves, cover-add, cover-take}

-- The order that a loop stops at, from `order` on.
pub record Stops (p : ℕ → Bool) (order t : ℕ) : Type 0 where
  pub above : order ≤ t
  pub here : t ≤ max_order → p t ≡ false
  pub passed : (j : ℕ) → order ≤ j → j < t → p j ≡ true

abbrev pub too_small : ℕ → ℕ → Bool
too_small total j = ltb (block_size j) total

Stops-here :
    (p : ℕ → Bool) (order : ℕ) → (order ≤ max_order → p order ≡ false) → Stops p order order
Stops-here p order h = record {
  above = omega arith;
  here = h;
  passed = λ j low high. absurd (omega (arith, low, high));
}

Stops-later :
    (p : ℕ → Bool) (order t : ℕ) → p order ≡ true → Stops p (suc order) t → Stops p order t
Stops-later p order t first s = record {
  above = omega (arith, s.above);
  here = s.here;
  passed = λ j low high. elim (ℕ_discrete order j) [
    | yes e ↦ subst (λ (i : ℕ). p i ≡ true) e first
    | no ne ↦ s.passed j (omega (arith, low, ne)) high
  ];
}

pub fit_order-Stops :
    (n order total : ℕ) → order + n ≡ 19 → Stops (too_small total) order (fit_order n order total)
unfolding fit_order
fit_order-Stops zero order total size =
    Stops-here (too_small total) order (λ h. absurd (omega (arith, size, h)))
fit_order-Stops (suc n) order total size =
    elim (Bool-cases (ltb (block_size order) total && leb order max_order)) [
      | inl more ↦ rw more (
          Stops-later (too_small total) order _ (ground (arith, more))
            (fit_order-Stops n (suc order) total (omega (arith, size))))
      | inr stop ↦ rw stop (Stops-here (too_small total) order (λ h. ground (arith, stop, h)))
    ]

pub first_order-Stops :
    (n order : ℕ) (lists : ℕ → List ℕ)
    → order ≤ 19
    → 19 ≤ order + n
    → Stops (λ j. is_empty (lists j)) order (first_order n order lists)
unfolding first_order
first_order-Stops zero order lists low size =
    Stops-here (λ j. is_empty (lists j)) order (λ h. absurd (omega (arith, size, h)))
first_order-Stops (suc n) order lists low size =
    elim (Bool-cases (leb order max_order && is_empty (lists order))) [
      | inl more ↦ rw more (
          Stops-later (λ j. is_empty (lists j)) order _ (ground (arith, more))
            (first_order-Stops n (suc order) lists (ground (arith, more)) (omega (arith, size))))
      | inr stop ↦
          rw stop (Stops-here (λ j. is_empty (lists j)) order (λ h. ground (arith, stop, h)))
    ]

split_down-cover :
    (x k target a : ℕ) (b : Buddy)
    → target + k ≤ max_order
    → cover x (split_down k target a b).free_lists + in_block x a target
      ≡ cover x b.free_lists + in_block x a (target + k)
unfolding split_down
split_down-cover x zero target a b small =
    let same : target + 0 ≡ target = omega arith in
    ap (λ (o : ℕ). cover x b.free_lists + in_block x a o) (sym same)
split_down-cover x (suc k) target a b small =
    let order = target + k in
    let buddy = a + block_size order in
    let cut : Buddy = record b {
      free_lists = buddy_add order buddy b.free_lists;
      header =
          put_order a order
            (put_header buddy (some (record { is_free = true; order = order })) b.header);
    } in
    let next : target + suc k ≡ suc order = omega arith in
    let inner = split_down-cover x k target a cut (omega (arith, small)) in
    let added = cover-add x order buddy b.free_lists (omega (arith, small)) in
    let halves = in_block-halves x a order in
    let whole = ap (in_block x a) next in inner ∙ omega (arith, added, halves, whole)

-- The block at `a` of the order that fits `size` bytes and the header best is given: what it covers is
-- no longer covered by the free blocks, and everything else is as it was.
pub record Given (size : ℕ) (b : Buddy) (ptr : ℕ) (b' : Buddy) : Type 0 where
  pub block : ℕ
  pub order : ℕ
  pub place : ptr ≡ block + block_header
  pub small : order ≤ max_order
  pub large : size + block_header ≤ block_size order
  pub tight : (j : ℕ) → j < order → block_size j < size + block_header
  pub taken : (x : ℕ) → cover x b'.free_lists + in_block x block order ≡ cover x b.free_lists

-- No list of an order that fits has a block.
abbrev pub NoneFits : ℕ → Buddy → Type 0
NoneFits size b =
    (j : ℕ) → j ≤ max_order → size + block_header ≤ block_size j → is_empty (b.free_lists j) ≡ true

take_block-Given :
    (size target order : ℕ) (b : Buddy) (front : List ℕ)
    → size + block_header < 2 ^ 64
    → Stops (too_small (add_u64 size block_header)) 0 target
    → target ≤ order
    → order ≤ max_order
    → b.free_lists order ≡ front
    → is_empty front ≡ false
    → let r = take_block target order front b in Given size b r.0 r.1
unfolding take_block
take_block-Given size target order b [] no_wrap fit low high front some_block = cc
take_block-Given size target order b (a ∷ rest) no_wrap fit low high front some_block =
    let total : add_u64 size block_header ≡ size + block_header = omega (arith, no_wrap) in
    let back : target + (order - target) ≡ order = omega (arith, low) in
    let b1 : Buddy = record b { free_lists = buddy_remove order a b.free_lists } in
    record {
      block = a;
      order = target;
      place = refl;
      small = omega (arith, low, high);
      large = ground (arith, fit.here (omega (arith, low, high)), total);
      tight = λ j less. ground (arith, fit.passed j (omega arith) less, total);
      taken = λ x. omega (
        arith,
        split_down-cover x (order - target) target a b1 (omega (arith, back, high)),
        ap (in_block x a) back,
        cover-take x order a rest b.free_lists high front,
      );
    }

-- `kmem_buddy_alloc` returns NULL and changes nothing, if the size is 0 or no free block is large enough
-- for it and the header; or it gives a block of the smallest order that is. Every address
-- lies in as many free blocks as before, but those of the block that is given lie in one less.
pub kmem_buddy_alloc_lem :
    (size : ℕ) (b : Buddy)
    → size + block_header < 2 ^ 64
    → let r = kmem_buddy_alloc size b in
      ((r ≡ (0, b)) × ((size ≡ 0) ⊎ NoneFits size b)) ⊎ Given size b r.0 r.1
unfolding kmem_buddy_alloc
kmem_buddy_alloc_lem size b no_wrap = elim (Bool-cases (size == 0)) [
  | inl zero_size ↦ inl (rw (kmem_buddy_alloc, zero_size), inl ((==_iff size 0).0 zero_size))
  | inr some_size ↦
      let total = add_u64 size block_header in
      let same : total ≡ size + block_header = omega (arith, no_wrap) in
      let target = fit_order 19 0 total in
      let fit = fit_order-Stops 19 0 total refl in
      let order = first_order 19 target b.free_lists in
      elim (Bool-cases (ltb max_order target)) [
        | inl huge ↦ inl (
          rw (kmem_buddy_alloc, some_size, huge),
          inr (λ j low fits. absurd (
              omega (
                arith,
                same,
                fits,
                ltb→lt _ _ (fit.passed j (omega arith) (omega (arith, low, ltb→lt _ _ huge))),
              ))),
        )
        | inr fits ↦
            let first =
              first_order-Stops 19 target b.free_lists (omega (arith, ltb→le max_order target fits))
                (omega arith) in
            elim (Bool-cases (ltb max_order order)) [
              | inl full ↦ inl (
                rw (kmem_buddy_alloc, some_size, fits, full),
                inr (λ j low large. elim (Bool-cases (ltb j target)) [
                  | inl below ↦ absurd (
                      omega (
                        arith,
                        same,
                        large,
                        ltb→lt _ _ (fit.passed j (omega arith) (ltb→lt j target below)),
                      ))
                  | inr above ↦
                      first.passed j (ltb→le j target above) (omega (arith, low, ltb→lt _ _ full))
                ]),
              )
              | inr found ↦ inr (
                  rw (kmem_buddy_alloc, some_size, fits, found)
                    (take_block-Given size target order b (b.free_lists order) no_wrap fit
                      first.above (ltb→le max_order order found) refl
                      (first.here (ltb→le max_order order found))))
            ]
      ]
]
