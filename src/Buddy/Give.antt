-- ===== src/Buddy/Give.antt =====
-- What `kmem_buddy_alloc` does to the state.
use munt3os.Base.{
  ℕ, zero, suc, ◌+◌, ◌-◌, ◌^◌, ◌≤◌, ◌<◌, ◌≡◌, refl, sym, ◌⊎◌, inl, inr, Bool, true, false, List, [],
  ◌∷◌, arith, ltb, ◌==◌, ltb→le, Bool-cases, add_u64,
}
use mathlib.Core.List.{Memᴰ}
use mathlib.Core.Path.{subst}
use munt3os.Buddy.{
  Buddy, block_size, block_header, max_order, buddy_remove, is_empty, fit_order, first_order,
  split_down, take_block, kmem_buddy_alloc,
}
use munt3os.Buddy.Alloc.{fit_order-Stops, first_order-Stops}
use munt3os.Buddy.Valid.{Loose, free_at, IsValid}
use munt3os.Buddy.Moves.{take-IsValid, list-IsValid}
use munt3os.Buddy.Shapes.{free-IsValid}
use munt3os.Buddy.Halves.{at_order, cut-IsValid}

split_down-IsValid :
    (k target a : ℕ) (b : Buddy) (loose : Loose) (f : Bool)
    → IsValid b ((a, at_order f (target + k)) ∷ loose)
    → IsValid (split_down k target a b) ((a, at_order f target) ∷ loose)
unfolding split_down
split_down-IsValid zero target a b loose f valid =
    let same : target + 0 ≡ target = omega arith in
    subst (λ (o : ℕ). IsValid b ((a, at_order f o) ∷ loose)) same valid
split_down-IsValid (suc k) target a b loose f valid =
    let order = target + k in
    let next : target + suc k ≡ suc order = omega arith in
    let whole = subst (λ (o : ℕ). IsValid b ((a, at_order f o) ∷ loose)) next valid in
    split_down-IsValid k target a _ loose f (
      list-IsValid _ ((a, at_order f order) ∷ loose) (a + block_size order) order
        (cut-IsValid b loose a order f whole))

-- A block is given: it is loose from now on.
pub record Gives (size : ℕ) (loose : Loose) (r : ℕ × Buddy) : Type 0 where
  pub block : ℕ
  pub order : ℕ
  pub place : r.0 ≡ block + block_header
  pub large : size + block_header ≤ block_size order
  pub valid : IsValid r.1 ((block, at_order false order) ∷ loose)

take_block-Gives :
    (size target order : ℕ) (b : Buddy) (loose : Loose) (front : List ℕ)
    → IsValid b loose
    → size + block_header ≤ block_size target
    → target ≤ order
    → order ≤ max_order
    → b.free_lists order ≡ front
    → is_empty front ≡ false
    → Gives size loose (take_block target order front b)
unfolding take_block
take_block-Gives size target order b loose [] valid large low high front some_block = cc
take_block-Gives size target order b loose (a ∷ rest) valid large low high front some_block =
    let listed : Memᴰ a (b.free_lists order) = subst (Memᴰ a) (sym front) (Memᴰ.head refl) in
    let back : order ≡ target + (order - target) = omega (arith, low) in
    let taken : Buddy = record b { free_lists = buddy_remove order a b.free_lists } in
    let whole : IsValid taken ((a, free_at (target + (order - target))) ∷ loose) =
      subst (λ (o : ℕ). IsValid taken ((a, free_at o) ∷ loose)) back
        (take-IsValid b loose valid a order high listed) in
    let cut = split_down-IsValid (order - target) target a taken loose true whole in
    record {
      block = a;
      order = target;
      place = refl;
      large = large;
      valid = free-IsValid _ loose a (at_order true target) false cut;
    }

pub kmem_buddy_alloc-Gives :
    (size : ℕ) (b : Buddy) (loose : Loose)
    → size + block_header < 2 ^ 64
    → IsValid b loose
    → (kmem_buddy_alloc size b ≡ (0, b)) ⊎ Gives size loose (kmem_buddy_alloc size b)
unfolding kmem_buddy_alloc
kmem_buddy_alloc-Gives size b loose no_wrap valid =
    let total = add_u64 size block_header in
    let same : total ≡ size + block_header = omega (arith, no_wrap) in
    let target = fit_order 19 0 total in
    let fit = fit_order-Stops 19 0 total refl in
    let order = first_order 19 target b.free_lists in
    elim (Bool-cases (size == 0)) [
      | inl zero_size ↦ inl (rw (kmem_buddy_alloc, zero_size))
      | inr some_size ↦ elim (Bool-cases (ltb max_order target)) [
        | inl huge ↦ inl (rw (kmem_buddy_alloc, some_size, huge))
        | inr fits ↦
            let first =
              first_order-Stops 19 target b.free_lists (omega (arith, ltb→le max_order target fits))
                (omega arith) in
            elim (Bool-cases (ltb max_order order)) [
              | inl full ↦ inl (rw (kmem_buddy_alloc, some_size, fits, full))
              | inr found ↦
                  let high = ltb→le max_order order found in
                  let low = ltb→le max_order target fits in
                  inr (
                    rw (kmem_buddy_alloc, some_size, fits, found)
                      (take_block-Gives size target order b loose (b.free_lists order) valid
                        (omega (arith, ltb→le _ _ (fit.here low), same)) first.above high refl
                        (first.here high)))
            ]
      ]
    ]
