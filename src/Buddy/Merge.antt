-- ===== src/Buddy/Merge.antt =====
-- One round of the loop of `kmem_buddy_free`, and the loop.
use munt3os.Base.{
  ℕ, zero, suc, ◌+◌, ◌-◌, ◌^◌, ◌≤◌, ◌<◌, min, ◌≡◌, refl, sym, ap, ap₂, ◌∙◌, ◌⊎◌, inl, inr, Bool,
  true, false, not, ◌||◌, some, ◌∷◌, arith, leb, ◌==◌, Bool-cases, Option-cases, add_u64,
}
use mathlib.Core.List.{Memᴰ}
use mathlib.Core.List.Memᴰ
use mathlib.Core.Option.{some-injective}
use mathlib.Core.Path.{subst}
use munt3os.Buddy.{Header, Buddy, Merged, block_size, max_order, put_order, buddy_remove, merge_up}
use munt3os.Buddy.Blocks.{in_block_self, size_positive}
use munt3os.Buddy.Cover.{in_block, cover}
use munt3os.Buddy.Init.{in_pool}
use munt3os.Buddy.Valid.{
  Loose, held, free_at, buddy_at, Inner-bounds, Live, Stale, Held, IsValid, Live-covers, in_pool_le,
}
use munt3os.Buddy.Moves.{take-IsValid}
use munt3os.Buddy.Mates.{buddy_at-cases, buddy_at_twice}
use munt3os.Buddy.Shapes.{swap-IsValid}
use munt3os.Buddy.Halves.{at_order, join-IsValid}

-- No block is free: those that were given.
abbrev pub AllGiven : Loose → Type 0
AllGiven loose = (z : ℕ) (h : Header) → Memᴰ (z, h) loose → h.is_free ≡ false

-- A block of order `k` in hand, at `a`.
module _ (b : Buddy) (loose : Loose) (a k : ℕ) (f : Bool)
    (valid : IsValid b ((a, at_order f k) ∷ loose)) where
  abbrev mate : ℕ
  mate = buddy_at b.pool_start a k

  in_hand :
      (x : ℕ)
      → in_block x a k + (cover x b.free_lists + held x loose) ≡ in_pool x b.pool_start b.pool_size
  unfolding held
  in_hand x = omega (arith, valid.once x)

  starts : b.pool_start ≤ a
  starts = ground (arith, in_hand a, in_block_self a k)

  ends : a + block_size k ≤ b.pool_start + b.pool_size
  ends =
      let last = a + block_size k - 1 in
      let inside : in_block last a k ≡ 1 = ground (arith, size_positive k) in
      let pool : in_pool last b.pool_start b.pool_size ≡ 1 =
        omega (arith, in_hand last, inside, in_pool_le last b.pool_start b.pool_size) in
      ground (arith, pool, size_positive k)

  pub bounded : a + block_size k < 2 ^ 64
  bounded = omega (arith, ends, valid.no_wrap)

  mate-cases : (mate ≡ a + block_size k) ⊎ (a ≡ mate + block_size k)
  mate-cases = (buddy_at-cases b.pool_start a k starts bounded).1

  mate_twice : buddy_at b.pool_start mate k ≡ a
  mate_twice = buddy_at_twice b.pool_start a k starts bounded

  -- No other block has the address of this one in it.
  Live-alone : (c p : ℕ) → Live b loose c p → in_block a c p ≡ 0
  Live-alone c p live = omega (
    arith,
    Live-covers b loose c p a live,
    in_hand a,
    in_block_self a k,
    in_pool_le a b.pool_start b.pool_size,
  )

  Live-rest : (c p : ℕ) → Live b ((a, at_order f k) ∷ loose) c p → (p ≡ k) ⊎ Live b loose c p
  Live-rest c p (inl free) = inr (inl free)
  Live-rest c p (inr (g, m)) = elim (Memᴰ.cases_cons m) [
    | inl same ↦ inl (ap (λ (q : ℕ × Header). q.1.order) same)
    | inr later ↦ inr (inr (g, later))
  ]

  mate_fresh : Stale b ((a, at_order f k) ∷ loose) mate k → ⊥
  mate_fresh old =
      let place : mate ≡ a + block_size k =
        old.upper ∙ ap (λ (y : ℕ). y + block_size k) mate_twice in
      let bounds = Inner-bounds old.inner in
      elim (Live-rest old.around old.level old.live) [
        | inl level ↦ omega (arith, level, bounds.0)
        | inr live ↦
            let inside : in_block a old.around old.level ≡ 1 =
              ground (arith, place, bounds.1.0, bounds.1.1, size_positive k) in
            omega (arith, inside, Live-alone old.around old.level live)
      ]

  mate_given :
      AllGiven loose → b.header mate ≡ some (free_at k) → Held ((a, at_order f k) ∷ loose) mate → ⊥
  mate_given given e (h, m) = elim (Memᴰ.cases_cons m) [
    | inl same ↦
        let at : mate ≡ a = ap (λ (q : ℕ × Header). q.0) same in
        elim mate-cases [
          | inl up ↦ omega (arith, up, at, size_positive k)
          | inr down ↦ omega (arith, down, at, size_positive k)
        ]
    | inr later ↦
        let read : free_at k ≡ h = some-injective _ _ (sym e ∙ (valid.loose_headers mate h m).0) in
        let none_free : true ≡ false = ap (λ (h : Header). h.is_free) read ∙ given mate h later in
        cc
  ]

  -- A header at the other half that says free says so of a block in the list.
  pub mate_listed :
      AllGiven loose
      → b.header mate ≡ some (free_at k)
      → (k ≤ max_order) × Memᴰ mate (b.free_lists k)
  mate_listed given e = elim (valid.truth mate k e) [
    | inl free ↦ free
    | inr (inl held_there) ↦ absurd (mate_given given e held_there)
    | inr (inr old) ↦ absurd (mate_fresh old)
  ]

  abbrev joined : Buddy
  joined = record b {
    free_lists = buddy_remove k mate b.free_lists;
    header = put_order (min mate a) (suc k) b.header;
  }

  abbrev Joins : ℕ → Type 0
  Joins low =
      (g : Bool) × IsValid
        (record b {
          free_lists = buddy_remove k mate b.free_lists;
          header = put_order low (suc k) b.header;
        })
        ((low, at_order g (suc k)) ∷ loose)

  pub round-IsValid :
      AllGiven loose → b.header mate ≡ some (free_at k) → suc k ≤ max_order → Joins (min mate a)
  round-IsValid given e small =
      let listed = mate_listed given e in
      let taken : Buddy = record b { free_lists = buddy_remove k mate b.free_lists } in
      let both : IsValid taken ((mate, free_at k) ∷ (a, at_order f k) ∷ loose) =
        take-IsValid b ((a, at_order f k) ∷ loose) valid mate k listed.0 listed.1 in
      elim mate-cases [
        | inl up ↦
            let low : a ≡ min mate a = omega (arith, up) in
            subst Joins low (
              f,
              join-IsValid taken loose a mate k f true
                  (swap-IsValid taken (mate, free_at k) (a, at_order f k) loose both) up
                  (sym mate_twice) small,
            )
        | inr down ↦
            let low : mate ≡ min mate a = omega (arith, down) in
            subst Joins low (true, join-IsValid taken loose mate a k true f both down refl small)
      ]

-- Where the loop ends, there is one block in hand.
pub record InHand (m : Merged) (loose : Loose) : Type 0 where
  pub flag : Bool
  pub valid : IsValid m.after ((m.block, at_order flag m.order) ∷ loose)

pub merge_up-InHand :
    (n k a : ℕ) (b : Buddy) (loose : Loose) (f : Bool)
    → k + n ≡ max_order
    → IsValid b ((a, at_order f k) ∷ loose)
    → AllGiven loose
    → InHand (merge_up n k a b) loose
unfolding merge_up
merge_up-InHand zero k a b loose f rounds valid given = record { flag = f; valid = valid }
merge_up-InHand (suc n) k a b loose f rounds valid given =
    let mate : ℕ = buddy_at b.pool_start a k in
    let stop : InHand (record { block = a; order = k; after = b }) loose = record {
      flag = f;
      valid = valid;
    } in
    elim (Bool-cases (leb (add_u64 b.pool_start b.pool_size) mate)) [
      | inl outside ↦ rw (merge_up, outside) stop
      | inr inside ↦ elim (Option-cases (b.header mate)) [
        | inl bare ↦ rw (merge_up, inside, bare) stop
        | inr (h, is) ↦ elim (Bool-cases (not h.is_free || not (h.order == k))) [
          | inl other ↦ rw (merge_up, inside, is, other) stop
          | inr same ↦
              let free : h.is_free ≡ true = ground (arith, same) in
              let level : h.order ≡ k = ground (arith, same) in
              let read : b.header mate ≡ some (free_at k) =
                is
                ∙ ap₂ (λ (f : Bool) (o : ℕ). some (record { is_free = f; order = o })) free level in
              let r = round-IsValid b loose a k f valid given read (omega (arith, rounds)) in
              rw (merge_up, inside, is, same)
                (merge_up-InHand n (suc k) (min mate a) _ loose r.0 (omega (arith, rounds)) r.1
                  given)
        ]
      ]
    ]
