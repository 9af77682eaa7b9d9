-- ===== src/Buddy/Moves.antt =====
-- What a call does to the state step by step: blocks are taken from a free list, put in one, and the loose
-- blocks in hand are cut and joined.
use munt3os.Base.{
  ℕ, ◌≤◌, ◌≡◌, refl, sym, ap, ap₂, ◌∙◌, inl, inr, true, some, ◌∷◌, arith, ℕ_discrete,
}
use mathlib.Core.List.{Memᴰ}
use mathlib.Core.List.Memᴰ
use mathlib.Core.Option.{some-injective}
use mathlib.Core.Path.{subst}
use munt3os.Buddy.{Header, Buddy, max_order, buddy_add, buddy_remove}
use munt3os.Buddy.Blocks.{cover-remove, Mem-remove, Mem-removed, Mem-added, Mem-add, Mem-add_cases}
use munt3os.Buddy.Cover.{cover-add}
use munt3os.Buddy.Valid.{Loose, held, free_at, Live, IsValid}

-- A free block is taken from its list.
module _ (b : Buddy) (loose : Loose) (valid : IsValid b loose) (a k : ℕ) (small : k ≤ max_order)
    (listed : Memᴰ a (b.free_lists k)) where
  abbrev taken : Buddy
  taken = record b { free_lists = buddy_remove k a b.free_lists }

  abbrev more : Loose
  more = (a, free_at k) ∷ loose

  Live-taken : (c p : ℕ) → Live b loose c p → Live taken more c p
  Live-taken c p (inr (f, m)) = inr (f, Memᴰ.tail m)
  Live-taken c p (inl (low, m)) = elim (ℕ_discrete p k) [
    | no other ↦ inl (low, Mem-remove k a b.free_lists c p (inr other) m)
    | yes same ↦ elim (ℕ_discrete c a) [
      | no away ↦ inl (low, Mem-remove k a b.free_lists c p (inl away) m)
      | yes here ↦ inr (true, Memᴰ.head (ap₂ (λ (y j : ℕ). (y, free_at j)) here same))
    ]
  ]

  pub take-IsValid : IsValid taken more
  unfolding held
  take-IsValid = record {
    no_wrap = valid.no_wrap;
    once = λ x. omega (arith, valid.once x, cover-remove k a b.free_lists x small listed);
    free_headers = λ z i low m. valid.free_headers z i low (Mem-removed k a b.free_lists z i m);
    loose_headers = λ z h m. elim (Memᴰ.cases_cons m) [
      | inl same ↦
          let at : z ≡ a = ap (λ (q : ℕ × Header). q.0) same in
          let is : h ≡ free_at k = ap (λ (q : ℕ × Header). q.1) same in
          (
            ap b.header at
                ∙ (valid.free_headers a k small listed ∙ ap (λ (g : Header). some g) (sym is)),
            omega (arith, ap (λ (g : Header). g.order) is, small),
          )
      | inr later ↦ valid.loose_headers z h later
    ];
    truth = λ z i e. elim (valid.truth z i e) [
      | inl (low, m) ↦ elim (ℕ_discrete z a) [
        | yes here ↦ inr (inl (free_at k, Memᴰ.head (ap (λ (y : ℕ). (y, free_at k)) here)))
        | no away ↦ inl (low, Mem-remove k a b.free_lists z i (inl away) m)
      ]
      | inr (inl (h, m)) ↦ inr (inl (h, Memᴰ.tail m))
      | inr (inr s) ↦ inr (
          inr (record {
            upper = s.upper;
            around = s.around;
            level = s.level;
            live = Live-taken s.around s.level s.live;
            inner = s.inner;
          }))
    ];
  }

-- A loose block is put in the list of its order.
module _ (b : Buddy) (loose : Loose) (a k : ℕ) (valid : IsValid b ((a, free_at k) ∷ loose)) where
  abbrev listed : Buddy
  listed = record b { free_lists = buddy_add k a b.free_lists }

  is_small : k ≤ max_order
  is_small = (valid.loose_headers a (free_at k) (Memᴰ.head refl)).1

  Live-listed : (c p : ℕ) → Live b ((a, free_at k) ∷ loose) c p → Live listed loose c p
  Live-listed c p (inl (low, m)) = inl (low, Mem-add k a b.free_lists c p m)
  Live-listed c p (inr (f, m)) = elim (Memᴰ.cases_cons m) [
    | inr later ↦ inr (f, later)
    | inl same ↦
        let at : c ≡ a = ap (λ (q : ℕ × Header). q.0) same in
        let level : p ≡ k = ap (λ (q : ℕ × Header). q.1.order) same in
        inl (
          omega (arith, level, is_small),
          subst (λ (y : ℕ). Memᴰ y (buddy_add k a b.free_lists p)) (sym at)
              (subst (λ (j : ℕ). Memᴰ a (buddy_add k a b.free_lists j)) (sym level)
                (Mem-added k a b.free_lists)),
        )
  ]

  pub list-IsValid : IsValid listed loose
  unfolding held
  list-IsValid = record {
    no_wrap = valid.no_wrap;
    once = λ x. omega (arith, valid.once x, cover-add x k a b.free_lists is_small);
    free_headers = λ z i low m. elim (Mem-add_cases k a b.free_lists z i m) [
      | inr old ↦ valid.free_headers z i low old
      | inl (at, level) ↦
          ap b.header at
          ∙ ((valid.loose_headers a (free_at k) (Memᴰ.head refl)).0
              ∙ ap (λ (j : ℕ). some (free_at j)) (sym level))
    ];
    loose_headers = λ z h m. valid.loose_headers z h (Memᴰ.tail m);
    truth = λ z i e. elim (valid.truth z i e) [
      | inl (low, m) ↦ inl (low, Mem-add k a b.free_lists z i m)
      | inr (inl (h, m)) ↦ elim (Memᴰ.cases_cons m) [
        | inr later ↦ inr (inl (h, later))
        | inl same ↦
            let at : z ≡ a = ap (λ (q : ℕ × Header). q.0) same in
            let read : some (free_at i) ≡ some (free_at k) =
              sym e ∙ (ap b.header at ∙ (valid.loose_headers a (free_at k) (Memᴰ.head refl)).0) in
            let level : i ≡ k = ap (λ (h : Header). h.order) (some-injective _ _ read) in
            inl (
              omega (arith, level, is_small),
              subst (λ (y : ℕ). Memᴰ y (buddy_add k a b.free_lists i)) (sym at)
                  (subst (λ (j : ℕ). Memᴰ a (buddy_add k a b.free_lists j)) (sym level)
                    (Mem-added k a b.free_lists)),
            )
      ]
      | inr (inr s) ↦ inr (
          inr (record {
            upper = s.upper;
            around = s.around;
            level = s.level;
            live = Live-listed s.around s.level s.live;
            inner = s.inner;
          }))
    ];
  }
