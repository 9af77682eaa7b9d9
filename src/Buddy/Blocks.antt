-- ===== src/Buddy/Blocks.antt =====
-- The members of the free lists, and what they cover.
use munt3os.Base.{
  ℕ, zero, suc, ◌+◌, ◌≤◌, ◌<◌, ◌≡◌, refl, sym, ap, ◌∙◌, ◌≢◌, ◌⊎◌, inl, inr, Bool, List, [], ◌∷◌,
  arith, ℕ_discrete, ◌==◌, if◌then◌else◌, ==_iff, ==_refl, Bool-cases,
}
use mathlib.Core.List.{Memᴰ}
use mathlib.Core.List.Memᴰ
use mathlib.Core.Path.{subst}
use munt3os.Buddy.{block_size, max_order, buddy_add, buddy_remove, without}
use munt3os.Buddy.Cover.{
  in_block, cover_list, cover_below, cover, cover-change, other_list, size-pow, pow_positive,
}

pub size_positive : (k : ℕ) → 0 < block_size k
size_positive k = omega (arith, size-pow k, pow_positive k)

pub in_block_self : (a k : ℕ) → in_block a a k ≡ 1
in_block_self a k = ground (arith, size_positive k)

pub Mem-without : (z a : ℕ) (l : List ℕ) → z ≢ a → Memᴰ z l → Memᴰ z (without a l)
unfolding without
Mem-without z a [] ne m = m
Mem-without z a (b ∷ bs) ne m = elim (Bool-cases (b == a)) [
  | inl here ↦ rw here (elim (Memᴰ.cases_cons m) [
    | inl same ↦ absurd (ne (same ∙ (==_iff b a).0 here))
    | inr rest ↦ rest
  ])
  | inr there ↦ rw there (elim (Memᴰ.cases_cons m) [
    | inl same ↦ Memᴰ.head same
    | inr rest ↦ Memᴰ.tail (Mem-without z a bs ne rest)
  ])
]

pub Mem-of_without : (z a : ℕ) (l : List ℕ) → Memᴰ z (without a l) → Memᴰ z l
unfolding without
Mem-of_without z a [] m = m
Mem-of_without z a (b ∷ bs) m = elim (Bool-cases (b == a)) [
  | inl here ↦ Memᴰ.tail (subst (λ (c : Bool). Memᴰ z (if c then bs else b ∷ without a bs)) here m)
  | inr there ↦
      let n : Memᴰ z (b ∷ without a bs) =
        subst (λ (c : Bool). Memᴰ z (if c then bs else b ∷ without a bs)) there m in
      elim (Memᴰ.cases_cons n) [
        | inl same ↦ Memᴰ.head same
        | inr rest ↦ Memᴰ.tail (Mem-of_without z a bs rest)
      ]
]

cover_list-without :
    (x k a : ℕ) (l : List ℕ)
    → Memᴰ a l
    → cover_list x k (without a l) + in_block x a k ≡ cover_list x k l
unfolding without cover_list
cover_list-without x k a [] m = absurd (Memᴰ.not-nil m)
cover_list-without x k a (b ∷ bs) m = elim (Bool-cases (b == a)) [
  | inl here ↦
      let same : in_block x b k ≡ in_block x a k =
        ap (λ (c : ℕ). in_block x c k) ((==_iff b a).0 here) in
      rw here (omega (arith, same))
  | inr there ↦ elim (Memᴰ.cases_cons m) [
    | inl same ↦ absurd (ground (arith, same, there))
    | inr rest ↦ rw there (omega (arith, cover_list-without x k a bs rest))
  ]
]

cover_list-member : (x k a : ℕ) (l : List ℕ) → Memᴰ a l → in_block x a k ≤ cover_list x k l
cover_list-member x k a l m = omega (arith, cover_list-without x k a l m)

cover_below-list :
    (n x k : ℕ) (lists : ℕ → List ℕ) → k < n → cover_list x k (lists k) ≤ cover_below n x lists
unfolding cover_below
cover_below-list zero x k lists h = absurd (omega (arith, h))
cover_below-list (suc n) x k lists h = elim (ℕ_discrete k n) [
  | yes last ↦ omega (arith, ap (λ (i : ℕ). cover_list x i (lists i)) last)
  | no other ↦ omega (arith, cover_below-list n x k lists (omega (arith, h, other)))
]

module _ (k a : ℕ) (lists : ℕ → List ℕ) where
  remove_here : buddy_remove k a lists k ≡ without a (lists k)
  unfolding buddy_remove
  remove_here = rw (buddy_remove, ==_refl k)

  remove_other : (i : ℕ) → i ≢ k → buddy_remove k a lists i ≡ lists i
  unfolding buddy_remove
  remove_other i ne = rw (buddy_remove, other_list k i ne)

  add_here : buddy_add k a lists k ≡ a ∷ lists k
  unfolding buddy_add
  add_here = rw (buddy_add, ==_refl k)

  add_other : (i : ℕ) → i ≢ k → buddy_add k a lists i ≡ lists i
  unfolding buddy_add
  add_other i ne = rw (buddy_add, other_list k i ne)

  pub cover-member : (x : ℕ) → k ≤ max_order → Memᴰ a (lists k) → in_block x a k ≤ cover x lists
  cover-member x small m = omega (
    arith,
    cover_list-member x k a (lists k) m,
    cover_below-list 19 x k lists (omega (arith, small)),
  )

  pub cover-remove :
      (x : ℕ)
      → k ≤ max_order
      → Memᴰ a (lists k)
      → cover x (buddy_remove k a lists) + in_block x a k ≡ cover x lists
  cover-remove x small m = omega (
    arith,
    cover-change x k lists (buddy_remove k a lists) remove_other 19 (omega (arith, small)),
    ap (cover_list x k) remove_here,
    cover_list-without x k a (lists k) m,
  )

  pub Mem-remove :
      (z i : ℕ) → (z ≢ a) ⊎ (i ≢ k) → Memᴰ z (lists i) → Memᴰ z (buddy_remove k a lists i)
  Mem-remove z i differ m = elim (ℕ_discrete i k) [
    | no other ↦ subst (Memᴰ z) (sym (remove_other i other)) m
    | yes same ↦ elim differ [
      | inr other ↦ absurd (other same)
      | inl ne ↦
          subst (λ (j : ℕ). Memᴰ z (buddy_remove k a lists j)) (sym same)
            (subst (Memᴰ z) (sym remove_here)
              (Mem-without z a (lists k) ne (subst (λ (j : ℕ). Memᴰ z (lists j)) same m)))
    ]
  ]

  pub Mem-removed : (z i : ℕ) → Memᴰ z (buddy_remove k a lists i) → Memᴰ z (lists i)
  Mem-removed z i m = elim (ℕ_discrete i k) [
    | no other ↦ subst (Memᴰ z) (remove_other i other) m
    | yes same ↦
        subst (λ (j : ℕ). Memᴰ z (lists j)) (sym same)
          (Mem-of_without z a (lists k) (
            subst (Memᴰ z) remove_here
              (subst (λ (j : ℕ). Memᴰ z (buddy_remove k a lists j)) same m)))
  ]

  pub Mem-added : Memᴰ a (buddy_add k a lists k)
  Mem-added = subst (Memᴰ a) (sym add_here) (Memᴰ.head refl)

  pub Mem-add : (z i : ℕ) → Memᴰ z (lists i) → Memᴰ z (buddy_add k a lists i)
  Mem-add z i m = elim (ℕ_discrete i k) [
    | no other ↦ subst (Memᴰ z) (sym (add_other i other)) m
    | yes same ↦
        subst (λ (j : ℕ). Memᴰ z (buddy_add k a lists j)) (sym same)
          (subst (Memᴰ z) (sym add_here) (Memᴰ.tail (subst (λ (j : ℕ). Memᴰ z (lists j)) same m)))
  ]

  pub Mem-add_cases :
      (z i : ℕ) → Memᴰ z (buddy_add k a lists i) → ((z ≡ a) × (i ≡ k)) ⊎ Memᴰ z (lists i)
  Mem-add_cases z i m = elim (ℕ_discrete i k) [
    | no other ↦ inr (subst (Memᴰ z) (add_other i other) m)
    | yes same ↦
        elim (Memᴰ.cases_cons
          (subst (Memᴰ z) add_here (subst (λ (j : ℕ). Memᴰ z (buddy_add k a lists j)) same m))) [
            | inl e ↦ inl (e, same)
            | inr rest ↦ inr (subst (λ (j : ℕ). Memᴰ z (lists j)) (sym same) rest)
          ]
  ]
