-- ===== src/Buddy/Halves.antt =====
-- The halving of a block in hand, and the joining of two, each as a step of the state.
use munt3os.Base.{
  ℕ, suc, ◌+◌, ◌≤◌, ◌≡◌, refl, sym, ap, ap₂, ◌∙◌, ◌≢◌, inl, inr, Bool, Option, some, [], ◌∷◌, arith,
}
use mathlib.Core.List.{Memᴰ}
use mathlib.Core.List.Memᴰ
use mathlib.Core.Option.{some-injective}
use mathlib.Core.Path.{subst}
use munt3os.Buddy.{Header, Buddy, block_size, max_order, put_header, put_order}
use munt3os.Buddy.Blocks.{size_positive}
use munt3os.Buddy.Cover.{in_block, in_block-halves}
use munt3os.Buddy.Valid.{
  Loose, held, free_at, buddy_at, Inner, inner_here, inner_low, inner_high, Inner-cases, IsValid,
}
use munt3os.Buddy.Reshape.{Inside, Missing, reshape-IsValid}
use munt3os.Buddy.Shapes.{put_here, put_other, put_order_here}

abbrev pub at_order : Bool → ℕ → Header
at_order f k = record { is_free = f; order = k }

-- A block in hand is cut, and its upper half gets a header.
module _ (b : Buddy) (loose : Loose) (a k : ℕ) (f : Bool)
    (valid : IsValid b ((a, at_order f (suc k)) ∷ loose)) where
  abbrev upper : ℕ
  upper = a + block_size k

  abbrev first_put : ℕ → Option Header
  first_put = put_header upper (some (free_at k)) b.header

  abbrev cut_header : ℕ → Option Header
  cut_header = put_order a k first_put

  abbrev halves : Loose
  halves = (upper, free_at k) ∷ (a, at_order f k) ∷ []

  apart : a ≢ upper
  apart e = omega (arith, e, size_positive k)

  cut_upper : cut_header upper ≡ some (free_at k)
  cut_upper = put_other a first_put _ upper (λ e. apart (sym e)) ∙ put_here upper b.header _

  cut_lower : cut_header a ≡ some (at_order f k)
  cut_lower = put_order_here a first_put (at_order f (suc k)) k (
      put_other upper b.header _ a apart
      ∙ (valid.loose_headers a (at_order f (suc k)) (Memᴰ.head refl)).0)

  cut_untouched : (z : ℕ) → Missing halves z → cut_header z ≡ b.header z
  cut_untouched z missing =
      put_other a first_put _ z
        (λ e. missing (at_order f k) (Memᴰ.tail (Memᴰ.head (ap (λ (y : ℕ). (y, at_order f k)) e))))
      ∙ put_other upper b.header _ z
          (λ e. missing (free_at k) (Memᴰ.head (ap (λ (y : ℕ). (y, free_at k)) e)))

  cut_placed :
      (z : ℕ) (h : Header) → Memᴰ (z, h) halves → (cut_header z ≡ some h) × (h.order ≤ max_order)
  cut_placed z h m =
      let small = (valid.loose_headers a (at_order f (suc k)) (Memᴰ.head refl)).1 in
      elim (Memᴰ.cases_cons m) [
        | inl same ↦ (
          ap cut_header (ap (λ (q : ℕ × Header). q.0) same)
              ∙ (cut_upper ∙ ap (λ (q : ℕ × Header). some q.1) (sym same)),
          omega (arith, ap (λ (q : ℕ × Header). q.1.order) same, small),
        )
        | inr n ↦
            let same = Memᴰ.eq_of_singleton n in
            (
              ap cut_header (ap (λ (q : ℕ × Header). q.0) same)
                  ∙ (cut_lower ∙ ap (λ (q : ℕ × Header). some q.1) (sym same)),
              omega (arith, ap (λ (q : ℕ × Header). q.1.order) same, small),
            )
      ]

  cut_kept :
      (z j : ℕ) → Missing halves z → Inside ((a, at_order f (suc k)) ∷ []) z j → Inside halves z j
  cut_kept z j missing i =
      let whole : Inner z j a (suc k) =
        subst (λ (q : ℕ × Header). Inner z j q.0 q.1.order) (Memᴰ.eq_of_singleton i.member)
          i.inner in
      elim (Inner-cases k refl whole) [
        | inl (e, level) ↦
            absurd (missing (free_at k) (Memᴰ.head (ap (λ (y : ℕ). (y, free_at k)) e)))
        | inr (inl low) ↦ record {
          block = a;
          head = at_order f k;
          member = Memᴰ.tail (Memᴰ.head refl);
          inner = low;
        }
        | inr (inr high) ↦ record {
          block = upper;
          head = free_at k;
          member = Memᴰ.head refl;
          inner = high;
        }
      ]

  pub cut-IsValid :
      IsValid (record b { header = cut_header }) ((upper, free_at k) ∷ (a, at_order f k) ∷ loose)
  unfolding held
  cut-IsValid =
      reshape-IsValid b cut_header ((a, at_order f (suc k)) ∷ []) halves loose valid (record {
        same_cover = λ x. omega (arith, in_block-halves x a k);
        untouched = cut_untouched;
        placed = cut_placed;
        left = λ z j h missing m e. absurd (
            missing (at_order f k) (
              Memᴰ.tail (
                Memᴰ.head
                  (ap (λ (q : ℕ × Header). (q.0, at_order f k)) (Memᴰ.eq_of_singleton m)))));
        kept = cut_kept;
      })

-- Two blocks in hand are joined: the lower one gets the next order.
module _ (b : Buddy) (loose : Loose) (low high k : ℕ) (f g : Bool)
    (valid : IsValid b ((low, at_order f k) ∷ (high, at_order g k) ∷ loose))
    (beside : high ≡ low + block_size k) (paired : low ≡ buddy_at b.pool_start high k)
    (small : suc k ≤ max_order) where
  abbrev join_header : ℕ → Option Header
  join_header = put_order low (suc k) b.header

  abbrev pair : Loose
  pair = (low, at_order f k) ∷ (high, at_order g k) ∷ []

  abbrev joined : Loose
  joined = (low, at_order f (suc k)) ∷ []

  join_cover : (x : ℕ) → held x joined ≡ held x pair
  unfolding held
  join_cover x = omega (arith, in_block-halves x low k, ap (λ (y : ℕ). in_block x y k) beside)

  not_low : (z : ℕ) → Missing joined z → z ≢ low
  not_low z missing e =
      missing (at_order f (suc k)) (Memᴰ.head (ap (λ (y : ℕ). (y, at_order f (suc k))) e))

  join_low : join_header low ≡ some (at_order f (suc k))
  join_low =
      put_order_here low b.header (at_order f k) (suc k)
        (valid.loose_headers low (at_order f k) (Memᴰ.head refl)).0

  join_left :
      (z j : ℕ) (h : Header)
      → Missing joined z
      → Memᴰ (z, h) pair
      → join_header z ≡ some (free_at j)
      → (z ≡ buddy_at b.pool_start z j + block_size j) × Inside joined z j
  join_left z j h missing m e = elim (Memᴰ.cases_cons m) [
    | inl same ↦ absurd (not_low z missing (ap (λ (q : ℕ × Header). q.0) same))
    | inr n ↦
        let at : z ≡ high = ap (λ (q : ℕ × Header). q.0) (Memᴰ.eq_of_singleton n) in
        let read : some (free_at j) ≡ some (at_order g k) =
          sym e
          ∙ (put_other low b.header _ z (not_low z missing)
              ∙ (ap b.header at
                  ∙ (valid.loose_headers high (at_order g k) (Memᴰ.tail (Memᴰ.head refl))).0)) in
        let level : j ≡ k = ap (λ (h : Header). h.order) (some-injective _ _ read) in
        (
          at
              ∙ (beside
                  ∙ (ap (λ (y : ℕ). y + block_size k) paired
                      ∙ ap₂ (λ (y i : ℕ). buddy_at b.pool_start y i + block_size i) (sym at)
                          (sym level))),
          record {
            block = low;
            head = at_order f (suc k);
            member = Memᴰ.head refl;
            inner =
                inner_here (at ∙ (beside ∙ ap (λ (i : ℕ). low + block_size i) (sym level)))
                  (ap (λ (i : ℕ). suc i) (sym level));
          },
        )
  ]

  join_kept : (z j : ℕ) → Missing joined z → Inside pair z j → Inside joined z j
  join_kept z j missing i = record {
    block = low;
    head = at_order f (suc k);
    member = Memᴰ.head refl;
    inner = elim (Memᴰ.cases_cons i.member) [
      | inl same ↦ inner_low refl (subst (λ (q : ℕ × Header). Inner z j q.0 q.1.order) same i.inner)
      | inr n ↦
          inner_high beside refl
            (subst (λ (q : ℕ × Header). Inner z j q.0 q.1.order) (Memᴰ.eq_of_singleton n) i.inner)
    ];
  }

  pub join-IsValid : IsValid (record b { header = join_header }) ((low, at_order f (suc k)) ∷ loose)
  join-IsValid = reshape-IsValid b join_header pair joined loose valid (record {
    same_cover = join_cover;
    untouched = λ z missing. put_other low b.header _ z (not_low z missing);
    placed = λ z h m.
        let same = Memᴰ.eq_of_singleton m in
        (
          ap join_header (ap (λ (q : ℕ × Header). q.0) same)
              ∙ (join_low ∙ ap (λ (q : ℕ × Header). some q.1) (sym same)),
          omega (arith, ap (λ (q : ℕ × Header). q.1.order) same, small),
        );
    left = join_left;
    kept = join_kept;
  })
