-- ===== src/Buddy/Shapes.antt =====
-- The writes to headers, the halving of a block and the joining of two, each as a step of the state.
use munt3os.Base.{
  ℕ, ◌+◌, ◌≡◌, refl, sym, ap, ◌∙◌, ◌≢◌, inl, inr, Bool, Option, some, [], ◌∷◌, arith, ==_refl,
}
use mathlib.Core.List.{Memᴰ}
use mathlib.Core.List.Memᴰ
use mathlib.Core.Path.{subst}
use munt3os.Buddy.{Header, Buddy, put_header, put_order, put_free}
use munt3os.Buddy.Cover.{cover, other_list}
use munt3os.Buddy.Valid.{Loose, held, Inner, IsValid}
use munt3os.Buddy.Reshape.{Missing, reshape-IsValid}

module _ (a : ℕ) (header : ℕ → Option Header) where
  pub put_here : (x : Option Header) → put_header a x header a ≡ x
  put_here x = rw (==_refl a)

  pub put_other : (x : Option Header) (i : ℕ) → i ≢ a → put_header a x header i ≡ header i
  put_other x i ne = rw (other_list a i ne)

  pub put_order_here :
      (h : Header) (order : ℕ)
      → header a ≡ some h
      → put_order a order header a ≡ some (record h { order = order })
  put_order_here h order e = rw (==_refl a, e)

  put_free_here :
      (h : Header) (f : Bool)
      → header a ≡ some h
      → put_free a f header a ≡ some (record h { is_free = f })
  put_free_here h f e = rw (==_refl a, e)

-- The same blocks in another order.
pub reorder-IsValid :
    (b : Buddy) (s t : Loose)
    → ((x : ℕ) → held x t ≡ held x s)
    → ((r : ℕ × Header) → Memᴰ r s → Memᴰ r t)
    → ((r : ℕ × Header) → Memᴰ r t → Memᴰ r s)
    → IsValid b s
    → IsValid b t
reorder-IsValid b s t same into back valid = record {
  no_wrap = valid.no_wrap;
  once = λ x. ap (λ (n : ℕ). cover x b.free_lists + n) (same x) ∙ valid.once x;
  free_headers = valid.free_headers;
  loose_headers = λ z h m. valid.loose_headers z h (back (z, h) m);
  truth = λ z k e. elim (valid.truth z k e) [
    | inl free ↦ inl free
    | inr (inl (h, m)) ↦ inr (inl (h, into (z, h) m))
    | inr (inr old) ↦ inr (
        inr (record {
          upper = old.upper;
          around = old.around;
          level = old.level;
          live = elim old.live [ inl free ↦ inl free | inr (f, m) ↦ inr (f, into _ m) ];
          inner = old.inner;
        }))
  ];
}

swap_members :
    (p q : ℕ × Header) (loose : Loose) (r : ℕ × Header)
    → Memᴰ r (p ∷ q ∷ loose)
    → Memᴰ r (q ∷ p ∷ loose)
swap_members p q loose r m = elim (Memᴰ.cases_cons m) [
  | inl first ↦ Memᴰ.tail (Memᴰ.head first)
  | inr n ↦ elim (Memᴰ.cases_cons n) [
    | inl second ↦ Memᴰ.head second
    | inr rest ↦ Memᴰ.tail (Memᴰ.tail rest)
  ]
]

pub swap-IsValid :
    (b : Buddy) (p q : ℕ × Header) (loose : Loose)
    → IsValid b (p ∷ q ∷ loose)
    → IsValid b (q ∷ p ∷ loose)
unfolding held
swap-IsValid b p q loose valid =
    reorder-IsValid b (p ∷ q ∷ loose) (q ∷ p ∷ loose) (λ x. omega arith) (swap_members p q loose)
      (swap_members q p loose) valid

-- `is_free` of a block in hand is written.
pub free-IsValid :
    (b : Buddy) (loose : Loose) (a : ℕ) (h : Header) (f : Bool)
    → IsValid b ((a, h) ∷ loose)
    → IsValid (record b { header = put_free a f b.header }) ((a, record h { is_free = f }) ∷ loose)
unfolding held
free-IsValid b loose a h f valid =
    let read = valid.loose_headers a h (Memᴰ.head refl) in
    let missing : (z : ℕ) → Missing ((a, record h { is_free = f }) ∷ []) z → z ≢ a =
      λ z none_at at. none_at _ (Memᴰ.head (ap (λ (y : ℕ). (y, record h { is_free = f })) at)) in
    reshape-IsValid b (put_free a f b.header) ((a, h) ∷ []) ((a, record h { is_free = f }) ∷ [])
      loose valid
      (record {
        same_cover = λ x. refl;
        untouched = λ z none_at. put_other a b.header _ z (missing z none_at);
        placed = λ z i m.
            let same = Memᴰ.eq_of_singleton m in
            (
              ap (put_free a f b.header) (ap (λ (q : ℕ × Header). q.0) same)
                  ∙ (put_free_here a b.header h f read.0
                      ∙ ap (λ (q : ℕ × Header). some q.1) (sym same)),
              omega (arith, ap (λ (q : ℕ × Header). q.1.order) same, read.1),
            );
        left = λ z k i none_at m e.
            absurd (missing z none_at (ap (λ (q : ℕ × Header). q.0) (Memᴰ.eq_of_singleton m)));
        kept = λ z k none_at i.
            let same = Memᴰ.eq_of_singleton i.member in
            record {
              block = a;
              head = record h { is_free = f };
              member = Memᴰ.head refl;
              inner = subst (λ (q : ℕ × Header). Inner z k q.0 q.1.order) same i.inner;
            };
      })
