-- ===== src/Buddy/Start.antt =====
-- What `kmem_buddy_init` makes of an empty pool, block by block.
use munt3os.Base.{
  ℕ, zero, suc, ◌+◌, ◌*◌, ◌/◌, ◌%◌, ◌^◌, ◌≤◌, ◌<◌, ◌≡◌, refl, sym, ap, ◌∙◌, ◌≢◌, inl, inr, none,
  some, [], ◌∷◌, arith, ℕ_discrete, leb, leb→le, Bool-cases,
}
use mathlib.Core.List.{Memᴰ}
use mathlib.Core.List.Memᴰ
use mathlib.Core.Path.{subst}
use munt3os.Buddy.{
  Header, Buddy, block_size, max_order, buddy_add, put_header, init_order, init_from,
  kmem_buddy_init,
}
use munt3os.Buddy.Blocks.{in_block_self, cover-member}
use munt3os.Buddy.Cover.{in_block, cover-empty, size-pow}
use munt3os.Buddy.Init.{
  in_pool, init_order_le, init_order_fits, behind, left, left_rounds, left_no_wrap,
}
use munt3os.Buddy.Valid.{held, free_at, IsValid}
use munt3os.Buddy.Moves.{list-IsValid}
use munt3os.Buddy.Shapes.{put_here, put_other}

-- The pool is given another size that has as many whole units.
resize-IsValid :
    (b : Buddy) (s : ℕ)
    → ((x : ℕ) → in_pool x b.pool_start s ≡ in_pool x b.pool_start b.pool_size)
    → b.pool_start + b.pool_size < 2 ^ 64
    → IsValid (record b { pool_size = s }) []
    → IsValid b []
resize-IsValid b s same no_wrap valid = record {
  no_wrap = no_wrap;
  once = λ x. valid.once x ∙ same x;
  free_headers = valid.free_headers;
  loose_headers = valid.loose_headers;
  truth = λ z k e. elim (valid.truth z k e) [
    | inl free ↦ inl free
    | inr (inl (h, m)) ↦ absurd (Memᴰ.not-nil m)
    | inr (inr old) ↦ inr (
        inr (record {
          upper = old.upper;
          around = old.around;
          level = old.level;
          live = old.live;
          inner = old.inner;
        }))
  ];
}

-- A block gets its header at the end of what is already cut.
module _ (b : Buddy) (k : ℕ) (valid : IsValid b []) (units : b.pool_size % 64 ≡ 0)
    (small : k ≤ max_order) (no_wrap : b.pool_start + b.pool_size + block_size k < 2 ^ 64) where
  abbrev end : ℕ
  end = b.pool_start + b.pool_size

  abbrev grown : Buddy
  grown = record b {
    pool_size = b.pool_size + block_size k;
    header = put_header end (some (free_at k)) b.header;
  }

  pool_grown :
      (x : ℕ)
      → in_pool x b.pool_start b.pool_size + in_block x end k
        ≡ in_pool x b.pool_start (b.pool_size + block_size k)
  pool_grown x =
      let whole : (b.pool_size + block_size k) / 64 * 64 ≡ b.pool_size + block_size k =
        omega (arith, units, size-pow k) in
      let before : b.pool_size / 64 * 64 ≡ b.pool_size = omega (arith, units) in
      ground (arith, whole, before)

  free_inside : (z i : ℕ) → i ≤ max_order → Memᴰ z (b.free_lists i) → z ≢ end
  free_inside z i low m at =
      let pool : 1 ≤ in_pool z b.pool_start b.pool_size =
        omega (arith, valid.once z, cover-member i z b.free_lists z low m, in_block_self z i) in
      ground (arith, pool, at, units)

  grown-IsValid : IsValid grown ((end, free_at k) ∷ [])
  unfolding held
  grown-IsValid = record {
    no_wrap = omega (arith, no_wrap);
    once = λ x. omega (arith, valid.once x, pool_grown x);
    free_headers = λ z i low m.
        put_other end b.header _ z (free_inside z i low m) ∙ valid.free_headers z i low m;
    loose_headers = λ z h m.
        let same = Memᴰ.eq_of_singleton m in
        (
          ap grown.header (ap (λ (q : ℕ × Header). q.0) same)
              ∙ (put_here end b.header _ ∙ ap (λ (q : ℕ × Header). some q.1) (sym same)),
          omega (arith, ap (λ (q : ℕ × Header). q.1.order) same, small),
        );
    truth = λ z i e. elim (ℕ_discrete z end) [
      | yes at ↦ inr (inl (free_at k, Memᴰ.head (ap (λ (y : ℕ). (y, free_at k)) at)))
      | no other ↦ elim (valid.truth z i (sym (put_other end b.header _ z other) ∙ e)) [
        | inl free ↦ inl free
        | inr (inl (h, m)) ↦ absurd (Memᴰ.not-nil m)
        | inr (inr old) ↦ inr (
            inr (record {
              upper = old.upper;
              around = old.around;
              level = old.level;
              live = elim old.live [ inl free ↦ inl free | inr (f, m) ↦ absurd (Memᴰ.not-nil m) ];
              inner = old.inner;
            }))
      ]
    ];
  }

  pub cut-IsValid : IsValid (record grown { free_lists = buddy_add k end b.free_lists }) []
  cut-IsValid = list-IsValid grown [] end k grown-IsValid

-- The rest of the pool, from `a` on, is left; `cut` bytes of it are done.
init_from-IsValid :
    (n a remaining cut : ℕ) (b : Buddy)
    → remaining / 64 ≤ n
    → a + remaining < 2 ^ 64
    → a ≡ b.pool_start + cut
    → cut % 64 ≡ 0
    → b.pool_size ≡ cut + remaining
    → IsValid (record b { pool_size = cut }) []
    → IsValid (init_from n a remaining b) []
unfolding init_from
init_from-IsValid zero a remaining cut b rounds no_wrap place units size valid =
    let same : b.pool_size / 64 ≡ cut / 64 = omega (arith, rounds, units, size) in
    resize-IsValid b cut (λ x. ground (arith, same)) (omega (arith, no_wrap, place, size)) valid
init_from-IsValid (suc n) a remaining cut b rounds no_wrap place units size valid =
    elim (Bool-cases (leb (block_size 0) remaining)) [
      | inr less ↦
          let same : b.pool_size / 64 ≡ cut / 64 = ground (arith, less, units, size) in
          rw (init_from, less)
            (resize-IsValid b cut (λ x. ground (arith, same)) (omega (arith, no_wrap, place, size))
              valid)
      | inl more ↦
          let order = init_order max_order a remaining in
          let fits = init_order_fits max_order a remaining (leb→le 64 remaining more) in
          let bytes = block_size order in
          let one =
            cut-IsValid (record b { pool_size = cut }) order valid units
              (init_order_le max_order a remaining) (omega (arith, place, fits, no_wrap)) in
          let next : Buddy = record b {
            free_lists = buddy_add order a b.free_lists;
            header = put_header a (some (free_at order)) b.header;
          } in
          rw (init_from, more)
            (init_from-IsValid n _ _ (cut + bytes) next
              (left_rounds order a remaining fits no_wrap n rounds)
              (left_no_wrap order a remaining fits no_wrap)
              (behind order a remaining fits no_wrap ∙ omega (arith, place))
              (omega (arith, units, size-pow order))
              (omega (arith, size, fits, left order a remaining fits no_wrap))
              (subst
                (λ (y : ℕ).
                  IsValid
                    (record b {
                      pool_size = cut + bytes;
                      free_lists = buddy_add order y b.free_lists;
                      header = put_header y (some (free_at order)) b.header;
                    })
                    [])
                (sym place) one))
    ]

-- No header lies in the pool before.
pub kmem_buddy_init-IsValid :
    (start size : ℕ) → start + size < 2 ^ 64 → IsValid (kmem_buddy_init start size (λ a. none)) []
unfolding kmem_buddy_init held
kmem_buddy_init-IsValid start size no_wrap =
    init_from-IsValid (size / 64) start size 0 _ (omega arith) no_wrap (omega arith) refl
      (omega arith)
      (record {
        no_wrap = omega (arith, no_wrap);
        once = λ x.
            let none_in : in_pool x start 0 ≡ 0 = ground arith in
            omega (arith, cover-empty 19 x, none_in);
        free_headers = λ z k low m. absurd (Memᴰ.not-nil m);
        loose_headers = λ z h m. absurd (Memᴰ.not-nil m);
        truth = λ z k e. cc;
      })
