-- ===== src/Heap/Freeing.antt =====
-- The blocks and the statistics after the block at an address is freed.
use munt3os.Base.{
  ℕ, ◌+◌, ◌^◌, ◌≤◌, ◌<◌, ◌≡◌, refl, sym, ap, ◌∙◌, inl, inr, Bool, true, false, not, ◌&&◌, some,
  List, [], ◌∷◌, arith, ◌==◌, if◌then◌else◌, ==_iff, Bool-cases, length, add_u64, sub_u64,
}
use mathlib.Core.Path.{subst}
use mathlib.Core.Option.{some-injective, none-ne-some}
use munt3os.Heap.{
  Block, Stat, find_block, merged, joined, merge_next, merge_prev, free_block, header_size,
}
use munt3os.Heap.Account.{Tiled, Apart, free_bytes}
use munt3os.Heap.Restore.{FirstFree}

-- The bytes of the headers and of the used blocks.
unfoldable pub used_bytes : List Block → ℕ
used_bytes [] = 0
used_bytes (b ∷ bs) = header_size + ((if b.is_free then 0 else b.size) + used_bytes bs)

-- The statistics of the part `bs` of all blocks fit `st`.
pub record Within (bs : List Block) (st : Stat) : Type 0 where
  pub used : used_bytes bs ≤ st.used_size
  pub count : length bs ≤ st.block_count
  pub no_wrap : st.used_size + st.free_size < 2 ^ 64
  pub count_no_wrap : st.block_count < 2 ^ 64

-- The blocks from `x` to `e` go from `bs` to `rs`, and the statistics with them, when the one at `a` is
-- freed; `p` says whether the block before them is free.
pub record Freed (a x e : ℕ) (p : Bool) (bs : List Block) (st : Stat) (rs : List Block) (st' : Stat)
    : Type 0 where
  pub tiled : Tiled x rs e
  pub apart : Apart (p && not (x == a)) rs
  pub first : FirstFree a rs
  pub some_block : 0 < length rs
  pub free : st'.free_size + free_bytes bs ≡ st.free_size + free_bytes rs
  pub used : st'.used_size + used_bytes bs ≡ st.used_size + used_bytes rs
  pub both : st'.used_size + st'.free_size ≡ st.used_size + st.free_size
  pub count : st'.block_count + length bs ≡ st.block_count + length rs
  pub fewer : st'.block_count ≤ st.block_count
  pub total : st'.total_size ≡ st.total_size
  pub on : st'.initialized ≡ st.initialized

Tiled-above : (a e : ℕ) (bs : List Block) → Tiled a bs e → a ≤ e
Tiled-above a e [] tiled = omega (arith, tiled)
Tiled-above a e (b ∷ bs) tiled =
    omega (arith, Tiled-above (a + (header_size + b.size)) e bs tiled.1)

abbrev released : Stat → ℕ → Stat
released st n = record st { free_size = add_u64 st.free_size n; used_size = sub_u64 st.used_size n }

merge_next-Freed :
    (a x e : ℕ) (p : Bool) (b : Block) (bs : List Block) (st : Stat)
    → b.address ≡ a
    → b.is_free ≡ false
    → Tiled x (b ∷ bs) e
    → e < x + 2 ^ 64
    → Apart p (b ∷ bs)
    → Within (b ∷ bs) st
    → let r = merge_next (record b { is_free = true }) bs (released st b.size) in
      Freed a x e p (b ∷ bs) st r.0 r.1
unfolding merge_next free_bytes used_bytes
merge_next-Freed a x e p b [] st at used tiled small apart w = record {
  tiled = tiled;
  apart = (ground (arith, tiled.0, at), tt);
  first = λ h. refl;
  some_block = omega arith;
  free = ground (arith, w.used, w.no_wrap, used);
  used = ground (arith, w.used, w.no_wrap, used);
  both = ground (arith, w.used, w.no_wrap, used);
  count = refl;
  fewer = omega arith;
  total = refl;
  on = refl;
}
merge_next-Freed a x e p b (c ∷ cs) st at used tiled small apart w =
    let b' : Block = record b { is_free = true } in
    let st1 = released st b.size in
    let long = Tiled-above (x + (header_size + b.size) + (header_size + c.size)) e cs tiled.1.1 in
    let here : (x == a) ≡ true = (==_iff x a).1 (sym tiled.0 ∙ at) in
    let alone : (p && not (x == a)) && true ≡ false = ground (arith, here) in
    elim (Bool-cases c.is_free) [
      | inl free ↦
          let eq : merge_next b' (c ∷ cs) st1 ≡ (joined b' c ∷ cs, merged st1) =
            rw (merge_next, free) refl in
          subst (λ (r : List Block × Stat). Freed a x e p (b ∷ c ∷ cs) st r.0 r.1) (sym eq)
            (record {
              tiled =
                  (tiled.0, subst (λ (y : ℕ). Tiled y cs e) (omega (arith, small, long)) tiled.1.1);
              apart = (alone, subst (λ (f : Bool). Apart f cs) free apart.1.1);
              first = λ h. refl;
              some_block = omega arith;
              free = ground (arith, w.used, w.no_wrap, used, free, small, long);
              used = ground (arith, w.used, w.no_wrap, used, free, small, long);
              both = ground (arith, w.used, w.no_wrap, used, free, small, long);
              count = omega (arith, w.count, w.count_no_wrap);
              fewer = omega (arith, w.count, w.count_no_wrap);
              total = refl;
              on = refl;
            })
      | inr taken ↦
          let eq : merge_next b' (c ∷ cs) st1 ≡ (b' ∷ c ∷ cs, st1) = rw (merge_next, taken) refl in
          subst (λ (r : List Block × Stat). Freed a x e p (b ∷ c ∷ cs) st r.0 r.1) (sym eq)
            (record {
              tiled = tiled;
              apart = (alone, (ground (arith, taken), apart.1.1));
              first = λ h. refl;
              some_block = omega arith;
              free = ground (arith, w.used, w.no_wrap, used, taken);
              used = ground (arith, w.used, w.no_wrap, used, taken);
              both = ground (arith, w.used, w.no_wrap, used, taken);
              count = refl;
              fewer = omega arith;
              total = refl;
              on = refl;
            })
    ]

merge_prev-Freed :
    (a x e : ℕ) (p : Bool) (b : Block) (bs : List Block) (st : Stat) (rs : List Block) (st' : Stat)
    → b.address ≡ x
    → (b.address == a) ≡ false
    → e < x + 2 ^ 64
    → (p && b.is_free) ≡ false
    → Within (b ∷ bs) st
    → Freed a (x + (header_size + b.size)) e b.is_free bs st rs st'
    → let r = merge_prev a b rs st' in Freed a x e p (b ∷ bs) st r.0 r.1
unfolding merge_prev free_bytes used_bytes
merge_prev-Freed a x e p b bs st [] st' at other small apart w f =
    absurd (omega (arith, f.some_block))
merge_prev-Freed a x e p b bs st (c ∷ cs) st' at other small apart w f =
    let above = Tiled-above (x + (header_size + b.size) + (header_size + c.size)) e cs f.tiled.1 in
    let alone : ((p && not (x == a)) && b.is_free) ≡ false = ground (arith, apart) in
    elim (Bool-cases ((c.address == a) && b.is_free)) [
      | inl joins ↦
          let eq : merge_prev a b (c ∷ cs) st' ≡ (joined b c ∷ cs, merged st') =
            rw (merge_prev, joins) refl in
          let b_free : b.is_free ≡ true = ground (arith, joins) in
          let here : (c.address == a) ≡ true = ground (arith, joins) in
          let c_free : c.is_free ≡ true = f.first ((==_iff c.address a).0 here) in
          subst (λ (r : List Block × Stat). Freed a x e p (b ∷ bs) st r.0 r.1) (sym eq)
            (record {
              tiled = (at, subst (λ (y : ℕ). Tiled y cs e) (omega (arith, small, above)) f.tiled.1);
              apart = (alone, subst (λ (k : Bool). Apart k cs) (c_free ∙ sym b_free) f.apart.1);
              first = λ h. b_free;
              some_block = omega arith;
              free =
                  ground (
                    arith, w.used, w.no_wrap, f.used, f.free, f.both, b_free, c_free, small, above,
                  );
              used =
                  ground (arith, w.used, w.no_wrap, f.used, f.both, b_free, c_free, small, above);
              both = ground (arith, w.used, w.no_wrap, f.used, f.both, b_free, c_free);
              count = omega (arith, w.count, w.count_no_wrap, f.count, f.fewer);
              fewer = omega (arith, w.count, w.count_no_wrap, f.count, f.fewer);
              total = f.total;
              on = f.on;
            })
      | inr stays ↦
          let eq : merge_prev a b (c ∷ cs) st' ≡ (b ∷ c ∷ cs, st') = rw (merge_prev, stays) refl in
          subst (λ (r : List Block × Stat). Freed a x e p (b ∷ bs) st r.0 r.1) (sym eq)
            (record {
              tiled = (at, f.tiled);
              apart = (alone, (ground (arith, stays, f.apart.0, f.tiled.0), f.apart.1));
              first = λ h. absurd (ground (arith, h, other));
              some_block = omega arith;
              free = ground (arith, f.free);
              used = omega (arith, f.used);
              both = f.both;
              count = omega (arith, f.count);
              fewer = omega (arith, f.fewer);
              total = f.total;
              on = f.on;
            })
    ]

free_here :
    (a : ℕ) (b : Block) (bs : List Block) (st : Stat)
    → (b.address == a) ≡ true
    → free_block a (b ∷ bs) st ≡ merge_next (record b { is_free = true }) bs (released st b.size)
unfolding free_block
free_here a b bs st here = rw (free_block, here)

free_behind :
    (a : ℕ) (b : Block) (bs : List Block) (st : Stat)
    → (b.address == a) ≡ false
    → let r = free_block a bs st in free_block a (b ∷ bs) st ≡ merge_prev a b r.0 r.1
unfolding free_block
free_behind a b bs st other = rw (free_block, other)

find_here :
    (a : ℕ) (b : Block) (bs : List Block) → (b.address == a) ≡ true → find_block a (b ∷ bs) ≡ some b
unfolding find_block
find_here a b bs here = rw (find_block, here)

find_behind :
    (a : ℕ) (b : Block) (bs : List Block)
    → (b.address == a) ≡ false
    → find_block a (b ∷ bs) ≡ find_block a bs
unfolding find_block
find_behind a b bs other = rw (find_block, other)

pub free_block-Freed :
    (a x e : ℕ) (p : Bool) (bs : List Block) (st : Stat) (b : Block)
    → find_block a bs ≡ some b
    → b.is_free ≡ false
    → Tiled x bs e
    → e < x + 2 ^ 64
    → Apart p bs
    → Within bs st
    → let r = free_block a bs st in Freed a x e p bs st r.0 r.1
unfolding find_block used_bytes
free_block-Freed a x e p [] st b found used tiled small apart w = absurd (none-ne-some b found)
free_block-Freed a x e p (c ∷ cs) st b found used tiled small apart w =
    elim (Bool-cases (c.address == a)) [
      | inl here ↦
          let same : c ≡ b = some-injective _ _ (sym (find_here a c cs here) ∙ found) in
          subst (λ (r : List Block × Stat). Freed a x e p (c ∷ cs) st r.0 r.1)
            (sym (free_here a c cs st here))
            (merge_next-Freed a x e p c cs st ((==_iff c.address a).0 here)
              (ap (λ (d : Block). d.is_free) same ∙ used) tiled small apart w)
      | inr other ↦
          let below = Tiled-above (x + (header_size + c.size)) e cs tiled.1 in
          subst (λ (r : List Block × Stat). Freed a x e p (c ∷ cs) st r.0 r.1)
            (sym (free_behind a c cs st other))
            (merge_prev-Freed a x e p c cs st _ _ tiled.0 other small apart.0 w (
              free_block-Freed a (x + (header_size + c.size)) e c.is_free cs st b
                (sym (find_behind a c cs other) ∙ found) used tiled.1 (omega (arith, small)) apart.1
                (record {
                  used = ground (arith, w.used);
                  count = omega (arith, w.count);
                  no_wrap = w.no_wrap;
                  count_no_wrap = w.count_no_wrap;
                })))
    ]

-- The blocks take up all bytes between their ends.
pub Tiled-bytes :
    (a e : ℕ) (bs : List Block) → Tiled a bs e → a + (used_bytes bs + free_bytes bs) ≡ e
unfolding used_bytes free_bytes
Tiled-bytes a e [] tiled = omega (arith, tiled)
Tiled-bytes a e (b ∷ bs) tiled =
    ground (arith, Tiled-bytes (a + (header_size + b.size)) e bs tiled.1)
