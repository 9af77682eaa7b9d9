-- ===== src/Buddy/Reshape.antt =====
-- Loose blocks in hand take another shape: their headers are written, they are cut, or joined.
use munt3os.Base.{ℕ, ◌+◌, ◌≤◌, ◌≡◌, sym, ap, ◌∙◌, ◌⊎◌, inl, inr, Option, some, ◌++◌, arith}
use mathlib.Core.List.{Memᴰ}
use mathlib.Core.List.Memᴰ
use munt3os.Buddy.{Header, Buddy, block_size, max_order}
use munt3os.Buddy.Blocks.{in_block_self, cover-member}
use munt3os.Buddy.Cover.{cover}
use munt3os.Buddy.Valid.{
  Loose, held, free_at, buddy_at, Inner, Stale, Held, IsValid, held-append, held-member, in_pool_le,
  Held-cases,
}

-- One of the blocks has, inside it, an upper half of order `k` at `z`.
pub record Inside (s : Loose) (z k : ℕ) : Type 0 where
  pub block : ℕ
  pub head : Header
  pub member : Memᴰ (block, head) s
  pub inner : Inner z k block head.order

abbrev pub Missing : Loose → ℕ → Type 0
Missing s z = (h : Header) → Memᴰ (z, h) s → ⊥

-- The blocks `s` become the blocks `t`, and the headers become `g`.
pub record Reshape (b : Buddy) (g : ℕ → Option Header) (s t : Loose) : Type 0 where
  pub same_cover : (x : ℕ) → held x t ≡ held x s
  pub untouched : (z : ℕ) → Missing t z → g z ≡ b.header z
  pub placed : (z : ℕ) (h : Header) → Memᴰ (z, h) t → (g z ≡ some h) × (h.order ≤ max_order)
  pub left :
      (z k : ℕ) (h : Header)
      → Missing t z
      → Memᴰ (z, h) s
      → g z ≡ some (free_at k)
      → (z ≡ buddy_at b.pool_start z k + block_size k) × Inside t z k
  pub kept : (z k : ℕ) → Missing t z → Inside s z k → Inside t z k

module _ (b : Buddy) (g : ℕ → Option Header) (s t loose : Loose) (valid : IsValid b (s ++ loose))
    (r : Reshape b g s t) where
  abbrev shaped : Buddy
  shaped = record b { header = g }

  sum_s : (x : ℕ) → held x (s ++ loose) ≡ held x t + held x loose
  sum_s x = held-append x s loose ∙ ap (λ (n : ℕ). n + held x loose) (sym (r.same_cover x))

  block_at : (z : ℕ) (h : Header) → Memᴰ (z, h) t → 1 ≤ held z t
  block_at z h m = omega (arith, held-member z z h t m, in_block_self z h.order)

  alone : (z : ℕ) → 1 ≤ cover z b.free_lists + held z loose → Missing t z
  alone z other h m =
      omega
        (arith, valid.once z, sum_s z, block_at z h m, other, in_pool_le z b.pool_start b.pool_size)

  free_alone : (z k : ℕ) → k ≤ max_order → Memᴰ z (b.free_lists k) → Missing t z
  free_alone z k low m =
      alone z (omega (arith, cover-member k z b.free_lists z low m, in_block_self z k))

  loose_alone : (z : ℕ) (h : Header) → Memᴰ (z, h) loose → Missing t z
  loose_alone z h m = alone z (omega (arith, held-member z z h loose m, in_block_self z h.order))

  Stale-Inside :
      (z k : ℕ)
      → z ≡ buddy_at b.pool_start z k + block_size k
      → Inside t z k
      → Stale shaped (t ++ loose) z k
  Stale-Inside z k upper i = record {
    upper = upper;
    around = i.block;
    level = i.head.order;
    live = inr (i.head.is_free, Memᴰ.append_left loose i.member);
    inner = i.inner;
  }

  Stale-shaped : (z k : ℕ) → Missing t z → Stale b (s ++ loose) z k → Stale shaped (t ++ loose) z k
  Stale-shaped z k missing old = elim old.live [
    | inl free ↦ record {
      upper = old.upper;
      around = old.around;
      level = old.level;
      live = inl free;
      inner = old.inner;
    }
    | inr (f, m) ↦ elim (Memᴰ.append_cases s m) [
      | inr later ↦ record {
        upper = old.upper;
        around = old.around;
        level = old.level;
        live = inr (f, Memᴰ.append_right t later);
        inner = old.inner;
      }
      | inl here ↦ Stale-Inside z k old.upper (
          r.kept z k missing
            (record { block = old.around; head = _; member = here; inner = old.inner }))
    ]
  ]

  shaped-truth :
      (z k : ℕ)
      → g z ≡ some (free_at k)
      → ((k ≤ max_order) × Memᴰ z (b.free_lists k))
        ⊎ (Held (t ++ loose) z ⊎ Stale shaped (t ++ loose) z k)
  shaped-truth z k e = elim (Held-cases t z) [
    | inl (h, m) ↦ inr (inl (h, Memᴰ.append_left loose m))
    | inr missing ↦ elim (valid.truth z k (sym (r.untouched z missing) ∙ e)) [
      | inl free ↦ inl free
      | inr (inr old) ↦ inr (inr (Stale-shaped z k missing old))
      | inr (inl (h, m)) ↦ elim (Memᴰ.append_cases s m) [
        | inr later ↦ inr (inl (h, Memᴰ.append_right t later))
        | inl here ↦ let l = r.left z k h missing here e in inr (inr (Stale-Inside z k l.0 l.1))
      ]
    ]
  ]

  pub reshape-IsValid : IsValid shaped (t ++ loose)
  reshape-IsValid = record {
    no_wrap = valid.no_wrap;
    once = λ x. omega (arith, valid.once x, sum_s x, held-append x t loose);
    free_headers = λ z k low m. r.untouched z (free_alone z k low m) ∙ valid.free_headers z k low m;
    loose_headers = λ z h m. elim (Memᴰ.append_cases t m) [
      | inl here ↦ r.placed z h here
      | inr later ↦
          let old = valid.loose_headers z h (Memᴰ.append_right s later) in
          (r.untouched z (loose_alone z h later) ∙ old.0, old.1)
    ];
    truth = shaped-truth;
  }
