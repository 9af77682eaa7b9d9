-- ===== src/Heap/Account.antt =====
-- The blocks lie side by side, the statistics count them, and no two free blocks are neighbours.
use munt3os.Base.{
  ℕ, ◌+◌, ◌-◌, ◌^◌, ◌≤◌, ◌<◌, ◌≡◌, refl, ap, ap₂, ◌⊎◌, inl, inr, Bool, true, false, ◌&&◌, List, [],
  ◌∷◌, arith, leb, if◌then◌else◌, Bool-cases, length, add_u64,
}
use munt3os.Heap.{Block, Stat, split_block, Claimed, claim, header_size}

-- The blocks fill the addresses from `a` to `e`.
abbrev pub Tiled : ℕ → List Block → ℕ → Type 0
Tiled a [] e = a ≡ e
Tiled a (b ∷ bs) e = (b.address ≡ a) × Tiled (a + (header_size + b.size)) bs e

-- No free block behind a free one; `p` says whether the block before the list is free.
abbrev pub Apart : Bool → List Block → Type 0
Apart p [] = Unit {0}
Apart p (b ∷ bs) = ((p && b.is_free) ≡ false) × Apart b.is_free bs

unfoldable pub free_bytes : List Block → ℕ
free_bytes [] = 0
free_bytes (b ∷ bs) = if b.is_free then b.size + free_bytes bs else free_bytes bs

-- The statistics go from `st` to `st'` as the blocks go from `bs` to `bs'`.
pub record Counted (bs : List Block) (st : Stat) (bs' : List Block) (st' : Stat) : Type 0 where
  pub free : st'.free_size + free_bytes bs ≡ st.free_size + free_bytes bs'
  pub both : st'.used_size + st'.free_size ≡ st.used_size + st.free_size
  pub count : st'.block_count + length bs ≡ st.block_count + length bs'
  pub total : st'.total_size ≡ st.total_size
  pub on : st'.initialized ≡ st.initialized

-- The two ways to take a block: whole, and with the rest made a free block behind it.
abbrev pub whole_claim : Block → List Block → Stat → Claimed
whole_claim b bs st = record {
  at = b.address;
  blocks = record b { is_free = false } ∷ bs;
  stat = record st { free_size = st.free_size - b.size; used_size = st.used_size + b.size };
}

abbrev pub rest_of : ℕ → Block → Block
rest_of n b = record {
  address = b.address + header_size + n;
  size = b.size - n - header_size;
  is_free = true;
}

abbrev pub part_claim : ℕ → Block → List Block → Stat → Claimed
part_claim n b bs st = record {
  at = b.address;
  blocks = record b { size = n; is_free = false } ∷ rest_of n b ∷ bs;
  stat = record st {
    block_count = st.block_count + 1;
    free_size = st.free_size - header_size - n;
    used_size = st.used_size + header_size + n;
  };
}

pub stat_ext :
    (st : Stat) (f g u v c d : ℕ)
    → f ≡ g
    → u ≡ v
    → c ≡ d
    → Path Stat
        (record st { free_size = f; used_size = u; block_count = c })
        (record st { free_size = g; used_size = v; block_count = d })
stat_ext st f g u v c d ef eu ec = rw (ef, eu, ec)

module _ (n : ℕ) (b : Block) (bs : List Block) (st : Stat) (fits : n ≤ b.size)
    (free : b.size ≤ st.free_size) (no_wrap : st.used_size + st.free_size + 64 < 2 ^ 64)
    (count : st.block_count + 1 < 2 ^ 64) where
  pub claim-cases :
      (claim n b bs st ≡ whole_claim b bs st)
      ⊎ ((n + 64 < b.size) × (claim n b bs st ≡ part_claim n b bs st))
  unfolding claim split_block
  claim-cases = elim (Bool-cases (leb b.size (add_u64 (add_u64 n header_size) 32))) [
    | inl whole ↦ inl (
        rw (claim, split_block, whole)
          (ap
            (λ (t : Stat). record {
              at = b.address;
              blocks = record b { is_free = false } ∷ bs;
              stat = t;
            })
            (stat_ext st _ _ _ _ _ _ (omega arith) (omega arith) refl)))
    | inr large ↦ inr (
      ground (arith, large),
      rw (claim, split_block, large)
          (ap₂
            (λ (z : ℕ) (t : Stat). record {
              at = b.address;
              blocks =
                  record b { size = n; is_free = false }
                  ∷ record { address = b.address + header_size + n; size = z; is_free = true }
                  ∷ bs;
              stat = t;
            })
            (ground (arith, large))
            (stat_ext st _ _ _ _ _ _ (ground (arith, large)) (ground (arith, large))
              (omega arith))),
    )
  ]
