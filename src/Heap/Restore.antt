-- ===== src/Heap/Restore.antt =====
-- The blocks and the statistics after `khmalloc`, and after the `khfree` that undoes it.
use munt3os.Base.{
  ℕ, ◌+◌, ◌^◌, ◌≤◌, ◌<◌, ◌≡◌, refl, sym, ap, ap₂, ◌∙◌, inl, inr, Bool, true, false, ◌&&◌, none,
  some, List, [], ◌∷◌, arith, leb, ◌==◌, ==_refl, Bool-cases, Option-cases,
}
use munt3os.Heap.{
  Block, Stat, Claimed, claim, behind, fit, find_block, merge_next, merge_prev, free_block,
  header_size,
}
use mathlib.Core.Path.{subst}
use mathlib.Core.Option.{some-injective, none-ne-some}
use munt3os.Heap.Account.{
  Tiled, Apart, free_bytes, Counted, whole_claim, part_claim, claim-cases, stat_ext,
}

-- The block at `x`, if the list starts with it, is free.
abbrev pub FirstFree : ℕ → List Block → Type 0
FirstFree x [] = Unit {0}
FirstFree x (b ∷ bs) = b.address ≡ x → b.is_free ≡ true

-- What a successful search leaves of blocks that fill the addresses from `a` to `e`.
pub record Fitted (n a e : ℕ) (p : Bool) (bs : List Block) (st : Stat) (c : Claimed) : Type 0 where
  pub above : a ≤ c.at
  pub tiled : Tiled a c.blocks e
  pub apart : Apart p c.blocks
  pub counted : Counted bs st c.blocks c.stat
  pub first : FirstFree c.at bs
  pub block : Block
  pub found : find_block c.at c.blocks ≡ some block
  pub used : block.is_free ≡ false
  pub large : n ≤ block.size
  pub restored : free_block c.at c.blocks c.stat ≡ (bs, st)

after_taken : (xs : List Block) → Apart true xs → Apart false xs
after_taken [] apart = tt
after_taken (x ∷ xs) apart = (refl, apart.1)

module _ (n : ℕ) (b : Block) (bs : List Block) (st : Stat) (is_free : b.is_free ≡ true)
    (no_wrap : st.used_size + st.free_size + 64 < 2 ^ 64) (count : st.block_count + 1 < 2 ^ 64)
    (free : b.size ≤ st.free_size) where
  same_block : Path Block (record b { is_free = true }) b
  same_block = ap (λ (f : Bool). record b { is_free = f }) (sym is_free)

  next_taken : (xs : List Block) → Apart true xs → merge_next b xs st ≡ (b ∷ xs, st)
  unfolding merge_next
  next_taken [] apart = refl
  next_taken (x ∷ xs) apart = rw (apart.0)

  whole-restored :
      Apart true bs → let c = whole_claim b bs st in free_block c.at c.blocks c.stat ≡ (b ∷ bs, st)
  unfolding free_block
  whole-restored apart =
      rw (free_block, ==_refl b.address)
        (ap₂ (λ (b' : Block) (t : Stat). merge_next b' bs t) same_block
            (stat_ext st _ st.free_size _ st.used_size _ st.block_count (omega arith) (omega arith)
              refl)
          ∙ next_taken bs apart)

  part-restored :
      n + 64 < b.size
      → let c = part_claim n b bs st in free_block c.at c.blocks c.stat ≡ (b ∷ bs, st)
  unfolding free_block merge_next
  part-restored large =
      rw (free_block, ==_refl b.address)
        (ap₂
            (λ (z : ℕ) (t : Stat).
              (record { address = b.address; size = z; is_free = true } ∷ bs, t))
            (omega arith)
            (stat_ext st _ st.free_size _ st.used_size _ st.block_count (omega arith) (omega arith)
              (omega arith))
          ∙ ap (λ (b' : Block). (b' ∷ bs, st)) same_block)

  claim-Fitted :
      (e : ℕ) (p : Bool)
      → n ≤ b.size
      → free_bytes (b ∷ bs) ≤ st.free_size
      → Tiled b.address (b ∷ bs) e
      → Apart p (b ∷ bs)
      → Fitted n b.address e p (b ∷ bs) st (claim n b bs st)
  unfolding free_bytes find_block
  claim-Fitted e p fits total tiled apart = elim (claim-cases n b bs st fits free no_wrap count) [
    | inl whole ↦ rw whole (record {
      above = omega arith;
      tiled = (refl, tiled.1);
      apart = (ground arith, after_taken bs (subst (λ (f : Bool). Apart f bs) is_free apart.1));
      counted = record {
        free = ground arith;
        both = ground arith;
        count = omega arith;
        total = refl;
        on = refl;
      };
      first = λ e. is_free;
      block = record b { is_free = false };
      found = rw (find_block, ==_refl b.address);
      used = refl;
      large = fits;
      restored = whole-restored (subst (λ (f : Bool). Apart f bs) is_free apart.1);
    })
    | inr (large, part) ↦ rw part (record {
      above = omega arith;
      tiled = (refl, (omega arith, subst (λ (t : ℕ). Tiled t bs e) (omega arith) tiled.1));
      apart = (ground arith, (refl, subst (λ (f : Bool). Apart f bs) is_free apart.1));
      counted = record {
        free = ground arith;
        both = ground arith;
        count = omega arith;
        total = refl;
        on = refl;
      };
      first = λ e. is_free;
      block = record b { size = n; is_free = false };
      found = rw (find_block, ==_refl b.address);
      used = refl;
      large = omega arith;
      restored = part-restored large;
    })
  ]

module _ (n e : ℕ) (st : Stat) (no_wrap : st.used_size + st.free_size + 64 < 2 ^ 64)
    (count : st.block_count + 1 < 2 ^ 64) where
  -- A block that is passed over stays, in the search and in the `khfree` that undoes it.
  behind-Fitted :
      (a : ℕ) (p : Bool) (b : Block) (bs : List Block) (c : Claimed)
      → b.address ≡ a
      → (p && b.is_free) ≡ false
      → Apart b.is_free bs
      → Fitted n (a + (header_size + b.size)) e b.is_free bs st c
      → Fitted n a e p (b ∷ bs) st (record c { blocks = b ∷ c.blocks })
  unfolding free_block merge_prev free_bytes find_block
  behind-Fitted a p b bs c at apart far f = record {
    above = omega (arith, f.above);
    tiled = (at, f.tiled);
    apart = (apart, f.apart);
    counted = record {
      free = ground (arith, f.counted.free);
      both = f.counted.both;
      count = omega (arith, f.counted.count);
      total = f.counted.total;
      on = f.counted.on;
    };
    first = λ here. absurd (omega (arith, f.above));
    block = f.block;
    found = rw (find_block, other) f.found;
    used = f.used;
    large = f.large;
    restored = rw (free_block, other, f.restored) (unmerged bs far f.first);
  }
    where
      other : (b.address == c.at) ≡ false
      other = ground (arith, f.above)

      unmerged :
          (xs : List Block)
          → Apart b.is_free xs
          → FirstFree c.at xs
          → merge_prev c.at b xs st ≡ (b ∷ xs, st)
      unmerged [] far first = refl
      unmerged (x ∷ xs) far first = elim (Bool-cases ((x.address == c.at) && b.is_free)) [
        | inr stays ↦ rw stays
        | inl joins ↦ absurd (ground (arith, far.0, first, joins))
      ]

  fit-here :
      (b : Block) (bs : List Block)
      → (b.is_free && leb n b.size) ≡ true
      → fit n (b ∷ bs) st ≡ some (claim n b bs st)
  unfolding fit
  fit-here b bs fits = rw (fit, fits)

  fit-behind :
      (b : Block) (bs : List Block)
      → (b.is_free && leb n b.size) ≡ false
      → fit n (b ∷ bs) st ≡ behind b (fit n bs st)
  unfolding fit
  fit-behind b bs passes = rw (fit, passes)

  pub fit-Fitted :
      (a : ℕ) (p : Bool) (bs : List Block) (c : Claimed)
      → Tiled a bs e
      → Apart p bs
      → free_bytes bs ≤ st.free_size
      → fit n bs st ≡ some c
      → Fitted n a e p bs st c
  unfolding fit free_bytes
  fit-Fitted a p [] c tiled apart free found = cc
  fit-Fitted a p (b ∷ bs) c tiled apart free found = elim (Bool-cases (b.is_free && leb n b.size)) [
    | inl fits ↦
        let is_free : b.is_free ≡ true = ground (arith, fits) in
        let at_b : Tiled b.address (b ∷ bs) e =
          subst (λ (x : ℕ). Tiled x (b ∷ bs) e) (sym tiled.0) tiled in
        let enough : n ≤ b.size = ground (arith, fits) in
        let total : b.size ≤ st.free_size = ground (arith, is_free, free) in
        let claimed =
          claim-Fitted n b bs st is_free no_wrap count total e p enough free at_b apart in
        subst (λ (d : Claimed). Fitted n a e p (b ∷ bs) st d)
          (some-injective _ _ (sym (fit-here b bs fits) ∙ found))
          (subst (λ (x : ℕ). Fitted n x e p (b ∷ bs) st (claim n b bs st)) tiled.0 claimed)
    | inr passes ↦
        let less : free_bytes bs ≤ st.free_size = ground arith in
        elim (Option-cases (fit n bs st)) [
          | inl nothing ↦
              let missed : fit n (b ∷ bs) st ≡ none =
                fit-behind b bs passes ∙ ap (behind b) nothing in
              absurd (none-ne-some c (sym missed ∙ found))
          | inr (d, inner) ↦
              let same : some (record d { blocks = b ∷ d.blocks }) ≡ some c =
                sym (ap (behind b) inner) ∙ (sym (fit-behind b bs passes) ∙ found) in
              subst (λ (d : Claimed). Fitted n a e p (b ∷ bs) st d) (some-injective _ _ same)
                (behind-Fitted a p b bs d tiled.0 apart.0 apart.1 (
                  fit-Fitted (a + (header_size + b.size)) b.is_free bs d tiled.1 apart.1 less
                    inner))
        ]
  ]
