-- ===== src/Buddy/Writes.antt =====
-- What a caller writes in its block changes what lies at the addresses there.
use munt3os.Base.{ℕ, ◌+◌, ◌≤◌, ◌≡◌, sym, ap, ◌∙◌, ◌⊎◌, inl, inr, Option, some, ◌∷◌, ◌++◌, arith}
use mathlib.Core.List.Memᴰ
use munt3os.Buddy.{Header, Buddy, block_size, block_header}
use munt3os.Buddy.Blocks.{in_block_self, cover-member}
use munt3os.Buddy.Cover.{in_block, cover}
use munt3os.Buddy.Valid.{Loose, held, free_at, IsValid, held-append, held-member, in_pool_le}
use munt3os.Buddy.Shapes.{reorder-IsValid}
use munt3os.Buddy.Free.{front-member, member-front, front-IsValid}

-- The `n` bytes from `ptr` on are written: a header of 24 bytes that does not reach into them stays, and no
-- header of a free block comes about.
pub record Written (old new : ℕ → Option Header) (ptr n : ℕ) : Type 0 where
  pub outside : (z : ℕ) → (z + block_header ≤ ptr) ⊎ (ptr + n ≤ z) → new z ≡ old z
  pub unforged : (z k : ℕ) → new z ≡ some (free_at k) → old z ≡ some (free_at k)

module _ (b : Buddy) (rest : Loose) (a n : ℕ) (h : Header) (new : ℕ → Option Header)
    (valid : IsValid b ((a, h) ∷ rest)) (room : n + block_header ≤ block_size h.order)
    (w : Written b.header new (a + block_header) n) where
  abbrev after : Buddy
  after = record b { header = new }

  -- The start of another block.
  stays : (z : ℕ) → 1 ≤ cover z b.free_lists + held z rest → new z ≡ b.header z
  unfolding held
  stays z other =
      let apart : in_block z a h.order ≡ 0 =
        omega (arith, valid.once z, other, in_pool_le z b.pool_start b.pool_size) in
      w.outside z (ground (arith, apart, room))

  start-stays : new a ≡ b.header a
  start-stays = w.outside a (inl (omega arith))

  write-front : IsValid after ((a, h) ∷ rest)
  write-front = record {
    no_wrap = valid.no_wrap;
    once = valid.once;
    free_headers = λ z k low m.
        stays z (omega (arith, cover-member k z b.free_lists z low m, in_block_self z k))
        ∙ valid.free_headers z k low m;
    loose_headers = λ z g m.
        let old = valid.loose_headers z g m in
        elim (Memᴰ.cases_cons m) [
          | inl same ↦
              let at : z ≡ a = ap (λ (q : ℕ × Header). q.0) same in
              (ap new at ∙ (start-stays ∙ (ap b.header (sym at) ∙ old.0)), old.1)
          | inr later ↦ (
            stays z (omega (arith, held-member z z g rest later, in_block_self z g.order)) ∙ old.0,
            old.1,
          )
        ];
    truth = λ z k e. elim (valid.truth z k (w.unforged z k e)) [
      | inl free ↦ inl free
      | inr (inl one) ↦ inr (inl one)
      | inr (inr old) ↦ inr (
          inr (record {
            upper = old.upper;
            around = old.around;
            level = old.level;
            live = old.live;
            inner = old.inner;
          }))
    ];
  }

pub write-IsValid :
    (b : Buddy) (before rest : Loose) (a n : ℕ) (h : Header) (new : ℕ → Option Header)
    → IsValid b (before ++ ((a, h) ∷ rest))
    → n + block_header ≤ block_size h.order
    → Written b.header new (a + block_header) n
    → IsValid (record b { header = new }) (before ++ ((a, h) ∷ rest))
unfolding held
write-IsValid b before rest a n h new valid room w =
    reorder-IsValid (record b { header = new }) ((a, h) ∷ (before ++ rest))
      (before ++ ((a, h) ∷ rest))
      (λ x. omega (arith, held-append x before rest, held-append x before ((a, h) ∷ rest)))
      (member-front before rest (a, h)) (front-member before rest (a, h))
      (write-front b (before ++ rest) a n h new (front-IsValid b before rest (a, h) valid) room w)
