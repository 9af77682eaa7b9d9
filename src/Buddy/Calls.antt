-- ===== src/Buddy/Calls.antt =====
-- Sequences of calls of the allocator, in any order.
use munt3os.Base.{
  ℕ, ◌+◌, ◌^◌, ◌≤◌, ◌<◌, ◌≡◌, refl, sym, ap, ◌∙◌, ◌≢◌, inl, inr, false, none, List, [], ◌∷◌, ◌++◌,
  arith,
}
use mathlib.Core.List.Memᴰ
use mathlib.Core.Path.{subst}
use munt3os.Buddy.{
  Header, Buddy, block_size, block_header, kmem_buddy_init, kmem_buddy_alloc, kmem_buddy_free,
}
use munt3os.Buddy.Valid.{Loose, IsValid}
use munt3os.Buddy.Halves.{at_order}
use munt3os.Buddy.Merge.{AllGiven}
use munt3os.Base.{Option}
use munt3os.Buddy.Writes.{Written, write-IsValid}
use munt3os.Buddy.Free.{kmem_buddy_free-IsValid}
use munt3os.Buddy.Give.{kmem_buddy_alloc-Gives}
use munt3os.Buddy.Start.{kmem_buddy_init-IsValid}
use munt3os.Buddy.Pool.{
  pool_of, kmem_buddy_init-pool_of, kmem_buddy_alloc-pool_of, kmem_buddy_free-pool_of,
}

-- The pointers that callers hold, each with the size that was asked for, and the state, after some calls for a
-- pool without headers in it. A pointer is freed once, and only if it is held; `free(NULL)` may be called. Between
-- the calls, callers write in the bytes that they asked for, but nothing that looks like the header of a
-- free block.
pub data Calls (start size : ℕ) : List (ℕ × ℕ) → Buddy → Type 0 where
  calls_init : Calls start size [] (kmem_buddy_init start size (λ a. none))
  calls_null :
      {held : List (ℕ × ℕ)} {b : Buddy} (n : ℕ)
      → n + block_header < 2 ^ 64
      → Calls start size held b
      → (kmem_buddy_alloc n b).0 ≡ 0
      → Calls start size held (kmem_buddy_alloc n b).1
  calls_alloc :
      {held : List (ℕ × ℕ)} {b : Buddy} (n : ℕ)
      → n + block_header < 2 ^ 64
      → Calls start size held b
      → (kmem_buddy_alloc n b).0 ≢ 0
      → Calls start size (((kmem_buddy_alloc n b).0, n) ∷ held) (kmem_buddy_alloc n b).1
  calls_free :
      {b : Buddy} (before after : List (ℕ × ℕ)) (ptr n : ℕ)
      → Calls start size (before ++ ((ptr, n) ∷ after)) b
      → Calls start size (before ++ after) (kmem_buddy_free ptr b)
  calls_write :
      {b : Buddy} (before after : List (ℕ × ℕ)) (ptr n : ℕ) (new : ℕ → Option Header)
      → Calls start size (before ++ ((ptr, n) ∷ after)) b
      → Written b.header new ptr n
      → Calls start size (before ++ ((ptr, n) ∷ after)) (record b { header = new })
  calls_free_null :
      {held : List (ℕ × ℕ)} {b : Buddy}
      → Calls start size held b
      → Calls start size held (kmem_buddy_free 0 b)

-- The pointer lies behind the header of the block, which is not free and has room for the size.
pub record FitsOne (p : ℕ × ℕ) (r : ℕ × Header) : Type 0 where
  pub place : p.0 ≡ r.0 + block_header
  pub room : p.1 + block_header ≤ block_size r.1.order
  pub used : r.1.is_free ≡ false

-- One block for each pointer.
abbrev pub Fits : List (ℕ × ℕ) → Loose → Type 0
Fits [] [] = Unit {0}
Fits [] (r ∷ rs) = ⊥
Fits (p ∷ ps) [] = ⊥
Fits (p ∷ ps) (r ∷ rs) = FitsOne p r × Fits ps rs

Fits-AllGiven : (ps : List (ℕ × ℕ)) (rs : Loose) → Fits ps rs → AllGiven rs
Fits-AllGiven [] [] fits z h m = absurd (Memᴰ.not-nil m)
Fits-AllGiven [] (r ∷ rs) fits z h m = absurd fits
Fits-AllGiven (p ∷ ps) [] fits z h m = absurd fits
Fits-AllGiven (p ∷ ps) (r ∷ rs) fits z h m = elim (Memᴰ.cases_cons m) [
  | inl same ↦ ap (λ (q : ℕ × Header). q.1.is_free) same ∙ fits.0.used
  | inr later ↦ Fits-AllGiven ps rs fits.1 z h later
]

record Split (before after : List (ℕ × ℕ)) (p : ℕ × ℕ) (rs : Loose) : Type 0 where
  pub front : Loose
  pub back : Loose
  pub block : ℕ × Header
  pub whole : rs ≡ front ++ (block ∷ back)
  pub fits_one : FitsOne p block
  pub rest : Fits (before ++ after) (front ++ back)

Fits-Split :
    (before after : List (ℕ × ℕ)) (p : ℕ × ℕ) (rs : Loose)
    → Fits (before ++ (p ∷ after)) rs
    → Split before after p rs
Fits-Split [] after p [] fits = absurd fits
Fits-Split [] after p (r ∷ rs) fits = record {
  front = [];
  back = rs;
  block = r;
  whole = refl;
  fits_one = fits.0;
  rest = fits.1;
}
Fits-Split (q ∷ before) after p [] fits = absurd fits
Fits-Split (q ∷ before) after p (r ∷ rs) fits =
    let s = Fits-Split before after p rs fits.1 in
    record {
      front = r ∷ s.front;
      back = s.back;
      block = s.block;
      whole = ap (λ (l : Loose). r ∷ l) s.whole;
      fits_one = s.fits_one;
      rest = (fits.0, s.rest);
    }

-- The blocks that were given, and the state between two calls.
pub record Shared (start size : ℕ) (held : List (ℕ × ℕ)) (b : Buddy) : Type 0 where
  pub blocks : Loose
  pub fits : Fits held blocks
  pub valid : IsValid b blocks
  pub pool : pool_of b ≡ (start, size)

-- The blocks after a caller wrote.
Shared-write :
    (start size : ℕ) (before after : List (ℕ × ℕ)) (ptr n : ℕ) (b : Buddy) (new : ℕ → Option Header)
    → Written b.header new ptr n
    → Shared start size (before ++ ((ptr, n) ∷ after)) b
    → Shared start size (before ++ ((ptr, n) ∷ after)) (record b { header = new })
Shared-write start size before after ptr n b new w s =
    let c = Fits-Split before after (ptr, n) s.blocks s.fits in
    let moved = subst (λ (q : ℕ). Written b.header new q n) c.fits_one.place w in
    record {
      blocks = s.blocks;
      fits = s.fits;
      valid = subst (IsValid (record b { header = new })) (sym c.whole) (
          write-IsValid b c.front c.back c.block.0 n c.block.1 new
            (subst (IsValid b) c.whole s.valid) c.fits_one.room moved);
      pool = s.pool;
    }

module _ (start size : ℕ) where
  alloc-Shared :
      (n : ℕ) (held : List (ℕ × ℕ)) (b : Buddy)
      → n + block_header < 2 ^ 64
      → (kmem_buddy_alloc n b).0 ≢ 0
      → Shared start size held b
      → Shared start size (((kmem_buddy_alloc n b).0, n) ∷ held) (kmem_buddy_alloc n b).1
  alloc-Shared n held b no_wrap got s = elim (kmem_buddy_alloc-Gives n b s.blocks no_wrap s.valid) [
    | inl none_given ↦ absurd (got (ap (λ (r : ℕ × Buddy). r.0) none_given))
    | inr g ↦ record {
      blocks = (g.block, at_order false g.order) ∷ s.blocks;
      fits = (record { place = g.place; room = g.large; used = refl }, s.fits);
      valid = g.valid;
      pool = kmem_buddy_alloc-pool_of n b ∙ s.pool;
    }
  ]

  null-Shared :
      (n : ℕ) (held : List (ℕ × ℕ)) (b : Buddy)
      → n + block_header < 2 ^ 64
      → (kmem_buddy_alloc n b).0 ≡ 0
      → Shared start size held b
      → Shared start size held (kmem_buddy_alloc n b).1
  null-Shared n held b no_wrap none_got s =
      elim (kmem_buddy_alloc-Gives n b s.blocks no_wrap s.valid) [
        | inl none_given ↦
            subst (Shared start size held) (sym (ap (λ (r : ℕ × Buddy). r.1) none_given)) s
        | inr g ↦ absurd (omega (arith, none_got, g.place))
      ]

  free-Shared :
      (before after : List (ℕ × ℕ)) (ptr n : ℕ) (b : Buddy)
      → Shared start size (before ++ ((ptr, n) ∷ after)) b
      → Shared start size (before ++ after) (kmem_buddy_free ptr b)
  free-Shared before after ptr n b s =
      let c = Fits-Split before after (ptr, n) s.blocks s.fits in
      let given = Fits-AllGiven (before ++ ((ptr, n) ∷ after)) s.blocks s.fits in
      let freed =
        kmem_buddy_free-IsValid b c.front c.back c.block.0 c.block.1 (subst AllGiven c.whole given)
          (subst (IsValid b) c.whole s.valid) in
      record {
        blocks = c.front ++ c.back;
        fits = c.rest;
        valid =
            subst (λ (q : ℕ). IsValid (kmem_buddy_free q b) (c.front ++ c.back))
              (sym c.fits_one.place) freed;
        pool = kmem_buddy_free-pool_of ptr b ∙ s.pool;
      }

-- From `kmem_buddy_init` on, for a pool that does not go round the address space and has no header in it, after
-- any sequence of calls in which the sizes with the header do not wrap and only pointers that are held are freed,
-- each once, and in which callers write only in the bytes that they asked for, and nothing that looks like the
-- header of a free block: every pointer that is held lies behind the header of a block of its own that is not
-- free and has room for the size; each address of the pool's whole units of 64 bytes lies in exactly one of
-- these blocks and the free ones, and no other address in any; the headers of all blocks are right; and
-- a header that says free is that of a free block, or of the upper half of a pair that was joined. So,
-- under these conditions, `kmem_buddy_free` joins only free blocks, and the blocks that are held never overlap and
-- never leave the pool.
pub kmem_buddy-Shared :
    (start size : ℕ) (held : List (ℕ × ℕ)) (b : Buddy)
    → start + size < 2 ^ 64
    → Calls start size held b
    → Shared start size held b
unfolding kmem_buddy_free
kmem_buddy-Shared start size _ _ no_wrap calls_init = record {
  blocks = [];
  fits = tt;
  valid = kmem_buddy_init-IsValid start size no_wrap;
  pool = kmem_buddy_init-pool_of start size (λ a. none);
}
kmem_buddy-Shared start size _ _ no_wrap (calls_null {held} {b} n small calls got) =
    null-Shared start size n held b small got (kmem_buddy-Shared start size held b no_wrap calls)
kmem_buddy-Shared start size _ _ no_wrap (calls_alloc {held} {b} n small calls got) =
    alloc-Shared start size n held b small got (kmem_buddy-Shared start size held b no_wrap calls)
kmem_buddy-Shared start size _ _ no_wrap (calls_free {b} before after ptr n calls) =
    free-Shared start size before after ptr n b (kmem_buddy-Shared start size _ b no_wrap calls)
kmem_buddy-Shared start size _ _ no_wrap (calls_write {b} before after ptr n new calls w) =
    Shared-write start size before after ptr n b new w
      (kmem_buddy-Shared start size (before ++ ((ptr, n) ∷ after)) b no_wrap calls)
kmem_buddy-Shared start size _ _ no_wrap (calls_free_null {held} {b} calls) =
    kmem_buddy-Shared start size held b no_wrap calls
