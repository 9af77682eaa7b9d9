-- ===== src/Heap/Aligned.antt =====
-- `khaligned_alloc`: where the payload lies, and that `khfree` undoes it.
use munt3os.Base.{
  ℕ, ◌+◌, ◌-◌, ◌*◌, ◌/◌, ◌%◌, ◌^◌, ◌≤◌, ◌<◌, ◌≡◌, refl, sym, ap, ◌∙◌, ◌⊎◌, inl, inr, Bool, true,
  false, not, ◌||◌, some, List, [], ◌∷◌, arith, ◌==◌, if◌then◌else◌, ==_iff, ==_refl, Bool-cases,
  add_u64,
}
use Prim.Native.Nat.{bit_and}
use native.Mathlib.Nat.{div-add-mod', mod-lt, mul-mod_left}
use mathlib.Core.Option.{some-injective}
use mathlib.Core.Path.{subst}
use munt3os.Heap.{
  Block, Heap, khmalloc, khaligned_alloc, find_block, free_block, khfree, header_size,
}
use munt3os.Heap.Account.{Tiled}
use munt3os.Heap.Methods.{IsValid, khfree-used, Allocated, back-IsValid, khmalloc_lem}

-- A multiple of `m` that is at least `n`, and less than `m` above it.
ceil_lem : (n m : ℕ) → 0 < m → let c = (n + (m - 1)) / m * m in (n ≤ c) × (c < n + m)
ceil_lem n m some_size =
    let whole = div-add-mod' (n + (m - 1)) m in
    let rest = mod-lt (n + (m - 1)) some_size in
    (omega (arith, whole, rest), omega (arith, whole, rest, some_size))

find_block-Tiled :
    (a e x : ℕ) (bs : List Block) (b : Block)
    → Tiled a bs e
    → find_block x bs ≡ some b
    → (x + header_size + b.size ≤ e)
unfolding find_block
find_block-Tiled a e x [] b tiled found = cc
find_block-Tiled a e x (c ∷ bs) b tiled found = elim (Bool-cases (c.address == x)) [
  | inr later ↦
      find_block-Tiled (a + (header_size + c.size)) e x bs b tiled.1
        (subst (λ (t : Bool). (if t then some c else find_block x bs) ≡ some b) later found)
  | inl here ↦
      let same : c ≡ b =
        some-injective _ _
          (subst (λ (t : Bool). (if t then some c else find_block x bs) ≡ some b) here found) in
      let at : c.address ≡ x = (==_iff c.address x).0 here in
      omega (
        arith,
        at,
        tiled.0,
        ap (λ (d : Block). d.size) same,
        Tiled-end (a + (header_size + c.size)) e bs tiled.1,
      )
]
  where
    Tiled-end : (a e : ℕ) (bs : List Block) → Tiled a bs e → a ≤ e
    Tiled-end a e [] tiled = omega (arith, tiled)
    Tiled-end a e (b ∷ bs) tiled =
        omega (arith, Tiled-end (a + (header_size + b.size)) e bs tiled.1)

-- The payload of `size` bytes at `ptr`.
pub record Aligned (magic : ℕ → Bool) (alignment size start limit : ℕ) (h : Heap) (ptr : ℕ)
    (h' : Heap) : Type 0 where
  pub valid : IsValid start limit h'
  pub multiple : ptr % alignment ≡ 0
  pub block : Block
  pub found : find_block (h'.back ptr) h'.blocks ≡ some block
  pub used : block.is_free ≡ false
  pub above : h'.back ptr + header_size + 8 ≤ ptr
  pub inside : ptr + size ≤ h'.back ptr + header_size + block.size
  pub freed : Heap
  pub undone : khfree magic ptr h' ≡ some freed
  pub same_blocks : freed.blocks ≡ h.blocks
  pub same_stat : freed.stat ≡ h.stat

-- The word before the aligned payload leads to the block that `khmalloc` gave.
module _ (magic : ℕ → Bool) (alignment size start limit : ℕ) (h : Heap)
    (some_alignment : 0 < alignment) (ptr : ℕ) (g : Heap)
    (a : Allocated magic (size + alignment + 8) start limit h ptr g) (high : limit < 2 ^ 64) where
  abbrev block_at : ℕ
  block_at = g.back ptr

  abbrev raw : ℕ
  raw = block_at + header_size + 8

  no_wrap : block_at + header_size + a.block.size < 2 ^ 64
  no_wrap =
      omega
        (arith, high, find_block-Tiled start limit block_at g.blocks a.block a.valid.tiled a.found)

  abbrev moved : ℕ
  moved = add_u64 raw (alignment - 1) / alignment * alignment

  abbrev after : Heap
  after = record g { back = λ p. if p == moved then block_at else g.back p }

  sum : add_u64 raw (alignment - 1) ≡ raw + (alignment - 1)
  sum = omega (arith, a.large, no_wrap)

  between : (raw ≤ moved) × (moved < raw + alignment)
  between =
      subst
        (λ (n : ℕ).
          (raw ≤ n / alignment * alignment) × (n / alignment * alignment < raw + alignment))
        (sym sum) (ceil_lem raw alignment some_alignment)

  back_moved : after.back moved ≡ block_at
  back_moved = rw (==_refl moved) refl

  found_moved : find_block (after.back moved) after.blocks ≡ some a.block
  found_moved = ap (λ (p : ℕ). find_block p g.blocks) back_moved ∙ a.found

  on : g.stat.initialized ≡ true
  on = a.valid.on

  freed_moved :
      khfree magic moved after
      ≡ some (record after {
        blocks = (free_block (after.back moved) g.blocks g.stat).0;
        stat = (free_block (after.back moved) g.blocks g.stat).1;
      })
  freed_moved =
      khfree-used magic moved after a.block (ground (arith, on, between.0)) found_moved a.used

  freed_raw : a.freed ≡ record g {
    blocks = (free_block block_at g.blocks g.stat).0;
    stat = (free_block block_at g.blocks g.stat).1;
  }
  freed_raw =
      some-injective _ _ (
        sym a.undone ∙ khfree-used magic ptr g a.block (ground (arith, on, a.place)) a.found a.used)

  pub moved-Aligned : Aligned magic alignment size start limit h moved after
  moved-Aligned = record {
    valid = back-IsValid start limit g _ a.valid;
    multiple = mul-mod_left (add_u64 raw (alignment - 1) / alignment) alignment;
    block = a.block;
    found = found_moved;
    used = a.used;
    above = omega (arith, back_moved, between.0);
    inside = omega (arith, back_moved, between.1, a.large);
    freed = _;
    undone = freed_moved;
    same_blocks =
        ap (λ (p : ℕ). (free_block p g.blocks g.stat).0) back_moved
        ∙ (sym (ap (λ (k : Heap). k.blocks) freed_raw) ∙ a.same_blocks);
    same_stat =
        ap (λ (p : ℕ). (free_block p g.blocks g.stat).1) back_moved
        ∙ (sym (ap (λ (k : Heap). k.stat) freed_raw) ∙ a.same_stat);
  }

-- `khaligned_alloc` on a valid heap that ends below 2^64, for a size and an alignment whose sum does not wrap
-- with 24 more, returns NULL and changes nothing; or it leaves a valid heap on the same addresses and returns
-- a multiple of the alignment, and `size` bytes from there on lie in a used block of the heap, behind its header
-- and the word that leads back to it. Then `khfree` of the pointer brings back the blocks and the
-- statistics as they were.
pub khaligned_alloc_lem :
    (magic : ℕ → Bool) (alignment size start limit : ℕ) (h : Heap)
    → IsValid start limit h
    → limit < 2 ^ 64
    → size + alignment + 24 < 2 ^ 64
    → let r = khaligned_alloc alignment size h in
      (r ≡ (0, h)) ⊎ Aligned magic alignment size start limit h r.0 r.1
unfolding khaligned_alloc
khaligned_alloc_lem magic alignment size start limit h v high small =
    let n = add_u64 (add_u64 size alignment) 8 in
    let asked : n ≡ size + alignment + 8 = omega (arith, small) in
    elim (Bool-cases (not h.stat.initialized || (size == 0) || (alignment == 0))) [
      | inl guard ↦ inl (rw (khaligned_alloc, guard) refl)
      | inr guard ↦ elim (Bool-cases (not (bit_and alignment (alignment - 1) == 0))) [
        | inl power ↦ inl (rw (khaligned_alloc, guard, power) refl)
        | inr power ↦ elim (khmalloc_lem magic n start limit h v (omega (arith, asked, small))) [
          | inl nothing ↦ inl (rw (khaligned_alloc, guard, power, nothing) refl)
          | inr got ↦
              let r = khmalloc n h in
              let a : Allocated magic (size + alignment + 8) start limit h r.0 r.1 =
                subst (λ (m : ℕ). Allocated magic m start limit h r.0 r.1) asked got in
              let given : (r.0 == 0) ≡ false = ground (arith, got.place) in
              let some_alignment : 0 < alignment = ground (arith, guard) in
              inr (
                rw (khaligned_alloc, guard, power, given)
                  (moved-Aligned magic alignment size start limit h some_alignment r.0 r.1 a high))
        ]
      ]
    ]
