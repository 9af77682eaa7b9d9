-- ===== src/Heap/Methods.antt =====
-- The heap: what stays true of it, and that `khfree` undoes `khmalloc`.
use munt3os.Base.{
  ℕ, ◌+◌, ◌*◌, ◌^◌, ◌≤◌, ◌<◌, ◌≡◌, refl, ap, ◌∙◌, ◌⊎◌, Bool, inl, inr, true, false, not, ◌||◌, some,
  List, [], ◌∷◌, arith, ◌==◌, if◌then◌else◌, ==_refl, Bool-cases, Option-cases, length, add_u64,
  page_size,
}
use munt3os.Heap.{
  Block, Stat, Heap, Claimed, fit, round_up, khmalloc, find_block, free_block, khfree, header_size,
  heap_init,
}
use munt3os.Heap.Account.{Tiled, Apart, free_bytes}
use munt3os.Heap.Restore.{Fitted, fit-Fitted}

-- The blocks fill the addresses from `start` to `limit`.
pub record IsValid (start limit : ℕ) (h : Heap) : Type 0 where
  pub filled : limit ≡ start + h.stat.total_size
  pub tiled : Tiled start h.blocks limit
  pub apart : Apart false h.blocks
  pub free : h.stat.free_size ≡ free_bytes h.blocks
  pub used : h.stat.used_size + h.stat.free_size ≡ h.stat.total_size
  pub count : h.stat.block_count ≡ length h.blocks
  pub no_wrap : h.stat.total_size + 64 < 2 ^ 64
  pub on : h.stat.initialized ≡ true

pub Tiled-length : (a e : ℕ) (bs : List Block) → Tiled a bs e → a + header_size * length bs ≤ e
Tiled-length a e [] tiled = omega (arith, tiled)
Tiled-length a e (b ∷ bs) tiled =
    omega (arith, Tiled-length (a + (header_size + b.size)) e bs tiled.1)

-- `kheap_init` with its pages leaves a valid heap.
pub heap_init-IsValid :
    (pages start : ℕ) (h : Heap)
    → 0 < pages
    → pages < 2 ^ 50
    → IsValid start (start + pages * page_size) (heap_init pages (some start) h)
unfolding heap_init free_bytes
heap_init-IsValid pages start h positive small =
    let some_pages : (pages == 0) ≡ false = ground arith in
    rw (heap_init, some_pages)
      (record {
        filled = omega (arith, small);
        tiled = (refl, omega (arith, small, positive));
        apart = (refl, tt);
        free = omega arith;
        used = omega arith;
        count = refl;
        no_wrap = omega arith;
        on = refl;
      })

-- `khfree` of a payload whose block is used.
pub khfree-used :
    (magic : ℕ → Bool) (ptr : ℕ) (h : Heap) (b : Block)
    → ((ptr == 0) || not h.stat.initialized) ≡ false
    → find_block (h.back ptr) h.blocks ≡ some b
    → b.is_free ≡ false
    → khfree magic ptr h
      ≡ some (record h {
        blocks = (free_block (h.back ptr) h.blocks h.stat).0;
        stat = (free_block (h.back ptr) h.blocks h.stat).1;
      })
unfolding khfree
khfree-used magic ptr h b guard found used = rw (khfree, guard, found, used)

-- A block is taken out of a valid heap.
pub claimed-IsValid :
    (start limit n : ℕ) (h : Heap) (c : Claimed) (back : ℕ → ℕ)
    → IsValid start limit h
    → Fitted n start limit false h.blocks h.stat c
    → IsValid start limit (record { blocks = c.blocks; stat = c.stat; back = back })
claimed-IsValid start limit n h c back v f = record {
  filled = omega (arith, v.filled, f.counted.total);
  tiled = f.tiled;
  apart = f.apart;
  free = omega (arith, f.counted.free, v.free);
  used = omega (arith, f.counted.both, f.counted.total, v.used);
  count = omega (arith, f.counted.count, v.count);
  no_wrap = omega (arith, v.no_wrap, f.counted.total);
  on = f.counted.on ∙ v.on;
}

-- The invariant does not speak of the words before the payloads.
pub back-IsValid :
    (start limit : ℕ) (h : Heap) (back : ℕ → ℕ)
    → IsValid start limit h
    → IsValid start limit (record h { back = back })
back-IsValid start limit h back v = record {
  filled = v.filled;
  tiled = v.tiled;
  apart = v.apart;
  free = v.free;
  used = v.used;
  count = v.count;
  no_wrap = v.no_wrap;
  on = v.on;
}

-- The search of a valid heap.
pub found-Fitted :
    (start limit n : ℕ) (h : Heap) (c : Claimed)
    → IsValid start limit h
    → fit n h.blocks h.stat ≡ some c
    → Fitted n start limit false h.blocks h.stat c
found-Fitted start limit n h c v taken =
    let long = Tiled-length start limit h.blocks v.tiled in
    fit-Fitted n limit h.stat (omega (arith, v.used, v.no_wrap))
      (omega (arith, v.count, long, v.filled, v.no_wrap)) start false h.blocks c v.tiled v.apart
      (omega (arith, v.free)) taken

-- What `khmalloc` gives: a used block of the list that holds the payload of `size` bytes and the word
-- before it.
pub record Allocated (magic : ℕ → Bool) (size start limit : ℕ) (h : Heap) (ptr : ℕ) (h' : Heap)
    : Type 0 where
  pub valid : IsValid start limit h'
  pub block : Block
  pub found : find_block (h'.back ptr) h'.blocks ≡ some block
  pub used : block.is_free ≡ false
  pub place : ptr ≡ h'.back ptr + header_size + 8
  pub large : size + 8 ≤ block.size
  pub freed : Heap
  pub undone : khfree magic ptr h' ≡ some freed
  pub same_blocks : freed.blocks ≡ h.blocks
  pub same_stat : freed.stat ≡ h.stat

-- `khmalloc` on a valid heap, for a size that does not wrap with 16 more, returns NULL and changes nothing, or
-- it returns the payload of a used block that is large enough and leaves a valid heap: the blocks fill the
-- same addresses, no two neighbours are free, and the statistics count them. Then `khfree` of the
-- pointer brings back the blocks and the statistics as they were.
pub khmalloc_lem :
    (magic : ℕ → Bool) (size start limit : ℕ) (h : Heap)
    → IsValid start limit h
    → size + 16 < 2 ^ 64
    → let r = khmalloc size h in (r ≡ (0, h)) ⊎ Allocated magic size start limit h r.0 r.1
unfolding khmalloc khfree
khmalloc_lem magic size start limit h v small = elim (Bool-cases (size == 0)) [
  | inl zero_size ↦
      let guard : (not h.stat.initialized || (size == 0)) ≡ true = ground (arith, zero_size) in
      inl (rw (khmalloc, guard))
  | inr some_size ↦
      let guard : (not h.stat.initialized || (size == 0)) ≡ false =
        ground (arith, some_size, v.on) in
      elim (Option-cases (fit (add_u64 (round_up size) 8) h.blocks h.stat)) [
        | inl nothing ↦ inl (rw (khmalloc, guard, nothing))
        | inr (c, taken) ↦
            let f = found-Fitted start limit (add_u64 (round_up size) 8) h c v taken in
            inr (rw (khmalloc, guard, taken) (given c f))
      ]
]
  where
    given :
        (c : Claimed)
        → Fitted (add_u64 (round_up size) 8) start limit false h.blocks h.stat c
        → let payload = c.at + header_size + 8 in
          Allocated magic size start limit h payload (record {
            blocks = c.blocks;
            stat = c.stat;
            back = λ p. if p == payload then c.at else h.back p;
          })
    given c f =
        let payload = c.at + header_size + 8 in
        let h' : Heap = record {
          blocks = c.blocks;
          stat = c.stat;
          back = λ p. if p == payload then c.at else h.back p;
        } in
        let n = add_u64 (round_up size) 8 in
        let own : (payload == payload) ≡ true = ==_refl payload in
        let guard : ((payload == 0) || not c.stat.initialized) ≡ false =
          ground (arith, f.counted.on, v.on) in
        let found : find_block (h'.back payload) h'.blocks ≡ some f.block = rw own f.found in
        record {
          valid = claimed-IsValid start limit n h c h'.back v f;
          block = f.block;
          found = found;
          used = f.used;
          place = rw own;
          large = omega (arith, f.large, small);
          freed = _;
          undone = khfree-used magic payload h' f.block guard found f.used;
          same_blocks = rw own (ap (λ (r : List Block × Stat). r.0) f.restored);
          same_stat = rw own (ap (λ (r : List Block × Stat). r.1) f.restored);
        }
