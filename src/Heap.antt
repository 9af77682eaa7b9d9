-- ===== src/Heap.antt =====
-- krnl/mem/kheap.c: a first-fit heap of blocks that lie side by side. The list of blocks is the linked
-- list from `heap_start` on; a header takes 32 bytes. `back` is the word before a payload, which points
-- to its block; an address that is no block of the list stands for one without the magic number. The
-- contents of the payloads, and so the `memset` of `khcalloc` and the `memcpy` of `khrealloc`, are
-- left out.
pub mod Account
pub mod Aligned
pub mod Calls
pub mod Freeing
pub mod Methods
pub mod Restore
mod Tests
use munt3os.Base.{
  ℕ, zero, suc, ◌+◌, ◌-◌, ◌*◌, ◌/◌, ◌%◌, ◌^◌, ◌≤◌, ◌<◌, min, max, ◌≡◌, refl, sym, ap, ap₂, ◌∙◌, ◌≢◌,
  ◌↔◌, ◌⊎◌, inl, inr, Bool, true, false, not, ◌&&◌, ◌||◌, Option, none, some, List, [], ◌∷◌, ◌++◌,
  map, append-nil, append_assoc, arith, ℕ_discrete, ltb, leb, ◌==◌, if◌then◌else◌, ltb→lt, lt→ltb,
  ltb→le, le→ltb, leb→le, ==_iff, ==_refl, suc-ne-zero, zero-lt-suc, Bool-cases, Option-cases,
  length, get_elem?, get_or, set, take, drop, replicate, length-append, length-set,
  length-replicate, length-take, length-drop, take_last, drop-nil, drop_all, take_all, drop-append,
  drop-drop, take_last-append, take_last-append_long, take_last_all, take-append-drop, get_or-set,
  get_or_ext, get_or-replicate, mod-wrap, u64, u32, u8, add_u64, sub_u64, add_u32, sub_u32, mul_u32,
  mul_u64, page_size, ℤ, pos, negsuc, sub_ℕ, neg,
}
use Prim.Native.Nat.{bit_and}

-- `kheap_block_t`
pub record Block : Type 0 where
  pub address : ℕ
  pub size : ℕ
  pub is_free : Bool

-- `kheap_stat_t`
pub record Stat : Type 0 where
  pub total_size : ℕ
  pub used_size : ℕ
  pub free_size : ℕ
  pub block_count : ℕ
  pub initialized : Bool

-- `heap_start`, `stats` and the words before the payloads.
pub record Heap : Type 0 where
  pub blocks : List Block
  pub stat : Stat
  pub back : ℕ → ℕ

-- `sizeof(kheap_block_t)`
abbrev pub header_size : ℕ
header_size = 32

abbrev pub min_block_size : ℕ
min_block_size = 32

-- `kheap_init`; `start` is where the pages are mapped, if `pmm_alloc` gave them.
unfoldable pub heap_init : ℕ → Option ℕ → Heap → Heap
heap_init pages none h = h
heap_init pages (some start) h =
    let n = if pages == 0 then 4096 else pages in
    let total = mul_u64 n page_size in
    let first = sub_u64 total header_size in
    record h {
      blocks = record { address = start; size = first; is_free = true } ∷ [];
      stat = record {
        total_size = total;
        used_size = header_size;
        free_size = first;
        block_count = 1;
        initialized = true;
      };
    }

-- What `split_block` leaves: the block, the block behind it that it makes, and the statistics.
pub record Split : Type 0 where
  pub block : Block
  pub made : List Block
  pub stat : Stat

unfoldable pub split_block : ℕ → Block → Stat → Split
split_block n b st =
    if leb b.size (add_u64 (add_u64 n header_size) min_block_size)
    then record { block = b; made = []; stat = st }
    else record {
      block = record b { size = n };
      made =
          record {
            address = b.address + header_size + n;
            size = sub_u64 (sub_u64 b.size n) header_size;
            is_free = true;
          }
          ∷ [];
      stat = record st {
        block_count = add_u64 st.block_count 1;
        used_size = add_u64 st.used_size header_size;
        free_size = sub_u64 st.free_size header_size;
      };
    }

-- The block that was taken, all blocks, and the statistics.
pub record Claimed : Type 0 where
  pub at : ℕ
  pub blocks : List Block
  pub stat : Stat

unfoldable pub claim : ℕ → Block → List Block → Stat → Claimed
unfolding split_block
claim n b bs st =
    let s = split_block n b st in
    record {
      at = s.block.address;
      blocks = record s.block { is_free = false } ∷ (s.made ++ bs);
      stat = record s.stat {
        free_size = sub_u64 s.stat.free_size s.block.size;
        used_size = add_u64 s.stat.used_size s.block.size;
      };
    }

abbrev pub behind : Block → Option Claimed → Option Claimed
behind b none = none
behind b (some c) = some (record c { blocks = b ∷ c.blocks })

-- The loop of `khmalloc`: the first free block that is large enough.
unfoldable pub fit : ℕ → List Block → Stat → Option Claimed
unfolding claim
fit n [] st = none
fit n (b ∷ bs) st =
    let rest = fit n bs st in
    if b.is_free && leb n b.size then some (claim n b bs st) else behind b rest

abbrev pub round_up : ℕ → ℕ
round_up size = add_u64 size 7 / 8 * 8

unfoldable pub khmalloc : ℕ → Heap → ℕ × Heap
unfolding fit
khmalloc size h =
    let given : Claimed → ℕ × Heap = λ c.
      let payload = c.at + header_size + 8 in
      (
        payload,
        record {
          blocks = c.blocks;
          stat = c.stat;
          back = λ p. if p == payload then c.at else h.back p;
        },
      ) in
    if not h.stat.initialized || (size == 0)
    then (0, h)
    else elim (fit (add_u64 (round_up size) 8) h.blocks h.stat) [ none ↦ (0, h) | some c ↦ given c ]

unfoldable pub khaligned_alloc : ℕ → ℕ → Heap → ℕ × Heap
unfolding khmalloc
khaligned_alloc alignment size h =
    let given : ℕ × Heap → ℕ × Heap = λ r.
      let block = r.1.back r.0 in
      let aligned = add_u64 (block + header_size + 8) (alignment - 1) / alignment * alignment in
      if r.0 == 0
      then (0, r.1)
      else (aligned, record r.1 { back = λ p. if p == aligned then block else r.1.back p }) in
    if not h.stat.initialized || (size == 0) || (alignment == 0)
    then (0, h)
    else if not (bit_and alignment (alignment - 1) == 0)
    then (0, h)
    else given (khmalloc (add_u64 (add_u64 size alignment) 8) h)

unfoldable pub khcalloc : ℕ → ℕ → Heap → ℕ × Heap
unfolding khmalloc
khcalloc num size h = khmalloc (mul_u64 num size) h

unfoldable pub find_block : ℕ → List Block → Option Block
find_block a [] = none
find_block a (b ∷ bs) = if b.address == a then some b else find_block a bs

-- The change of the statistics when two blocks become one.
abbrev pub merged : Stat → Stat
merged st = record st {
  block_count = sub_u64 st.block_count 1;
  free_size = add_u64 st.free_size header_size;
  used_size = sub_u64 st.used_size header_size;
}

abbrev pub joined : Block → Block → Block
joined b c = record b { size = add_u64 b.size (header_size + c.size) }

-- The freed block takes in the one behind it, if that is free.
unfoldable pub merge_next : Block → List Block → Stat → List Block × Stat
merge_next b [] st = (b ∷ [], st)
merge_next b (c ∷ cs) st = if c.is_free then (joined b c ∷ cs, merged st) else (b ∷ c ∷ cs, st)

-- The block before the freed one, at `a`, takes it in, if it is free.
unfoldable pub merge_prev : ℕ → Block → List Block → Stat → List Block × Stat
merge_prev a p [] st = (p ∷ [], st)
merge_prev a p (c ∷ cs) st =
    if (c.address == a) && p.is_free then (joined p c ∷ cs, merged st) else (p ∷ c ∷ cs, st)

-- `khfree` behind its guards, for the block at `a`.
unfoldable pub free_block : ℕ → List Block → Stat → List Block × Stat
unfolding merge_next merge_prev
free_block a [] st = ([], st)
free_block a (b ∷ bs) st =
    let (rest, st') = free_block a bs st in
    let freed = record st {
      free_size = add_u64 st.free_size b.size;
      used_size = sub_u64 st.used_size b.size;
    } in
    if b.address == a
    then merge_next (record b { is_free = true }) bs freed
    else merge_prev a b rest st'

-- `magic` says at which addresses the magic number is read where the list has no block: the header of a block
-- that was joined, or bytes that a caller wrote. There the code goes on with what it reads as a
-- block: `none`. A pointer that leads to no magic number is reported, and nothing changes.
unfoldable pub khfree : (ℕ → Bool) → ℕ → Heap → Option Heap
unfolding find_block free_block
khfree magic ptr h =
    let a = h.back ptr in
    let (blocks, stat) = free_block a h.blocks h.stat in
    if (ptr == 0) || not h.stat.initialized then some h else elim (find_block a h.blocks) [
      | none ↦ if magic a then none else some h
      | some b ↦ if b.is_free then some h else some (record h { blocks = blocks; stat = stat })
    ]

-- The block is used, and the pointer lies in it, behind the word that leads to the block.
abbrev pub holds : Block → ℕ → Bool
holds b ptr =
    not b.is_free
    && (leb (b.address + header_size + 8) ptr && leb ptr (b.address + header_size + b.size))

-- `none` for a pointer that does not lie in the used block that its word leads to: the code reads a size
-- from whatever is there.
unfoldable pub khrealloc : (ℕ → Bool) → ℕ → ℕ → Heap → Option (ℕ × Heap)
unfolding khmalloc khfree find_block
khrealloc magic ptr new_size h =
    let after_free : ℕ → Heap → Option (ℕ × Heap) =
      λ x g. elim (khfree magic ptr g) [ none ↦ none | some k ↦ some (x, k) ] in
    let r = khmalloc new_size h in
    let moved : Option (ℕ × Heap) = if r.0 == 0 then some r else after_free r.0 r.1 in
    if ptr == 0
    then some r
    else if new_size == 0
    then after_free 0 h
    else elim (find_block (h.back ptr) h.blocks) [
      | none ↦ none
      | some b ↦
          if holds b ptr
          then (if leb (add_u64 new_size 8) b.size then some (ptr, h) else moved)
          else none
    ]

unfoldable pub kheap_is_free : (ℕ → Bool) → ℕ → Heap → Option Bool
unfolding find_block
kheap_is_free magic ptr h =
    let a = h.back ptr in
    if (ptr == 0) || not h.stat.initialized then some false else elim (find_block a h.blocks) [
      | none ↦ if magic a then none else some false
      | some b ↦ some b.is_free
    ]
