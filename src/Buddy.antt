-- ===== src/Buddy.antt =====
-- krnl/mem/kbuddy.c: blocks of 64 bytes times a power of two, the order. The free list of an order is the
-- list of the addresses of its blocks, in the order of their links; `header` is what lies at an address,
-- `none` where there is no magic number, and callers may write there too, in their blocks.
pub mod Alloc
pub mod Blocks
pub mod Calls
pub mod Cover
pub mod Free
pub mod Give
pub mod Halves
pub mod Init
pub mod Mates
pub mod Merge
pub mod Moves
pub mod Pool
pub mod Reshape
pub mod Shapes
pub mod Start
pub mod Valid
pub mod Writes
mod Tests
use munt3os.Base.{
  ℕ, zero, suc, ◌+◌, ◌-◌, ◌*◌, ◌/◌, ◌%◌, ◌^◌, ◌≤◌, ◌<◌, min, max, ◌≡◌, refl, sym, ap, ap₂, ◌∙◌, ◌≢◌,
  ◌↔◌, ◌⊎◌, inl, inr, Bool, true, false, not, ◌&&◌, ◌||◌, Option, none, some, List, [], ◌∷◌, ◌++◌,
  map, append-nil, append_assoc, arith, ℕ_discrete, ltb, leb, ◌==◌, if◌then◌else◌, ltb→lt, lt→ltb,
  ltb→le, le→ltb, leb→le, ==_iff, ==_refl, suc-ne-zero, zero-lt-suc, Bool-cases, Option-cases,
  length, get_elem?, get_or, set, take, drop, replicate, length-append, length-set,
  length-replicate, length-take, length-drop, take_last, drop-nil, drop_all, take_all, drop-append,
  drop-drop, take_last-append, take_last-append_long, take_last_all, take-append-drop, get_or-set,
  get_or_ext, get_or-replicate, mod-wrap, u64, u32, u8, add_u64, sub_u64, add_u32, sub_u32, mul_u32,
  mul_u64, page_size, ℤ, pos, negsuc, sub_ℕ, neg,
}
use Prim.Native.Nat.{bit_xor}

-- `kmem_buddy_block_t`
pub record Header : Type 0 where
  pub is_free : Bool
  pub order : ℕ

-- `kmem_buddy_allocator_t`, with the headers in its pool.
pub record Buddy : Type 0 where
  pub pool_start : ℕ
  pub pool_size : ℕ
  pub free_lists : ℕ → List ℕ
  pub header : ℕ → Option Header

-- `BUDDY_MAX_ORDER`
abbrev pub max_order : ℕ
max_order = 18

-- `1ULL << (BUDDY_MIN_SHIFT + order)`
abbrev pub block_size : ℕ → ℕ
block_size order = 2 ^ (6 + order)

-- `sizeof(kmem_buddy_block_t)`
abbrev pub block_header : ℕ
block_header = 24

-- `list_add`
unfoldable pub buddy_add : ℕ → ℕ → (ℕ → List ℕ) → ℕ → List ℕ
buddy_add order a lists i = if i == order then a ∷ lists order else lists i

unfoldable pub without : ℕ → List ℕ → List ℕ
without a [] = []
without a (b ∷ bs) = if b == a then bs else b ∷ without a bs

-- `list_remove`
unfoldable pub buddy_remove : ℕ → ℕ → (ℕ → List ℕ) → ℕ → List ℕ
unfolding without
buddy_remove order a lists i = if i == order then without a (lists order) else lists i

abbrev pub put_header : ℕ → Option Header → (ℕ → Option Header) → ℕ → Option Header
put_header a h header i = if i == a then h else header i

-- A write to the `order` and to the `is_free` of a block. The magic number stays, if it is there.
abbrev pub put_order : ℕ → ℕ → (ℕ → Option Header) → ℕ → Option Header
put_order a order header =
    put_header a (elim (header a) [ none ↦ none | some h ↦ some (record h { order = order }) ])
      header

abbrev pub put_free : ℕ → Bool → (ℕ → Option Header) → ℕ → Option Header
put_free a is_free header =
    put_header a (elim (header a) [ none ↦ none | some h ↦ some (record h { is_free = is_free }) ])
      header

-- The inner loop of `kmem_buddy_init`: the largest order that fits and that the address is aligned to.
unfoldable pub init_order : ℕ → ℕ → ℕ → ℕ
init_order zero a remaining = 0
init_order (suc k) a remaining =
    let smaller = init_order k a remaining in
    if leb (block_size (suc k)) remaining && (a % block_size (suc k) == 0) then suc k else smaller

-- The outer loop, for at most `n` rounds.
unfoldable pub init_from : ℕ → ℕ → ℕ → Buddy → Buddy
unfolding init_order buddy_add
init_from zero a remaining b = b
init_from (suc n) a remaining b =
    let order = init_order max_order a remaining in
    let cut : Buddy = record b {
      free_lists = buddy_add order a b.free_lists;
      header = put_header a (some (record { is_free = true; order = order })) b.header;
    } in
    let rest =
      init_from n (add_u64 a (block_size order)) (sub_u64 remaining (block_size order)) cut in
    if leb (block_size 0) remaining then rest else b

-- Every round takes at least 64 bytes.
unfoldable pub kmem_buddy_init : ℕ → ℕ → (ℕ → Option Header) → Buddy
unfolding init_from
kmem_buddy_init start size header =
    init_from (size / 64) start size
      (record { pool_start = start; pool_size = size; free_lists = λ i. []; header = header })

-- The first loop of `kmem_buddy_alloc`, for at most `n` rounds.
unfoldable pub fit_order : ℕ → ℕ → ℕ → ℕ
fit_order zero order total = order
fit_order (suc n) order total =
    let larger = fit_order n (suc order) total in
    if ltb (block_size order) total && leb order max_order then larger else order

abbrev pub is_empty : List ℕ → Bool
is_empty [] = true
is_empty (a ∷ as') = false

-- The second loop.
unfoldable pub first_order : ℕ → ℕ → (ℕ → List ℕ) → ℕ
first_order zero order lists = order
first_order (suc n) order lists =
    let larger = first_order n (suc order) lists in
    if leb order max_order && is_empty (lists order) then larger else order

-- The last loop: `k` halvings of the block at `a` down to the order `target`.
unfoldable pub split_down : ℕ → ℕ → ℕ → Buddy → Buddy
unfolding buddy_add
split_down zero target a b = b
split_down (suc k) target a b =
    let order = target + k in
    let buddy = a + block_size order in
    split_down k target a (record b {
      free_lists = buddy_add order buddy b.free_lists;
      header =
          put_order a order
            (put_header buddy (some (record { is_free = true; order = order })) b.header);
    })

-- The block at the front of the list of `order` is taken.
unfoldable pub take_block : ℕ → ℕ → List ℕ → Buddy → ℕ × Buddy
unfolding buddy_remove split_down
take_block target order [] b = (0, b)
take_block target order (a ∷ rest) b =
    let s =
      split_down (order - target) target a
        (record b { free_lists = buddy_remove order a b.free_lists }) in
    (a + block_header, record s { header = put_free a false s.header })

-- The loops count orders up to 19, one more than there are lists.
unfoldable pub kmem_buddy_alloc : ℕ → Buddy → ℕ × Buddy
unfolding fit_order first_order take_block
kmem_buddy_alloc size b =
    let target = fit_order 19 0 (add_u64 size block_header) in
    let order = first_order 19 target b.free_lists in
    if size == 0
    then (0, b)
    else if ltb max_order target
    then (0, b)
    else if ltb max_order order
    then (0, b)
    else take_block target order (b.free_lists order) b

-- Where the loop of `kmem_buddy_free` ends.
pub record Merged : Type 0 where
  pub block : ℕ
  pub order : ℕ
  pub after : Buddy

-- The loop, for at most `n` rounds.
unfoldable pub merge_up : ℕ → ℕ → ℕ → Buddy → Merged
unfolding buddy_remove
merge_up zero order a b = record { block = a; order = order; after = b }
merge_up (suc n) order a b =
    let buddy = add_u64 b.pool_start (bit_xor (sub_u64 a b.pool_start) (block_size order)) in
    let stop : Merged = record { block = a; order = order; after = b } in
    let low = min buddy a in
    let next : Merged = merge_up n (suc order) low (record b {
      free_lists = buddy_remove order buddy b.free_lists;
      header = put_order low (suc order) b.header;
    }) in
    if leb (add_u64 b.pool_start b.pool_size) buddy then stop else elim (b.header buddy) [
      | none ↦ stop
      | some h ↦ if not h.is_free || not (h.order == order) then stop else next
    ]

unfoldable pub kmem_buddy_free : ℕ → Buddy → Buddy
unfolding merge_up buddy_add
kmem_buddy_free ptr b =
    let a = sub_u64 ptr block_header in
    let freed : Header → Buddy = λ h.
      let m = merge_up (max_order - h.order) h.order a b in
      record m.after {
        free_lists = buddy_add m.order m.block m.after.free_lists;
        header = put_free m.block true m.after.header;
      } in
    if ptr == 0
    then b
    else elim (b.header a) [ none ↦ b | some h ↦ if h.is_free then b else freed h ]
