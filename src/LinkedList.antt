-- ===== src/LinkedList.antt =====
-- krnl/util/list.c: a doubly linked list whose nodes stand in a store. A pointer is an address, 0 for
-- NULL. The address that the allocation of a node gives is an argument, 0 if it fails; `junk` is what a
-- node holds once it is freed. The loops have the size of the list as their fuel. The callbacks of
-- `list_foreach_cb` and `list_foreach_rev_cb` are left out.
pub mod Filter
pub mod Insert
pub mod Insertions
pub mod Links
pub mod Remove
pub mod Reverse
mod Tests
pub mod Walk
use munt3os.Base.{
  ℕ, zero, suc, ◌+◌, ◌-◌, ◌*◌, ◌/◌, ◌%◌, ◌^◌, ◌≤◌, ◌<◌, min, max, ◌≡◌, refl, sym, ap, ap₂, ◌∙◌, ◌≢◌,
  ◌↔◌, ◌⊎◌, inl, inr, Bool, true, false, not, ◌&&◌, ◌||◌, Option, none, some, List, [], ◌∷◌, ◌++◌,
  map, append-nil, append_assoc, arith, ℕ_discrete, ltb, leb, ◌==◌, if◌then◌else◌, ltb→lt, lt→ltb,
  ltb→le, le→ltb, leb→le, ==_iff, ==_refl, suc-ne-zero, zero-lt-suc, Bool-cases, Option-cases,
  length, get_elem?, get_or, set, take, drop, replicate, length-append, length-set,
  length-replicate, length-take, length-drop, take_last, drop-nil, drop_all, take_all, drop-append,
  drop-drop, take_last-append, take_last-append_long, take_last_all, take-append-drop, get_or-set,
  get_or_ext, get_or-replicate, mod-wrap, u64, u32, u8, add_u64, sub_u64, add_u32, sub_u32, mul_u32,
  mul_u64, page_size, ℤ, pos, negsuc, sub_ℕ, neg,
}

-- `list_node_t`
pub record Node : Type 0 where
  pub prev : ℕ
  pub next : ℕ
  pub value : ℕ

abbrev pub Store : Type 0
Store = ℕ → Node

-- `list_t`
pub record Handle : Type 0 where
  pub head : ℕ
  pub tail : ℕ
  pub size : ℕ

pub record World : Type 0 where
  pub store : Store
  pub list : Handle

abbrev pub put_node : Store → ℕ → Node → Store
put_node s a n = λ x. if x == a then n else s x

abbrev pub set_prev : Store → ℕ → ℕ → Store
set_prev s a p = put_node s a (record (s a) { prev = p })

abbrev pub set_next : Store → ℕ → ℕ → Store
set_next s a q = put_node s a (record (s a) { next = q })

-- The two stores and the count of `node_link`.
unfoldable pub node_link : ℕ → ℕ → ℕ → World → World
node_link prev node next w =
    let s1 = set_next (set_prev w.store node prev) node next in
    let s2 = if prev == 0 then s1 else set_next s1 prev node in
    let s3 = if next == 0 then s2 else set_prev s2 next node in
    record {
      store = s3;
      list = record {
        head = if prev == 0 then node else w.list.head;
        tail = if next == 0 then node else w.list.tail;
        size = add_u32 w.list.size 1;
      };
    }

unfoldable pub node_unlink : ℕ → World → World
node_unlink node w =
    let prev = (w.store node).prev in
    let s1 = if prev == 0 then w.store else set_next w.store prev (w.store node).next in
    let next = (s1 node).next in
    let s2 = if next == 0 then s1 else set_prev s1 next (s1 node).prev in
    record {
      store = set_next (set_prev s2 node 0) node 0;
      list = record {
        head = if prev == 0 then (w.store node).next else w.list.head;
        tail = if next == 0 then (s1 node).prev else w.list.tail;
        size = sub_u32 w.list.size 1;
      };
    }

-- `node_alloc` where it succeeds.
abbrev pub node_alloc : ℕ → ℕ → World → World
node_alloc n value w = record w {
  store = put_node w.store n (record { prev = 0; next = 0; value = value });
}

-- `list_create`, where its allocations succeed.
abbrev pub empty_list : Handle
empty_list = record { head = 0; tail = 0; size = 0 }

unfoldable pub push_front : ℕ → ℕ → World → ℕ × World
unfolding node_link
push_front n value w =
    if n == 0 then (0, w) else (n, node_link 0 n w.list.head (node_alloc n value w))

unfoldable pub push_back : ℕ → ℕ → World → ℕ × World
unfolding node_link
push_back n value w =
    if n == 0 then (0, w) else (n, node_link w.list.tail n 0 (node_alloc n value w))

unfoldable pub insert_before : ℕ → ℕ → ℕ → World → ℕ × World
unfolding push_back node_link
insert_before n anchor value w =
    let made = node_alloc n value w in
    if anchor == 0
    then push_back n value w
    else if n == 0
    then (0, w)
    else (n, node_link (made.store anchor).prev n anchor made)

unfoldable pub insert_after : ℕ → ℕ → ℕ → World → ℕ × World
unfolding push_front node_link
insert_after n anchor value w =
    let made = node_alloc n value w in
    if anchor == 0
    then push_front n value w
    else if n == 0
    then (0, w)
    else (n, node_link anchor n (made.store anchor).next made)

-- The two loops of `list_at`.
unfoldable pub walk_next : ℕ → Store → ℕ → ℕ
walk_next zero s cur = cur
walk_next (suc n) s cur = walk_next n s (s cur).next

unfoldable pub walk_prev : ℕ → Store → ℕ → ℕ
walk_prev zero s cur = cur
walk_prev (suc n) s cur = walk_prev n s (s cur).prev

unfoldable pub list_at : ℕ → World → ℕ
unfolding walk_next walk_prev
list_at index w =
    let forth : ℕ → ℕ = λ n. walk_next n w.store w.list.head in
    let back : ℕ → ℕ = λ n. walk_prev n w.store w.list.tail in
    if leb w.list.size index
    then 0
    else if ltb index (w.list.size / 2)
    then forth index
    else back (w.list.size - 1 - index)

unfoldable pub find_from : (ℕ → Bool) → ℕ → Store → ℕ → ℕ
find_from pred zero s cur = 0
find_from pred (suc n) s cur =
    let rest = find_from pred n s (s cur).next in
    if cur == 0 then 0 else if pred (s cur).value then cur else rest

unfoldable pub list_find : (ℕ → Bool) → World → ℕ
unfolding find_from
list_find pred w = find_from pred w.list.size w.store w.list.head

-- The list `dst` takes the nodes of `src`; the result is the store, `dst` and `src`.
unfoldable pub splice_back : Store → Handle → Handle → Store × Handle × Handle
splice_back s dst src =
    let size = add_u32 dst.size src.size in
    let joined = set_prev (set_next s dst.tail src.head) src.head dst.tail in
    if src.head == 0
    then (s, dst, src)
    else if dst.tail == 0
    then (s, record { head = src.head; tail = src.tail; size = size }, empty_list)
    else (joined, record { head = dst.head; tail = src.tail; size = size }, empty_list)

-- The loop of `list_reverse`.
unfoldable pub reverse_from : ℕ → Store → ℕ → Store
reverse_from zero s cur = s
reverse_from (suc n) s cur =
    let tmp = (s cur).next in
    let rest = reverse_from n (set_prev (set_next s cur (s cur).prev) cur tmp) tmp in
    if cur == 0 then s else rest

unfoldable pub list_reverse : World → World
unfolding reverse_from
list_reverse w = record {
  store = reverse_from w.list.size w.store w.list.head;
  list = record { head = w.list.tail; tail = w.list.head; size = w.list.size };
}

module _ (junk : Node) where
  abbrev pub node_free : ℕ → World → World
  node_free n w = record w { store = put_node w.store n junk }

  unfoldable pub list_remove : ℕ → World → World
  unfolding node_unlink
  list_remove node w = node_free node (node_unlink node w)

  unfoldable pub pop_front : World → ℕ × World
  unfolding list_remove
  pop_front w =
      let n = w.list.head in if n == 0 then (0, w) else ((w.store n).value, list_remove n w)

  unfoldable pub pop_back : World → ℕ × World
  unfolding list_remove
  pop_back w =
      let n = w.list.tail in if n == 0 then (0, w) else ((w.store n).value, list_remove n w)

  unfoldable pub clear_from : ℕ → Store → ℕ → Store
  clear_from zero s cur = s
  clear_from (suc n) s cur =
      let rest = clear_from n (put_node s cur junk) (s cur).next in if cur == 0 then s else rest

  unfoldable pub list_clear : World → World
  unfolding clear_from
  list_clear w = record { store = clear_from w.list.size w.store w.list.head; list = empty_list }

  unfoldable pub remove_if_from : (ℕ → Bool) → ℕ → ℕ → World → ℕ × World
  unfolding list_remove
  remove_if_from pred zero cur w = (0, w)
  remove_if_from pred (suc n) cur w =
      let rest = remove_if_from pred n (w.store cur).next w in
      if cur == 0
      then (0, w)
      else if pred (w.store cur).value
      then ((w.store cur).value, list_remove cur w)
      else rest

  unfoldable pub list_remove_if : (ℕ → Bool) → World → ℕ × World
  unfolding remove_if_from
  list_remove_if pred w = remove_if_from pred w.list.size w.list.head w

  -- The loop of `list_remove_all`, with `count` so far.
  unfoldable pub remove_all_from : (ℕ → Bool) → ℕ → ℕ → ℕ → World → ℕ × World
  unfolding list_remove
  remove_all_from pred zero cur count w = (count, w)
  remove_all_from pred (suc n) cur count w =
      let next = (w.store cur).next in
      let gone = remove_all_from pred n next (add_u32 count 1) (list_remove cur w) in
      let kept = remove_all_from pred n next count w in
      if cur == 0 then (count, w) else if pred (w.store cur).value then gone else kept

  unfoldable pub list_remove_all : (ℕ → Bool) → World → ℕ × World
  unfolding remove_all_from
  list_remove_all pred w = remove_all_from pred w.list.size w.list.head 0 w
