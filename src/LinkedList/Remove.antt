-- ===== src/LinkedList/Remove.antt =====
-- A node is unlinked from between two others: the removals.
use munt3os.Base.{
  ℕ, ◌+◌, ◌≤◌, ◌<◌, ◌≡◌, refl, sym, ap, ap₂, ◌∙◌, ◌≢◌, false, not, ◌&&◌, List, [], ◌∷◌, ◌++◌,
  append-nil, arith, ◌==◌, if◌then◌else◌, ==_iff, length-append,
}
use mathlib.Core.Path.{subst}
use munt3os.LinkedList.{Node, Store, World, put_node, node_unlink, list_remove, pop_front, pop_back}
use munt3os.LinkedList.Links.{
  times, first_or, last_or, Linked, IsList, times-append, times-last_or, last_or-append,
  first_or-append, apart, times-head, times_self, Linked-split, Linked-join, Linked-ne-zero,
  Linked-retarget, Linked-reparent,
}
use munt3os.LinkedList.Insert.{last_or-ne, first_or-ne, not_first, not_last, put_node-IsList}

module _ (n : ℕ) (w : World) (n_p : (n == (w.store n).prev) ≡ false)
    (n_q : (n == (w.store n).next) ≡ false) where
  unlinked_next :
      (a : ℕ)
      → let p = (w.store n).prev in
        ((node_unlink n w).store a).next ≡ (
          if a == n
          then 0
          else if not (p == 0) && (a == p)
          then (w.store n).next
          else (w.store a).next)
  unfolding node_unlink
  unlinked_next a = ground (
    arith,
    ==_iff a n,
    ==_iff a (w.store n).prev,
    ==_iff a (w.store n).next,
    ==_iff n (w.store n).prev,
  )

  unlinked_prev :
      (a : ℕ)
      → let q = (w.store n).next in
        ((node_unlink n w).store a).prev ≡ (
          if a == n
          then 0
          else if not (q == 0) && (a == q)
          then (w.store n).prev
          else (w.store a).prev)
  unfolding node_unlink
  unlinked_prev a = ground (
    arith,
    ==_iff a n,
    ==_iff a (w.store n).prev,
    ==_iff a (w.store n).next,
    ==_iff n (w.store n).prev,
  )

  node_unlink-value : (a : ℕ) → ((node_unlink n w).store a).value ≡ (w.store a).value
  unfolding node_unlink
  node_unlink-value a = ground (
    arith,
    ==_iff a n,
    ==_iff a (w.store n).prev,
    ==_iff a (w.store n).next,
    ==_iff n (w.store n).prev,
  )

  unlinked_head :
      (node_unlink n w).list.head
      ≡ (if (w.store n).prev == 0 then (w.store n).next else w.list.head)
  unfolding node_unlink
  unlinked_head = refl

  unlinked_tail :
      (node_unlink n w).list.tail
      ≡ (if (w.store n).next == 0 then (w.store n).prev else w.list.tail)
  unfolding node_unlink
  unlinked_tail = ground (arith, ==_iff n (w.store n).prev)

-- The head and the tail without the node between the two lists.
head_lem :
    (s : Store) (q n : ℕ) (xs ys : List ℕ)
    → Linked s 0 xs q
    → (if last_or 0 xs == 0 then first_or 0 ys else first_or n xs) ≡ first_or 0 (xs ++ ys)
head_lem s q n [] ys l = refl
head_lem s q n (x ∷ xs) ys l =
    let ne : (last_or x xs == 0) ≡ false =
      ground (arith, Linked-ne-zero s 0 q (last_or x xs) (x ∷ xs) l (times-last_or x xs)) in
    rw ne refl

tail_lem :
    (s : Store) (p n : ℕ) (xs ys : List ℕ)
    → Linked s p ys 0
    → (if first_or 0 ys == 0 then last_or 0 xs else last_or n ys) ≡ last_or 0 (xs ++ ys)
tail_lem s p n xs [] l = ap (last_or 0) (sym (append-nil xs))
tail_lem s p n xs (y ∷ ys) l =
    let ne : (y == 0) ≡ false = ground (arith, l.0) in rw ne (sym (last_or-append 0 y xs ys))

module _ (w : World) (xs ys : List ℕ) (n : ℕ) (l : IsList w.store w.list (xs ++ (n ∷ ys))) where
  abbrev before : ℕ
  before = last_or 0 xs

  abbrev behind : ℕ
  behind = first_or 0 ys

  abbrev unlinked : World
  unlinked = node_unlink n w

  parts : Linked w.store 0 xs n × Linked w.store before (n ∷ ys) 0
  parts = Linked-split w.store 0 0 xs (n ∷ ys) l.chain

  prev_eq : (w.store n).prev ≡ before
  prev_eq = parts.1.1.0

  next_eq : (w.store n).next ≡ behind
  next_eq = parts.1.1.1.0

  split_once : (a : ℕ) → times a xs + times a (n ∷ ys) ≤ 1
  split_once a = omega (arith, l.once a, times-append a xs (n ∷ ys))

  out_front : times n xs ≡ 0
  out_front = omega (arith, split_once n, times_self n ys)

  out_back : times n ys ≡ 0
  out_back = times-head n ys (omega (arith, split_once n))

  n_prev : (n == (w.store n).prev) ≡ false
  n_prev = ap (λ (p : ℕ). n == p) prev_eq ∙ last_or-ne n xs parts.1.0 out_front

  n_next : (n == (w.store n).next) ≡ false
  n_next = ap (λ (q : ℕ). n == q) next_eq ∙ first_or-ne n ys parts.1.0 out_back

  ne_here : (a : ℕ) (zs : List ℕ) → times n zs ≡ 0 → 0 < times a zs → (a == n) ≡ false
  ne_here a zs gone m = ground (arith, apart n a zs gone m)

  apart_lists : (a : ℕ) → times a xs + times a ys ≤ 1
  unfolding times
  apart_lists a = omega (arith, split_once a)

  front : Linked unlinked.store 0 xs behind
  front =
      Linked-retarget w.store unlinked.store 0 n behind xs (λ a. omega (arith, split_once a))
        (λ a m.
          unlinked_prev n w n_prev n_next a
          ∙ (ap
                (λ (q : ℕ).
                  if a == n
                  then 0
                  else if not (q == 0) && (a == q)
                  then (w.store n).prev
                  else (w.store a).prev)
                next_eq
              ∙ rw (ne_here a xs out_front m, not_first a ys (omega (arith, m, apart_lists a)))
                  refl))
        (λ a m.
          let a_zero : a ≢ 0 = Linked-ne-zero w.store 0 n a xs parts.0 m in
          unlinked_next n w n_prev n_next a
          ∙ (ap₂
                (λ (p q : ℕ).
                  if a == n then 0 else if not (p == 0) && (a == p) then q else (w.store a).next)
                prev_eq next_eq
              ∙ rw (ne_here a xs out_front m) (ground (arith, a_zero))))
        parts.0

  back : Linked unlinked.store before ys 0
  back =
      Linked-reparent w.store unlinked.store n 0 before ys (λ a. omega (arith, apart_lists a))
        (λ a m.
          let a_zero : a ≢ 0 = Linked-ne-zero w.store n 0 a ys parts.1.1.1.1 m in
          unlinked_prev n w n_prev n_next a
          ∙ (ap₂
                (λ (p q : ℕ).
                  if a == n then 0 else if not (q == 0) && (a == q) then p else (w.store a).prev)
                prev_eq next_eq
              ∙ rw (ne_here a ys out_back m) (ground (arith, a_zero))))
        (λ a m.
          unlinked_next n w n_prev n_next a
          ∙ (ap
                (λ (p : ℕ).
                  if a == n
                  then 0
                  else if not (p == 0) && (a == p)
                  then (w.store n).next
                  else (w.store a).next)
                prev_eq
              ∙ rw (ne_here a ys out_back m, not_last a xs (omega (arith, m, apart_lists a))) refl))
        parts.1.1.1.1

  pub node_unlink-IsList : IsList unlinked.store unlinked.list (xs ++ ys)
  unfolding node_unlink
  node_unlink-IsList = record {
    chain = Linked-join unlinked.store 0 0 xs ys front back;
    head =
        unlinked_head n w n_prev n_next
        ∙ (ap₂ (λ (p q : ℕ). if p == 0 then q else w.list.head) prev_eq next_eq
            ∙ (ap (λ (h : ℕ). if before == 0 then behind else h)
                  (l.head ∙ first_or-append 0 xs (n ∷ ys))
                ∙ head_lem w.store n n xs ys parts.0));
    tail =
        unlinked_tail n w n_prev n_next
        ∙ (ap₂ (λ (p q : ℕ). if q == 0 then p else w.list.tail) prev_eq next_eq
            ∙ (ap (λ (t : ℕ). if behind == 0 then before else t) (l.tail ∙ last_or-append 0 n xs ys)
                ∙ tail_lem w.store n n xs ys parts.1.1.1.1));
    size = omega (arith, l.size, l.few, length-append xs ys, length-append xs (n ∷ ys));
    once = λ a. omega (arith, apart_lists a, times-append a xs ys);
    few = omega (arith, l.few, length-append xs ys, length-append xs (n ∷ ys));
  }

  pub left : times n (xs ++ ys) ≡ 0
  left = omega (arith, out_front, out_back, times-append n xs ys)

put_node-value :
    (s : Store) (n : ℕ) (node : Node) (a : ℕ)
    → (a == n) ≡ false
    → (put_node s n node a).value ≡ (s a).value
put_node-value s n node a other = rw other refl

-- The nodes at `zs` are left, with their values.
pub record Removed (w : World) (n : ℕ) (zs : List ℕ) (w' : World) : Type 0 where
  pub valid : IsList w'.store w'.list zs
  pub values : (a : ℕ) → 0 < times a zs → (w'.store a).value ≡ (w.store a).value
  pub gone : times n zs ≡ 0

module _ (junk : Node) where
  -- `list_remove` of a node of the list leaves the list of the other nodes, in their order and with
  -- their values, whatever the freed node holds.
  pub list_remove-Removed :
      (w : World) (xs ys : List ℕ) (n : ℕ)
      → IsList w.store w.list (xs ++ (n ∷ ys))
      → Removed w n (xs ++ ys) (list_remove junk n w)
  unfolding list_remove
  list_remove-Removed w xs ys n l =
      let out = left w xs ys n l in
      record {
        valid =
            put_node-IsList (node_unlink n w).store (node_unlink n w).list (xs ++ ys) n junk out
              (node_unlink-IsList w xs ys n l);
        values = λ a m.
            let other : (a == n) ≡ false = ground (arith, apart n a (xs ++ ys) out m) in
            put_node-value (node_unlink n w).store n junk a other
            ∙ node_unlink-value n w (n_prev w xs ys n l) (n_next w xs ys n l) a;
        gone = out;
      }

  -- `list_pop_front` of a list that is not empty returns the value of its first node and leaves the list
  -- of the others.
  pub pop_front-Removed :
      (w : World) (n : ℕ) (ys : List ℕ)
      → IsList w.store w.list (n ∷ ys)
      → ((pop_front junk w).0 ≡ (w.store n).value) × Removed w n ys (pop_front junk w).1
  unfolding pop_front
  pop_front-Removed w n ys l =
      let some_node : (n == 0) ≡ false = ground (arith, l.chain.0) in
      let e : pop_front junk w ≡ ((w.store n).value, list_remove junk n w) =
        ap (λ (h : ℕ). if h == 0 then (0, w) else ((w.store h).value, list_remove junk h w)) l.head
        ∙ rw some_node refl in
      (
        ap (λ (d : ℕ × World). d.0) e,
        subst (λ (d : World). Removed w n ys d) (sym (ap (λ (d : ℕ × World). d.1) e))
            (list_remove-Removed w [] ys n l),
      )

  pub pop_back-Removed :
      (w : World) (n : ℕ) (xs : List ℕ)
      → IsList w.store w.list (xs ++ (n ∷ []))
      → ((pop_back junk w).0 ≡ (w.store n).value) × Removed w n xs (pop_back junk w).1
  unfolding pop_back
  pop_back-Removed w n xs l =
      let at_end = Linked-split w.store 0 0 xs (n ∷ []) l.chain in
      let some_node : (n == 0) ≡ false = ground (arith, at_end.1.0) in
      let e : pop_back junk w ≡ ((w.store n).value, list_remove junk n w) =
        ap (λ (t : ℕ). if t == 0 then (0, w) else ((w.store t).value, list_remove junk t w))
          (l.tail ∙ last_or-append 0 n xs [])
        ∙ rw some_node refl in
      let r = list_remove-Removed w xs [] n l in
      (
        ap (λ (d : ℕ × World). d.0) e,
        subst (λ (d : World). Removed w n xs d) (sym (ap (λ (d : ℕ × World). d.1) e))
            (subst (λ (zs : List ℕ). Removed w n zs (list_remove junk n w)) (append-nil xs) r),
      )
