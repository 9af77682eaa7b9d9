-- ===== src/LinkedList/Insert.antt =====
-- A node is linked between two others: the insertions.
use munt3os.Base.{
  ℕ, ◌+◌, ◌^◌, ◌<◌, ◌≡◌, refl, sym, ap, ◌∙◌, ◌≢◌, false, not, ◌&&◌, List, [], ◌∷◌, ◌++◌, arith,
  ◌==◌, if◌then◌else◌, ==_iff, ==_refl, length, length-append,
}
use munt3os.LinkedList.{Node, Store, Handle, World, put_node, node_link}
use munt3os.LinkedList.Links.{
  times, first_or, last_or, Linked, IsList, times-append, times-last_or, last_or-append,
  first_or-append, apart, times_self, Linked-split, Linked-join, Linked-ne-zero, Linked-retarget,
  Linked-frame, Linked-reparent,
}

module _ (p n q : ℕ) (w : World) (n_p : (n == p) ≡ false) (n_q : (n == q) ≡ false) where
  linked_next :
      (a : ℕ)
      → ((node_link p n q w).store a).next
        ≡ (if a == n then q else if not (p == 0) && (a == p) then n else (w.store a).next)
  unfolding node_link
  linked_next a = ground (arith, ==_iff a n, ==_iff a p, ==_iff a q)

  linked_prev :
      (a : ℕ)
      → ((node_link p n q w).store a).prev
        ≡ (if a == n then p else if not (q == 0) && (a == q) then n else (w.store a).prev)
  unfolding node_link
  linked_prev a = ground (arith, ==_iff a n, ==_iff a p, ==_iff a q)

  pub node_link-value : (a : ℕ) → ((node_link p n q w).store a).value ≡ (w.store a).value
  unfolding node_link
  node_link-value a = ground (arith, ==_iff a n, ==_iff a p, ==_iff a q)

pub last_or-ne : (n : ℕ) (xs : List ℕ) → n ≢ 0 → times n xs ≡ 0 → (n == last_or 0 xs) ≡ false
last_or-ne n [] ne out = ground (arith, ne)
last_or-ne n (x ∷ xs) ne out = apart n (last_or x xs) (x ∷ xs) out (times-last_or x xs)

pub first_or-ne : (n : ℕ) (ys : List ℕ) → n ≢ 0 → times n ys ≡ 0 → (n == first_or 0 ys) ≡ false
first_or-ne n [] ne out = ground (arith, ne)
first_or-ne n (y ∷ ys) ne out = apart n y (y ∷ ys) out (times_self y ys)

-- What stands in the one list is no end of the other.
pub not_first :
    (a : ℕ) (ys : List ℕ)
    → times a ys ≡ 0
    → (not (first_or 0 ys == 0) && (a == first_or 0 ys)) ≡ false
not_first a [] out = refl
not_first a (y ∷ ys) out = rw (apart a y (y ∷ ys) out (times_self y ys)) (ground arith)

pub not_last :
    (a : ℕ) (xs : List ℕ)
    → times a xs ≡ 0
    → (not (last_or 0 xs == 0) && (a == last_or 0 xs)) ≡ false
not_last a [] out = refl
not_last a (x ∷ xs) out =
    rw (apart a (last_or x xs) (x ∷ xs) out (times-last_or x xs)) (ground arith)

-- The head and the tail after a node `n` is put between the two lists.
head_lem :
    (s : Store) (q n : ℕ) (xs ys : List ℕ)
    → Linked s 0 xs q
    → (if last_or 0 xs == 0 then n else first_or 0 (xs ++ ys)) ≡ first_or n xs
head_lem s q n [] ys l = refl
head_lem s q n (x ∷ xs) ys l =
    let ne : (last_or x xs == 0) ≡ false =
      ground (arith, Linked-ne-zero s 0 q (last_or x xs) (x ∷ xs) l (times-last_or x xs)) in
    rw ne refl

tail_lem :
    (s : Store) (p n : ℕ) (xs ys : List ℕ)
    → Linked s p ys 0
    → (if first_or 0 ys == 0 then n else last_or 0 (xs ++ ys)) ≡ last_or n ys
tail_lem s p n xs [] l = refl
tail_lem s p n xs (y ∷ ys) l =
    let ne : (y == 0) ≡ false = ground (arith, l.0) in rw ne (last_or-append 0 y xs ys)

module _ (w : World) (xs ys : List ℕ) (n : ℕ) (l : IsList w.store w.list (xs ++ ys)) (ne : n ≢ 0)
    (out : times n (xs ++ ys) ≡ 0) (room : length (xs ++ ys) + 1 < 2 ^ 32) where
  abbrev before : ℕ
  before = last_or 0 xs

  abbrev behind : ℕ
  behind = first_or 0 ys

  abbrev linked : World
  linked = node_link before n behind w

  out_front : times n xs ≡ 0
  out_front = omega (arith, out, times-append n xs ys)

  out_back : times n ys ≡ 0
  out_back = omega (arith, out, times-append n xs ys)

  pub n_before : (n == before) ≡ false
  n_before = last_or-ne n xs ne out_front

  pub n_behind : (n == behind) ≡ false
  n_behind = first_or-ne n ys ne out_back

  parts : Linked w.store 0 xs behind × Linked w.store before ys 0
  parts = Linked-split w.store 0 0 xs ys l.chain

  -- The stores of a node in one of the lists.
  ne_here : (a : ℕ) (zs : List ℕ) → times n zs ≡ 0 → 0 < times a zs → (a == n) ≡ false
  ne_here a zs gone m = ground (arith, apart n a zs gone m)

  front : Linked linked.store 0 xs n
  front =
      Linked-retarget w.store linked.store 0 behind n xs
        (λ a. omega (arith, l.once a, times-append a xs ys))
        (λ a m.
          linked_prev before n behind w n_before n_behind a
          ∙ rw
              (
                ne_here a xs out_front m,
                not_first a ys (omega (arith, m, l.once a, times-append a xs ys)),
              )
              refl)
        (λ a m.
          let a_zero : a ≢ 0 = Linked-ne-zero w.store 0 behind a xs parts.0 m in
          linked_next before n behind w n_before n_behind a
          ∙ rw (ne_here a xs out_front m) (ground (arith, a_zero)))
        parts.0

  back : Linked linked.store n ys 0
  back =
      Linked-reparent w.store linked.store before 0 n ys
        (λ a. omega (arith, l.once a, times-append a xs ys))
        (λ a m.
          let a_zero : a ≢ 0 = Linked-ne-zero w.store before 0 a ys parts.1 m in
          linked_prev before n behind w n_before n_behind a
          ∙ rw (ne_here a ys out_back m) (ground (arith, a_zero)))
        (λ a m.
          linked_next before n behind w n_before n_behind a
          ∙ rw
              (
                ne_here a ys out_back m,
                not_last a xs (omega (arith, m, l.once a, times-append a xs ys)),
              )
              refl)
        parts.1

  pub node_link-IsList : IsList linked.store linked.list (xs ++ (n ∷ ys))
  unfolding times node_link
  node_link-IsList = record {
    chain = Linked-join linked.store 0 0 xs (n ∷ ys) front (
      ne,
      (
        linked_prev before n behind w n_before n_behind n ∙ rw (==_refl n) refl,
        (linked_next before n behind w n_before n_behind n ∙ rw (==_refl n) refl, back),
      ),
    );
    head =
        ap (λ (h : ℕ). if before == 0 then n else h) l.head
        ∙ (head_lem w.store behind n xs ys parts.0 ∙ sym (first_or-append 0 xs (n ∷ ys)));
    tail =
        ap (λ (t : ℕ). if behind == 0 then n else t) l.tail
        ∙ (tail_lem w.store before n xs ys parts.1 ∙ sym (last_or-append 0 n xs ys));
    size = omega (arith, l.size, length-append xs ys, length-append xs (n ∷ ys), room);
    once = λ a.
        ground (arith, times-append a xs (n ∷ ys), times-append a xs ys, l.once a, out, ==_iff a n);
    few = omega (arith, length-append xs ys, length-append xs (n ∷ ys), room);
  }

pub put_node-IsList :
    (s : Store) (l : Handle) (xs : List ℕ) (n : ℕ) (node : Node)
    → times n xs ≡ 0
    → IsList s l xs
    → IsList (put_node s n node) l xs
put_node-IsList s l xs n node out v =
    let same : (a : ℕ) → 0 < times a xs → (a == n) ≡ false =
      λ a m. ground (arith, apart n a xs out m) in
    record {
      chain =
          Linked-frame s (put_node s n node) 0 0 xs (λ a m. rw (same a m) refl)
            (λ a m. rw (same a m) refl) v.chain;
      head = v.head;
      tail = v.tail;
      size = v.size;
      once = v.once;
      few = v.few;
    }
