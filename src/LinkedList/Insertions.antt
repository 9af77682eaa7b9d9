-- ===== src/LinkedList/Insertions.antt =====
-- The four insertions of a new node.
use munt3os.Base.{
  ℕ, ◌+◌, ◌^◌, ◌<◌, ◌≡◌, refl, sym, ap, ap₂, ◌∙◌, ◌≢◌, false, List, [], ◌∷◌, ◌++◌, append-nil,
  append_assoc, arith, ◌==◌, if◌then◌else◌, length,
}
use mathlib.Core.Path.{subst}
use munt3os.LinkedList.{
  World, node_link, node_alloc, push_front, push_back, insert_before, insert_after,
}
use munt3os.LinkedList.Links.{
  times, first_or, last_or, Linked, IsList, times-append, last_or-append, apart, times_self,
  Linked-split,
}
use munt3os.LinkedList.Insert.{
  node_link-IsList, node_link-value, put_node-IsList, n_before, n_behind,
}

-- A node at `n` with the value stands between the nodes at `xs` and `ys`, whose values are as before.
pub record Inserted (w : World) (n value : ℕ) (xs ys : List ℕ) (done : ℕ × World) : Type 0 where
  pub result : done.0 ≡ n
  pub valid : IsList done.1.store done.1.list (xs ++ (n ∷ ys))
  pub values : (a : ℕ) → (done.1.store a).value ≡ (if a == n then value else (w.store a).value)

module _ (w : World) (n value : ℕ) (ne : n ≢ 0) where
  made_Inserted :
      (xs ys : List ℕ)
      → IsList w.store w.list (xs ++ ys)
      → times n (xs ++ ys) ≡ 0
      → length (xs ++ ys) + 1 < 2 ^ 32
      → Inserted w n value xs ys
          (n, node_link (last_or 0 xs) n (first_or 0 ys) (node_alloc n value w))
  made_Inserted xs ys l out room =
      let made = node_alloc n value w in
      let v =
        put_node-IsList w.store w.list (xs ++ ys) n (record { prev = 0; next = 0; value = value })
          out l in
      record {
        result = refl;
        valid = node_link-IsList made xs ys n v ne out room;
        values = λ a.
            node_link-value (last_or 0 xs) n (first_or 0 ys) made
              (n_before made xs ys n v ne out room) (n_behind made xs ys n v ne out room) a
            ∙ ground arith;
      }

  some_node : (n == 0) ≡ false
  some_node = ground (arith, ne)

  front_eq : push_front n value w ≡ (n, node_link 0 n w.list.head (node_alloc n value w))
  unfolding push_front
  front_eq = rw (push_front, some_node) refl

  back_eq : push_back n value w ≡ (n, node_link w.list.tail n 0 (node_alloc n value w))
  unfolding push_back
  back_eq = rw (push_back, some_node) refl

  pub push_front-Inserted :
      (ys : List ℕ)
      → IsList w.store w.list ys
      → times n ys ≡ 0
      → length ys + 1 < 2 ^ 32
      → Inserted w n value [] ys (push_front n value w)
  push_front-Inserted ys l out room =
      subst (λ (d : ℕ × World). Inserted w n value [] ys d)
        (sym (front_eq ∙ ap (λ (h : ℕ). (n, node_link 0 n h (node_alloc n value w))) l.head))
        (made_Inserted [] ys l out room)

  pub push_back-Inserted :
      (xs : List ℕ)
      → IsList w.store w.list xs
      → times n xs ≡ 0
      → length xs + 1 < 2 ^ 32
      → Inserted w n value xs [] (push_back n value w)
  push_back-Inserted xs l out room =
      let same = sym (append-nil xs) in
      subst (λ (d : ℕ × World). Inserted w n value xs [] d)
        (sym (back_eq ∙ ap (λ (t : ℕ). (n, node_link t n 0 (node_alloc n value w))) l.tail))
        (made_Inserted xs [] (subst (λ (zs : List ℕ). IsList w.store w.list zs) same l)
          (ap (times n) (append-nil xs) ∙ out) (omega (arith, room, ap length (append-nil xs))))

  module _ (anchor : ℕ) (xs ys : List ℕ) (l : IsList w.store w.list (xs ++ (anchor ∷ ys)))
      (out : times n (xs ++ (anchor ∷ ys)) ≡ 0)
      (room : length (xs ++ (anchor ∷ ys)) + 1 < 2 ^ 32) where
    at_anchor : Linked w.store (last_or 0 xs) (anchor ∷ ys) 0
    at_anchor = (Linked-split w.store 0 0 xs (anchor ∷ ys) l.chain).1

    some_anchor : (anchor == 0) ≡ false
    some_anchor = ground (arith, at_anchor.0)

    anchor_n : (anchor == n) ≡ false
    anchor_n = ground (
      arith,
      apart n anchor (anchor ∷ ys) (omega (arith, out, times-append n xs (anchor ∷ ys)))
          (times_self anchor ys),
    )

    before_eq :
        insert_before n anchor value w
        ≡ (n, node_link (w.store anchor).prev n anchor (node_alloc n value w))
    unfolding insert_before
    before_eq = rw (insert_before, some_anchor, some_node, anchor_n) refl

    after_eq :
        insert_after n anchor value w
        ≡ (n, node_link anchor n (w.store anchor).next (node_alloc n value w))
    unfolding insert_after
    after_eq = rw (insert_after, some_anchor, some_node, anchor_n) refl

    pub insert_before-Inserted :
        Inserted w n value xs (anchor ∷ ys) (insert_before n anchor value w)
    insert_before-Inserted =
        subst (λ (d : ℕ × World). Inserted w n value xs (anchor ∷ ys) d)
          (sym (
            before_eq
            ∙ ap (λ (p : ℕ). (n, node_link p n anchor (node_alloc n value w))) at_anchor.1.0))
          (made_Inserted xs (anchor ∷ ys) l out room)

    pub insert_after-Inserted :
        Inserted w n value (xs ++ (anchor ∷ [])) ys (insert_after n anchor value w)
    insert_after-Inserted =
        let zs = xs ++ (anchor ∷ []) in
        let same : zs ++ ys ≡ xs ++ (anchor ∷ ys) = append_assoc xs (anchor ∷ []) ys in
        let last : last_or 0 zs ≡ anchor = last_or-append 0 anchor xs [] in
        subst (λ (d : ℕ × World). Inserted w n value zs ys d)
          (sym (
            after_eq
            ∙ ap₂ (λ (p q : ℕ). (n, node_link p n q (node_alloc n value w))) (sym last)
                at_anchor.1.1.0))
          (made_Inserted zs ys (subst (λ (us : List ℕ). IsList w.store w.list us) (sym same) l)
            (ap (times n) same ∙ out) (omega (arith, room, ap length same)))

-- On a list that holds `anchor`, each of the four insertions of a node at a new address links it in its
-- place: at the front, at the back, before the anchor and behind it. The other nodes keep their order
-- and their values, and the new node's address is returned.
pub insertions_lem :
    (w : World) (n value anchor : ℕ) (xs ys : List ℕ)
    → n ≢ 0
    → IsList w.store w.list (xs ++ (anchor ∷ ys))
    → times n (xs ++ (anchor ∷ ys)) ≡ 0
    → length (xs ++ (anchor ∷ ys)) + 1 < 2 ^ 32
    → Inserted w n value [] (xs ++ (anchor ∷ ys)) (push_front n value w)
      × Inserted w n value (xs ++ (anchor ∷ ys)) [] (push_back n value w)
      × Inserted w n value xs (anchor ∷ ys) (insert_before n anchor value w)
      × Inserted w n value (xs ++ (anchor ∷ [])) ys (insert_after n anchor value w)
insertions_lem w n value anchor xs ys ne l out room = (
  push_front-Inserted w n value ne (xs ++ (anchor ∷ ys)) l out room,
  push_back-Inserted w n value ne (xs ++ (anchor ∷ ys)) l out room,
  insert_before-Inserted w n value ne anchor xs ys l out room,
  insert_after-Inserted w n value ne anchor xs ys l out room,
)
