-- ===== src/LinkedList/Reverse.antt =====
-- `list_reverse` and the order of the nodes.
use munt3os.Base.{
  ℕ, zero, suc, ◌+◌, ◌≤◌, ◌<◌, ◌≡◌, refl, sym, ap, ap₂, ◌∙◌, false, List, [], ◌∷◌, arith, ◌==◌,
  ==_iff, ==_refl, length,
}
use mathlib.Core.Path.{subst}
use munt3os.LinkedList.{Node, Store, World, set_prev, set_next, reverse_from, list_reverse}
use munt3os.LinkedList.Links.{times, first_or, last_or, Linked, IsList, apart, Linked-frame}

abbrev pub reverse_onto : List ℕ → List ℕ → List ℕ
reverse_onto [] ds = ds
reverse_onto (x ∷ xs) ds = reverse_onto xs (x ∷ ds)

first_or-reverse_onto :
    (xs ds : List ℕ) → first_or 0 (reverse_onto xs ds) ≡ last_or (first_or 0 ds) xs
first_or-reverse_onto [] ds = refl
first_or-reverse_onto (x ∷ xs) ds = first_or-reverse_onto xs (x ∷ ds)

last_or-reverse_onto :
    (xs ds : List ℕ) (d : ℕ) → last_or 0 (reverse_onto xs (d ∷ ds)) ≡ last_or d ds
last_or-reverse_onto [] ds d = refl
last_or-reverse_onto (x ∷ xs) ds d = last_or-reverse_onto xs (d ∷ ds) x

last_or-reverse : (xs : List ℕ) → last_or 0 (reverse_onto xs []) ≡ first_or 0 xs
last_or-reverse [] = refl
last_or-reverse (x ∷ xs) = last_or-reverse_onto xs [] x

times-reverse_onto :
    (a : ℕ) (xs ds : List ℕ) → times a (reverse_onto xs ds) ≡ times a xs + times a ds
unfolding times
times-reverse_onto a [] ds = omega arith
times-reverse_onto a (x ∷ xs) ds = omega (arith, times-reverse_onto a xs (x ∷ ds))

length-reverse_onto : (xs ds : List ℕ) → length (reverse_onto xs ds) ≡ length xs + length ds
length-reverse_onto [] ds = omega arith
length-reverse_onto (x ∷ xs) ds = omega (arith, length-reverse_onto xs (x ∷ ds))

-- One round: the links of the node at `x` change places.
abbrev swapped : Store → ℕ → Store
swapped s x = set_prev (set_next s x (s x).prev) x (s x).next

module _ (s : Store) (x : ℕ) where
  swapped_other : (a : ℕ) → (a == x) ≡ false → swapped s x a ≡ s a
  swapped_other a other = rw other refl

  swapped_prev : (swapped s x x).prev ≡ (s x).next
  swapped_prev = rw (==_refl x) refl

  swapped_next : (swapped s x x).next ≡ (s x).prev
  swapped_next = rw (==_refl x) refl

  swapped_value : (a : ℕ) → (swapped s x a).value ≡ (s a).value
  swapped_value a = ground (arith, ==_iff a x)

  -- A segment without the node stays as it is.
  swapped-Linked :
      (p q : ℕ) (xs : List ℕ) → times x xs ≡ 0 → Linked s p xs q → Linked (swapped s x) p xs q
  swapped-Linked p q xs out l =
      let same =
        λ (a : ℕ) (m : 0 < times a xs). swapped_other a (ground (arith, apart x a xs out m)) in
      Linked-frame s (swapped s x) p q xs (λ a m. ap (λ (n : Node). n.prev) (same a m))
        (λ a m. ap (λ (n : Node). n.next) (same a m)) l

pub record Reversed (s : Store) (xs ds : List ℕ) (t : Store) : Type 0 where
  pub chain : Linked t 0 (reverse_onto xs ds) 0
  pub values : (a : ℕ) → (t a).value ≡ (s a).value

step_eq :
    (n : ℕ) (s : Store) (x : ℕ)
    → (x == 0) ≡ false
    → reverse_from (suc n) s x ≡ reverse_from n (swapped s x) (s x).next
unfolding reverse_from
step_eq n s x some_node = rw some_node refl

-- The nodes of `ds` are turned round, those of `xs` are not yet.
reverse_from-Reversed :
    (n : ℕ) (s : Store) (xs ds : List ℕ)
    → length xs ≤ n
    → ((a : ℕ) → times a xs + times a ds ≤ 1)
    → Linked s (first_or 0 xs) ds 0
    → Linked s (first_or 0 ds) xs 0
    → Reversed s xs ds (reverse_from n s (first_or 0 xs))
unfolding reverse_from times
reverse_from-Reversed zero s [] ds fuel once turned rest = record {
  chain = turned;
  values = λ a. refl;
}
reverse_from-Reversed (suc n) s [] ds fuel once turned rest = record {
  chain = turned;
  values = λ a. refl;
}
reverse_from-Reversed zero s (x ∷ xs) ds fuel once turned rest = absurd (omega arith)
reverse_from-Reversed (suc n) s (x ∷ xs) ds fuel once turned rest =
    let t = swapped s x in
    let self = ==_refl x in
    let out_xs : times x xs ≡ 0 = ground (arith, self, once x) in
    let out_ds : times x ds ≡ 0 = ground (arith, self, once x) in
    let some_node : (x == 0) ≡ false = ground (arith, rest.0) in
    let back = swapped-Linked s x x 0 ds out_ds turned in
    let here : Linked t (first_or 0 xs) (x ∷ ds) 0 =
      (rest.0, (swapped_prev s x ∙ rest.1.1.0, (swapped_next s x ∙ rest.1.0, back))) in
    let front = swapped-Linked s x x 0 xs out_xs rest.1.1.1 in
    let r =
      reverse_from-Reversed n t xs (x ∷ ds) (omega (arith, fuel)) (λ a. omega (arith, once a)) here
        front in
    let e = step_eq n s x some_node ∙ ap (reverse_from n t) rest.1.1.0 in
    subst (λ (u : Store). Reversed s (x ∷ xs) ds u) (sym e)
      (record { chain = r.chain; values = λ a. r.values a ∙ swapped_value s x a })

-- `list_reverse` leaves the same nodes with the same values, linked in the reverse order.
pub list_reverse_lem :
    (w : World) (xs : List ℕ)
    → IsList w.store w.list xs
    → let w' = list_reverse w in
      IsList w'.store w'.list (reverse_onto xs [])
      × ((a : ℕ) → (w'.store a).value ≡ (w.store a).value)
unfolding list_reverse times
list_reverse_lem w xs l =
    let r =
      reverse_from-Reversed (length xs) w.store xs [] (omega arith) (λ a. omega (arith, l.once a))
        tt l.chain in
    let r' : Reversed w.store xs [] (reverse_from w.list.size w.store w.list.head) =
      subst (λ (t : Store). Reversed w.store xs [] t)
        (ap₂ (λ (n h : ℕ). reverse_from n w.store h) (sym l.size) (sym l.head)) r in
    (
      record {
        chain = r'.chain;
        head = l.tail ∙ sym (first_or-reverse_onto xs []);
        tail = l.head ∙ sym (last_or-reverse xs);
        size = omega (arith, l.size, length-reverse_onto xs []);
        once = λ a. omega (arith, l.once a, times-reverse_onto a xs []);
        few = omega (arith, l.few, length-reverse_onto xs []);
      },
      r'.values,
    )
