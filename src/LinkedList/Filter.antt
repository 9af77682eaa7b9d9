-- ===== src/LinkedList/Filter.antt =====
-- `list_remove_all`: the loop that removes nodes while it walks.
use munt3os.Base.{
  ℕ, zero, suc, ◌+◌, ◌^◌, ◌≤◌, ◌<◌, ◌≡◌, refl, sym, ap, ap₂, ◌∙◌, ◌≢◌, inl, inr, Bool, true, false,
  List, [], ◌∷◌, ◌++◌, append_assoc, arith, ◌==◌, if◌then◌else◌, Bool-cases, length, add_u32,
}
use mathlib.Core.Path.{subst}
use munt3os.LinkedList.{Node, Store, World, list_remove, remove_all_from, list_remove_all}
use munt3os.LinkedList.Links.{times, first_or, IsList, times-append, times_self, Linked-split}
use munt3os.LinkedList.Remove.{Removed, list_remove-Removed}

-- The nodes that a predicate on values keeps.
abbrev pub kept : (ℕ → Bool) → Store → List ℕ → List ℕ
kept pred s [] = []
kept pred s (x ∷ xs) = if pred (s x).value then kept pred s xs else x ∷ kept pred s xs

kept_congr :
    (pred : ℕ → Bool) (s t : Store) (xs : List ℕ)
    → ((a : ℕ) → 0 < times a xs → (t a).value ≡ (s a).value)
    → kept pred t xs ≡ kept pred s xs
unfolding times
kept_congr pred s t [] same = refl
kept_congr pred s t (x ∷ xs) same =
    let rest = kept_congr pred s t xs (λ a m. same a (omega (arith, m))) in
    ap₂ (λ (v : ℕ) (zs : List ℕ). if pred v then zs else x ∷ zs) (same x (times_self x xs)) rest

times-kept :
    (pred : ℕ → Bool) (s : Store) (a : ℕ) (xs : List ℕ) → times a (kept pred s xs) ≤ times a xs
unfolding times
times-kept pred s a [] = omega arith
times-kept pred s a (x ∷ xs) = elim (Bool-cases (pred (s x).value)) [
  | inl hit ↦ rw hit (omega (arith, times-kept pred s a xs))
  | inr miss ↦ rw miss (omega (arith, times-kept pred s a xs))
]

-- What a run of the loop over `rest` leaves behind the nodes of `front`.
pub record Filtered (pred : ℕ → Bool) (w : World) (front rest : List ℕ) (count : ℕ) (r : ℕ × World)
    : Type 0 where
  pub valid : IsList r.1.store r.1.list (front ++ kept pred w.store rest)
  pub counted : r.0 + length (kept pred w.store rest) ≡ count + length rest
  pub values :
      (a : ℕ)
      → 0 < times a (front ++ kept pred w.store rest)
      → (r.1.store a).value ≡ (w.store a).value

module _ (junk : Node) (pred : ℕ → Bool) where
  next_of :
      (w : World) (front xs : List ℕ) (x : ℕ)
      → IsList w.store w.list (front ++ (x ∷ xs))
      → (w.store x).next ≡ first_or 0 xs
  next_of w front xs x l = (Linked-split w.store 0 0 front (x ∷ xs) l.chain).1.1.1.0

  -- The loop stops at the end of the list at once.
  at_end : (n count : ℕ) (w : World) → remove_all_from junk pred n 0 count w ≡ (count, w)
  unfolding remove_all_from
  at_end zero count w = refl
  at_end (suc n) count w = refl

  step_gone :
      (n x count : ℕ) (w : World)
      → x ≢ 0
      → pred (w.store x).value ≡ true
      → remove_all_from junk pred (suc n) x count w
        ≡ remove_all_from junk pred n (w.store x).next (add_u32 count 1) (list_remove junk x w)
  unfolding remove_all_from
  step_gone n x count w ne hit =
      let some_node : (x == 0) ≡ false = ground (arith, ne) in
      rw (remove_all_from, some_node, hit) refl

  step_kept :
      (n x count : ℕ) (w : World)
      → x ≢ 0
      → pred (w.store x).value ≡ false
      → remove_all_from junk pred (suc n) x count w
        ≡ remove_all_from junk pred n (w.store x).next count w
  unfolding remove_all_from
  step_kept n x count w ne miss =
      let some_node : (x == 0) ≡ false = ground (arith, ne) in
      rw (remove_all_from, some_node, miss) refl

  -- The node at the front of the rest is gone, and the rest filtered.
  after_gone :
      (w w1 : World) (front xs : List ℕ) (x count : ℕ) (r : ℕ × World)
      → pred (w.store x).value ≡ true
      → count + 1 < 2 ^ 32
      → Removed w x (front ++ xs) w1
      → Filtered pred w1 front xs (add_u32 count 1) r
      → Filtered pred w front (x ∷ xs) count r
  after_gone w w1 front xs x count r hit room gone f =
      let same : kept pred w1.store xs ≡ kept pred w.store xs =
        kept_congr pred w.store w1.store xs
          (λ a m. gone.values a (omega (arith, m, times-append a front xs))) in
      let all : kept pred w.store (x ∷ xs) ≡ kept pred w.store xs = rw hit refl in
      let same_all = same ∙ sym all in
      record {
        valid = subst (λ (zs : List ℕ). IsList r.1.store r.1.list (front ++ zs)) same_all f.valid;
        counted = omega (arith, f.counted, ap length same_all, room);
        values = λ a m.
            let m1 : 0 < times a (front ++ kept pred w1.store xs) =
              omega (arith, m, ap (λ (zs : List ℕ). times a (front ++ zs)) same_all) in
            f.values a m1
            ∙ gone.values a (
                omega (
                  arith,
                  m1,
                  times-append a front (kept pred w1.store xs),
                  times-append a front xs,
                  times-kept pred w1.store a xs,
                ));
      }

  after_kept :
      (w : World) (front xs : List ℕ) (x count : ℕ) (r : ℕ × World)
      → pred (w.store x).value ≡ false
      → Filtered pred w (front ++ (x ∷ [])) xs count r
      → Filtered pred w front (x ∷ xs) count r
  after_kept w front xs x count r miss f =
      let all : x ∷ kept pred w.store xs ≡ kept pred w.store (x ∷ xs) = rw miss refl in
      let same : (front ++ (x ∷ [])) ++ kept pred w.store xs ≡ front ++ kept pred w.store (x ∷ xs) =
        append_assoc front (x ∷ []) (kept pred w.store xs)
        ∙ ap (λ (zs : List ℕ). front ++ zs) all in
      record {
        valid = subst (λ (zs : List ℕ). IsList r.1.store r.1.list zs) same f.valid;
        counted = omega (arith, f.counted, ap length all);
        values = λ a m. f.values a (omega (arith, m, ap (times a) same));
      }

  remove_all_from-Filtered :
      (n : ℕ) (front rest : List ℕ) (count : ℕ) (w : World)
      → IsList w.store w.list (front ++ rest)
      → length rest ≤ n
      → count + length rest < 2 ^ 32
      → Filtered pred w front rest count (remove_all_from junk pred n (first_or 0 rest) count w)
  remove_all_from-Filtered n front [] count w l fuel room =
      subst (λ (r : ℕ × World). Filtered pred w front [] count r) (sym (at_end n count w))
        (record { valid = l; counted = refl; values = λ a m. refl })
  remove_all_from-Filtered zero front (x ∷ xs) count w l fuel room = absurd (omega arith)
  remove_all_from-Filtered (suc n) front (x ∷ xs) count w l fuel room =
      let ne : x ≢ 0 = (Linked-split w.store 0 0 front (x ∷ xs) l.chain).1.0 in
      let next = next_of w front xs x l in
      elim (Bool-cases (pred (w.store x).value)) [
        | inl hit ↦
            let w1 = list_remove junk x w in
            let gone = list_remove-Removed junk w front xs x l in
            let rest =
              remove_all_from-Filtered n front xs (add_u32 count 1) w1 gone.valid
                (omega (arith, fuel)) (omega (arith, room)) in
            let e =
              step_gone n x count w ne hit
              ∙ ap (λ (c : ℕ). remove_all_from junk pred n c (add_u32 count 1) w1) next in
            subst (λ (r : ℕ × World). Filtered pred w front (x ∷ xs) count r) (sym e)
              (after_gone w w1 front xs x count _ hit (omega (arith, room)) gone rest)
        | inr miss ↦
            let same = append_assoc front (x ∷ []) xs in
            let rest =
              remove_all_from-Filtered n (front ++ (x ∷ [])) xs count w
                (subst (λ (zs : List ℕ). IsList w.store w.list zs) (sym same) l)
                (omega (arith, fuel)) (omega (arith, room)) in
            let e =
              step_kept n x count w ne miss
              ∙ ap (λ (c : ℕ). remove_all_from junk pred n c count w) next in
            subst (λ (r : ℕ × World). Filtered pred w front (x ∷ xs) count r) (sym e)
              (after_kept w front xs x count _ miss rest)
      ]

  -- `list_remove_all` leaves the list of the nodes whose values the predicate refuses, in their order and
  -- with their values, whatever a freed node holds, and returns how many it removed.
  pub list_remove_all-Filtered :
      (w : World) (xs : List ℕ)
      → IsList w.store w.list xs
      → Filtered pred w [] xs 0 (list_remove_all junk pred w)
  unfolding list_remove_all
  list_remove_all-Filtered w xs l =
      subst (λ (r : ℕ × World). Filtered pred w [] xs 0 r)
        (ap₂ (λ (n h : ℕ). remove_all_from junk pred n h 0 w) (sym l.size) (sym l.head))
        (remove_all_from-Filtered (length xs) [] xs 0 w l (omega arith) (omega (arith, l.few)))
