-- ===== src/HashMap/Move.antt =====
-- `rehash`: the entries move to a table of another capacity, and every key keeps its value.
use munt3os.Base.{
  ℕ, zero, suc, ◌+◌, ◌%◌, ◌≤◌, ◌<◌, ◌≡◌, refl, sym, ap, ◌∙◌, ◌≢◌, ◌⊎◌, true, Option, none, some,
  List, [], ◌∷◌, map, arith, length, get_or, set, replicate, length-replicate, get_or-replicate,
}
use munt3os.HashMap.{Entry, Chain, HashMap, hash_str, move_entry, move_chain, move_all, rehash}
use munt3os.HashMap.Chain.{IsHashed, look, occurrences, look-none}
use mathlib.Core.Path.{subst}
use munt3os.HashMap.Key.{key_eq_refl}
use munt3os.HashMap.Table.{
  home, Placed, view, held, total, grown, grown-Placed, grown-view, grown-held, grown-total,
}

abbrev pub or_else : Option ℕ → Option ℕ → Option ℕ
or_else none y = y
or_else (some x) y = some x

or_else-none : (o : Option ℕ) → or_else o none ≡ o
or_else-none none = refl
or_else-none (some x) = refl

pub occurrences_all : List ℕ → List Chain → ℕ
occurrences_all q [] = 0
occurrences_all q (c ∷ cs) = occurrences q c + occurrences_all q cs

pub look_all : List ℕ → List Chain → Option ℕ
look_all q [] = none
look_all q (c ∷ cs) = or_else (look q c) (look_all q cs)

look_all-none : (q : List ℕ) (cs : List Chain) → occurrences_all q cs ≡ 0 → look_all q cs ≡ none
unfolding look_all occurrences_all
look_all-none q [] h = refl
look_all-none q (c ∷ cs) h = ground (arith, look-none q c, look_all-none q cs)

-- `bs'` is `bs` with `n` entries more, which map `q` to `f q` and occur `w q` times.
pub record Moved (cap : ℕ) (bs bs' : List Chain) (f : List ℕ → Option ℕ) (w : List ℕ → ℕ) (n : ℕ)
    : Type 0 where
  pub placed : Placed cap bs'
  pub reads : (q : List ℕ) → view cap bs' q ≡ or_else (f q) (view cap bs q)
  pub holds : (q : List ℕ) → held cap bs' q ≡ w q + held cap bs q
  pub count : total bs' ≡ total bs + n

-- Disjoint entries may be moved in two parts.
Moved-join :
    (cap : ℕ) {a b c : List Chain} (f g : List ℕ → Option ℕ) (w u : List ℕ → ℕ) (m n : ℕ)
    → ((q : List ℕ) → (f q ≡ none) ⊎ (g q ≡ none))
    → Moved cap a b f w m
    → Moved cap b c g u n
    → Moved cap a c (λ q. or_else (f q) (g q)) (λ q. w q + u q) (m + n)
Moved-join cap f g w u m n apart first second = record {
  placed = second.placed;
  reads = λ q. second.reads q ∙ (ap (or_else (g q)) (first.reads q) ∙ ground (arith, apart q));
  holds = λ q. omega (arith, second.holds q, first.holds q);
  count = omega (arith, second.count, first.count);
}

module _ (cap : ℕ) (positive : 0 < cap) where
  move_entry-Moved :
      (e : Entry) (bs : List Chain)
      → Placed cap bs
      → e.hash ≡ hash_str e.key
      → view cap bs e.key ≡ none
      → Moved cap bs (move_entry cap e bs) (λ q. look q (e ∷ [])) (λ q. occurrences q (e ∷ [])) 1
  unfolding move_entry look occurrences
  move_entry-Moved e bs p h absent =
      let to_home : set bs (e.hash % cap) (e ∷ get_or bs (e.hash % cap) [])
          ≡ grown cap bs positive p e h absent =
        ap (λ (t : ℕ). set bs (t % cap) (e ∷ get_or bs (t % cap) [])) h in
      let m : Moved cap bs (grown cap bs positive p e h absent) (λ q. look q (e ∷ []))
          (λ q. occurrences q (e ∷ [])) 1 =
        record {
          placed = grown-Placed cap bs positive p e h absent;
          reads = λ q. ground (arith, grown-view cap bs positive p e h absent q);
          holds = λ q. omega (arith, grown-held cap bs positive p e h absent q);
          count = grown-total cap bs positive p e h absent;
        } in
      subst (λ b. Moved cap bs b (λ q. look q (e ∷ [])) (λ q. occurrences q (e ∷ [])) 1)
        (sym to_home) m

  move_chain-Moved :
      (es : Chain) (bs : List Chain)
      → Placed cap bs
      → IsHashed es
      → ((q : List ℕ) → occurrences q es + held cap bs q ≤ 1)
      → Moved cap bs (move_chain cap es bs) (λ q. look q es) (λ q. occurrences q es) (length es)
  unfolding move_chain look occurrences
  move_chain-Moved [] bs p h apart = record {
    placed = p;
    reads = λ q. refl;
    holds = λ q. omega arith;
    count = omega arith;
  }
  move_chain-Moved (e ∷ es) bs p h apart =
      let alone : occurrences e.key (e ∷ []) ≡ 1 = ground (arith, key_eq_refl e.key) in
      let absent : view cap bs e.key ≡ none =
        look-none e.key (get_or bs (home e.key cap) [])
          (ground (arith, apart e.key, key_eq_refl e.key)) in
      let first = move_entry-Moved e bs p h.0 absent in
      let bs' = move_entry cap e bs in
      let rest =
        move_chain-Moved es bs' first.placed h.1 (λ q. omega (arith, apart q, first.holds q)) in
      let both =
        Moved-join cap (λ q. look q (e ∷ [])) (λ q. look q es) (λ q. occurrences q (e ∷ []))
          (λ q. occurrences q es) 1 (length es) (λ q. ground (arith, apart q, look-none q es)) first
          rest in
      record {
        placed = both.placed;
        reads = λ q. ground (arith, both.reads q);
        holds = λ q. omega (arith, both.holds q);
        count = omega (arith, both.count);
      }

  move_all-Moved :
      (cs bs : List Chain)
      → Placed cap bs
      → ((i : ℕ) → IsHashed (get_or cs i []))
      → ((q : List ℕ) → occurrences_all q cs + held cap bs q ≤ 1)
      → Moved cap bs
          (move_all cap cs bs)
          (λ q. look_all q cs)
          (λ q. occurrences_all q cs)
          (total cs)
  unfolding move_all look_all occurrences_all total
  move_all-Moved [] bs p h apart = record {
    placed = p;
    reads = λ q. refl;
    holds = λ q. omega arith;
    count = omega arith;
  }
  move_all-Moved (c ∷ cs) bs p h apart =
      let first = move_chain-Moved c bs p (h 0) (λ q. omega (arith, apart q)) in
      let rest =
        move_all-Moved cs (move_chain cap c bs) first.placed (λ i. h (suc i))
          (λ q. omega (arith, apart q, first.holds q)) in
      Moved-join cap (λ q. look q c) (λ q. look_all q cs) (λ q. occurrences q c)
        (λ q. occurrences_all q cs) (length c) (total cs)
        (λ q. ground (arith, apart q, look-none q c, look_all-none q cs)) first rest

-- A key that stands in no chain but the one at `j`.
module _ (q : List ℕ) where
  nowhere :
      (cs : List Chain)
      → ((i : ℕ) → occurrences q (get_or cs i []) ≡ 0)
      → (occurrences_all q cs ≡ 0) × (look_all q cs ≡ none)
  unfolding look_all occurrences_all
  nowhere [] h = (refl, refl)
  nowhere (c ∷ cs) h =
      let (zero_rest, none_rest) = nowhere cs (λ i. h (suc i)) in
      (omega (arith, h 0), rw (look-none q c (h 0)) none_rest)

  only_at :
      (cs : List Chain) (j : ℕ)
      → ((i : ℕ) → j ≢ i → occurrences q (get_or cs i []) ≡ 0)
      → (occurrences_all q cs ≡ occurrences q (get_or cs j []))
        × (look_all q cs ≡ look q (get_or cs j []))
  unfolding look_all occurrences_all look occurrences
  only_at [] j h = (refl, refl)
  only_at (c ∷ cs) zero h =
      let (zero_rest, none_rest) = nowhere cs (λ i. h (suc i) (omega arith)) in
      (omega arith, rw none_rest (or_else-none (look q c)))
  only_at (c ∷ cs) (suc j) h =
      let here = h 0 (omega arith) in
      let (count, found) = only_at cs j (λ i ne. h (suc i) (omega arith)) in
      (omega arith, rw (look-none q c here) found)

pub replicate_read : (n i : ℕ) → get_or {A = Chain} (replicate n []) i [] ≡ []
replicate_read n i = get_or-replicate {A = Chain} n i []

pub empty-Placed : (cap : ℕ) → Placed cap (replicate cap [])
unfolding occurrences
empty-Placed cap = record {
  width = length-replicate cap [];
  hashed = λ i. rw (replicate_read cap i) tt;
  once = λ q i. rw (replicate_read cap i) (omega arith);
  at_home = λ q i ne. rw (replicate_read cap i);
}

pub total-replicate : (n : ℕ) → total (replicate n []) ≡ 0
unfolding total
total-replicate zero = refl
total-replicate (suc n) = omega (arith, total-replicate n)

-- `rehash` with memory for the new table keeps every key's value and the number of entries.
pub rehash_lem :
    (map : HashMap) (new_cap : ℕ)
    → 0 < new_cap
    → Placed map.capacity map.buckets
    → let map' = (rehash true map new_cap).1 in
      Placed new_cap map'.buckets
      × ((q : List ℕ) → view new_cap map'.buckets q ≡ view map.capacity map.buckets q)
      × (total map'.buckets ≡ total map.buckets)
unfolding rehash look occurrences
rehash_lem map new_cap positive p =
    let start = replicate new_cap [] in
    let gathered =
      λ (q : List ℕ). only_at q map.buckets (home q map.capacity) (λ i ne. p.at_home q i ne) in
    let none_yet = λ (q : List ℕ). replicate_read new_cap (home q new_cap) in
    let zero_held : (q : List ℕ) → held new_cap start q ≡ 0 = λ q. rw (none_yet q) in
    let nothing : (q : List ℕ) → view new_cap start q ≡ none = λ q. rw (none_yet q) in
    let m =
      move_all-Moved new_cap positive map.buckets start (empty-Placed new_cap) p.hashed
        (λ q. omega (arith, (gathered q).0, p.once q (home q map.capacity), zero_held q)) in
    (
      m.placed,
      λ q.
          m.reads q
          ∙ (ap (or_else (look_all q map.buckets)) (nothing q) ∙ (or_else-none _ ∙ (gathered q).1)),
      omega (arith, m.count, total-replicate new_cap),
    )
