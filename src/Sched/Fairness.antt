-- ===== src/Sched/Fairness.antt =====
-- Every thread that runs gets its turn.
use munt3os.Base.{
  ℕ, ◌+◌, ◌≤◌, ◌<◌, ◌≡◌, refl, sym, ap, ◌∙◌, ◌≢◌, ◌⊎◌, inl, inr, true, false, none, List, [], ◌∷◌,
  ◌++◌, append_assoc, arith, ◌==◌, length, length-append, append-split,
}
use munt3os.Sched.{Thread, Sched, is_running, find_thread, at, tick}
use mathlib.Core.Path.{subst}
use munt3os.Sched.Ring.{some_running, some_running-append}
use munt3os.Sched.Steps.{Switched, tick-Switched}
use munt3os.Sched.Rotation.{saved, Same, saved_last, rotated, in_view}
use munt3os.Sched.Valid.{one_if}

-- How many threads lie at the address.
unfoldable pub with_address : ℕ → List Thread → ℕ
with_address a [] = 0
with_address a (t ∷ ts) = one_if (t.address == a) + with_address a ts

-- The threads lie at different addresses, none at NULL, and the current one is in the ring.
pub record InRing (s : Sched) : Type 0 where
  pub once : (a : ℕ) → with_address a s.queue ≤ 1
  pub no_null : with_address 0 s.queue ≡ 0
  pub before : List Thread
  pub cur : Thread
  pub after : List Thread
  pub split : s.queue ≡ before ++ (cur ∷ after)
  pub here : cur.address ≡ s.current

-- One tick for each saved stack pointer; after one of them the thread at `a` is the current one.
abbrev pub Chosen : ℕ → List ℕ → Sched → Type 0
Chosen a [] s = ⊥
Chosen a (rsp ∷ rest) s = let s' = (tick rsp s).1 in (s'.current ≡ a) ⊎ Chosen a rest s'

with_address-append :
    (a : ℕ) (xs ys : List Thread)
    → with_address a (xs ++ ys) ≡ with_address a xs + with_address a ys
unfolding with_address
with_address-append a [] ys = omega arith
with_address-append a (x ∷ xs) ys = omega (arith, with_address-append a xs ys)

find_thread-at : (a : ℕ) (ts : List Thread) → with_address a ts ≡ 0 → find_thread (at a) ts ≡ none
unfolding with_address find_thread
find_thread-at a [] absent = refl
find_thread-at a (t ∷ ts) absent =
    let other : (t.address == a) ≡ false = ground (arith, absent) in
    rw other (find_thread-at a ts (omega (arith, absent)))

-- The ring behind the current thread, up to a thread that runs, with fewer than `n` threads before it.
record Closer (s : Sched) (t : Thread) (n : ℕ) : Type 0 where
  pub valid : InRing s
  pub thread : Thread
  pub skipped : List Thread
  pub rest : List Thread
  pub place : valid.after ++ (valid.before ++ (valid.cur ∷ [])) ≡ skipped ++ (thread ∷ rest)
  pub same : Same t thread
  pub nearer : length skipped < n

some_running-here :
    (xs ys : List Thread) (t : Thread)
    → is_running t.state ≡ true
    → some_running (xs ++ (t ∷ ys)) ≡ true
unfolding some_running
some_running-here xs ys t runs = ground (arith, some_running-append xs (t ∷ ys), runs)

module _ (rsp : ℕ) (s : Sched) (v : InRing s) where
  abbrev moved : Thread → Sched
  moved next = record s { queue = v.before ++ (saved rsp v.cur ∷ v.after); current = next.address }

  same_addresses :
      (a : ℕ) → with_address a (v.before ++ (saved rsp v.cur ∷ v.after)) ≡ with_address a s.queue
  unfolding with_address
  same_addresses a =
      with_address-append a v.before (saved rsp v.cur ∷ v.after)
      ∙ sym (ap (with_address a) v.split ∙ with_address-append a v.before (v.cur ∷ v.after))

  moved-InRing :
      (next : Thread) (skipped rest : List Thread)
      → v.after ++ (v.before ++ (saved rsp v.cur ∷ [])) ≡ skipped ++ (next ∷ rest)
      → (w : InRing (moved next)) × (w.after ++ (w.before ++ (w.cur ∷ []))
          ≡ rest ++ (skipped ++ (next ∷ [])))
  moved-InRing next skipped rest order =
      let (b, a, split, view) =
        rotated v.before v.after skipped rest (saved rsp v.cur) next order in
      (
        record {
          once = λ k. omega (arith, same_addresses k, v.once k);
          no_null = same_addresses 0 ∙ v.no_null;
          before = b;
          cur = next;
          after = a;
          split = split;
          here = refl;
        },
        view,
      )

  switched :
      (t : Thread) (xs ys : List Thread)
      → v.after ++ (v.before ++ (v.cur ∷ [])) ≡ xs ++ (t ∷ ys)
      → is_running t.state ≡ true
      → Switched rsp s v.before v.after v.cur
  unfolding with_address some_running
  switched t xs ys place runs =
      let all : some_running (v.after ++ (v.before ++ (v.cur ∷ []))) ≡ true =
        ap some_running place ∙ some_running-here xs ys t runs in
      let passed : with_address s.current v.before ≡ 0 = ground (
        arith,
        v.once s.current,
        ap (with_address s.current) v.split,
        with_address-append s.current v.before (v.cur ∷ v.after),
        v.here,
      ) in
      let ne : s.current ≢ 0 = ground (
        arith,
        v.no_null,
        ap (with_address 0) v.split,
        with_address-append 0 v.before (v.cur ∷ v.after),
        v.here,
      ) in
      tick-Switched rsp s v.before v.after v.cur v.split (find_thread-at s.current v.before passed)
        v.here ne
        (ground (
          arith,
          all,
          ap some_running v.split,
          some_running-append v.before (v.cur ∷ v.after),
          some_running-append v.after (v.before ++ (v.cur ∷ [])),
          some_running-append v.before (v.cur ∷ []),
        ))

  -- A tick goes on with the thread, or it brings the thread nearer.
  tick-Closer :
      (t : Thread) (xs ys : List Thread)
      → v.after ++ (v.before ++ (v.cur ∷ [])) ≡ xs ++ (t ∷ ys)
      → is_running t.state ≡ true
      → let s' = (tick rsp s).1 in (s'.current ≡ t.address) ⊎ Closer s' t (length xs)
  unfolding some_running
  tick-Closer t xs ys place runs =
      let sw = switched t xs ys place runs in
      let f = sw.chosen in
      let (t', ys', place', same) =
        saved_last rsp (v.after ++ v.before) xs ys v.cur t runs
          (append_assoc v.after v.before (v.cur ∷ []) ∙ place) in
      let order = sym place' ∙ (append_assoc v.after v.before (saved rsp v.cur ∷ []) ∙ f.order) in
      elim (append-split xs f.skipped (t' ∷ ys') f.rest sw.next order) [
        | inl (r, p, q) ↦ inr (closer t' ys' same sw r p q)
        | inr (r, p, q) ↦ turn t' ys' same sw r p q
      ]
    where
      after_tick : (sw : Switched rsp s v.before v.after v.cur) → (tick rsp s).1 ≡ moved sw.next
      after_tick sw = ap (λ (r : ℕ × Sched). r.1) sw.result

      turn :
          (t' : Thread) (ys' : List Thread)
          → Same t t'
          → (sw : Switched rsp s v.before v.after v.cur) (r : List Thread)
          → sw.chosen.skipped ≡ xs ++ r
          → t' ∷ ys' ≡ r ++ (sw.next ∷ sw.chosen.rest)
          → let s' = (tick rsp s).1 in (s'.current ≡ t.address) ⊎ Closer s' t (length xs)
      turn t' ys' same sw [] p q =
          let next : sw.next ≡ t' = cc in
          inl (
            ap (λ (k : Sched). k.current) (after_tick sw)
            ∙ (ap (λ (u : Thread). u.address) next ∙ same.address))
      turn t' ys' same sw (x ∷ r) p q =
          let first : x ≡ t' = cc in
          absurd (
            ground (
              arith,
              sw.chosen.stopped,
              ap some_running p,
              some_running-here xs r x
                  (ap (λ (u : Thread). is_running u.state) first ∙ same.running),
            ))

      closer :
          (t' : Thread) (ys' : List Thread)
          → Same t t'
          → (sw : Switched rsp s v.before v.after v.cur) (r : List Thread)
          → xs ≡ sw.chosen.skipped ++ (sw.next ∷ r)
          → sw.chosen.rest ≡ r ++ (t' ∷ ys')
          → Closer (tick rsp s).1 t (length xs)
      closer t' ys' same sw r p q =
          let f = sw.chosen in
          let (w, view) = moved-InRing sw.next f.skipped f.rest f.order in
          subst (λ (k : Sched). Closer k t (length xs)) (sym (after_tick sw))
            (record {
              valid = w;
              thread = t';
              skipped = r;
              rest = ys' ++ (f.skipped ++ (sw.next ∷ []));
              place =
                  view
                  ∙ (ap (λ (l : List Thread). l ++ (f.skipped ++ (sw.next ∷ []))) q
                      ∙ append_assoc r (t' ∷ ys') (f.skipped ++ (sw.next ∷ [])));
              same = same;
              nearer = omega (arith, ap length p, length-append f.skipped (sw.next ∷ r));
            })

-- The thread behind `xs` in the ring waits for at most that many ticks more.
Chosen-within :
    (rsps : List ℕ) (s : Sched) (v : InRing s) (t : Thread) (xs ys : List Thread)
    → v.after ++ (v.before ++ (v.cur ∷ [])) ≡ xs ++ (t ∷ ys)
    → is_running t.state ≡ true
    → length xs < length rsps
    → Chosen t.address rsps s
Chosen-within [] s v t xs ys place runs enough = absurd (omega (arith, enough))
Chosen-within (rsp ∷ rsps) s v t xs ys place runs enough =
    elim (tick-Closer rsp s v t xs ys place runs) [
      | inl turn ↦ inl turn
      | inr c ↦ inr (
          subst (λ (a : ℕ). Chosen a rsps (tick rsp s).1) c.same.address
            (Chosen-within rsps (tick rsp s).1 c.valid c.thread c.skipped c.rest c.place
              c.same.running (omega (arith, c.nearer, enough))))
    ]

-- A thread of the ring that runs becomes the current one within as many ticks as the ring has threads,
-- if no other call comes between them, whatever stack pointers the ticks save: where the threads lie at
-- different addresses, none at NULL, and the current one is in the ring.
pub tick-Chosen :
    (rsps : List ℕ) (s : Sched) (xs ys : List Thread) (t : Thread)
    → InRing s
    → s.queue ≡ xs ++ (t ∷ ys)
    → is_running t.state ≡ true
    → length s.queue ≤ length rsps
    → Chosen t.address rsps s
tick-Chosen rsps s xs ys t v place runs enough =
    let (skipped, rest, view) = in_view v.before v.after xs ys v.cur t (sym v.split ∙ place) in
    Chosen-within rsps s v t skipped rest view runs (
      omega (
        arith,
        enough,
        ap length v.split,
        ap length view,
        length-append v.before (v.cur ∷ v.after),
        length-append v.after (v.before ++ (v.cur ∷ [])),
        length-append v.before (v.cur ∷ []),
        length-append skipped (t ∷ rest),
      ))
