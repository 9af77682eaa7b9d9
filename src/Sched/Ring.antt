-- ===== src/Sched/Ring.antt =====
-- The searches over the ring by where they stop, and the thread that a tick goes on with.
use munt3os.Base.{
  ℕ, ◌≡◌, refl, sym, ap, ◌∙◌, inl, inr, Bool, true, false, ◌||◌, none, some, List, [], ◌∷◌, ◌++◌,
  append-nil, append_assoc, arith, Bool-cases,
}
use munt3os.Sched.{
  Thread, is_running, find_thread, update_thread, unqueue, at, ring_after, first_running,
}

-- Where a search stops.
pub record Located (p : Thread → Bool) (q : List Thread) (t : Thread) : Type 0 where
  pub before : List Thread
  pub after : List Thread
  pub split : q ≡ before ++ (t ∷ after)
  pub passed : find_thread p before ≡ none
  pub here : p t ≡ true

module _ (p : Thread → Bool) where
  pub locate : (q : List Thread) (t : Thread) → find_thread p q ≡ some t → Located p q t
  unfolding find_thread
  locate [] t e = cc
  locate (x ∷ xs) t e = elim (Bool-cases (p x)) [
    | inl hit ↦
        let same : x ≡ t = ground (arith, hit) in
        record {
          before = [];
          after = xs;
          split = ap (λ (y : Thread). y ∷ xs) same;
          passed = refl;
          here = ap p (sym same) ∙ hit;
        }
    | inr miss ↦
        let l = locate xs t (ground (arith, miss)) in
        record {
          before = x ∷ l.before;
          after = l.after;
          split = ap (λ (ys : List Thread). x ∷ ys) l.split;
          passed = rw miss l.passed;
          here = l.here;
        }
  ]

  pub update_thread-split :
      (f : Thread → Thread) (before after : List Thread) (t : Thread)
      → find_thread p before ≡ none
      → p t ≡ true
      → update_thread p f (before ++ (t ∷ after)) ≡ before ++ (f t ∷ after)
  unfolding find_thread update_thread
  update_thread-split f [] after t e here = rw here
  update_thread-split f (x ∷ xs) after t e here = elim (Bool-cases (p x)) [
    | inl hit ↦ absurd (ground (arith, hit))
    | inr miss ↦ rw miss (
        ap (λ (ys : List Thread). x ∷ ys)
          (update_thread-split f xs after t (ground (arith, miss)) here))
  ]

  pub unqueue-split :
      (before after : List Thread) (t : Thread)
      → find_thread p before ≡ none
      → p t ≡ true
      → unqueue p (before ++ (t ∷ after)) ≡ before ++ after
  unfolding find_thread unqueue
  unqueue-split [] after t e here = rw here
  unqueue-split (x ∷ xs) after t e here = elim (Bool-cases (p x)) [
    | inl hit ↦ absurd (ground (arith, hit))
    | inr miss ↦
        rw miss
          (ap (λ (ys : List Thread). x ∷ ys) (unqueue-split xs after t (ground (arith, miss)) here))
  ]

pub ring_after-split :
    (a : ℕ) (passed before after : List Thread) (t : Thread)
    → find_thread (at a) before ≡ none
    → at a t ≡ true
    → ring_after a passed (before ++ (t ∷ after)) ≡ after ++ ((passed ++ before) ++ (t ∷ []))
unfolding find_thread ring_after
ring_after-split a passed [] after t e here = rw (here, append-nil passed)
ring_after-split a passed (x ∷ xs) after t e here = elim (Bool-cases (at a x)) [
  | inl hit ↦ absurd (ground (arith, hit))
  | inr miss ↦ rw miss (
      ring_after-split a (passed ++ (x ∷ [])) xs after t (ground (arith, miss)) here
      ∙ ap (λ (ys : List Thread). after ++ (ys ++ (t ∷ []))) (append_assoc passed (x ∷ []) xs))
]

unfoldable pub some_running : List Thread → Bool
some_running [] = false
some_running (t ∷ ts) = is_running t.state || some_running ts

pub some_running-append :
    (xs ys : List Thread) → some_running (xs ++ ys) ≡ (some_running xs || some_running ys)
unfolding some_running
some_running-append [] ys = refl
some_running-append (x ∷ xs) ys = ground (arith, some_running-append xs ys)

-- The first running thread of a ring, with those before it, none of which runs.
pub record FirstRunning (ring : List Thread) (next : Thread) : Type 0 where
  pub skipped : List Thread
  pub rest : List Thread
  pub order : ring ≡ skipped ++ (next ∷ rest)
  pub stopped : some_running skipped ≡ false
  pub running : is_running next.state ≡ true

pub pick-FirstRunning :
    (ring : List Thread)
    → some_running ring ≡ true
    → (next : Thread) × (first_running ring ≡ some next) × FirstRunning ring next
unfolding first_running some_running
pick-FirstRunning [] e = cc
pick-FirstRunning (t ∷ ts) e = elim (Bool-cases (is_running t.state)) [
  | inl runs ↦
      (t, rw runs, record { skipped = []; rest = ts; order = refl; stopped = refl; running = runs })
  | inr stops ↦
      let (next, found, f) = pick-FirstRunning ts (ground (arith, stops)) in
      (
        next,
        rw stops found,
        record {
          skipped = t ∷ f.skipped;
          rest = f.rest;
          order = ap (λ (ys : List Thread). t ∷ ys) f.order;
          stopped = rw stops f.stopped;
          running = f.running;
        },
      )
]
