-- ===== src/Sched/Steps.antt =====
-- What a tick, `sched_kill` and `sched_waitpid` do to the ring.
use munt3os.Base.{
  ℕ, ◌≡◌, sym, ap, ◌∙◌, ◌≢◌, ◌⊎◌, inl, inr, true, false, none, some, List, [], ◌∷◌, ◌++◌, arith,
  ◌==◌, ==_iff, Option-cases,
}
use munt3os.Sched.{
  Thread, Sched, find_thread, update_thread, at, ring_after, first_running, pick, switch, tick,
  kill, kill_thread,
}
use munt3os.Sched.Ring.{
  Located, locate, update_thread-split, ring_after-split, some_running, some_running-append,
  FirstRunning, pick-FirstRunning,
}

abbrev saved : ℕ → Thread → Thread
saved rsp t = record t { rsp = rsp }

-- What a tick comes to: the threads behind the current one, and round to it, up to the first that runs.
pub record Switched (rsp : ℕ) (s : Sched) (before after : List Thread) (cur : Thread) : Type 0 where
  pub next : Thread
  pub chosen : FirstRunning (after ++ (before ++ (record cur { rsp = rsp } ∷ []))) next
  pub result : tick rsp s ≡ (
    next.rsp,
    record s { queue = before ++ (record cur { rsp = rsp } ∷ after); current = next.address },
  )

-- Where some thread runs, a tick saves the stack pointer in the current thread and goes on with the
-- first running thread behind it in the ring, at the stack pointer saved there; the current thread comes
-- last. The ring keeps its order and nothing else changes.
pub tick-Switched :
    (rsp : ℕ) (s : Sched) (before after : List Thread) (cur : Thread)
    → s.queue ≡ before ++ (cur ∷ after)
    → find_thread (at s.current) before ≡ none
    → cur.address ≡ s.current
    → s.current ≢ 0
    → some_running s.queue ≡ true
    → Switched rsp s before after cur
unfolding tick switch pick some_running
tick-Switched rsp s before after cur split passed here ne runs =
    let at_cur : at s.current cur ≡ true = (==_iff _ _).1 here in
    let moved : update_thread (at s.current) (saved rsp) s.queue
        ≡ before ++ (saved rsp cur ∷ after) =
      ap (update_thread (at s.current) (saved rsp)) split
      ∙ update_thread-split (at s.current) (saved rsp) before after cur passed at_cur in
    let ring = ring_after-split s.current [] before after (saved rsp cur) passed at_cur in
    let still : some_running (after ++ (before ++ (saved rsp cur ∷ []))) ≡ true = ground (
      arith,
      some_running-append after (before ++ (saved rsp cur ∷ [])),
      some_running-append before (saved rsp cur ∷ []),
      some_running-append before (cur ∷ after),
      sym (ap some_running split) ∙ runs,
    ) in
    let (next, found, f) = pick-FirstRunning _ still in finish next found f moved ring
  where
    finish :
        (next : Thread)
        → first_running (after ++ (before ++ (saved rsp cur ∷ []))) ≡ some next
        → FirstRunning (after ++ (before ++ (saved rsp cur ∷ []))) next
        → update_thread (at s.current) (saved rsp) s.queue ≡ before ++ (saved rsp cur ∷ after)
        → ring_after s.current [] (before ++ (saved rsp cur ∷ after))
          ≡ after ++ (before ++ (saved rsp cur ∷ []))
        → Switched rsp s before after cur
    finish next found f moved ring =
        let zero : (s.current == 0) ≡ false = ground arith in
        record {
          next = next;
          chosen = f;
          result =
              rw (tick, zero, switch, moved, ring, pick, found)
                (ap
                  (λ (q : List Thread). (next.rsp, record s { queue = q; current = next.address }))
                  moved);
        }

-- `sched_kill` returns -1 and changes nothing if no thread has the pid. Otherwise it makes that thread
-- a zombie with exit code 128 + sig, unless it is one or dead, and changes no other.
pub kill_lem :
    (pid sig : ℕ) (s : Sched)
    → ((find_thread (λ t. t.id == pid) s.queue ≡ none) × (kill pid sig s ≡ (false, s)))
      ⊎ ((t : Thread) × (l : Located (λ t. t.id == pid) s.queue t) × (kill pid sig s
            ≡ (true, record s { queue = l.before ++ (kill_thread sig t ∷ l.after) })))
unfolding kill
kill_lem pid sig s = elim (Option-cases (find_thread (λ t. t.id == pid) s.queue)) [
  | inl absent ↦ inl (absent, rw (kill, absent))
  | inr (t, found) ↦
      let p = λ (t : Thread). t.id == pid in
      let l = locate p s.queue t found in
      let q =
        ap (update_thread p (kill_thread sig)) l.split
        ∙ update_thread-split p (kill_thread sig) l.before l.after t l.passed l.here in
      inr (t, l, rw (kill, found, q))
]
