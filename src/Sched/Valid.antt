-- ===== src/Sched/Valid.antt =====
-- The ids of the threads, over every sequence of calls.
use munt3os.Base.{
  ℕ, ◌+◌, ◌*◌, ◌^◌, ◌≤◌, ◌<◌, ◌≡◌, refl, ap, inl, inr, Bool, true, false, ◌||◌, Option, none, some,
  List, [], ◌∷◌, ◌++◌, arith, ◌==◌, if◌then◌else◌, Bool-cases, Option-cases, add_u64,
}
use munt3os.Sched.{
  Thread, Sched, Cred, is_running, is_zombie, find_thread, update_thread, unqueue, at, ring_after,
  first_thread, pick, switch, tick, kill, kill_thread, waitpid, is_child, current_thread,
  add_thread, kthread, exit, fork, fork_child, set_capabilities, set_cred, kill_checked,
}

abbrev pub one_if : Bool → ℕ
one_if true = 1
one_if false = 0

-- How many threads have the id.
unfoldable pub with_id : ℕ → List Thread → ℕ
with_id k [] = 0
with_id k (t ∷ ts) = one_if (t.id == k) + with_id k ts

-- No two threads have one id, and no id is `next_tid` or above.
pub record IsValid (s : Sched) : Type 0 where
  pub once : (k : ℕ) → with_id k s.queue ≤ 1
  pub fresh : (k : ℕ) → s.next_tid ≤ k → with_id k s.queue ≡ 0

with_id-append : (k : ℕ) (xs ys : List Thread) → with_id k (xs ++ ys) ≡ with_id k xs + with_id k ys
unfolding with_id
with_id-append k [] ys = omega arith
with_id-append k (x ∷ xs) ys = omega (arith, with_id-append k xs ys)

with_id-update_thread :
    (k : ℕ) (p : Thread → Bool) (f : Thread → Thread) (q : List Thread)
    → ((t : Thread) → (f t).id ≡ t.id)
    → with_id k (update_thread p f q) ≡ with_id k q
unfolding with_id update_thread
with_id-update_thread k p f [] e = refl
with_id-update_thread k p f (t ∷ ts) e = elim (Bool-cases (p t)) [
  | inl hit ↦ rw (hit, e t)
  | inr miss ↦ rw miss (ap (λ (n : ℕ). one_if (t.id == k) + n) (with_id-update_thread k p f ts e))
]

with_id-unqueue :
    (k : ℕ) (p : Thread → Bool) (q : List Thread) → with_id k (unqueue p q) ≤ with_id k q
unfolding with_id unqueue
with_id-unqueue k p [] = omega arith
with_id-unqueue k p (t ∷ ts) = elim (Bool-cases (p t)) [
  | inl hit ↦ rw hit (omega arith)
  | inr miss ↦ rw miss (omega (arith, with_id-unqueue k p ts))
]

-- `s'` has the ids of `s` or fewer, and may have counted on.
pub record Fewer (s s' : Sched) : Type 0 where
  pub ids : (k : ℕ) → with_id k s'.queue ≤ with_id k s.queue
  pub counter : s.next_tid ≤ s'.next_tid

Fewer-IsValid : (s s' : Sched) → Fewer s s' → IsValid s → IsValid s'
Fewer-IsValid s s' f v = record {
  once = λ k. omega (arith, f.ids k, v.once k);
  fresh = λ k h. omega (arith, f.ids k, v.fresh k, f.counter);
}

Fewer-refl : (s : Sched) → Fewer s s
Fewer-refl s = record { ids = λ k. omega arith; counter = omega arith }

Fewer-update :
    (s : Sched) (p : Thread → Bool) (f : Thread → Thread) (current : ℕ)
    → ((t : Thread) → (f t).id ≡ t.id)
    → Fewer s (record s { queue = update_thread p f s.queue; current = current })
Fewer-update s p f current e = record {
  ids = λ k. omega (arith, with_id-update_thread k p f s.queue e);
  counter = omega arith;
}

Fewer-switch : (rsp : ℕ) (s : Sched) → Fewer s (switch rsp s).1
unfolding switch
Fewer-switch rsp s =
    let f = λ (t : Thread). record t { rsp = rsp } in
    elim (Option-cases (pick (ring_after s.current [] (update_thread (at s.current) f s.queue)))) [
      | inl nothing ↦ rw (switch, nothing) (Fewer-refl s)
      | inr (t, found) ↦ rw (switch, found) (Fewer-update s (at s.current) f t.address (λ t. refl))
    ]

-- One call of a thread, or a tick of the timer.
pub data Step (s : Sched) : Sched → Type 0 where
  step_tick : (rsp : ℕ) → Step s (tick rsp s).1
  step_add :
      (a time : ℕ) (name : Option (List ℕ)) (bottom size cr3 : ℕ)
      → s.next_tid + 1 < 2 ^ 64
      → Step s (add_thread a time name bottom size cr3 s)
  step_kthread :
      (a time : ℕ) (name : Option (List ℕ)) (stack cr3 cap uid gid : ℕ)
      → s.next_tid + 1 < 2 ^ 64
      → Step s (kthread a time name stack cr3 cap uid gid s).1
  step_fork :
      (a : ℕ) (clone : Option ℕ) (stack time rsp : ℕ)
      → s.next_tid + 1 < 2 ^ 64
      → Step s (fork a clone stack time rsp s).1
  step_exit : (status : ℕ) → Step s (exit status s)
  step_kill : (pid sig : ℕ) → Step s (kill pid sig s).1
  step_kill_checked : (pid : ℕ) → Step s (kill_checked pid s)
  step_waitpid : (kernel_cr3 pid : ℕ) → Step s (waitpid kernel_cr3 pid s).1
  step_set_capabilities : (cap : ℕ) (on : Bool) → Step s (set_capabilities cap on s)
  step_set_cred : (flag : ℕ) (f : Cred → Cred) → Step s (set_cred flag f s)

pub data Reach (s : Sched) : Sched → Type 0 where
  reach_here : Reach s s
  reach_step : {a b : Sched} → Reach s a → Step a b → Reach s b

tick-Fewer : (rsp : ℕ) (s : Sched) → Fewer s (tick rsp s).1
unfolding tick
tick-Fewer rsp s = elim (Bool-cases (s.current == 0)) [
  | inr some_current ↦ rw (tick, some_current) (Fewer-switch rsp s)
  | inl none_yet ↦ elim (Option-cases (first_thread s.queue)) [
    | inl empty ↦ rw (tick, none_yet, empty) (Fewer-refl s)
    | inr (t, first) ↦ elim (Bool-cases (is_running t.state)) [
      | inl runs ↦
          rw (tick, none_yet, first, runs)
            (record { ids = λ k. omega arith; counter = omega arith })
      | inr stops ↦
          rw (tick, none_yet, first, stops)
            (let f = Fewer-switch rsp (record s { current = t.address }) in
              record { ids = f.ids; counter = f.counter })
    ]
  ]
]

-- A thread with the id `next_tid` at the end of the ring.
appended-IsValid :
    (s : Sched) (t : Thread)
    → t.id ≡ s.next_tid
    → s.next_tid + 1 < 2 ^ 64
    → IsValid s
    → IsValid (record s { queue = s.queue ++ (t ∷ []); next_tid = add_u64 s.next_tid 1 })
unfolding with_id
appended-IsValid s t new room v = record {
  once = λ k. ground (arith, with_id-append k s.queue (t ∷ []), v.once k, v.fresh k, new);
  fresh = λ k h. ground (arith, with_id-append k s.queue (t ∷ []), v.fresh k, new);
}

kill_thread_id : (sig : ℕ) (t : Thread) → (kill_thread sig t).id ≡ t.id
unfolding kill_thread
kill_thread_id sig t = ground arith

kill-Fewer : (pid sig : ℕ) (s : Sched) → Fewer s (kill pid sig s).1
unfolding kill
kill-Fewer pid sig s = elim (Option-cases (find_thread (λ t. t.id == pid) s.queue)) [
  | inl absent ↦ rw (kill, absent) (Fewer-refl s)
  | inr (t, found) ↦
      rw (kill, found)
        (Fewer-update s (λ t. t.id == pid) (kill_thread sig) s.current (kill_thread_id sig))
]

waitpid-Fewer : (kernel_cr3 pid : ℕ) (s : Sched) → Fewer s (waitpid kernel_cr3 pid s).1
unfolding waitpid
waitpid-Fewer kernel_cr3 pid s = elim (Option-cases (current_thread s)) [
  | inl none_yet ↦ rw (waitpid, none_yet) (Fewer-refl s)
  | inr (parent, cur) ↦ elim (Option-cases (find_thread (is_child pid parent.id) s.queue)) [
    | inl absent ↦ rw (waitpid, cur, absent) (Fewer-refl s)
    | inr (t, found) ↦ elim (Bool-cases (is_zombie t.state)) [
      | inr alive ↦ rw (waitpid, cur, found, alive) (Fewer-refl s)
      | inl zombie ↦
          rw (waitpid, cur, found, zombie)
            (record {
              ids = λ k. with_id-unqueue k (is_child pid parent.id) s.queue;
              counter = omega arith;
            })
    ]
  ]
]

-- A call keeps the ids apart and below the counter.
module _ (s : Sched) (v : IsValid s) where
  counted-IsValid : s.next_tid + 1 < 2 ^ 64 → IsValid (record s { next_tid = add_u64 s.next_tid 1 })
  counted-IsValid room = record { once = v.once; fresh = λ k h. v.fresh k (omega (arith, h)) }

  fork-IsValid :
      (a : ℕ) (clone : Option ℕ) (stack time rsp : ℕ)
      → s.next_tid + 1 < 2 ^ 64
      → IsValid (fork a clone stack time rsp s).1
  unfolding fork fork_child
  fork-IsValid a clone stack time rsp room = elim (Option-cases (current_thread s)) [
    | inl none_yet ↦ rw (fork, none_yet) v
    | inr (t, cur) ↦ elim (Bool-cases ((t.stack_bottom == 0) || (t.stack_size == 0))) [
      | inl bad ↦ rw (fork, cur, bad) v
      | inr good ↦ elim (Bool-cases (a == 0)) [
        | inl full ↦ rw (fork, cur, good, full) v
        | inr made ↦ cloned t cur good made clone
      ]
    ]
  ]
    where
      cloned :
          (t : Thread)
          → current_thread s ≡ some t
          → ((t.stack_bottom == 0) || (t.stack_size == 0)) ≡ false
          → (a == 0) ≡ false
          → (clone : Option ℕ) → IsValid (fork a clone stack time rsp s).1
      cloned t cur good made none = rw (fork, cur, good, made) (counted-IsValid room)
      cloned t cur good made (some cr3) = elim (Bool-cases (stack == 0)) [
        | inl full ↦ rw (fork, cur, good, made, full) (counted-IsValid room)
        | inr fits ↦
            rw (fork, cur, good, made, fits)
              (appended-IsValid s (fork_child a s.next_tid cr3 stack time rsp t) refl room v)
      ]

  kill_checked-Fewer : (pid : ℕ) → Fewer s (kill_checked pid s)
  unfolding kill_checked
  kill_checked-Fewer pid = elim (Option-cases (current_thread s)) [
    | inl none_yet ↦ rw (kill_checked, none_yet) (Fewer-refl s)
    | inr (t, cur) ↦ rw (kill_checked, cur) (either _)
  ]
    where
      either : (b : Bool) → Fewer s (if b then (kill pid 9 s).1 else s)
      either true = kill-Fewer pid 9 s
      either false = Fewer-refl s

  Step-IsValid : {s' : Sched} → Step s s' → IsValid s'
  unfolding add_thread kthread exit set_capabilities set_cred
  Step-IsValid (step_tick rsp) = Fewer-IsValid s _ (tick-Fewer rsp s) v
  Step-IsValid (step_add a time name bottom size cr3 room) = appended-IsValid s _ refl room v
  Step-IsValid (step_kthread a time name stack cr3 cap uid gid room) =
      let s1 = add_thread a time name stack (4096 * 4) cr3 s in
      Fewer-IsValid s1 _ (Fewer-update s1 _ _ s1.current (λ t. refl))
        (appended-IsValid s _ refl room v)
  Step-IsValid (step_fork a clone stack time rsp room) = fork-IsValid a clone stack time rsp room
  Step-IsValid (step_exit status) = Fewer-IsValid s _ (Fewer-update s _ _ s.current (λ t. refl)) v
  Step-IsValid (step_kill pid sig) = Fewer-IsValid s _ (kill-Fewer pid sig s) v
  Step-IsValid (step_kill_checked pid) = Fewer-IsValid s _ (kill_checked-Fewer pid) v
  Step-IsValid (step_waitpid kernel_cr3 pid) = Fewer-IsValid s _ (waitpid-Fewer kernel_cr3 pid s) v
  Step-IsValid (step_set_capabilities cap on) =
      Fewer-IsValid s _ (Fewer-update s _ _ s.current (λ t. refl)) v
  Step-IsValid (step_set_cred flag f) =
      Fewer-IsValid s _ (Fewer-update s _ _ s.current (λ t. ground arith)) v

-- Whatever calls and ticks come, in whatever order, as long as the counter does not wrap: no two
-- threads of the ring have one id, and every id is below the counter.
pub Reach-IsValid : (s s' : Sched) → Reach s s' → IsValid s → IsValid s'
Reach-IsValid s s' reach_here v = v
Reach-IsValid s s' (reach_step {a} r step) v = Step-IsValid a (Reach-IsValid s a r v) step
