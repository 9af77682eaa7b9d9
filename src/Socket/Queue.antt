-- ===== src/Socket/Queue.antt =====
-- The sockets that wait in `accept_queue`.
use munt3os.Base.{
  ℕ, suc, ◌+◌, ◌-◌, ◌%◌, ◌<◌, ◌≡◌, ap, ◌∙◌, ◌⊎◌, inl, inr, true, false, none, some, List, [], ◌∷◌,
  ◌++◌, arith, ◌==◌, ==_iff, Bool-cases, length, get_or, set, length-set,
}
use munt3os.RingBuffer.Fifo.{window, length-window, window-put}
use munt3os.Socket.{Socket, backlog, enqueue, dequeue}

abbrev pub IsQueue : Socket → Type 0
IsQueue t =
    (length t.accept_queue ≡ backlog) × ((t.accept_head < backlog) × (t.accept_tail < backlog))

abbrev pub waiting : Socket → ℕ
waiting t = (t.accept_tail + backlog - t.accept_head) % backlog

-- The waiting sockets, the one that came first at the front.
abbrev pub pending : Socket → List ℕ
pending t = window t.accept_queue backlog t.accept_head (waiting t)

-- What `enqueue` and `dequeue` come to on the queue of waiting sockets.
pub record Enqueued (a : ℕ) (t t' : Socket) : Type 0 where
  pub valid : IsQueue t'
  pub behind : pending t' ≡ pending t ++ (a ∷ [])

pub record Dequeued (c : ℕ) (t t' : Socket) : Type 0 where
  pub valid : IsQueue t'
  pub front : pending t ≡ c ∷ pending t'

module _ (t : Socket) (v : IsQueue t) where
  full_waits : ((t.accept_tail + 1) % backlog == t.accept_head) ≡ true → waiting t ≡ 15
  full_waits full = omega (arith, (==_iff _ _).0 full, v.1.0, v.1.1)

  room_waits :
      ((t.accept_tail + 1) % backlog == t.accept_head) ≡ false
      → ((t.accept_tail + 1) % backlog + backlog - t.accept_head) % backlog ≡ suc (waiting t)
  room_waits room = ground (arith, room, v.1.0, v.1.1)

  enqueue_lem :
      (a : ℕ)
      → ((enqueue a t ≡ none) × (length (pending t) ≡ 15))
        ⊎ ((t' : Socket) × (enqueue a t ≡ some t') × Enqueued a t t')
  unfolding enqueue
  enqueue_lem a = elim (Bool-cases ((t.accept_tail + 1) % backlog == t.accept_head)) [
    | inl full ↦ inl (
      rw (enqueue, full),
      length-window t.accept_queue backlog t.accept_head (waiting t) ∙ full_waits full,
    )
    | inr room ↦
        let next : Socket = record t {
          accept_queue = set t.accept_queue t.accept_tail a;
          accept_tail = (t.accept_tail + 1) % backlog;
        } in
        inr (
          next,
          rw (enqueue, room),
          record {
            valid = (length-set t.accept_queue t.accept_tail a ∙ v.0, (v.1.0, omega arith));
            behind =
                ap (window (set t.accept_queue t.accept_tail a) backlog t.accept_head)
                  (room_waits room)
                ∙ window-put t.accept_queue backlog a (waiting t) t.accept_head t.accept_tail
                    (omega (arith, v.0, v.1.1)) v.1.0 (omega arith) (omega (arith, v.1.0, v.1.1));
          },
        )
  ]

  dequeue_lem :
      ((dequeue t ≡ none) × (pending t ≡ []))
      ⊎ ((c : ℕ) × (t' : Socket) × (dequeue t ≡ some (c, t')) × Dequeued c t t')
  unfolding dequeue
  dequeue_lem = elim (Bool-cases (t.accept_head == t.accept_tail)) [
    | inl empty ↦
        let here : waiting t ≡ 0 = omega (arith, (==_iff _ _).0 empty, v.1.0) in
        inl (rw (dequeue, empty), ap (window t.accept_queue backlog t.accept_head) here)
    | inr more ↦
        let next : Socket = record t { accept_head = (t.accept_head + 1) % backlog } in
        let one_less : waiting t ≡ suc (waiting next) = ground (arith, more, v.1.0, v.1.1) in
        inr (
          get_or t.accept_queue t.accept_head 0,
          next,
          rw (dequeue, more),
          record {
            valid = (v.0, (omega arith, v.1.1));
            front = ap (window t.accept_queue backlog t.accept_head) one_less;
          },
        )
  ]

-- On a socket with a valid `accept_queue`, the queue keeps its order. `sys_connect` puts a socket behind
-- those that wait, unless 15 wait already; `sys_accept` takes the one in front, unless none waits. The
-- queue is valid afterwards.
pub accept_queue_lem :
    (a : ℕ) (t : Socket)
    → IsQueue t
    → (((enqueue a t ≡ none) × (length (pending t) ≡ 15))
        ⊎ ((t' : Socket) × (enqueue a t ≡ some t') × Enqueued a t t'))
      × (((dequeue t ≡ none) × (pending t ≡ []))
          ⊎ ((c : ℕ) × (t' : Socket) × (dequeue t ≡ some (c, t')) × Dequeued c t t'))
accept_queue_lem a t v = (enqueue_lem t v a, dequeue_lem t v)
