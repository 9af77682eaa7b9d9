-- ===== src/Socket.antt =====
-- krnl/net/socket.c: stream sockets of one machine. A pointer to a socket is its address in `sockets`, 0
-- for NULL, and `none` stands where no socket lies. A descriptor leads to a node and the node to its
-- `device`; every node is a socket's. What `kmalloc`, `vfs_alloc_node` and `ring_buffer_init` give is an
-- argument, and so is the current thread, 0 for none. Where a call waits by `sched_yield`, one round of
-- its loop is a function, which says that it must wait.
pub mod Accept
pub mod Queue
pub mod Stream
mod Tests
use munt3os.Base.{
  ℕ, zero, suc, ◌+◌, ◌-◌, ◌*◌, ◌/◌, ◌%◌, ◌^◌, ◌≤◌, ◌<◌, min, max, ◌≡◌, refl, sym, ap, ap₂, ◌∙◌, ◌≢◌,
  ◌↔◌, ◌⊎◌, inl, inr, Bool, true, false, not, ◌&&◌, ◌||◌, Option, none, some, List, [], ◌∷◌, ◌++◌,
  map, append-nil, append_assoc, arith, ℕ_discrete, ltb, leb, ◌==◌, if◌then◌else◌, ltb→lt, lt→ltb,
  ltb→le, le→ltb, leb→le, ==_iff, ==_refl, suc-ne-zero, zero-lt-suc, Bool-cases, Option-cases,
  length, get_elem?, get_or, set, take, drop, replicate, length-append, length-set,
  length-replicate, length-take, length-drop, take_last, drop-nil, drop_all, take_all, drop-append,
  drop-drop, take_last-append, take_last-append_long, take_last_all, take-append-drop, get_or-set,
  get_or_ext, get_or-replicate, mod-wrap, u64, u32, u8, add_u64, sub_u64, add_u32, sub_u32, mul_u32,
  mul_u64, page_size, ℤ, pos, negsuc, sub_ℕ, neg,
}
use munt3os.HashMap.{is_zero}
use munt3os.Strings.{strcmp, strcpy}
use munt3os.RingBuffer as Ring
use munt3os.RingBuffer.{RingBuffer}

-- `socket_state_t`
pub data SocketState : Type 0 where
  socket_unbound : SocketState
  socket_bound : SocketState
  socket_listening : SocketState
  socket_connected : SocketState
  socket_closed : SocketState

abbrev pub is_unbound : SocketState → Bool
is_unbound socket_unbound = true
is_unbound socket_bound = false
is_unbound socket_listening = false
is_unbound socket_connected = false
is_unbound socket_closed = false

abbrev pub is_bound : SocketState → Bool
is_bound socket_unbound = false
is_bound socket_bound = true
is_bound socket_listening = false
is_bound socket_connected = false
is_bound socket_closed = false

abbrev pub is_listening : SocketState → Bool
is_listening socket_unbound = false
is_listening socket_bound = false
is_listening socket_listening = true
is_listening socket_connected = false
is_listening socket_closed = false

abbrev pub is_connected : SocketState → Bool
is_connected socket_unbound = false
is_connected socket_bound = false
is_connected socket_listening = false
is_connected socket_connected = true
is_connected socket_closed = false

abbrev pub is_closed : SocketState → Bool
is_closed socket_unbound = false
is_closed socket_bound = false
is_closed socket_listening = false
is_closed socket_connected = false
is_closed socket_closed = true

-- `unix_socket_t`
pub record Socket : Type 0 where
  pub path : List ℕ
  pub state : SocketState
  pub rx_buffer : RingBuffer
  pub peer : ℕ
  pub accept_queue : List ℕ
  pub accept_head : ℕ
  pub accept_tail : ℕ
  pub node : ℕ

-- The sockets, `bound_sockets`, the nodes of the descriptors of each thread, and the `device` of a node.
pub record Net : Type 0 where
  pub sockets : ℕ → Option Socket
  pub bound_sockets : List ℕ
  pub fds : ℕ → List ℕ
  pub device : ℕ → ℕ

-- `MAX_SOCKETS`
abbrev pub max_sockets : ℕ
max_sockets = 64

abbrev pub backlog : ℕ
backlog = 16

abbrev pub put_socket : ℕ → Option Socket → (ℕ → Option Socket) → ℕ → Option Socket
put_socket a k sockets i = if i == a then k else sockets i

-- A write through a pointer to a socket.
unfoldable pub update_socket : ℕ → (Socket → Socket) → Net → Net
update_socket a f n = elim (n.sockets a) [
  | none ↦ n
  | some k ↦ record n { sockets = put_socket a (some (f k)) n.sockets }
]

-- What a loop that may wait comes to in one round.
pub data Round : Type 0 where
  waits : Round
  ends : List ℕ → Round
  faults : Round

-- A round of `socket_read` of the socket at `a`: it ends with the bytes that it stores. The state is looked at
-- before the `first` round only.
unfoldable pub socket_read : Bool → ℕ → ℕ → Net → Round × Net
unfolding update_socket
socket_read first a size n =
    let peer_gone : Socket → Bool =
      λ k. (k.peer == 0) || elim (n.sockets k.peer) [ none ↦ true | some p ↦ is_closed p.state ] in
    let taken : Socket → Round × Net = λ k.
      let r = Ring.read k.rx_buffer (min size (Ring.available k.rx_buffer)) in
      (ends r.0, update_socket a (λ s. record s { rx_buffer = r.1 }) n) in
    elim (n.sockets a) [
      | none ↦ (ends [], n)
      | some k ↦
          if first && not (is_connected k.state)
          then (ends [], n)
          else if Ring.available k.rx_buffer == 0
          then (if peer_gone k then (ends [], n) else (waits, n))
          else taken k
    ]

-- A round of the loop of `socket_write` of the socket at `a`, with the bytes that are left: the bytes
-- that go to the peer; none, if the peer is closed, and the loop ends. The state and the peer are looked at
-- before the `first` round only: if the peer closes between two rounds, `sock->peer` is NULL, and its state is read.
unfoldable pub socket_write : Bool → ℕ → List ℕ → Net → Round × Net
unfolding update_socket
socket_write first a bytes n =
    let sent : ℕ → Socket → Round × Net = λ b p.
      let w = min (length bytes) (Ring.free_space p.rx_buffer) in
      let r = Ring.write p.rx_buffer (take w bytes) in
      (ends (take r.0 bytes), update_socket b (λ s. record s { rx_buffer = r.1 }) n) in
    elim (n.sockets a) [
      | none ↦ (ends [], n)
      | some k ↦
          if first && (not (is_connected k.state) || (k.peer == 0))
          then (ends [], n)
          else if k.peer == 0
          then (faults, n)
          else elim (n.sockets k.peer) [
            | none ↦ (faults, n)
            | some p ↦
                if is_closed p.state
                then (ends [], n)
                else if ltb 0 (Ring.free_space p.rx_buffer)
                then sent k.peer p
                else (waits, n)
          ]
    ]

abbrev pub unbind : ℕ → List ℕ → List ℕ
unbind a [] = []
unbind a (b ∷ bs) = (if b == a then 0 else b) ∷ unbind a bs

-- `socket_close` of the socket at `a`.
unfoldable pub socket_close : ℕ → Net → Net
unfolding update_socket
socket_close a n = elim (n.sockets a) [
  | none ↦ n
  | some k ↦
      let n1 = if k.peer == 0 then n else update_socket k.peer (λ p. record p { peer = 0 }) n in
      record n1 {
        sockets = put_socket a none n1.sockets;
        bound_sockets = unbind a n1.bound_sockets;
      }
]

-- The address of the new socket, or 0; `a` and `node` are what the allocations give.
unfoldable pub create_socket_obj : ℕ → RingBuffer → ℕ → Net → ℕ × Net
create_socket_obj a rx node n =
    let new : Socket = record {
      path = replicate 108 0;
      state = socket_unbound;
      rx_buffer = rx;
      peer = 0;
      accept_queue = replicate backlog 0;
      accept_head = 0;
      accept_tail = 0;
      node = node;
    } in
    if (a == 0) || (node == 0) then (0, n) else (
      a,
      record n {
        sockets = put_socket a (some new) n.sockets;
        device = λ d. if d == node then a else n.device d;
      },
    )

abbrev pub one_more : Option ℕ → Option ℕ
one_more none = none
one_more (some i) = some (suc i)

-- The first free descriptor.
unfoldable pub free_fd : List ℕ → Option ℕ
free_fd [] = none
free_fd (d ∷ ds) = if d == 0 then some 0 else one_more (free_fd ds)

abbrev pub put_fd : ℕ → ℕ → ℕ → Net → Net
put_fd tid fd node n = record n { fds = λ t. if t == tid then set (n.fds tid) fd node else n.fds t }

-- `sys_socket`; `none` is -1.
unfoldable pub sys_socket : ℕ → ℕ → ℕ → ℕ → RingBuffer → ℕ → Net → Option ℕ × Net
unfolding free_fd create_socket_obj
sys_socket tid domain type a rx node n =
    let made = create_socket_obj a rx node n in
    if not ((domain == 1) && (type == 1)) || (tid == 0)
    then (none, n)
    else elim (free_fd (n.fds tid)) [
      | none ↦ (none, n)
      | some fd ↦ if made.0 == 0 then (none, n) else (some fd, put_fd tid fd node made.1)
    ]

-- The guards that `sys_bind`, `sys_listen`, `sys_connect` and `sys_accept` share: the address of the socket.
unfoldable pub socket_of : ℕ → ℤ → Net → Option (ℕ × Socket)
socket_of tid (negsuc i) n = none
socket_of tid (pos i) n =
    let node = get_or (n.fds tid) i 0 in
    let a = n.device node in
    if not (ltb i 32) || (tid == 0) || (node == 0) || (a == 0)
    then none
    else elim (n.sockets a) [ none ↦ none | some k ↦ some (a, k) ]

-- The first bound socket with the path.
unfoldable pub find_bound : List ℕ → (ℕ → Option Socket) → List ℕ → Option ℕ
find_bound path sockets [] = none
find_bound path sockets (b ∷ bs) =
    let rest = find_bound path sockets bs in
    if b == 0 then rest else elim (sockets b) [
      | none ↦ rest
      | some k ↦ if is_zero (strcmp k.path path) then some b else rest
    ]

-- `sys_bind`; `none` is -1.
unfoldable pub sys_bind : ℕ → ℤ → List ℕ → Net → Option ℕ × Net
unfolding socket_of find_bound free_fd update_socket
sys_bind tid fd path n =
    let named : ℕ → ℕ → Option ℕ × Net = λ a i. (
      some 0,
      update_socket a (λ s. record s { path = (strcpy s.path path).1; state = socket_bound })
          (record n { bound_sockets = set n.bound_sockets i a }),
    ) in
    elim (socket_of tid fd n) [
      | none ↦ (none, n)
      | some r ↦
          if not (is_unbound r.1.state)
          then (none, n)
          else elim (find_bound path n.sockets n.bound_sockets) [
            | some b ↦ (none, n)
            | none ↦ elim (free_fd n.bound_sockets) [ none ↦ (none, n) | some i ↦ named r.0 i ]
          ]
    ]

unfoldable pub sys_listen : ℕ → ℤ → Net → Option ℕ × Net
unfolding socket_of update_socket
sys_listen tid fd n = elim (socket_of tid fd n) [
  | none ↦ (none, n)
  | some r ↦
      if not (is_bound r.1.state)
      then (none, n)
      else (some 0, update_socket r.0 (λ s. record s { state = socket_listening }) n)
]

-- `accept_queue` takes the socket at `a`, if it is not full.
unfoldable pub enqueue : ℕ → Socket → Option Socket
enqueue a t =
    let next_tail = (t.accept_tail + 1) % backlog in
    if next_tail == t.accept_head
    then none
    else some
        (record t { accept_queue = set t.accept_queue t.accept_tail a; accept_tail = next_tail })

-- `sys_connect`, up to its loop: whether it gets there.
unfoldable pub sys_connect : ℕ → ℤ → List ℕ → Net → Bool × Net
unfolding socket_of find_bound enqueue update_socket
sys_connect tid fd path n =
    let queued : ℕ → ℕ → Socket → Bool × Net = λ a b t. elim (enqueue a t) [
      | none ↦ (false, n)
      | some t' ↦ (true, update_socket b (λ s. t') n)
    ] in
    let asked : ℕ → ℕ → Bool × Net = λ a b. elim (n.sockets b) [
      | none ↦ (false, n)
      | some t ↦ if is_listening t.state then queued a b t else (false, n)
    ] in
    elim (socket_of tid fd n) [
      | none ↦ (false, n)
      | some r ↦
          if not (is_unbound r.1.state)
          then (false, n)
          else elim (find_bound path n.sockets n.bound_sockets) [
            | none ↦ (false, n)
            | some b ↦ asked r.0 b
          ]
    ]

-- A round of that loop, of the socket at `a`: whether it goes on waiting.
unfoldable pub connect_waits : ℕ → Net → Bool
connect_waits a n = elim (n.sockets a) [ none ↦ false | some k ↦ is_unbound k.state ]

-- The socket that has waited longest.
unfoldable pub dequeue : Socket → Option (ℕ × Socket)
dequeue t =
    if t.accept_head == t.accept_tail
    then none
    else some (
      get_or t.accept_queue t.accept_head 0,
      record t { accept_head = (t.accept_head + 1) % backlog },
    )

-- What `sys_accept` comes to in one round.
pub data Accepted : Type 0 where
  accept_failed : Accepted
  accept_waits : Accepted
  accepted : ℕ → Accepted

-- The two ends are made each other's peers.
unfoldable pub join : ℕ → ℕ → Net → Net
unfolding update_socket
join a c n =
    update_socket c (λ s. record s { state = socket_connected; peer = a })
      (update_socket a (λ s. record s { state = socket_connected; peer = c }) n)

-- `sys_accept`, in a round of its loop and what follows. The address that it stores is the `path` of the
-- socket, and left out.
unfoldable pub sys_accept : ℕ → ℤ → ℕ → RingBuffer → ℕ → Net → Accepted × Net
unfolding socket_of dequeue create_socket_obj free_fd join update_socket
sys_accept tid fd a rx node n =
    let served : ℕ → ℕ × Socket → Accepted × Net = λ b d.
      let n1 = update_socket b (λ s. d.1) n in
      let made = create_socket_obj a rx node n1 in
      if made.0 == 0 then (accept_failed, n1) else elim (free_fd (n1.fds tid)) [
        | none ↦ (accept_failed, n1)
        | some new_fd ↦ (accepted new_fd, join a d.0 (put_fd tid new_fd node made.1))
      ] in
    elim (socket_of tid fd n) [
      | none ↦ (accept_failed, n)
      | some r ↦
          if not (is_listening r.1.state)
          then (accept_failed, n)
          else elim (dequeue r.1) [ none ↦ (accept_waits, n) | some d ↦ served r.0 d ]
    ]
