-- ===== src/Socket/Accept.antt =====
-- What `sys_accept` makes of the socket that has waited longest.
use munt3os.Base.{ℕ, ◌≡◌, true, false, none, some, ◌∷◌, ◌==◌, if◌then◌else◌, set, replicate, ℤ}
use munt3os.RingBuffer.{RingBuffer}
use munt3os.Socket.{
  Socket, socket_unbound, socket_connected, is_listening, is_connected, Net, backlog, put_socket,
  put_fd, create_socket_obj, free_fd, socket_of, dequeue, Accepted, accept_failed, accepted, join,
}
use munt3os.Socket.Queue.{pending}

-- The queue went on to `t'`, without the socket `c` in front.
pub record Left (b : ℕ) (t : Socket) (c : ℕ) (n' : Net) : Type 0 where
  pub server : Socket
  pub there : n'.sockets b ≡ some server
  pub order : pending t ≡ c ∷ pending server

-- `sys_accept` failed: the socket `c` has left the front of the queue, and nothing has happened to it.
pub record Lost (b : ℕ) (t : Socket) (c : ℕ) (n n' : Net) : Type 0 where
  pub left : Left b t c n'
  pub alone : n'.sockets c ≡ n.sockets c

-- The socket `c` has left the queue, and it and the new one at `a` are connected with each other; the
-- descriptor `i` leads to the new one.
pub record Joined (tid b : ℕ) (t : Socket) (c a node i : ℕ) (k : Socket) (n n' : Net) : Type 0 where
  pub left : Left b t c n'
  pub client : n'.sockets c ≡ some (record k { state = socket_connected; peer = a })
  pub new : Socket
  pub made : n'.sockets a ≡ some new
  pub ready : is_connected new.state ≡ true
  pub peer : new.peer ≡ c
  pub opened : n'.fds tid ≡ set (n.fds tid) i node
  pub device : n'.device node ≡ a

module _ (tid : ℕ) (fd : ℤ) (a : ℕ) (rx : RingBuffer) (node : ℕ) (n : Net) (b : ℕ) (t t' : Socket)
    (c : ℕ) (k : Socket) (found : socket_of tid fd n ≡ some (b, t))
    (listens : is_listening t.state ≡ true) (next : dequeue t ≡ some (c, t'))
    (order : pending t ≡ c ∷ pending t') (waits : n.sockets c ≡ some k)
    (not_self : (c == b) ≡ false) (not_new : (c == a) ≡ false) (fresh : (b == a) ≡ false) where
  abbrev popped : Net
  popped = record n { sockets = put_socket b (some t') n.sockets }

  abbrev served : Net → Accepted × Net
  served n1 =
      let made = create_socket_obj a rx node n1 in
      if made.0 == 0 then (accept_failed, n1) else elim (free_fd (n1.fds tid)) [
        | none ↦ (accept_failed, n1)
        | some i ↦ (accepted i, join a c (put_fd tid i node made.1))
      ]

  -- Both ends behind the new socket's descriptor.
  abbrev opened : ℕ → Net
  opened i = put_fd tid i node (create_socket_obj a rx node popped).1

  abbrev fresh_socket : Socket
  fresh_socket = record {
    path = replicate 108 0;
    state = socket_unbound;
    rx_buffer = rx;
    peer = 0;
    accept_queue = replicate backlog 0;
    accept_head = 0;
    accept_tail = 0;
    node = node;
  }

  abbrev created : Net
  created = record popped {
    sockets = put_socket a (some fresh_socket) popped.sockets;
    device = λ d. if d == node then a else n.device d;
  }

  abbrev joined : ℕ → Net
  joined i = record (put_fd tid i node created) {
    sockets = put_socket c (some (record k { state = socket_connected; peer = a })) (
        put_socket a (some (record fresh_socket { state = socket_connected; peer = c }))
          created.sockets);
  }
