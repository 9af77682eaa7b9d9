-- ===== src/Socket/Tests.antt =====
-- Two connected sockets, and a server with one client that waits.
use munt3os.Base.{
  ℕ, ◌≡◌, refl, true, none, some, List, [], ◌∷◌, arith, ◌==◌, if◌then◌else◌, replicate, pos,
}
use munt3os.RingBuffer.{RingBuffer}
use munt3os.Socket.{
  SocketState, socket_unbound, socket_listening, socket_connected, Socket, Net, enqueue, sys_bind,
  sys_listen, sys_connect, socket_of, update_socket, find_bound, free_fd,
}
use munt3os.Strings.{strcmp, strcpy}
use munt3os.Socket.Stream.{
  Streamed, Io, io_read, io_write, net_after, all_sent, all_got, stream_lem,
}

abbrev small_ring : RingBuffer
small_ring = record {
  base = 0x5000;
  buffer = 0 ∷ 0 ∷ 0 ∷ 0 ∷ [];
  capacity = 4;
  head = 0;
  tail = 0;
  count = 0;
}

abbrev socket_at : ℕ → SocketState → ℕ → Socket
socket_at node state peer = record {
  path = replicate 108 0;
  state = state;
  rx_buffer = small_ring;
  peer = peer;
  accept_queue = 0x200 ∷ replicate 15 0;
  accept_head = 0;
  accept_tail = 1;
  node = node;
}

abbrev two : SocketState → SocketState → ℕ → ℕ → Net
two first second to_second to_first = record {
  sockets = λ a.
      if a == 0x100
      then some (socket_at 0x10 first to_second)
      else if a == 0x200
      then some (socket_at 0x20 second to_first)
      else none;
  bound_sockets = 0x100 ∷ replicate 63 0;
  fds = λ t. 0x10 ∷ 0 ∷ 0x20 ∷ replicate 29 0;
  device = λ d. if d == 0x10 then 0x100 else if d == 0x20 then 0x200 else 0;
}

abbrev pair : Net
pair = two socket_connected socket_connected 0x200 0x100

-- The third write finds no room for its second byte.
abbrev ios : List Io
ios =
    io_write true 0x100 (1 ∷ 2 ∷ [])
    ∷ io_write true 0x100 (3 ∷ [])
    ∷ io_write true 0x100 (4 ∷ 5 ∷ [])
    ∷ io_read true 0x200 3
    ∷ []

stream_lem_example :
    Streamed 0x200
      (socket_at 0x20 socket_connected 0x100)
      (all_sent 0x200 ios pair)
      (all_got 0x200 ios pair)
      (net_after ios pair)
stream_lem_example =
    stream_lem 0x200 ios pair (socket_at 0x20 socket_connected 0x100) refl (omega arith)

abbrev server : Socket
server = socket_at 0x10 socket_listening 0

abbrev listening : Net
listening = two socket_listening socket_unbound 0 0

-- A bind, a connection to the path, and a refused second bind of it.
abbrev fresh : Net
fresh = record (two socket_unbound socket_unbound 0 0) { bound_sockets = replicate 64 0 }

bind_test :
    let r = sys_bind 1 (pos 0) (47 ∷ 97 ∷ 0 ∷ []) fresh in
    let s = (sys_listen 1 (pos 0) r.1).1 in
    (r.0 ≡ some 0)
    × (((sys_bind 1 (pos 2) (47 ∷ 97 ∷ 0 ∷ []) r.1).0 ≡ none)
        × ((sys_connect 1 (pos 2) (47 ∷ 97 ∷ 0 ∷ []) s).0 ≡ true))
unfolding sys_bind sys_listen sys_connect socket_of find_bound free_fd update_socket enqueue strcmp
    strcpy
bind_test = (refl, (refl, refl))
