-- ===== src/Socket/Stream.antt =====
-- What one end of a connection writes, the other end reads.
use munt3os.Base.{
  ℕ, ◌-◌, ◌≤◌, min, ◌≡◌, sym, ap, ap₂, ◌∙◌, inl, inr, Bool, true, false, not, ◌||◌, ◌&&◌, none,
  some, List, [], ◌∷◌, ◌++◌, append-nil, append_assoc, arith, ltb, ◌==◌, if◌then◌else◌, ==_iff,
  ==_refl, Bool-cases, Option-cases, length, take, length-append, length-take, take_last_all,
  take-append-drop,
}
use mathlib.Core.Path.{subst}
use mathlib.Core.Option.{some-injective}
use munt3os.RingBuffer as Ring
use munt3os.RingBuffer.{RingBuffer}
use munt3os.RingBuffer.Valid.{IsValid, read-IsValid, write-IsValid}
use munt3os.RingBuffer.Fifo.{contents, length-contents, read-contents, write-contents}
use munt3os.Socket.{
  Socket, Net, update_socket, Round, waits, ends, faults, is_connected, is_closed, socket_read,
  socket_write,
}

-- One round of a call on the socket at an address, the first or a later one.
pub data Io : Type 0 where
  io_read : Bool → ℕ → ℕ → Io
  io_write : Bool → ℕ → List ℕ → Io

abbrev pub bytes_of : Round → List ℕ
bytes_of waits = []
bytes_of (ends bytes) = bytes
bytes_of faults = []

abbrev pub io_result : Io → Net → Round × Net
io_result (io_read first a size) n = socket_read first a size n
io_result (io_write first a bytes) n = socket_write first a bytes n

abbrev pub peer_of : ℕ → Net → ℕ
peer_of a n = elim (n.sockets a) [ none ↦ 0 | some k ↦ k.peer ]

-- The bytes that the round sends to the socket at `b`, and those that it takes from it.
abbrev pub sent_to : ℕ → Io → Net → List ℕ
sent_to b (io_read first a size) n = []
sent_to b (io_write first a bytes) n =
    if peer_of a n == b then bytes_of (socket_write first a bytes n).0 else []

abbrev pub got_from : ℕ → Io → Net → List ℕ
got_from b (io_read first a size) n = if a == b then bytes_of (socket_read first a size n).0 else []
got_from b (io_write first a bytes) n = []

abbrev pub net_after : List Io → Net → Net
net_after [] n = n
net_after (io ∷ ios) n = net_after ios (io_result io n).1

abbrev pub all_sent : ℕ → List Io → Net → List ℕ
all_sent b [] n = []
all_sent b (io ∷ ios) n = sent_to b io n ++ all_sent b ios (io_result io n).1

abbrev pub all_got : ℕ → List Io → Net → List ℕ
all_got b [] n = []
all_got b (io ∷ ios) n = got_from b io n ++ all_got b ios (io_result io n).1

-- The socket at `b` goes on from `k`, with these bytes sent to it and taken from it.
pub record Streamed (b : ℕ) (k : Socket) (sent got : List ℕ) (n' : Net) : Type 0 where
  pub socket : Socket
  pub there : n'.sockets b ≡ some socket
  pub valid : IsValid socket.rx_buffer
  pub bytes : contents k.rx_buffer ++ sent ≡ got ++ contents socket.rx_buffer

module _ (b : ℕ) (n : Net) (k : Socket) (there : n.sockets b ≡ some k)
    (valid : IsValid k.rx_buffer) where
  unchanged : Streamed b k [] [] n
  unchanged = record {
    socket = k;
    there = there;
    valid = valid;
    bytes = append-nil (contents k.rx_buffer);
  }

  update-other :
      (a : ℕ) (f : Socket → Socket) → (a == b) ≡ false → Streamed b k [] [] (update_socket a f n)
  unfolding update_socket
  update-other a f other = elim (Option-cases (n.sockets a)) [
    | inl gone ↦ rw (update_socket, gone) unchanged
    | inr (p, found) ↦
        let different : (b == a) ≡ false = ground (arith, other) in
        rw (update_socket, found)
          (record {
            socket = k;
            there = rw different there;
            valid = valid;
            bytes = append-nil (contents k.rx_buffer);
          })
  ]

  update-here : (f : Socket → Socket) → (update_socket b f n).sockets b ≡ some (f k)
  unfolding update_socket
  update-here f = rw (update_socket, there, ==_refl b)

-- The write of a round.
abbrev put_bytes : RingBuffer → List ℕ → ℕ × RingBuffer
put_bytes rb bytes = Ring.write rb (take (min (length bytes) (Ring.free_space rb)) bytes)

-- A socket that is read: its bytes go to the caller.
read_bytes :
    (rb : RingBuffer) (size : ℕ)
    → IsValid rb
    → let r = Ring.read rb size in contents rb ++ [] ≡ r.0 ++ contents r.1
read_bytes rb size v =
    let r = read-contents rb size v in
    append-nil (contents rb)
    ∙ (sym (take-append-drop size (contents rb)) ∙ sym (ap₂ (λ (u w : List ℕ). u ++ w) r.0 r.1))

-- As many bytes as there is room for go behind those in the buffer.
write_bytes :
    (rb : RingBuffer) (bytes : List ℕ)
    → IsValid rb
    → let w = min (length bytes) (Ring.free_space rb) in
      let r = Ring.write rb (take w bytes) in contents rb ++ take r.0 bytes ≡ contents r.1
unfolding Ring.free_space
write_bytes rb bytes v =
    let w = min (length bytes) (Ring.free_space rb) in
    let r = write-contents rb (take w bytes) v in
    let space : Ring.free_space rb ≡ rb.capacity - rb.count = omega (arith, v.count_in, v.small) in
    let size : length (take w bytes) ≡ w = length-take w bytes ∙ omega arith in
    let room : length (contents rb ++ take w bytes) ≤ rb.capacity = omega (
      arith,
      length-append (contents rb) (take w bytes),
      length-contents rb,
      size,
      space,
      v.count_in,
    ) in
    let all : (Ring.write rb (take w bytes)).0 ≡ w = r.0 ∙ omega (arith, size, space) in
    ap (λ (i : ℕ). contents rb ++ take i bytes) all
    ∙ sym (r.1 ∙ take_last_all rb.capacity (contents rb ++ take w bytes) room)

module _ (b : ℕ) (n : Net) (k : Socket) (there : n.sockets b ≡ some k)
    (valid : IsValid k.rx_buffer) where
  idle :
      (c : Bool)
      → let r : Round × Net = if c then (ends [], n) else (waits, n) in
        Streamed b k [] (bytes_of r.0) r.1
  idle true = unchanged b n k there valid
  idle false = unchanged b n k there valid

  read-own :
      (first : Bool) (size : ℕ)
      → let r = socket_read first b size n in Streamed b k [] (bytes_of r.0) r.1
  unfolding socket_read Ring.available
  read-own first size = elim (Bool-cases (first && not (is_connected k.state))) [
    | inl refused ↦ rw (socket_read, there, refused) (unchanged b n k there valid)
    | inr ready ↦ elim (Bool-cases (Ring.available k.rx_buffer == 0)) [
      | inl empty ↦ rw (socket_read, there, ready, empty) (idle _)
      | inr some_bytes ↦
          let got = Ring.read k.rx_buffer (min size (Ring.available k.rx_buffer)) in
          rw (socket_read, there, ready, some_bytes)
            (record {
              socket = record k { rx_buffer = got.1 };
              there = update-here b n k there valid (λ s. record s { rx_buffer = got.1 });
              valid = read-IsValid k.rx_buffer _ valid;
              bytes = read_bytes k.rx_buffer _ valid;
            })
    ]
  ]

  idle_net :
      (c : Bool)
      → let r : Round × Net = if c then (ends [], n) else (waits, n) in Streamed b k [] [] r.1
  idle_net true = unchanged b n k there valid
  idle_net false = unchanged b n k there valid

  read-other :
      (first : Bool) (a size : ℕ)
      → (a == b) ≡ false
      → Streamed b k [] [] (socket_read first a size n).1
  unfolding socket_read
  read-other first a size other = elim (Option-cases (n.sockets a)) [
    | inl gone ↦ rw (socket_read, gone) (unchanged b n k there valid)
    | inr (p, found) ↦ elim (Bool-cases (first && not (is_connected p.state))) [
      | inl refused ↦ rw (socket_read, found, refused) (unchanged b n k there valid)
      | inr ready ↦ elim (Bool-cases (Ring.available p.rx_buffer == 0)) [
        | inl empty ↦ rw (socket_read, found, ready, empty) (idle_net _)
        | inr some_bytes ↦
            rw (socket_read, found, ready, some_bytes) (update-other b n k there valid a _ other)
      ]
    ]
  ]

  nothing : (c : Bool) → Streamed b k (if c then [] else []) [] n
  nothing true = unchanged b n k there valid
  nothing false = unchanged b n k there valid

  -- The write to the buffer of the socket at `q`.
  deliver :
      (q : ℕ) (p : Socket) (bytes : List ℕ)
      → n.sockets q ≡ some p
      → let r = put_bytes p.rx_buffer bytes in
        Streamed b k
          (if q == b then take r.0 bytes else [])
          []
          (update_socket q (λ s. record s { rx_buffer = r.1 }) n)
  deliver q p bytes peer =
      let w = min (length bytes) (Ring.free_space p.rx_buffer) in
      elim (Bool-cases (q == b)) [
        | inr other ↦ rw other (update-other b n k there valid q _ other)
        | inl here ↦
            let same : p ≡ k =
              some-injective _ _ (sym peer ∙ (ap n.sockets ((==_iff q b).0 here) ∙ there)) in
            rw here (
              subst
                (λ (u : Socket).
                  let r = put_bytes u.rx_buffer bytes in
                  Streamed b k (take r.0 bytes) []
                    (update_socket q (λ s. record s { rx_buffer = r.1 }) n))
                (sym same)
                (subst
                  (λ (a : ℕ).
                    let r = put_bytes k.rx_buffer bytes in
                    Streamed b k (take r.0 bytes) []
                      (update_socket a (λ s. record s { rx_buffer = r.1 }) n))
                  (sym ((==_iff q b).0 here)) (own bytes)))
      ]
    where
      own :
          (bytes : List ℕ)
          → let r = put_bytes k.rx_buffer bytes in
            Streamed b k (take r.0 bytes) [] (update_socket b (λ s. record s { rx_buffer = r.1 }) n)
      own bytes =
          let r = put_bytes k.rx_buffer bytes in
          record {
            socket = record k { rx_buffer = r.1 };
            there = update-here b n k there valid (λ s. record s { rx_buffer = r.1 });
            valid = write-IsValid k.rx_buffer _ valid;
            bytes = write_bytes k.rx_buffer bytes valid;
          }

  peer_is : (a : ℕ) (s : Socket) → n.sockets a ≡ some s → peer_of a n ≡ s.peer
  peer_is a s found = rw (peer_of, found)

  write-Streamed :
      (first : Bool) (a : ℕ) (bytes : List ℕ)
      → let r = socket_write first a bytes n in
        Streamed b k (if peer_of a n == b then bytes_of r.0 else []) [] r.1
  unfolding socket_write
  write-Streamed first a bytes = elim (Option-cases (n.sockets a)) [
    | inl gone ↦ rw (socket_write, gone) (nothing _)
    | inr (s, found) ↦ elim (Bool-cases (first && (not (is_connected s.state) || (s.peer == 0)))) [
      | inl refused ↦ rw (socket_write, found, refused) (nothing _)
      | inr ready ↦ elim (Bool-cases (s.peer == 0)) [
        | inl alone ↦ rw (socket_write, found, ready, alone) (nothing _)
        | inr some_peer ↦ elim (Option-cases (n.sockets s.peer)) [
          | inl lost ↦ rw (socket_write, found, ready, some_peer, lost) (nothing _)
          | inr (p, peer) ↦ elim (Bool-cases (is_closed p.state)) [
            | inl closed ↦ rw (socket_write, found, ready, some_peer, peer, closed) (nothing _)
            | inr alive ↦ elim (Bool-cases (ltb 0 (Ring.free_space p.rx_buffer))) [
              | inr full ↦ rw (socket_write, found, ready, some_peer, peer, alive, full) (nothing _)
              | inl room ↦
                  rw (socket_write, found, ready, some_peer, peer, alive, room)
                    (let r = put_bytes p.rx_buffer bytes in
                      subst
                        (λ (q : ℕ).
                          Streamed b k (if q == b then take r.0 bytes else []) []
                            (update_socket s.peer (λ s. record s { rx_buffer = r.1 }) n))
                        (sym (peer_is a s found)) (deliver s.peer p bytes peer))
            ]
          ]
        ]
      ]
    ]
  ]

  read-Streamed :
      (first : Bool) (a size : ℕ)
      → let r = socket_read first a size n in
        Streamed b k [] (if a == b then bytes_of r.0 else []) r.1
  read-Streamed first a size = elim (Bool-cases (a == b)) [
    | inr other ↦ rw other (read-other first a size other)
    | inl here ↦ rw here (
        subst (λ (c : ℕ). let r = socket_read first c size n in Streamed b k [] (bytes_of r.0) r.1)
          (sym ((==_iff a b).0 here)) (read-own first size))
  ]

  io-Streamed : (io : Io) → Streamed b k (sent_to b io n) (got_from b io n) (io_result io n).1
  io-Streamed (io_read first a size) = read-Streamed first a size
  io-Streamed (io_write first a bytes) = write-Streamed first a bytes

-- Through any sequence of rounds of reads and writes of any sockets, first or later ones, in any order, what is in the buffer
-- of a socket and then sent to it is what is read from it and then left in its buffer: no byte is
-- lost, made up or overtaken.
pub stream_lem :
    (b : ℕ) (ios : List Io) (n : Net) (k : Socket)
    → n.sockets b ≡ some k
    → IsValid k.rx_buffer
    → Streamed b k (all_sent b ios n) (all_got b ios n) (net_after ios n)
stream_lem b [] n k there valid = unchanged b n k there valid
stream_lem b (io ∷ ios) n k there valid =
    let f = io-Streamed b n k there valid io in
    let g = stream_lem b ios (io_result io n).1 f.socket f.there f.valid in
    let sent = sent_to b io n in
    let got = got_from b io n in
    record {
      socket = g.socket;
      there = g.there;
      valid = g.valid;
      bytes =
          sym (append_assoc (contents k.rx_buffer) sent _)
          ∙ (ap (λ (l : List ℕ). l ++ all_sent b ios (io_result io n).1) f.bytes
              ∙ (append_assoc got (contents f.socket.rx_buffer) _
                  ∙ (ap (λ (l : List ℕ). got ++ l) g.bytes ∙ sym (append_assoc got _ _))));
    }
