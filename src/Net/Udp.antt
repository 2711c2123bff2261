-- ===== src/Net/Udp.antt =====
-- net/udp_socket.cpp: the members of UdpSocket. The sizes of the kernel's buffers, which Listen asks for
-- without a look at the answer, are left out.
use deps.Prelude.{ℕ, ◌+◌, Bool, true, false, Option, none, some, List, [], ◌∷◌}
use deps.Prelude.{not, ltb, ◌&&◌, if◌then◌else◌, length}
use deps.Buffer.{append}
use deps.Buffer.Growth.{contents}
use deps.Net.{Net, Socket, Os, App, SocketState, Received, Sent, udp, new_socket}
use deps.Net.{data_of, no_data, recv_error, wrote, try_again, send_error}
use deps.Net.{socket_event_read, socket_event_error, fault, tick, set_socket, on_socket, allocate}
use deps.Net.Epoll.{add_socket}
use deps.Net.Tcp

abbrev pub new_udp : Bool → Socket
new_udp has_handler = record (new_socket false has_handler) { socket_type = udp }

abbrev pub can_send : SocketState → Bool
can_send SocketState.listen = true
can_send SocketState.connected = true
can_send st = false

abbrev pub is_connected : SocketState → Bool
is_connected SocketState.connected = true
is_connected st = false

-- The test of HandleTimeout at the time `now`.
unfoldable pub timed_out : ℕ → Socket → Bool
timed_out now s =
    is_connected s.state
    && (ltb 0 s.timeout && (ltb 0 s.last_access_time && ltb (s.last_access_time + s.timeout) now))

module _ (os : Os) (app : App) where
  -- Close is word for word that of TcpSocket, and so are the branches of Read on pn.
  unfoldable pub close : ℕ → Net → Net
  close p net = Tcp.close os app p net

  unfoldable pub handled : ℕ → Net → Net
  handled p net =
      on_socket p
        (λ s.
          if s.has_handler
          then (let (pn, net') = app.handle_packet (contents s.input) p net in
              Tcp.unpacked os app pn p net')
          else Tcp.unpacked os app 0 p net)
        net

  unfoldable pub take_input : ℕ → List ℕ → Net → Net
  take_input p bs net =
      on_socket p
        (λ s.
          (let (_, b, pool) = append os.malloc bs s.input net.pool in
            handled p (set_socket p (record s { input = b }) (record net { pool = pool }))))
        net

  -- The branches on the answer of recvfrom.
  unfoldable pub received : ℕ → Received → Net → Net
  received p recv_error net = net
  received p no_data net = close p net
  received p (data_of []) net = close p net
  received p (data_of (x ∷ bs)) net = take_input p (x ∷ bs) net

  unfoldable pub read : ℕ → ℕ → Net → Net
  read p size net =
      on_socket p
        (λ s. received p (os.recv_from (net.calls + 1) s.fd size) (
          set_socket p (record s { last_access_time = os.time net.calls })
            (record net { calls = net.calls + 2 })))
        net

  unfoldable pub handle_read : ℕ → ℕ → Net → Net
  handle_read p size net = read p size net

  unfoldable pub handle_write : ℕ → Net → Net
  handle_write p net = net

  unfoldable pub handle_error : ℕ → Net → Net
  handle_error p net = close p net

  unfoldable pub handle_timeout : ℕ → Net → Net
  handle_timeout p net =
      on_socket p (λ s. if timed_out (os.time net.calls) s then close p (tick net) else tick net)
        net

  -- What SendPacket answers after sendto.
  abbrev pub is_sent : Sent → Bool
  is_sent (wrote n) = ltb 0 n
  is_sent try_again = false
  is_sent send_error = false

  -- SendPacket, after the time of the access is set.
  unfoldable pub send_data : List ℕ → Socket → Net → Bool × Net
  send_data bs s net =
      if ltb (length bs) 1 then (true, net) else (is_sent (os.send_to net.calls s.fd bs), tick net)

  unfoldable pub send_option : Option (List ℕ) → Socket → Net → Bool × Net
  send_option none s net = (true, net)
  send_option (some bs) s net = send_data bs s net

  -- `packet` is none for NULL.
  unfoldable pub send_packet : ℕ → Option (List ℕ) → Net → Bool × Net
  send_packet p packet net = elim (net.heap p) [
    | none ↦ (false, fault net)
    | some s ↦
        (let net' = set_socket p (record s { last_access_time = os.time net.calls }) (tick net) in
          if not (can_send s.state) then (false, net') else send_option packet s net')
  ]

  -- Listen and Connect, after AddSocket on the new socket q.
  unfoldable pub listening : ℕ → Bool × Net → Bool × Net
  listening q (true, net) = (true, net)
  listening q (false, net) = (false, close q net)

  unfoldable pub connected_as : ℕ → Bool × Net → Option ℕ × Net
  connected_as q (true, net) = (some q, net)
  connected_as q (false, net) = (none, close q net)

  -- The new socket in the state `st`, with its descriptor.
  abbrev pub socket_in : SocketState → Bool → ℕ → Net → Socket
  socket_in st has_handler fd net = record (new_udp has_handler) {
    fd = fd;
    create_time = os.time net.calls;
    last_access_time = os.time net.calls;
    state = st;
  }

  unfoldable pub add_new : SocketState → Bool → ℕ → Net → Bool × Net
  add_new st has_handler fd net =
      add_socket os net.next (socket_event_read + socket_event_error)
        (allocate (socket_in st has_handler fd net) net)

  -- Listen, with a descriptor.
  unfoldable pub listen_fd : ℕ → Bool → ℕ → Net → Bool × Net
  listen_fd port has_handler fd net =
      if not (os.set_nonblock net.calls fd)
      then (false, tick net)
      else if not (os.set_reuse (net.calls + 1) fd)
      then (false, record net { calls = net.calls + 2 })
      else if not (os.bind (net.calls + 2) fd port)
      then (false, record net { calls = net.calls + 3 })
      else (let net' = record net { calls = net.calls + 3 } in
          listening net'.next (add_new SocketState.listen has_handler fd net'))

  unfoldable pub listen_as : ℕ → Bool → Option ℕ → Net → Bool × Net
  listen_as port has_handler none net = (false, net)
  listen_as port has_handler (some fd) net = listen_fd port has_handler fd net

  unfoldable pub listen : ℕ → Bool → Net → Bool × Net
  listen port has_handler net = listen_as port has_handler (os.socket net.calls) (tick net)

  -- Connect, with a descriptor. No system call connects it.
  unfoldable pub connect_fd : Bool → ℕ → Net → Option ℕ × Net
  connect_fd has_handler fd net =
      if not (os.set_nonblock net.calls fd)
      then (none, tick net)
      else (let net' = tick net in
          connected_as net'.next (add_new SocketState.connected has_handler fd net'))

  unfoldable pub connect_as : Bool → Option ℕ → Net → Option ℕ × Net
  connect_as has_handler none net = (none, net)
  connect_as has_handler (some fd) net = connect_fd has_handler fd net

  unfoldable pub connect : Bool → Net → Option ℕ × Net
  connect has_handler net = connect_as has_handler (os.socket net.calls) (tick net)
