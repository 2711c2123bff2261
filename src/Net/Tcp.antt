-- ===== src/Net/Tcp.antt =====
-- net/tcp_socket.cpp: the members of TcpSocket.
use deps.Prelude.{ℕ, zero, suc, ◌+◌, ◌^◌, Bool, true, false, Option, none, some, List, [], ◌∷◌}
use deps.Prelude.{not, ltb, ◌==◌, ◌&&◌, ◌||◌, if◌then◌else◌, length, take, ◌++◌}
use deps.Buffer.{append, erase}
use deps.Buffer.Growth.{contents}
use deps.Net.{Net, Socket, Os, App, SocketState, Received, Sent, no_fd, new_socket}
use deps.Net.{data_of, no_data, recv_error, wrote, try_again, send_error}
use deps.Net.{tcp_access_timeout}
use deps.Net.{socket_event_read, socket_event_write, socket_event_error}
use deps.Net.{fault, tick, put, set_socket, on_socket, allocate}
use deps.Net.Epoll.{add_socket, mod_socket, del_socket}

-- The states in which a stream has a peer.
abbrev pub is_open : SocketState → Bool
is_open SocketState.accept = true
is_open SocketState.connected = true
is_open st = false

abbrev pub is_connecting : SocketState → Bool
is_connecting SocketState.connecting = true
is_connecting st = false

-- The test of HandleTimeout at the time `now`.
unfoldable pub timed_out : ℕ → Socket → Bool
timed_out now s =
    (is_open s.state || is_connecting s.state)
    && (ltb 0 s.timeout && (ltb 0 s.last_access_time && ltb (s.last_access_time + s.timeout) now))

module _ (os : Os) (app : App) where
  -- Close, after HandleClose and DelSocket.
  unfoldable pub close_fd : ℕ → Net → Net
  close_fd p net =
      on_socket p
        (λ s.
          set_socket p
            (record s {
              fd = no_fd;
              state = SocketState.close;
              create_time = 0;
              last_access_time = 0;
            })
            (if s.fd == no_fd then net else record net { released = s.fd ∷ net.released }))
        net

  unfoldable pub close : ℕ → Net → Net
  close p net =
      on_socket p
        (λ s. close_fd p (del_socket os p (if s.has_handler then app.handle_close p net else net)))
        net

  -- What the callers of ModSocket do with its answer: a failure closes the socket.
  unfoldable pub settle : ℕ → Bool × Net → Net
  settle p (true, net) = net
  settle p (false, net) = close p net

  -- Read, after HandlePacket: pn is an int. No caller gives another pn than 0.
  unfoldable pub unpacked : ℕ → ℕ → Net → Net
  unpacked pn p net =
      if pn == 0
      then net
      else if ltb pn (2 ^ 31)
      then on_socket p
          (λ s.
            (let (b, pool) = erase 0 pn false s.input net.pool in
              set_socket p (record s { input = b }) (record net { pool = pool })))
          net
      else close p net

  unfoldable pub handled : ℕ → Net → Net
  handled p net =
      on_socket p
        (λ s.
          unpacked 0 p
            (if s.has_handler then (app.handle_packet (contents s.input) p net).1 else net))
        net

  unfoldable pub take_input : ℕ → List ℕ → Net → Net
  take_input p bs net =
      on_socket p
        (λ s.
          (let (_, b, pool) = append os.malloc bs s.input net.pool in
            handled p (set_socket p (record s { input = b }) (record net { pool = pool }))))
        net

  -- The branches on the answer of recv.
  unfoldable pub received : ℕ → Received → Net → Net
  received p recv_error net = net
  received p no_data net = close p net
  received p (data_of []) net = close p net
  received p (data_of (x ∷ bs)) net = take_input p (x ∷ bs) net

  unfoldable pub read : ℕ → ℕ → Net → Net
  read p size net =
      on_socket p
        (λ s. received p (os.recv (net.calls + 1) s.fd size) (
          set_socket p (record s { last_access_time = os.time net.calls })
            (record net { calls = net.calls + 2 })))
        net

  unfoldable pub resend : ℕ → Bool × Net → Net
  resend p (false, net) = close p net
  resend p (true, net) = on_socket p (λ s. set_socket p (record s { is_resending = true }) net) net

  unfoldable pub finished : ℕ → Net → Net
  finished p net =
      on_socket p
        (λ s.
          if s.is_resending
          then settle p (
              mod_socket os p (socket_event_read + socket_event_error)
                (set_socket p (record s { is_resending = false }) net))
          else net)
        net

  -- The branches on the answer of send, where `rest` is the rest of the loop.
  unfoldable pub sent : (Net → Net) → ℕ → Sent → Net → Net
  sent rest p try_again net =
      resend p (mod_socket os p (socket_event_read + socket_event_write + socket_event_error) net)
  sent rest p send_error net = close p net
  sent rest p (wrote n) net =
      on_socket p
        (λ s.
          (let (b, pool) = erase 0 n false s.output net.pool in
            (let net' =
                set_socket p (record s { output = b })
                  (record net {
                    pool = pool;
                    wire = put p (net.wire p ++ take n (contents s.output)) net.wire;
                  }) in
              if b.size == 0 then finished p net' else rest net')))
        net

  -- The loop of Write, on fuel.
  unfoldable pub send_all : ℕ → ℕ → Net → Net
  send_all zero p net = record net { stuck = true }
  send_all (suc n) p net =
      on_socket p
        (λ s. sent (send_all n p) p (os.send net.calls s.fd (contents s.output)) (tick net)) net

  unfoldable pub write : ℕ → Net → Net
  write p net =
      on_socket p
        (λ s.
          (let net' = set_socket p (record s { last_access_time = os.time net.calls }) (tick net) in
            if ltb s.output.size 1 then net' else send_all s.output.size p net'))
        net

  -- SendPacket, after the append: `data` is none for NULL.
  unfoldable pub queued : ℕ → Bool × Net → Bool × Net
  queued p (true, net) = (true, write p net)
  queued p (false, net) = (false, net)

  unfoldable pub queue : ℕ → List ℕ → Socket → Net → Bool × Net
  queue p bs s net =
      (let (done, b, pool) = append os.malloc bs s.output net.pool in
        queued p (done, set_socket p (record s { output = b }) (record net { pool = pool })))

  unfoldable pub send_packet : ℕ → Option (List ℕ) → Net → Bool × Net
  send_packet p none net = elim (net.heap p) [
    | none ↦ (false, fault net)
    | some s ↦ (is_open s.state, net)
  ]
  send_packet p (some bs) net = elim (net.heap p) [
    | none ↦ (false, fault net)
    | some s ↦
        if not (is_open s.state)
        then (false, net)
        else if ltb (length bs) 1
        then (true, net)
        else queue p bs s net
  ]

  -- Accept, after AddSocket on the new socket q.
  unfoldable pub adopted : ℕ → ℕ → Bool × Net → Net
  adopted q afd (false, net) = close q net
  adopted q afd (true, net) = if os.set_nodelay net.calls afd then tick net else close q (tick net)

  -- The socket that Accept makes.
  abbrev pub peer_socket : ℕ → Socket → Net → Socket
  peer_socket afd s net = record (new_socket (os.junk net.calls) s.has_handler) {
    fd = afd;
    create_time = os.time net.calls;
    last_access_time = os.time net.calls;
    timeout = tcp_access_timeout;
    state = SocketState.accept;
  }

  -- Accept, once the descriptor does not block.
  unfoldable pub adopt : ℕ → Socket → Net → Net
  adopt afd s net = adopted net.next afd (
      add_socket os net.next (socket_event_read + socket_event_error)
        (allocate (peer_socket afd s net) net))

  unfoldable pub adopt_for : ℕ → ℕ → Net → Net
  adopt_for p afd net = on_socket p (λ s. adopt afd s net) net

  -- Accept, with a descriptor.
  unfoldable pub accepted : ℕ → ℕ → Net → Net
  accepted p afd net =
      if not (os.set_nonblock net.calls afd) then close p (tick net) else adopt_for p afd (tick net)

  unfoldable pub accept : ℕ → Net → Net
  accept p net =
      on_socket p
        (λ s. elim (os.accept_on net.calls s.fd) [
          | none ↦ close p (tick net)
          | some afd ↦ accepted p afd (tick net)
        ])
        net

  unfoldable pub read_in : SocketState → ℕ → ℕ → Net → Net
  read_in SocketState.listen p size net = accept p net
  read_in SocketState.accept p size net = read p size net
  read_in SocketState.connecting p size net = read p size net
  read_in SocketState.connected p size net = read p size net
  read_in SocketState.close p size net = net

  unfoldable pub handle_read : ℕ → ℕ → Net → Net
  handle_read p size net = on_socket p (λ s. read_in s.state p size net) net

  -- HandleWrite in the state connecting.
  unfoldable pub become_connected : ℕ → Socket → Net → Net
  become_connected p s net = settle p (
      mod_socket os p (socket_event_read + socket_event_error)
        (set_socket p (record s { state = SocketState.connected; timeout = 0 }) net))

  unfoldable pub write_in : SocketState → ℕ → Socket → Net → Net
  write_in SocketState.connecting p s net = become_connected p s net
  write_in SocketState.accept p s net = write p net
  write_in SocketState.connected p s net = write p net
  write_in SocketState.listen p s net = net
  write_in SocketState.close p s net = net

  unfoldable pub handle_write : ℕ → Net → Net
  handle_write p net = on_socket p (λ s. write_in s.state p s net) net

  unfoldable pub handle_error : ℕ → Net → Net
  handle_error p net = close p net

  unfoldable pub handle_timeout : ℕ → Net → Net
  handle_timeout p net =
      on_socket p (λ s. if timed_out (os.time net.calls) s then close p (tick net) else tick net)
        net
