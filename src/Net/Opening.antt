-- ===== src/Net/Opening.antt =====
-- net/tcp_socket.cpp: Listen and Connect.
use deps.Prelude.{ℕ, ◌+◌, Bool, true, false, Option, none, some, not, if◌then◌else◌}
use deps.Net.{Net, Socket, Os, App, SocketState, Connected, new_socket, tick, set_socket, allocate}
use deps.Net.{at_once, in_progress, refused, tcp_connect_timeout}
use deps.Net.{socket_event_read, socket_event_write, socket_event_error}
use deps.Net.Epoll.{add_socket}
use deps.Net.Tcp.{close}

module _ (os : Os) (app : App) where
  -- Listen, once the descriptor is bound and listens. The answer is the pointer to the new socket,
  -- which the source does not give back.
  unfoldable pub listening : ℕ → ℕ → Bool × Net → Bool × Net
  listening q fd (true, net) = (true, net)
  listening q fd (false, net) = (false, close os app q net)

  unfoldable pub listen_with : Bool → ℕ → Net → Bool × Net
  listen_with has_handler fd net = listening net.next fd (
      add_socket os net.next (socket_event_read + socket_event_error) (
        allocate
          (record (new_socket (os.junk net.calls) has_handler) {
            fd = fd;
            create_time = os.time net.calls;
            last_access_time = os.time net.calls;
            state = SocketState.listen;
          })
          net))

  -- Listen, with a descriptor.
  unfoldable pub listen_fd : ℕ → ℕ → Bool → ℕ → Net → Bool × Net
  listen_fd port backlog has_handler fd net =
      if not (os.set_nonblock net.calls fd)
      then (false, tick net)
      else if not (os.set_reuse (net.calls + 1) fd)
      then (false, record net { calls = net.calls + 2 })
      else if not (os.bind (net.calls + 2) fd port)
      then (false, record net { calls = net.calls + 3 })
      else if not (os.listen_on (net.calls + 3) fd backlog)
      then (false, record net { calls = net.calls + 4 })
      else listen_with has_handler fd (record net { calls = net.calls + 4 })

  -- The branches on the answer of socket.
  unfoldable pub listen_as : ℕ → ℕ → Bool → Option ℕ → Net → Bool × Net
  listen_as port backlog has_handler none net = (false, net)
  listen_as port backlog has_handler (some fd) net = listen_fd port backlog has_handler fd net

  unfoldable pub listen : ℕ → ℕ → Bool → Net → Bool × Net
  listen port backlog has_handler net =
      listen_as port backlog has_handler (os.socket net.calls) (tick net)

  -- Connect, after AddSocket, where `s` is what the socket q is to become.
  unfoldable pub connecting : ℕ → Socket → Bool × Net → Option ℕ × Net
  connecting q s (true, net) = (some q, set_socket q s net)
  connecting q s (false, net) = (none, close os app q net)

  abbrev pub connect_socket : ℕ → Bool → Net → Socket
  connect_socket fd has_handler net = record (new_socket (os.junk net.calls) has_handler) {
    fd = fd;
    create_time = os.time net.calls;
    last_access_time = os.time net.calls;
  }

  -- The branches on the answer of connect.
  unfoldable pub connect_as : Connected → Bool → ℕ → Net → Option ℕ × Net
  connect_as at_once has_handler fd net =
      (let s = connect_socket fd has_handler net in
        connecting net.next (record s { state = SocketState.connected })
          (add_socket os net.next (socket_event_read + socket_event_error) (allocate s net)))
  connect_as in_progress has_handler fd net =
      (let s = connect_socket fd has_handler net in
        connecting net.next
          (record s { state = SocketState.connecting; timeout = tcp_connect_timeout })
          (add_socket os net.next (socket_event_read + socket_event_write + socket_event_error)
            (allocate s net)))
  connect_as refused has_handler fd net =
      (none, close os app net.next (allocate (connect_socket fd has_handler net) net))

  unfoldable pub connect_fd : ℕ → ℕ → Bool → ℕ → Net → Option ℕ × Net
  connect_fd ip port has_handler fd net =
      if not (os.set_nonblock net.calls fd)
      then (none, tick net)
      else connect_as (os.connect_to (net.calls + 1) fd ip port) has_handler fd
          (record net { calls = net.calls + 2 })

  -- The branches on the answer of socket.
  unfoldable pub connect_at : ℕ → ℕ → Bool → Option ℕ → Net → Option ℕ × Net
  connect_at ip port has_handler none net = (none, net)
  connect_at ip port has_handler (some fd) net = connect_fd ip port has_handler fd net

  unfoldable pub connect : ℕ → ℕ → Bool → Net → Option ℕ × Net
  connect ip port has_handler net = connect_at ip port has_handler (os.socket net.calls) (tick net)
