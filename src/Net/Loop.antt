-- ===== src/Net/Loop.antt =====
-- net/epoll_container.cpp: HandleSockets and CheckTimeoutSocket, as compiled for Linux.
use deps.Prelude.{ℕ, zero, suc, ◌/◌, ◌%◌, Bool, Option, none, some, List, [], ◌∷◌}
use deps.Prelude.{◌==◌, if◌then◌else◌}
use deps.Net.{
  SocketType, tcp, udp, Socket, on_socket, Net, Os, App, max_read_buff_size, fault, tick,
}
use deps.Net.Table.{find, upper_bound}
use deps.Net.Epoll.{get_socket, check_close_socket}
use deps.Net.Tcp
use deps.Net.Udp

-- EPOLLIN, EPOLLOUT and EPOLLERR among the events that epoll_wait reports.
abbrev pub is_readable : ℕ → Bool
is_readable events = events % 2 == 1

abbrev pub is_writable : ℕ → Bool
is_writable events = events / 4 % 2 == 1

abbrev pub is_failed : ℕ → Bool
is_failed events = events / 8 % 2 == 1

-- Whether HandleTimeout closes the socket at the time `now`.
unfoldable pub late_as : SocketType → ℕ → Socket → Bool
late_as tcp now s = Tcp.timed_out now s
late_as udp now s = Udp.timed_out now s

module _ (os : Os) (app : App) where
  -- The virtual members of SocketBase.
  unfoldable pub read_as : SocketType → ℕ → ℕ → Net → Net
  read_as tcp p size net = Tcp.handle_read os app p size net
  read_as udp p size net = Udp.handle_read os app p size net

  unfoldable pub write_as : SocketType → ℕ → Net → Net
  write_as tcp p net = Tcp.handle_write os app p net
  write_as udp p net = Udp.handle_write os app p net

  unfoldable pub error_as : SocketType → ℕ → Net → Net
  error_as tcp p net = Tcp.handle_error os app p net
  error_as udp p net = Udp.handle_error os app p net

  unfoldable pub timeout_as : SocketType → ℕ → Net → Net
  timeout_as tcp p net = Tcp.handle_timeout os app p net
  timeout_as udp p net = Udp.handle_timeout os app p net

  unfoldable pub handle_read : ℕ → ℕ → Net → Net
  handle_read p size net = on_socket p (λ s. read_as s.socket_type p size net) net

  unfoldable pub handle_write : ℕ → Net → Net
  handle_write p net = on_socket p (λ s. write_as s.socket_type p net) net

  unfoldable pub handle_error : ℕ → Net → Net
  handle_error p net = on_socket p (λ s. error_as s.socket_type p net) net

  unfoldable pub handle_timeout : ℕ → Net → Net
  handle_timeout p net = on_socket p (λ s. timeout_as s.socket_type p net) net

  -- One event of the socket s.
  unfoldable pub serve : ℕ → ℕ → Net → Net
  serve p events net =
      if is_failed events
      then handle_error p net
      else (let net' = if is_readable events then handle_read p max_read_buff_size net else net in
          if is_writable events then handle_write p net' else net')

  unfoldable pub handle_event : ℕ → ℕ → Net → Net
  handle_event fd events net = elim (get_socket fd net) [ none ↦ net | some p ↦ serve p events net ]

  unfoldable pub handle_events : List (ℕ × ℕ) → Net → Net
  handle_events [] net = net
  handle_events ((fd, events) ∷ ready) net = handle_events ready (handle_event fd events net)

  -- The step `++itr` of CheckTimeoutSocket, where `rest` goes on from the next entry: the iterator
  -- is good only while its entry is there.
  unfoldable pub advance : (Option (ℕ × ℕ) → Net → Net) → ℕ → Net → Net
  advance rest fd net = elim (find fd net.table) [
    | none ↦ fault net
    | some q ↦ rest (upper_bound fd net.table) net
  ]

  -- The loop of CheckTimeoutSocket, for at most n entries from the iterator on.
  unfoldable pub check_from : ℕ → Option (ℕ × ℕ) → Net → Net
  check_from n none net = record net { check_fd = 0 }
  check_from zero (some e) net = net
  check_from (suc n) (some (fd, p)) net =
      advance (check_from n) fd
        (let net' = record net { check_fd = fd } in if p == 0 then net' else handle_timeout p net')

  unfoldable pub check_timeout_socket : Net → Net
  check_timeout_socket net = check_from 1000 (upper_bound net.check_fd net.table) net

  unfoldable pub handle_sockets : Net → Net
  handle_sockets net =
      let net' = check_timeout_socket (check_close_socket net) in
      handle_events (os.epoll_wait net'.calls net'.max_fd_count) (tick net')
