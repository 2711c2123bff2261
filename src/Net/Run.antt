-- ===== src/Net/Run.antt =====
-- A container of net/epoll_container.cpp from its constructor on, under any sequence of calls.
use deps.Prelude.{ℕ, ◌^◌, ◌<◌, ◌≡◌, refl, arith, Bool, Option, none, some, List, [], length}
use deps.Prelude.{false}
use mathlib.Core.Bool.{false≢true}
use mathlib.Core.Option.{none-ne-some}
use deps.Net.{Net, Socket, Os, App}
use deps.Net.Epoll.{check_close_socket}
use deps.Net.Tcp.{close, send_packet}
use deps.Net.Opening.{listen, connect}
use deps.Net.Udp
use deps.Net.Loop.{handle_event, handle_sockets}
use deps.Net.Consistent.{IsConsistent, IsLive}
use deps.Net.Deleting.{check_close_socket-IsConsistent}
use deps.Net.Closing.{LawfulApp}
use deps.Net.Sending.{LawfulOs, close-Keeps}
use deps.Net.Queueing.{send_packet-Accepted}
use deps.Net.Opened.{listen-Keeps, connect-Opened, Opened}
use deps.Net.UdpOpened.{udp_listen-Keeps, udp_connect-Keeps}
use deps.Net.Round.{handle_event-Keeps, handle_sockets-IsConsistent}
use deps.Net.Timeouts.{IsQuiet}

-- The constructor of EpollContainer, in a process without a socket.
unfoldable pub new_container : ℕ → Net
new_container max_fd_count = record {
  heap = λ p. none;
  next = 1;
  table = [];
  closing = [];
  socket_num = 0;
  max_fd_count = max_fd_count;
  check_fd = 0;
  pool = record { current_total_blocks = 0; peak_total_blocks = 0; calls = 0 };
  calls = 0;
  watched = λ fd. 0;
  wire = λ p. [];
  released = [];
  faulty = false;
  stuck = false;
}

module _ (os : Os) (app : App) where
  -- One call of the program, of a live socket where it is one of a socket, or one event. In a round of
  -- HandleSockets no socket has passed its timeout when CheckTimeoutSocket comes to it.
  pub data Step : Net → Net → Type 0 where
    listens :
        {net : Net} (port backlog : ℕ) (has_handler : Bool)
        → Step net (listen os app port backlog has_handler net).1
    connects :
        {net : Net} (ip port : ℕ) (has_handler : Bool)
        → Step net (connect os app ip port has_handler net).1
    listens_udp :
        {net : Net} (port : ℕ) (has_handler : Bool)
        → Step net (Udp.listen os app port has_handler net).1
    connects_udp :
        {net : Net} (has_handler : Bool) → Step net (Udp.connect os app has_handler net).1
    sends :
        {net : Net} (p : ℕ) (s : Socket) (bs : List ℕ)
        → net.heap p ≡ some s
        → length bs < 2 ^ 64
        → Step net (send_packet os app p (some bs) net).1
    closes : {net : Net} (p : ℕ) → IsLive net p → Step net (close os app p net)
    event : {net : Net} (fd events : ℕ) → Step net (handle_event os app fd events net)
    deletes : {net : Net} → Step net (check_close_socket net)
    round : {net : Net} → IsQuiet os (check_close_socket net) → Step net (handle_sockets os app net)

  -- The states that calls lead to, from a new container.
  pub data Reach (max_fd_count : ℕ) : Net → Type 0 where
    start : Reach max_fd_count (new_container max_fd_count)
    next : {net net' : Net} → Reach max_fd_count net → Step net net' → Reach max_fd_count net'

Opened-IsConsistent : (net net' : Net) (q : Option ℕ) → Opened net q net' → IsConsistent net'
Opened-IsConsistent net net' none k = k.consistent
Opened-IsConsistent net net' (some q) (k, s) = k.consistent

new_container-IsConsistent : (max_fd_count : ℕ) → IsConsistent (new_container max_fd_count)
unfolding new_container
new_container-IsConsistent max_fd_count = record {
  ordered = tt;
  counted = refl;
  bounded = omega arith;
  held = λ fd p f. absurd (none-ne-some p f);
  valid_keys = refl;
  waiting = λ p m. absurd (false≢true m);
  once = tt;
  fresh = λ p l. refl;
  started = omega arith;
  null = refl;
  buffers = λ p s h. absurd (none-ne-some s h);
  sound = refl;
  ended = refl;
}

module _ (os : Os) (app : App) (lawful : LawfulApp app) (documented : LawfulOs os) where
  Step-IsConsistent : {net net' : Net} → Step os app net net' → IsConsistent net → IsConsistent net'
  Step-IsConsistent {net} (listens port backlog has_handler) c =
      (listen-Keeps os app lawful documented net port backlog has_handler c).consistent
  Step-IsConsistent {net} (connects ip port has_handler) c =
      Opened-IsConsistent net _ _
        (connect-Opened os app lawful documented net ip port has_handler c)
  Step-IsConsistent {net} (listens_udp port has_handler) c =
      (udp_listen-Keeps os app lawful documented net port has_handler c).consistent
  Step-IsConsistent {net} (connects_udp has_handler) c =
      (udp_connect-Keeps os app lawful documented net has_handler c).consistent
  Step-IsConsistent {net} (sends p s bs h b) c =
      (send_packet-Accepted os app lawful documented net p s bs c h b).0.consistent
  Step-IsConsistent {net} (closes p l) c = (close-Keeps os app lawful net p c l).consistent
  Step-IsConsistent {net} (event fd events) c =
      (handle_event-Keeps os app lawful documented net fd events c).consistent
  Step-IsConsistent {net} deletes c = (check_close_socket-IsConsistent net c).0
  Step-IsConsistent {net} (round quiet) c =
      handle_sockets-IsConsistent os app net lawful documented c quiet

  -- With a system as documented and a handler that keeps its promise, every state that any sequence of
  -- Listen, Connect, SendPacket of a TcpSocket, Close, events, deletions, and rounds in which no socket
  -- has passed its timeout when CheckTimeoutSocket comes to it, reaches from a new container is
  -- consistent: each entry of the table is a live socket with that
  -- descriptor, the count is right and within the limit, no freed memory has been used, and every
  -- loop of Write has ended.
  pub Reach-IsConsistent :
      {max_fd_count : ℕ} {net : Net} → Reach os app max_fd_count net → IsConsistent net
  Reach-IsConsistent {max_fd_count} start = new_container-IsConsistent max_fd_count
  Reach-IsConsistent (next r s) = Step-IsConsistent s (Reach-IsConsistent r)
