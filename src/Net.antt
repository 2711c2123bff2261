-- ===== src/Net.antt =====
-- net/socket_base.h, net/tcp_socket.h and net/epoll_container.h: what the sockets and their container
-- keep, and what they ask of the system and of the application.
--
-- A pointer to a socket is a number, 0 is NULL. An int is given by its bit pattern, so that the
-- descriptor -1 is `no_fd`. The peer address, which is only logged, is left out.
pub mod Table
pub mod Epoll
pub mod Tcp
pub mod Opening
pub mod Udp
pub mod Options
pub mod Consistent
pub mod Updates
pub mod Container
pub mod Deleting
pub mod Closing
pub mod Sending
pub mod Waking
pub mod Queueing
pub mod Fresh
pub mod Receiving
pub mod Loop
pub mod Timeouts
pub mod Round
pub mod Run
pub mod Answers
pub mod Opened
pub mod Datagrams
pub mod Consumed
pub mod UdpOpened
mod Tests
use deps.Prelude.{ℕ, ◌+◌, ◌^◌, ◌-◌, Bool, true, false, Option, none, some, List, []}
use deps.Prelude.{if◌then◌else◌, ◌==◌}
use deps.Buffer.{Buffer, Pool, new}

abbrev pub no_fd : ℕ
no_fd = 2 ^ 32 - 1

pub data SocketType : Type 0 where
  tcp : SocketType
  udp : SocketType

pub data SocketState : Type 0 where
  connecting : SocketState
  connected : SocketState
  listen : SocketState
  accept : SocketState
  close : SocketState

abbrev pub socket_event_read : ℕ
socket_event_read = 1

abbrev pub socket_event_write : ℕ
socket_event_write = 2

abbrev pub socket_event_error : ℕ
socket_event_error = 4

abbrev pub tcp_connect_timeout : ℕ
tcp_connect_timeout = 5

abbrev pub tcp_access_timeout : ℕ
tcp_access_timeout = 60

abbrev pub max_read_buff_size : ℕ
max_read_buff_size = 65536

-- A socket of either class: a UdpSocket has no output, which stays empty, and no is_resending.
-- `has_handler` is whether m_handler is not NULL: all sockets share one handler.
pub record Socket : Type 0 where
  pub fd : ℕ
  pub state : SocketState
  pub socket_type : SocketType
  pub create_time : ℕ
  pub last_access_time : ℕ
  pub timeout : ℕ
  pub has_handler : Bool
  pub input : Buffer
  pub output : Buffer
  pub is_resending : Bool

-- An EpollContainer with all that its sockets live in. The last fields are for statements:
-- `watched fd` is what the last epoll_ctl on fd asked for, `wire p` the bytes of the socket p that
-- send has taken, `released` the descriptors that were closed, `faulty` whether freed memory or an
-- erased iterator was used, `stuck` whether a loop outlasted its fuel.
pub record Net : Type 0 where
  pub heap : ℕ → Option Socket
  pub next : ℕ
  pub table : List (ℕ × ℕ)
  pub closing : List ℕ
  pub socket_num : ℕ
  pub max_fd_count : ℕ
  pub check_fd : ℕ
  pub pool : Pool
  pub calls : ℕ
  pub watched : ℕ → ℕ
  pub wire : ℕ → List ℕ
  pub released : List ℕ
  pub faulty : Bool
  pub stuck : Bool

pub data Received : Type 0 where
  data_of : List ℕ → Received
  no_data : Received
  recv_error : Received

pub data Sent : Type 0 where
  wrote : ℕ → Sent
  try_again : Sent
  send_error : Sent

pub data Connected : Type 0 where
  at_once : Connected
  in_progress : Connected
  refused : Connected

pub data Control : Type 0 where
  ctl_add : Control
  ctl_mod : Control
  ctl_del : Control

-- The system calls. The first argument is the number of calls before, so that equal calls may have
-- different answers; `junk` is what memory holds that nobody has written.
pub record Os : Type 0 where
  pub time : ℕ → ℕ
  pub socket : ℕ → Option ℕ
  pub set_nonblock : ℕ → ℕ → Bool
  pub set_reuse : ℕ → ℕ → Bool
  pub set_nodelay : ℕ → ℕ → Bool
  pub bind : ℕ → ℕ → ℕ → Bool
  pub listen_on : ℕ → ℕ → ℕ → Bool
  pub connect_to : ℕ → ℕ → ℕ → ℕ → Connected
  pub accept_on : ℕ → ℕ → Option ℕ
  pub recv : ℕ → ℕ → ℕ → Received
  pub recv_from : ℕ → ℕ → ℕ → Received
  pub send : ℕ → ℕ → List ℕ → Sent
  pub send_to : ℕ → ℕ → List ℕ → Sent
  pub epoll_ctl : ℕ → Control → ℕ → ℕ → Bool
  pub epoll_wait : ℕ → ℕ → List (ℕ × ℕ)
  pub malloc : ℕ → ℕ → Option (List ℕ)
  pub junk : ℕ → Bool

-- The application: the two virtual members of PacketHandler, which may do anything with the sockets.
pub record App : Type 0 where
  pub handle_packet : List ℕ → ℕ → Net → ℕ × Net
  pub handle_close : ℕ → Net → Net

abbrev pub fault : Net → Net
fault net = record net { faulty = true }

abbrev pub tick : Net → Net
tick net = record net { calls = net.calls + 1 }

abbrev pub put : {A : Type 0} → ℕ → A → (ℕ → A) → ℕ → A
put p a f q = if q == p then a else f q

abbrev pub set_socket : ℕ → Socket → Net → Net
set_socket p s net = record net { heap = put p (some s) net.heap }

-- What follows the use of a pointer.
abbrev pub on_socket : ℕ → (Socket → Net) → Net → Net
on_socket p f net = elim (net.heap p) [ none ↦ fault net | some s ↦ f s ]

-- `new TcpSocket`, at the address `net.next`.
unfoldable pub new_socket : Bool → Bool → Socket
new_socket junk has_handler = record {
  fd = no_fd;
  state = SocketState.close;
  socket_type = tcp;
  create_time = 0;
  last_access_time = 0;
  timeout = 0;
  has_handler = has_handler;
  input = new 1024;
  output = new 1024;
  is_resending = junk;
}

-- An allocation of a socket that the caller fills.
abbrev pub allocate : Socket → Net → Net
allocate s net = record net { heap = put net.next (some s) net.heap; next = net.next + 1 }
