-- ===== src/Net/Tests.antt =====
-- A container with one socket, a system and an application for the runs of the theorems.
mod Sockets
mod Container
use deps.Prelude.{ℕ, ◌≤◌, ◌≡◌, refl, sym, ◌∙◌, ap, arith, inl, inr}
use deps.Prelude.{true, false, none, some, List, [], ◌∷◌, ◌++◌}
use deps.Prelude.{◌==◌, length, take, drop, replicate, length-take, length-replicate}
use deps.Prelude.{Bool-cases, ==→eq}
use mathlib.Core.Bool.{false≢true}
use mathlib.Core.Option.{none-ne-some, some-injective}
use deps.Buffer.{Buffer, append}
use deps.Buffer.Growth.{IsValid, contents}
use deps.Buffer.Contents.{Answer}
use deps.Net.{
  Net, Socket, Os, App, SocketState, Received, Sent, data_of, no_data, recv_error, wrote, at_once,
  put,
}
use deps.Prelude.{pos}
use deps.Net.Options.{Options, KeptAlive, enable_tcp_keep_alive, enable_tcp_keep_alive-KeptAlive}
use deps.Net.Table.{find, member}
use deps.Net.Epoll.{add_socket, check_close_socket}
use deps.Net.Tcp.{
  timed_out, close, read, take_input, send_all, send_packet, handle_read, handle_write,
}
use deps.Net.Loop.{late_as}
use deps.Net.{tcp, udp}
use deps.Net.Udp
use deps.Net.Updates.{set_socket-Keeps}
use deps.Net.Consumed.{offered, take_input_consumed}
use deps.Net.Run.{new_container, start, next, listens, event, Reach-IsConsistent}
use deps.Net.Loop.{handle_event}
use deps.Net.Opening.{connect, listen}
use deps.Net.Loop.{check_from, handle_events, handle_sockets}
use deps.Net.Consistent.{IsConsistent, IsLive, Keeps, Keeps-refl, Holds}
use deps.Net.Deleting.{check_close_socket-IsConsistent}
use deps.Net.Closing.{LawfulApp, IsClosed, close-IsClosed}
use deps.Net.Sending.{LawfulOs, send_all-Keeps}
use deps.Net.Queueing.{Accepted, send_packet-Accepted}
use deps.Net.Receiving.{handle_read-Keeps, handle_write-Keeps}
use deps.Net.Round.{handle_events-Keeps, handle_sockets-IsConsistent}
use deps.Net.Timeouts.{IsQuiet, check_from-timed_out}
use deps.Net.Answers.{AddAnswer, add_socket-AddAnswer, read_again-IsClosed, take_input-Answer}
use deps.Net.Opened.{Opened, connect-Opened, listen-Keeps}

-- A system whose calls succeed, at the time 100, and what recv answers.
abbrev pub system : (ℕ → Received) → Os
system recv = record {
  time = λ i. 100;
  socket = λ i. some 7;
  set_nonblock = λ i fd. true;
  set_reuse = λ i fd. true;
  set_nodelay = λ i fd. true;
  bind = λ i fd port. true;
  listen_on = λ i fd backlog. true;
  connect_to = λ i fd ip port. at_once;
  accept_on = λ i fd. some 8;
  recv = λ i fd size. recv size;
  recv_from = λ i fd size. recv size;
  send = λ i fd bs. wrote (length bs);
  send_to = λ i fd bs. wrote (length bs);
  epoll_ctl = λ i op fd events. true;
  epoll_wait = λ i n. (5, 5) ∷ (6, 1) ∷ [];
  malloc = λ i n. some (replicate n 0);
  junk = λ i. false;
}

abbrev pub two_bytes : ℕ → Received
two_bytes size = data_of (take size (1 ∷ 2 ∷ []))

abbrev pub counting_app : App
counting_app = record { handle_packet = λ bs p net. (length bs, net); handle_close = λ p net. net }

pub counting_app-LawfulApp : LawfulApp counting_app
counting_app-LawfulApp = record {
  on_close = λ p net c l. Keeps-refl net c;
  on_packet = λ bs p net c l b. Keeps-refl net c;
}

abbrev pub bytes_of : Received → List ℕ
bytes_of (data_of bs) = bs
bytes_of no_data = []
bytes_of recv_error = []

abbrev pub count_of : Sent → ℕ
count_of (wrote n) = n
count_of s = 0

pub system-LawfulOs :
    (recv : ℕ → Received)
    → ((size : ℕ) → length (bytes_of (recv size)) ≤ size)
    → LawfulOs (system recv)
system-LawfulOs recv short = record {
  answers = λ i n bs e. ap length (sym (some-injective _ _ e)) ∙ length-replicate n 0;
  sends = λ i fd n bs l e. ((let same = ap count_of e in (omega arith, omega arith)));
  receives =
      λ i fd size bs e. ((let same = ap (λ r. length (bytes_of r)) e in omega (arith, short size)));
  receives_from =
      λ i fd size bs e. ((let same = ap (λ r. length (bytes_of r)) e in omega (arith, short size)));
  accepts = λ i fd afd e. rw (← some-injective _ _ e) refl;
  opens = λ i fd e. rw (← some-injective _ _ e) refl;
}

pub two_bytes-LawfulOs : LawfulOs (system two_bytes)
two_bytes-LawfulOs =
    system-LawfulOs two_bytes (λ size. omega (arith, length-take {A = ℕ} size (1 ∷ 2 ∷ [])))

abbrev pub filled : Buffer
filled = record { mem = replicate 4096 9; size = 3; block = 1; max_blocks = 1024 }

-- A connected socket with three bytes to send.
abbrev pub socket_with : ℕ → Socket
socket_with timeout = record {
  fd = 5;
  state = SocketState.connected;
  socket_type = tcp;
  create_time = 10;
  last_access_time = 10;
  timeout = timeout;
  has_handler = true;
  input = filled;
  output = filled;
  is_resending = true;
}

abbrev pub net_with : ℕ → Net
net_with timeout = record {
  heap = put 1 (some (socket_with timeout)) (λ q. none);
  next = 2;
  table = (5, 1) ∷ [];
  closing = [];
  socket_num = 1;
  max_fd_count = 10;
  check_fd = 0;
  pool = record { current_total_blocks = 2; peak_total_blocks = 2; calls = 2 };
  calls = 0;
  watched = λ fd. 0;
  wire = λ p. [];
  released = [];
  faulty = false;
  stuck = false;
}

pub filled-IsValid : IsValid 1024 filled
filled-IsValid = record {
  filled = length-replicate {A = ℕ} 4096 9;
  fits = omega arith;
  bounded = omega arith;
  limited = omega arith;
  unsigned = omega arith;
}

pub here_only : (t p : ℕ) (s : Socket) → (net_with t).heap p ≡ some s → s ≡ socket_with t
here_only t p s h = elim (Bool-cases (p == 1)) [
  | inl e ↦ sym (some-injective _ _ (rw e at h))
  | inr e ↦ absurd (none-ne-some s (rw e at h))
]

pub net_with-Holds : (t fd p : ℕ) → find fd ((5, 1) ∷ []) ≡ some p → Holds (net_with t).heap fd p
net_with-Holds t fd p f = elim (Bool-cases (fd == 5)) [
  | inl e ↦
      rw (==→eq fd 5 e, ← some-injective _ _ (rw e at f))
        (record { socket = socket_with t; here = refl; its_fd = refl })
  | inr e ↦ absurd (none-ne-some p (rw e at f))
]

pub net_with-IsConsistent : (t : ℕ) → IsConsistent (net_with t)
net_with-IsConsistent t = record {
  ordered = (omega arith, tt);
  counted = refl;
  bounded = omega arith;
  held = net_with-Holds t;
  valid_keys = refl;
  waiting = λ p m. absurd (false≢true m);
  once = tt;
  fresh = λ p l. ground arith;
  started = omega arith;
  null = refl;
  buffers =
      λ p s h. rw (here_only t p s h) (record { input = filled-IsValid; output = filled-IsValid });
  sound = refl;
  ended = refl;
}

pub live : (t : ℕ) → IsLive (net_with t) 1
live t = (socket_with t, refl)
