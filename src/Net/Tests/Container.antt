-- ===== src/Net/Tests/Container.antt =====
-- The theorems on net/epoll_container.cpp at a concrete container.
use deps.Prelude.{ℕ, ◌≡◌, refl, arith}
use deps.Prelude.{true, false, some, []}
use deps.Prelude.{length}
use mathlib.Core.Option.{none-ne-some}
use deps.Net.{Net, App, Os, new_socket}
use deps.Prelude.{none, ◌+◌}
use deps.Net.Epoll.{delete_all}
use deps.Net.Sending.{LawfulOs}
use deps.Net.Run.{round}
use deps.Net.Loop
use deps.Net.Opening
use deps.Net.Epoll
use mathlib.Core.Option.{some-injective}
use deps.Net.Tcp
use deps.Net.Table.{member}
use deps.Net.Epoll.{add_socket, check_close_socket}
use deps.Net.Tcp.{timed_out, close, send_packet}
use deps.Net.Loop.{late_as}
use deps.Net.{tcp}
use deps.Net.Run.{new_container, start, next, listens, event, Reach-IsConsistent}
use deps.Net.Loop.{handle_event}
use deps.Net.Opening.{connect, listen}
use deps.Net.Loop.{check_from, handle_sockets}
use deps.Net.Consistent.{IsConsistent, Keeps-refl}
use deps.Net.Deleting.{check_close_socket-IsConsistent}
use deps.Net.Closing.{LawfulApp, close-IsClosed}
use deps.Net.Queueing.{send_packet-Accepted}
use deps.Net.Round.{handle_sockets-IsConsistent}
use deps.Net.Timeouts.{IsQuiet, check_from-timed_out}
use deps.Net.Answers.{AddAnswer, add_socket-AddAnswer}
use deps.Net.Opened.{Opened, connect-Opened}
use deps.Net.Tests.{
  system, two_bytes, counting_app, counting_app-LawfulApp, two_bytes-LawfulOs, socket_with,
  net_with, here_only, net_with-IsConsistent, live,
}

-- An application that sends back what it reads.
abbrev echo_app : App
echo_app = record {
  handle_packet =
      λ bs p net. (length bs, (send_packet (system two_bytes) counting_app p (some bs) net).1);
  handle_close = λ p net. net;
}

echo_app-LawfulApp : LawfulApp echo_app
echo_app-LawfulApp = record {
  on_close = λ p net c l. Keeps-refl net c;
  on_packet = λ bs p net c l b.
      (send_packet-Accepted (system two_bytes) counting_app counting_app-LawfulApp
        two_bytes-LawfulOs net p l.0 bs c l.1 b).0;
}

-- The same system with a clock that runs.
abbrev running : Os
running = record (system two_bytes) { time = λ i. 100 + i }

running-LawfulOs : LawfulOs running
running-LawfulOs =
    let l = two_bytes-LawfulOs in
    record {
      answers = l.answers;
      sends = l.sends;
      receives = l.receives;
      receives_from = l.receives_from;
      accepts = l.accepts;
      opens = l.opens;
    }

-- A socket that has 160 seconds from its last access at the time 10.
net_with-IsQuiet : IsQuiet running (check_close_socket (net_with 160))
unfolding late_as timed_out check_close_socket delete_all
net_with-IsQuiet = (λ s h. rw (here_only 160 1 s h) refl, tt)

late : late_as tcp 100 (socket_with 60) ≡ true
unfolding late_as timed_out
late = refl

handle_sockets-IsConsistent_example : IsConsistent (handle_sockets running echo_app (net_with 160))
handle_sockets-IsConsistent_example =
    handle_sockets-IsConsistent running echo_app (net_with 160) echo_app-LawfulApp running-LawfulOs
      (net_with-IsConsistent 160) net_with-IsQuiet

abbrev net_closed : Net
net_closed = close (system two_bytes) counting_app 1 (net_with 0)

check_close_socket-IsConsistent_example :
    IsConsistent (check_close_socket net_closed)
    × ((check_close_socket net_closed).closing ≡ [])
    × ((q : ℕ) → member q net_closed.closing ≡ true → (check_close_socket net_closed).heap q ≡ none)
    × ((q : ℕ)
        → member q net_closed.closing ≡ false
        → (check_close_socket net_closed).heap q ≡ net_closed.heap q)
check_close_socket-IsConsistent_example =
    check_close_socket-IsConsistent net_closed
      (close-IsClosed (system two_bytes) counting_app (net_with 0) 1 counting_app-LawfulApp
        (net_with-IsConsistent 0) (live 0)).0.consistent

check_from-timed_out_example :
    (check_from (system two_bytes) counting_app 1000 (some (5, 1)) (net_with 60)).faulty ≡ true
check_from-timed_out_example =
    check_from-timed_out (system two_bytes) counting_app 999 5 1 (net_with 60) (socket_with 60)
      (net_with-IsConsistent 60) refl refl late (λ net. refl)

-- A second socket that is not listed yet.
abbrev unlisted : Net
unlisted = record (net_with 0) { table = []; socket_num = 0 }

unlisted-IsConsistent : IsConsistent unlisted
unlisted-IsConsistent =
    let c = net_with-IsConsistent 0 in
    record {
      ordered = tt;
      counted = refl;
      bounded = omega arith;
      held = λ fd p f. absurd (none-ne-some p f);
      valid_keys = refl;
      waiting = c.waiting;
      once = tt;
      fresh = c.fresh;
      started = c.started;
      null = refl;
      buffers = c.buffers;
      sound = refl;
      ended = refl;
    }

add_socket-AddAnswer_example :
    let r = add_socket (system two_bytes) 1 5 unlisted in
    AddAnswer (system two_bytes) unlisted 1 5 (socket_with 0) r.0 r.1
add_socket-AddAnswer_example =
    add_socket-AddAnswer (system two_bytes) unlisted 1 5 (socket_with 0) unlisted-IsConsistent refl

connect-Opened_example :
    let o = connect (system two_bytes) counting_app 9 80 true (net_with 0) in
    Opened (net_with 0) o.0 o.1
connect-Opened_example =
    connect-Opened (system two_bytes) counting_app counting_app-LawfulApp two_bytes-LawfulOs
      (net_with 0) 9 80 true (net_with-IsConsistent 0)

-- A container that listens, accepts, has a round in which epoll_wait shows no event of its own, and
-- reads.
abbrev listening_net : Net
listening_net = (listen running echo_app 80 5 true (new_container 10)).1

abbrev accepting_net : Net
accepting_net = handle_event running echo_app 7 1 listening_net

accepting_net-IsQuiet : IsQuiet running (check_close_socket accepting_net)
unfolding check_close_socket delete_all new_container listen Opening.listen_as Opening.listen_fd
    Opening.listen_with Opening.listening Epoll.add_fd handle_event Loop.serve Loop.handle_read
    Loop.read_as Tcp.handle_read Tcp.read_in Tcp.accept Tcp.accepted Tcp.adopt_for Tcp.adopt
    Tcp.adopted add_socket late_as timed_out new_socket
accepting_net-IsQuiet =
    (λ s h. rw (← some-injective _ _ h) refl, (λ s h. rw (← some-injective _ _ h) refl, tt))

abbrev reading_net : Net
reading_net = handle_event running echo_app 8 5 (handle_sockets running echo_app accepting_net)

Reach-IsConsistent_example : IsConsistent reading_net
Reach-IsConsistent_example =
    Reach-IsConsistent running echo_app echo_app-LawfulApp running-LawfulOs {max_fd_count = 10}
      {net = reading_net}
      (next (next (next (next start (listens 80 5 true)) (event 7 1)) (round accepting_net-IsQuiet))
        (event 8 5))
