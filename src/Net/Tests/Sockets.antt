-- ===== src/Net/Tests/Sockets.antt =====
-- The theorems on net/tcp_socket.cpp and net/udp_socket.cpp at a concrete socket.
use deps.Prelude.{◌≡◌, refl, arith}
use deps.Prelude.{some, [], ◌∷◌, ◌++◌}
use deps.Prelude.{drop}
use deps.Buffer.{append}
use deps.Buffer.Growth.{contents}
use deps.Buffer.Contents.{Answer}
use deps.Net.{Net, Socket, Os, App, put}
use deps.Net.Tcp.{close, take_input, send_all, send_packet}
use deps.Net.{udp}
use deps.Net.Udp
use deps.Net.Updates.{set_socket-Keeps}
use deps.Net.Consumed.{offered, take_input_consumed}
use deps.Net.Consistent.{IsConsistent, Keeps}
use deps.Net.Closing.{IsClosed, close-IsClosed}
use deps.Net.Sending.{LawfulOs, send_all-Keeps}
use deps.Net.Queueing.{Accepted, send_packet-Accepted}
use deps.Net.Answers.{take_input-Answer}
use deps.Net.{try_again}
use deps.Net.Waking.{Rests}
use deps.Net.Waking.Kept.{Rests-kept}
use deps.Prelude.{inr}
use deps.Net.Epoll.{epoll_events}
use deps.Net.Tcp.{handle_write}
use deps.Net.Tests.{
  system, two_bytes, counting_app, counting_app-LawfulApp, two_bytes-LawfulOs, filled, socket_with,
  net_with, filled-IsValid, net_with-IsConsistent, live,
}

send_packet-Accepted_example :
    let r = send_packet (system two_bytes) counting_app 1 (some (4 ∷ 5 ∷ [])) (net_with 0) in
    Keeps (net_with 0) r.1 × Accepted (net_with 0) (socket_with 0) (4 ∷ 5 ∷ []) r.0 r.1 1
send_packet-Accepted_example =
    send_packet-Accepted (system two_bytes) counting_app counting_app-LawfulApp two_bytes-LawfulOs
      (net_with 0) 1 (socket_with 0) (4 ∷ 5 ∷ []) (net_with-IsConsistent 0) refl (omega arith)

send_all-Keeps_example :
    Keeps (net_with 0) (send_all (system two_bytes) counting_app 3 1 (net_with 0))
send_all-Keeps_example =
    send_all-Keeps (system two_bytes) counting_app counting_app-LawfulApp two_bytes-LawfulOs 3
      (net_with 0) 1 (socket_with 0) (net_with-IsConsistent 0) refl (omega arith) (omega arith)

close-IsClosed_example :
    let net' = close (system two_bytes) counting_app 1 (net_with 0) in
    Keeps (net_with 0) net' × IsClosed net' 1
close-IsClosed_example =
    close-IsClosed (system two_bytes) counting_app (net_with 0) 1 counting_app-LawfulApp
      (net_with-IsConsistent 0) (live 0)

take_input-Answer_example :
    (t : Socket) × ((take_input (system two_bytes) counting_app 1 (1 ∷ 2 ∷ []) (net_with 0)).heap 1
      ≡ some t)
    × Answer 1024 filled
        (contents filled ++ (1 ∷ 2 ∷ []))
        (contents filled)
        (append (system two_bytes).malloc (1 ∷ 2 ∷ []) filled (net_with 0).pool).0
        t.input
take_input-Answer_example =
    take_input-Answer (system two_bytes) counting_app two_bytes-LawfulOs (net_with 0) 1
      (socket_with 0) (1 ∷ 2 ∷ []) (net_with-IsConsistent 0) refl (omega arith) (λ bs p net. refl)

-- A UdpSocket in the place of the other, and a handler that has handled two bytes.
abbrev net_udp : Net
net_udp = record (net_with 0) {
  heap = put 1 (some (record (socket_with 0) { socket_type = udp })) (net_with 0).heap;
}

net_udp-IsConsistent : IsConsistent net_udp
net_udp-IsConsistent =
    (set_socket-Keeps (net_with 0) 1 (socket_with 0) (record (socket_with 0) { socket_type = udp })
      (net_with-IsConsistent 0) refl refl
      (record { input = filled-IsValid; output = filled-IsValid }) refl).consistent

abbrev two_app : App
two_app = record { handle_packet = λ bs p net. (2, net); handle_close = λ p net. net }

take_input_consumed_example :
    (t : Socket) × ((Udp.take_input (system two_bytes) two_app 1 (1 ∷ 2 ∷ []) net_udp).heap 1
      ≡ some t)
    × (contents t.input
        ≡ drop 2 (
            offered
              (append (system two_bytes).malloc (1 ∷ 2 ∷ []) filled net_udp.pool).0
              (contents filled)
              (1 ∷ 2 ∷ [])))
take_input_consumed_example =
    take_input_consumed (system two_bytes) two_app 2 (omega arith) (omega arith) (λ bs p net. refl)
      net_udp 1 (record (socket_with 0) { socket_type = udp }) (1 ∷ 2 ∷ []) two_bytes-LawfulOs
      net_udp-IsConsistent refl refl (omega arith)

-- A system that does not take any byte for now.
abbrev full : Os
full = record (system two_bytes) { send = λ i fd bs. try_again }

full-LawfulOs : LawfulOs full
full-LawfulOs =
    let l = two_bytes-LawfulOs in
    record {
      answers = l.answers;
      sends = λ i fd n bs h e. absurd (cc);
      receives = l.receives;
      receives_from = l.receives_from;
      accepts = l.accepts;
      opens = l.opens;
    }

-- Its socket has three bytes that wait, and epoll watches for all three events.
abbrev watched_net : Net
watched_net = record (net_with 0) { watched = λ fd. 13 }

watched_net-Rests : Rests watched_net 1
unfolding epoll_events
watched_net-Rests = (socket_with 0, refl, inr (inr (refl, refl, refl)))

Rests-kept_example :
    Rests (handle_write full counting_app 1 watched_net) 1
    × Rests (send_packet full counting_app 1 (some (4 ∷ [])) watched_net).1 1
Rests-kept_example =
    Rests-kept full counting_app counting_app-LawfulApp full-LawfulOs watched_net 1 (4 ∷ [])
      (net_with-IsConsistent 0) watched_net-Rests (omega arith)
