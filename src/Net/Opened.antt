-- ===== src/Net/Opened.antt =====
-- Listen and Connect of net/tcp_socket.cpp keep the invariant, and what they answer.
use deps.Prelude.{ℕ, ◌+◌, ◌≡◌, ◌⊎◌, refl, ◌∙◌, ap, inl, inr}
use deps.Prelude.{Bool, true, false, Option, none, some, ◌==◌}
use deps.Prelude.{Bool-cases}
use deps.Net.{Net, Socket, Os, App, SocketState, Connected, new_socket, no_fd, tick, allocate}
use deps.Net.{at_once, in_progress, refused}
use deps.Net.{socket_event_read, socket_event_error}
use deps.Net.Epoll.{add_socket}
use deps.Net.Opening.{listening, listen_with, listen_fd, listen_as, listen}
use deps.Net.Opening.{connecting, connect_socket, connect_as, connect_fd, connect_at, connect}
use deps.Net.Consistent.{IsConsistent, Keeps, Keeps-same, Keeps-trans, IsLive-after, IsLive}
use deps.Net.Updates.{put_here}
use deps.Net.Container.{add_socket-Keeps, add_socket_heap}
use deps.Net.Closing.{LawfulApp}
use deps.Net.Sending.{LawfulOs, close-Keeps, flag-Keeps}
use deps.Net.Fresh.{new_socket-HasBuffers, allocate-Keeps}

module _ (os : Os) (app : App) (lawful : LawfulApp app) (documented : LawfulOs os) where
  listening-Keeps :
      (net : Net) (q fd : ℕ) (r : Bool × Net)
      → Keeps net r.1
      → IsLive r.1 q
      → Keeps net (listening os app q fd r).1
  unfolding listening
  listening-Keeps net q fd (true, net') k l = k
  listening-Keeps net q fd (false, net') k l =
      Keeps-trans k (close-Keeps os app lawful net' q k.consistent l)

  listen_with-Keeps :
      (net : Net) (has_handler : Bool) (fd : ℕ)
      → IsConsistent net
      → (no_fd == fd) ≡ false
      → Keeps net (listen_with os app has_handler fd net).1
  unfolding listen_with
  listen_with-Keeps net has_handler fd c n =
      let s = record (new_socket (os.junk net.calls) has_handler) {
        fd = fd;
        create_time = os.time net.calls;
        last_access_time = os.time net.calls;
        state = SocketState.listen;
      } in
      let b = new_socket-HasBuffers (os.junk net.calls) has_handler in
      let k = allocate-Keeps net s c (record { input = b.input; output = b.output }) in
      let h = put_here net.next (some s) net.heap in
      let a =
        add_socket-Keeps os (allocate s net) net.next (socket_event_read + socket_event_error) s
          k.consistent h n in
      listening-Keeps net net.next fd _ (Keeps-trans k a) (IsLive-after net.next a (s, h))

  listen_fd-Keeps :
      (net : Net) (port backlog fd : ℕ) (has_handler : Bool)
      → IsConsistent net
      → (no_fd == fd) ≡ false
      → Keeps net (listen_fd os app port backlog has_handler fd net).1
  unfolding listen_fd
  listen_fd-Keeps net port backlog fd has_handler c n =
      elim (Bool-cases (os.set_nonblock net.calls fd)) [
        | inr z ↦ rw z (Keeps-same net _ c refl refl)
        | inl z ↦ elim (Bool-cases (os.set_reuse (net.calls + 1) fd)) [
          | inr y ↦ rw (z, y) (Keeps-same net _ c refl refl)
          | inl y ↦ elim (Bool-cases (os.bind (net.calls + 2) fd port)) [
            | inr x ↦ rw (z, y, x) (Keeps-same net _ c refl refl)
            | inl x ↦ elim (Bool-cases (os.listen_on (net.calls + 3) fd backlog)) [
              | inr w ↦ rw (z, y, x, w) (Keeps-same net _ c refl refl)
              | inl w ↦
                  rw (z, y, x, w)
                    (Keeps-trans (Keeps-same net (record net { calls = net.calls + 4 }) c refl refl)
                      (listen_with-Keeps (record net { calls = net.calls + 4 }) has_handler fd c n))
            ]
          ]
        ]
      ]

  listen_as-Keeps :
      (net : Net) (port backlog i : ℕ) (has_handler : Bool) (answer : Option ℕ)
      → IsConsistent net
      → os.socket i ≡ answer
      → Keeps net (listen_as os app port backlog has_handler answer net).1
  unfolding listen_as
  listen_as-Keeps net port backlog i has_handler none c e = Keeps-same net net c refl refl
  listen_as-Keeps net port backlog i has_handler (some fd) c e =
      listen_fd-Keeps net port backlog fd has_handler c (documented.opens i fd e)

  -- Listen in a consistent container, whatever the system answers within what it promises: the
  -- container stays consistent, no socket is lost and no stream loses a byte.
  pub listen-Keeps :
      (net : Net) (port backlog : ℕ) (has_handler : Bool)
      → IsConsistent net
      → Keeps net (listen os app port backlog has_handler net).1
  unfolding listen
  listen-Keeps net port backlog has_handler c =
      Keeps-trans (Keeps-same net (tick net) c refl refl)
        (listen_as-Keeps (tick net) port backlog net.calls has_handler _ c refl)

-- What Connect leaves, with the socket that it answers or NULL: a consistent container, and the socket
-- is there and connected or connecting.
abbrev pub Opened : Net → Option ℕ → Net → Type 0
Opened net none net' = Keeps net net'
Opened net (some q) net' =
    Keeps net net'
    × ((s : Socket) × (net'.heap q ≡ some s)
        × ((s.state ≡ SocketState.connected) ⊎ (s.state ≡ SocketState.connecting)))

Opened-after : (a b c : Net) (q : Option ℕ) → Keeps a b → Opened b q c → Opened a q c
Opened-after a b c none k o = Keeps-trans k o
Opened-after a b c (some q) k (o, s) = (Keeps-trans k o, s)

module _ (os : Os) (app : App) (lawful : LawfulApp app) (documented : LawfulOs os) where
  connecting-Opened :
      (net : Net) (q : ℕ) (s s' : Socket) (r : Bool × Net)
      → Keeps net r.1
      → r.1.heap q ≡ some s
      → s'.fd ≡ s.fd
      → s'.input ≡ s.input
      → s'.output ≡ s.output
      → (s'.state ≡ SocketState.connected) ⊎ (s'.state ≡ SocketState.connecting)
      → let o = connecting os app q s' r in Opened net o.0 o.1
  unfolding connecting
  connecting-Opened net q s s' (true, net') k h e i o st = (
    Keeps-trans k (flag-Keeps os app lawful net' q s s' k.consistent h e i o),
    (s', put_here q _ net'.heap, st),
  )
  connecting-Opened net q s s' (false, net') k h e i o st =
      Keeps-trans k (close-Keeps os app lawful net' q k.consistent (s, h))

  module _ (net : Net) (has_handler : Bool) (fd : ℕ) (c : IsConsistent net)
      (n : (no_fd == fd) ≡ false) where
    made-Keeps : Keeps net (allocate (connect_socket os app fd has_handler net) net)
    made-Keeps =
        let b = new_socket-HasBuffers (os.junk net.calls) has_handler in
        allocate-Keeps net (connect_socket os app fd has_handler net) c
          (record { input = b.input; output = b.output })

    connect_with-Opened :
        (events : ℕ) (s' : Socket)
        → s'.fd ≡ fd
        → s'.input ≡ (connect_socket os app fd has_handler net).input
        → s'.output ≡ (connect_socket os app fd has_handler net).output
        → (s'.state ≡ SocketState.connected) ⊎ (s'.state ≡ SocketState.connecting)
        → let o = connecting os app net.next s' (
            add_socket os net.next events
              (allocate (connect_socket os app fd has_handler net) net)) in
          Opened net o.0 o.1
    connect_with-Opened events s' e i o st =
        let s = connect_socket os app fd has_handler net in
        let h = put_here net.next (some s) net.heap in
        connecting-Opened net net.next s s' _
          (Keeps-trans made-Keeps
            (add_socket-Keeps os (allocate s net) net.next events s made-Keeps.consistent h n))
          (ap (λ f. f net.next) (add_socket_heap os (allocate s net) net.next events) ∙ h) e i o st

    connect_as-Opened :
        (answer : Connected)
        → let o = connect_as os app answer has_handler fd net in Opened net o.0 o.1
    unfolding connect_as
    connect_as-Opened at_once = connect_with-Opened _ _ refl refl refl (inl refl)
    connect_as-Opened in_progress = connect_with-Opened _ _ refl refl refl (inr refl)
    connect_as-Opened refused = Keeps-trans made-Keeps (
        close-Keeps os app lawful _ net.next made-Keeps.consistent
          (connect_socket os app fd has_handler net, put_here net.next _ net.heap))

  connect_at-Opened :
      (net : Net) (ip port i : ℕ) (has_handler : Bool) (answer : Option ℕ)
      → IsConsistent net
      → os.socket i ≡ answer
      → let o = connect_at os app ip port has_handler answer net in Opened net o.0 o.1
  unfolding connect_at connect_fd
  connect_at-Opened net ip port i has_handler none c e = Keeps-same net net c refl refl
  connect_at-Opened net ip port i has_handler (some fd) c e =
      elim (Bool-cases (os.set_nonblock net.calls fd)) [
        | inr z ↦ rw z (Keeps-same net (tick net) c refl refl)
        | inl z ↦
            let net' = record net { calls = net.calls + 2 } in
            rw z (
              Opened-after net net' _ _ (Keeps-same net net' c refl refl)
                (connect_as-Opened net' has_handler fd c (documented.opens i fd e) _))
      ]

  -- Connect in a consistent container, whatever the system answers within what it promises: the
  -- container stays consistent, no socket is lost and no stream loses a byte; a socket that it
  -- answers is there, in the state connected or connecting.
  pub connect-Opened :
      (net : Net) (ip port : ℕ) (has_handler : Bool)
      → IsConsistent net
      → let o = connect os app ip port has_handler net in Opened net o.0 o.1
  unfolding connect
  connect-Opened net ip port has_handler c =
      Opened-after net (tick net) _ _ (Keeps-same net (tick net) c refl refl)
        (connect_at-Opened (tick net) ip port net.calls has_handler _ c refl)
