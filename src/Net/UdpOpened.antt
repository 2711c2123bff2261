-- ===== src/Net/UdpOpened.antt =====
-- Listen and Connect of net/udp_socket.cpp keep the invariant.
use deps.Prelude.{ℕ, ◌+◌, ◌≡◌, refl, inl, inr}
use deps.Prelude.{Bool, true, false, Option, none, some, ◌==◌, Bool-cases}
use deps.Net.{Net, Os, App, SocketState, no_fd, tick, allocate}
use deps.Net.{socket_event_read, socket_event_error}
use deps.Net.Udp.{
  close, listening, connected_as, socket_in, add_new, listen_fd, listen_as, listen, connect_fd,
  connect_as, connect,
}
use deps.Net.Consistent.{IsConsistent, Keeps, Keeps-same, Keeps-trans, IsLive-after, IsLive}
use deps.Net.Updates.{put_here}
use deps.Net.Container.{add_socket-Keeps}
use deps.Net.Closing.{LawfulApp}
use deps.Net.Sending.{LawfulOs, close-Keeps}
use deps.Net.Fresh.{new_socket-HasBuffers, allocate-Keeps}

module _ (os : Os) (app : App) (lawful : LawfulApp app) (documented : LawfulOs os) where
  listening-Keeps :
      (net : Net) (q : ℕ) (r : Bool × Net)
      → Keeps net r.1
      → IsLive r.1 q
      → Keeps net (listening os app q r).1
  unfolding listening close
  listening-Keeps net q (true, net') k l = k
  listening-Keeps net q (false, net') k l =
      Keeps-trans k (close-Keeps os app lawful net' q k.consistent l)

  connected_as-Keeps :
      (net : Net) (q : ℕ) (r : Bool × Net)
      → Keeps net r.1
      → IsLive r.1 q
      → Keeps net (connected_as os app q r).1
  unfolding connected_as close
  connected_as-Keeps net q (true, net') k l = k
  connected_as-Keeps net q (false, net') k l =
      Keeps-trans k (close-Keeps os app lawful net' q k.consistent l)

  add_new-Keeps :
      (net : Net) (st : SocketState) (has_handler : Bool) (fd : ℕ)
      → IsConsistent net
      → (no_fd == fd) ≡ false
      → let r = add_new os app st has_handler fd net in Keeps net r.1 × IsLive r.1 net.next
  unfolding add_new
  add_new-Keeps net st has_handler fd c n =
      let s = socket_in os app st has_handler fd net in
      let b = new_socket-HasBuffers false has_handler in
      let k = allocate-Keeps net s c (record { input = b.input; output = b.output }) in
      let h = put_here net.next (some s) net.heap in
      let a =
        add_socket-Keeps os (allocate s net) net.next (socket_event_read + socket_event_error) s
          k.consistent h n in
      (Keeps-trans k a, IsLive-after net.next a (s, h))

  listen_fd-Keeps :
      (net : Net) (port fd : ℕ) (has_handler : Bool)
      → IsConsistent net
      → (no_fd == fd) ≡ false
      → Keeps net (listen_fd os app port has_handler fd net).1
  unfolding listen_fd
  listen_fd-Keeps net port fd has_handler c n = elim (Bool-cases (os.set_nonblock net.calls fd)) [
    | inr z ↦ rw z (Keeps-same net _ c refl refl)
    | inl z ↦ elim (Bool-cases (os.set_reuse (net.calls + 1) fd)) [
      | inr y ↦ rw (z, y) (Keeps-same net _ c refl refl)
      | inl y ↦ elim (Bool-cases (os.bind (net.calls + 2) fd port)) [
        | inr x ↦ rw (z, y, x) (Keeps-same net _ c refl refl)
        | inl x ↦
            let net' = record net { calls = net.calls + 3 } in
            let (k, l) = add_new-Keeps net' SocketState.listen has_handler fd c n in
            rw (z, y, x)
              (Keeps-trans (Keeps-same net net' c refl refl) (listening-Keeps net' net.next _ k l))
      ]
    ]
  ]

  listen_as-Keeps :
      (net : Net) (port i : ℕ) (has_handler : Bool) (answer : Option ℕ)
      → IsConsistent net
      → os.socket i ≡ answer
      → Keeps net (listen_as os app port has_handler answer net).1
  unfolding listen_as
  listen_as-Keeps net port i has_handler none c e = Keeps-same net net c refl refl
  listen_as-Keeps net port i has_handler (some fd) c e =
      listen_fd-Keeps net port fd has_handler c (documented.opens i fd e)

  pub udp_listen-Keeps :
      (net : Net) (port : ℕ) (has_handler : Bool)
      → IsConsistent net
      → Keeps net (listen os app port has_handler net).1
  unfolding listen
  udp_listen-Keeps net port has_handler c =
      Keeps-trans (Keeps-same net (tick net) c refl refl)
        (listen_as-Keeps (tick net) port net.calls has_handler _ c refl)

  connect_as-Keeps :
      (net : Net) (i : ℕ) (has_handler : Bool) (answer : Option ℕ)
      → IsConsistent net
      → os.socket i ≡ answer
      → Keeps net (connect_as os app has_handler answer net).1
  unfolding connect_as connect_fd
  connect_as-Keeps net i has_handler none c e = Keeps-same net net c refl refl
  connect_as-Keeps net i has_handler (some fd) c e =
      elim (Bool-cases (os.set_nonblock net.calls fd)) [
        | inr z ↦ rw z (Keeps-same net (tick net) c refl refl)
        | inl z ↦
            let (k, l) =
              add_new-Keeps (tick net) SocketState.connected has_handler fd c
                (documented.opens i fd e) in
            rw z (
              Keeps-trans (Keeps-same net (tick net) c refl refl)
                (connected_as-Keeps (tick net) net.next _ k l))
      ]

  pub udp_connect-Keeps :
      (net : Net) (has_handler : Bool)
      → IsConsistent net
      → Keeps net (connect os app has_handler net).1
  unfolding connect
  udp_connect-Keeps net has_handler c =
      Keeps-trans (Keeps-same net (tick net) c refl refl)
        (connect_as-Keeps (tick net) net.calls has_handler _ c refl)
