-- ===== src/Net/Round.antt =====
-- HandleSockets of net/epoll_container.cpp: what one round keeps.
use deps.Prelude.{ℕ, ◌<◌, ◌^◌, arith, inl, inr}
use deps.Prelude.{List, [], ◌∷◌}
use deps.Prelude.{if◌then◌else◌, Bool-cases, Option-cases}
use deps.Net.{SocketType, tcp, udp, Net, Os, App, tick, max_read_buff_size}
use deps.Net.Table.{find}
use deps.Net.Epoll.{check_close_socket}
use deps.Net.Loop.{is_readable, is_writable, is_failed, serve, handle_event, handle_events}
use deps.Net.Loop.{
  handle_sockets, read_as, write_as, error_as, handle_read, handle_write, handle_error,
}
use deps.Net.Consistent.{
  on_socket_lem, IsConsistent, Keeps, Keeps-refl, Keeps-trans, IsLive-after, IsLive,
}
use deps.Net.Deleting.{check_close_socket-IsConsistent}
use deps.Net.Closing.{LawfulApp}
use deps.Net.Sending.{LawfulOs}
use deps.Net.Receiving
use deps.Net.Datagrams.{udp_handle_read-Keeps, udp_handle_write-Keeps, udp_handle_error-Keeps}
use deps.Net.Timeouts.{IsQuiet, check_timeout_socket-IsConsistent}

module _ (os : Os) (app : App) (lawful : LawfulApp app) (documented : LawfulOs os) where
  read_as-Keeps :
      (net : Net) (p size : ℕ) (st : SocketType)
      → IsConsistent net
      → IsLive net p
      → size < 2 ^ 64
      → Keeps net (read_as os app st p size net)
  unfolding read_as
  read_as-Keeps net p size tcp c l b =
      Receiving.handle_read-Keeps os app lawful documented net p size c l b
  read_as-Keeps net p size udp c l b =
      udp_handle_read-Keeps os app lawful documented net p size c l b

  write_as-Keeps :
      (net : Net) (p : ℕ) (st : SocketType)
      → IsConsistent net
      → IsLive net p
      → Keeps net (write_as os app st p net)
  unfolding write_as
  write_as-Keeps net p tcp c l = Receiving.handle_write-Keeps os app lawful documented net p c l
  write_as-Keeps net p udp c l = udp_handle_write-Keeps os app lawful documented net p c

  error_as-Keeps :
      (net : Net) (p : ℕ) (st : SocketType)
      → IsConsistent net
      → IsLive net p
      → Keeps net (error_as os app st p net)
  unfolding error_as
  error_as-Keeps net p tcp c l = Receiving.handle_error-Keeps os app lawful documented net p c l
  error_as-Keeps net p udp c l = udp_handle_error-Keeps os app lawful documented net p c l

  handle_read-Keeps :
      (net : Net) (p size : ℕ)
      → IsConsistent net
      → IsLive net p
      → size < 2 ^ 64
      → Keeps net (handle_read os app p size net)
  unfolding handle_read
  handle_read-Keeps net p size c l b =
      on_socket_lem (Keeps net) net p _ l (λ s h. read_as-Keeps net p size s.socket_type c l b)

  handle_write-Keeps :
      (net : Net) (p : ℕ) → IsConsistent net → IsLive net p → Keeps net (handle_write os app p net)
  unfolding handle_write
  handle_write-Keeps net p c l =
      on_socket_lem (Keeps net) net p _ l (λ s h. write_as-Keeps net p s.socket_type c l)

  handle_error-Keeps :
      (net : Net) (p : ℕ) → IsConsistent net → IsLive net p → Keeps net (handle_error os app p net)
  unfolding handle_error
  handle_error-Keeps net p c l =
      on_socket_lem (Keeps net) net p _ l (λ s h. error_as-Keeps net p s.socket_type c l)

  read_part :
      (net : Net) (p events : ℕ)
      → IsConsistent net
      → IsLive net p
      → Keeps net (if is_readable events then handle_read os app p max_read_buff_size net else net)
  read_part net p events c l = elim (Bool-cases (is_readable events)) [
    | inl z ↦ rw z (handle_read-Keeps net p _ c l (omega arith))
    | inr z ↦ rw z (Keeps-refl net c)
  ]

  serve-Keeps :
      (net : Net) (p events : ℕ)
      → IsConsistent net
      → IsLive net p
      → Keeps net (serve os app p events net)
  unfolding serve
  serve-Keeps net p events c l = elim (Bool-cases (is_failed events)) [
    | inl z ↦ rw z (handle_error-Keeps net p c l)
    | inr z ↦
        let k = read_part net p events c l in
        elim (Bool-cases (is_writable events)) [
          | inl w ↦
              rw (z, w) (Keeps-trans k (handle_write-Keeps _ p k.consistent (IsLive-after p k l)))
          | inr w ↦ rw (z, w) k
        ]
  ]

  pub handle_event-Keeps :
      (net : Net) (fd events : ℕ) → IsConsistent net → Keeps net (handle_event os app fd events net)
  unfolding handle_event
  handle_event-Keeps net fd events c = elim (Option-cases (find fd net.table)) [
    | inl f ↦ rw (handle_event, f) (Keeps-refl net c)
    | inr (p, f) ↦
        let o = c.held fd p f in
        rw (handle_event, f) (serve-Keeps net p events c (o.socket, o.here))
  ]

  -- The events of a round, in any order, also for sockets that an earlier event has closed: the
  -- container stays consistent, no socket is lost, no stream loses a byte.
  pub handle_events-Keeps :
      (ready : List (ℕ × ℕ)) (net : Net)
      → IsConsistent net
      → Keeps net (handle_events os app ready net)
  unfolding handle_events
  handle_events-Keeps [] net c = Keeps-refl net c
  handle_events-Keeps ((fd, events) ∷ ready) net c =
      let k = handle_event-Keeps net fd events c in
      Keeps-trans k (handle_events-Keeps ready _ k.consistent)

module _ (os : Os) (app : App) where
  -- A round of HandleSockets on a consistent container, in which no socket has passed its timeout at
  -- the time that the system shows when CheckTimeoutSocket comes to it, with a system as documented and
  -- a handler that keeps its promise, whatever events there are: it leaves a consistent container. So no memory is used after it was freed, none is freed twice, and
  -- every loop of Write has ended.
  pub handle_sockets-IsConsistent :
      (net : Net)
      → LawfulApp app
      → LawfulOs os
      → IsConsistent net
      → IsQuiet os (check_close_socket net)
      → IsConsistent (handle_sockets os app net)
  unfolding handle_sockets
  handle_sockets-IsConsistent net lawful documented c quiet =
      let (d, _, _, _) = check_close_socket-IsConsistent net c in
      let e = check_timeout_socket-IsConsistent os app (check_close_socket net) d quiet in
      (handle_events-Keeps os app lawful documented _ (tick _) e).consistent
