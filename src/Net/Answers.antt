-- ===== src/Net/Answers.antt =====
-- What AddSocket, Close and Read of net/epoll_container.cpp and net/tcp_socket.cpp do in each case.
use deps.Prelude.{ℕ, ◌+◌, ◌^◌, ◌≤◌, ◌<◌, ◌≡◌, refl, sym, ◌∙◌, ap, ◌⊎◌, inl, inr}
use deps.Prelude.{Bool, true, false, none, some, List, ◌++◌}
use deps.Prelude.{◌==◌, leb, if◌then◌else◌, length, Bool-cases, Option-cases, tests, ==→eq, leb→gt}
use mathlib.Core.Path.{subst}
use mathlib.Core.Option.{none-ne-some}
use mathlib.Core.Bool.{false≢true}
use deps.Buffer.{append}
use deps.Buffer.Growth.{contents}
use deps.Buffer.Contents.{Answer, append-Answer}
use deps.Net.{Net, Socket, Os, App, Received, ctl_add, no_data, recv_error, set_socket}
use deps.Net.Table.{find, find-insert, find-insert_other, self_key}
use deps.Net.Epoll.{add_socket, add_fd, epoll_events, get_socket}
use deps.Net.Tcp.{close, read, received, take_input, handled, unpacked}
use deps.Net.Consistent.{IsConsistent, IsLive, on_socket_live}
use deps.Net.Updates.{put_here}
use deps.Net.Deleting.{waiting_unlisted}
use deps.Net.Closing.{LawfulApp, IsClosed, close-IsClosed}
use deps.Net.Sending.{LawfulOs, flag-Keeps}

-- What AddSocket of the socket s at p does to the table, when it answers true.
pub record Added (net : Net) (p events : ℕ) (s : Socket) (net' : Net) : Type 0 where
  pub was_free : get_socket s.fd net ≡ none
  pub had_room : length net.table < net.max_fd_count
  pub found : get_socket s.fd net' ≡ some p
  pub others : (fd : ℕ) → (fd == s.fd) ≡ false → get_socket fd net' ≡ get_socket fd net
  pub counted : net'.socket_num ≡ net.socket_num + 1
  pub interest : net'.watched s.fd ≡ epoll_events events

-- When it answers false: nothing is added, and there is a reason.
pub record Refused (os : Os) (net : Net) (events : ℕ) (s : Socket) (net' : Net) : Type 0 where
  pub same_table : net'.table ≡ net.table
  pub same_count : net'.socket_num ≡ net.socket_num
  pub reason :
      (net.max_fd_count ≤ length net.table)
      ⊎ (((q : ℕ) × (get_socket s.fd net ≡ some q))
          ⊎ (os.epoll_ctl net.calls ctl_add s.fd (epoll_events events) ≡ false))

abbrev pub AddAnswer : Os → Net → ℕ → ℕ → Socket → Bool → Net → Type 0
AddAnswer os net p events s true net' = Added net p events s net'
AddAnswer os net p events s false net' = Refused os net events s net'

module _ (os : Os) where
  add_fd_lem :
      (net : Net) (p events : ℕ) (s : Socket)
      → length net.table < net.max_fd_count
      → let r = add_fd os p s.fd events net in AddAnswer os net p events s r.0 r.1
  unfolding add_fd
  add_fd_lem net p events s b = elim (Option-cases (find s.fd net.table)) [
    | inl f ↦ elim (Bool-cases (os.epoll_ctl net.calls ctl_add s.fd (epoll_events events))) [
      | inl g ↦
          rw (add_fd, f, g)
            (record {
              was_free = f;
              had_room = b;
              found = find-insert s.fd p net.table f;
              others = λ fd e. find-insert_other s.fd fd p net.table e;
              counted = refl;
              interest = put_here s.fd (epoll_events events) net.watched;
            })
      | inr g ↦
          rw (add_fd, f, g) (record { same_table = refl; same_count = refl; reason = inr (inr g) })
    ]
    | inr (q, f) ↦
        rw (add_fd, f) (record { same_table = refl; same_count = refl; reason = inr (inl (q, f)) })
  ]

  -- AddSocket of a live socket to a consistent container: on true there was room and the descriptor
  -- had no entry, it has one now, no other entry changes, the count is one more and epoll has been
  -- told the events; on false the table is that of before, and it is full, or the descriptor has an
  -- entry, or epoll_ctl failed.
  pub add_socket-AddAnswer :
      (net : Net) (p events : ℕ) (s : Socket)
      → IsConsistent net
      → net.heap p ≡ some s
      → let r = add_socket os p events net in AddAnswer os net p events s r.0 r.1
  unfolding add_socket
  add_socket-AddAnswer net p events s c h =
      elim (Bool-cases (leb net.max_fd_count (length net.table))) [
        | inl b ↦
            rw (add_socket, b)
              (record { same_table = refl; same_count = refl; reason = inl (omega tests) })
        | inr b ↦ elim (Bool-cases (p == 0)) [
          | inl z ↦ absurd (none-ne-some s (sym c.null ∙ (ap net.heap (sym (==→eq p 0 z)) ∙ h)))
          | inr z ↦ rw (add_socket, b, z, h) (add_fd_lem net p events s (leb→gt _ _ b))
        ]
      ]

module _ (os : Os) (app : App) (lawful : LawfulApp app) where
  -- After Close of a live socket in a consistent container, no descriptor leads to it any more, so
  -- that no event of the round reaches it.
  pub close_unheard :
      (net : Net) (p fd : ℕ)
      → IsConsistent net
      → IsLive net p
      → ¬ (get_socket fd (close os app p net) ≡ some p)
  close_unheard net p fd c l f =
      let (k, d) = close-IsClosed os app net p lawful c l in
      false≢true (
        sym (
          waiting_unlisted (close os app p net).closing (close os app p net) fd p p k.consistent
            d.waits f)
        ∙ self_key p)

  received_at :
      (net : Net) (p size : ℕ) (s : Socket) (answer : Received)
      → net.heap p ≡ some s
      → os.recv (net.calls + 1) s.fd size ≡ answer
      → read os app p size net
        ≡ received os app p answer (
            set_socket p
              (record s { last_access_time = os.time net.calls })
              (record net { calls = net.calls + 2 }))
  unfolding read
  received_at net p size s answer h e =
      on_socket_live net p _ s h
      ∙ ap
          (λ a. received os app p a (
            set_socket p (record s { last_access_time = os.time net.calls })
              (record net { calls = net.calls + 2 })))
          e

  -- Read of a live socket in a consistent container, when recv has no data for now (EAGAIN): the
  -- socket is closed.
  pub read_again-IsClosed :
      (net : Net) (p size : ℕ) (s : Socket)
      → IsConsistent net
      → net.heap p ≡ some s
      → os.recv (net.calls + 1) s.fd size ≡ no_data
      → IsClosed (read os app p size net) p
  unfolding received
  read_again-IsClosed net p size s c h e =
      let k =
        flag-Keeps os app lawful net p s (record s { last_access_time = os.time net.calls }) c h
          refl refl refl in
      subst (λ n. IsClosed n p) (sym (received_at net p size s no_data h e))
        (close-IsClosed os app _ p lawful k.consistent
          (record s { last_access_time = os.time net.calls }, put_here p _ net.heap)).1

  -- Read of a live socket when recv fails with any other error: the socket stays as it is, with its
  -- descriptor and its state, but for the time of the access.
  pub read_error_kept :
      (net : Net) (p size : ℕ) (s : Socket)
      → net.heap p ≡ some s
      → os.recv (net.calls + 1) s.fd size ≡ recv_error
      → ((read os app p size net).heap p ≡ some (record s { last_access_time = os.time net.calls }))
        × ((read os app p size net).table ≡ net.table)
  unfolding received
  read_error_kept net p size s h e = (
    ap (λ n. n.heap p) (received_at net p size s recv_error h e) ∙ put_here p _ net.heap,
    ap (λ n. n.table) (received_at net p size s recv_error h e),
  )

module _ (os : Os) (app : App) (documented : LawfulOs os) where
  told_packet_same :
      (net : Net) (p : ℕ) (bs : List ℕ) (has_handler : Bool)
      → ((bs : List ℕ) (p : ℕ) (net : Net) → (app.handle_packet bs p net).1 ≡ net)
      → (if has_handler then (app.handle_packet bs p net).1 else net) ≡ net
  told_packet_same net p bs true a = a bs p net
  told_packet_same net p bs false a = refl

  handled_same :
      (net : Net) (p : ℕ) (s : Socket)
      → net.heap p ≡ some s
      → ((bs : List ℕ) (p : ℕ) (net : Net) → (app.handle_packet bs p net).1 ≡ net)
      → handled os app p net ≡ net
  unfolding handled unpacked
  handled_same net p s h a =
      on_socket_live net p _ s h ∙ told_packet_same net p (contents s.input) s.has_handler a

  -- Read's branch with data, on a live socket of a consistent container, for a handler that changes
  -- nothing itself, whatever number HandlePacket answers: the input then has the bytes of before and
  -- the new ones behind, or those of before if append fails; none is taken away.
  pub take_input-Answer :
      (net : Net) (p : ℕ) (s : Socket) (bs : List ℕ)
      → IsConsistent net
      → net.heap p ≡ some s
      → length bs < 2 ^ 64
      → ((bs : List ℕ) (p : ℕ) (net : Net) → (app.handle_packet bs p net).1 ≡ net)
      → (t : Socket) × ((take_input os app p bs net).heap p ≡ some t)
        × Answer 1024 s.input
            (contents s.input ++ bs)
            (contents s.input)
            (append os.malloc bs s.input net.pool).0
            t.input
  unfolding take_input
  take_input-Answer net p s bs c h b a =
      let (done, b', pool) = append os.malloc bs s.input net.pool in
      let t = record s { input = b' } in
      let net' = set_socket p t (record net { pool = pool }) in
      (
        t,
        ap (λ n. n.heap p)
              (on_socket_live net p _ s h ∙ handled_same net' p t (put_here p _ net.heap) a)
            ∙ put_here p _ net.heap,
        append-Answer os.malloc documented.answers bs net.pool (c.buffers p s h).input b,
      )
