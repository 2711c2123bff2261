-- ===== src/Net/Timeouts.antt =====
-- CheckTimeoutSocket of net/epoll_container.cpp: with no timeout it changes nothing, with one it breaks.
use deps.Prelude.{ℕ, zero, suc, ◌+◌, ◌≡◌, refl, sym, ◌∙◌, ap, inl, inr}
use deps.Prelude.{Bool, true, false, Option, none, some, List, ◌∷◌}
use deps.Prelude.{◌==◌, if◌then◌else◌, Bool-cases, ==→eq}
use mathlib.Core.Path.{subst}
use mathlib.Core.Option.{none-ne-some, some-injective}
use deps.Net.{SocketType, tcp, udp, Net, Socket, Os, App, tick, no_fd}
use deps.Net.Table.{find, upper_bound, find-remove, find-upper_bound}
use deps.Net.Epoll.{del_socket, del_fd}
use deps.Net.Tcp.{close, close_fd}
use deps.Net.Tcp
use deps.Net.Udp
use deps.Net.Loop.{late_as, timeout_as, handle_timeout, advance, check_from, check_timeout_socket}
use deps.Net.Consistent.{on_socket_live, IsConsistent, Holds}
use deps.Net.Closing.{close_fd_live, del_socket_live}

-- What an entry of the iterator points to.
abbrev Listed : Option (ℕ × ℕ) → Net → Type 0
Listed none net = Unit {0}
Listed (some (fd, p)) net = find fd net.table ≡ some p

-- No socket has passed its timeout when CheckTimeoutSocket comes to it: at each of at most n entries
-- from the iterator on, at the time that the system then shows, which is its i-th answer, and so on.
abbrev IsQuietFrom : Os → (ℕ → Option Socket) → List (ℕ × ℕ) → ℕ → Option (ℕ × ℕ) → ℕ → Type 0
IsQuietFrom os heap table n none i = Unit {0}
IsQuietFrom os heap table zero (some e) i = Unit {0}
IsQuietFrom os heap table (suc n) (some (fd, p)) i =
    ((s : Socket) → heap p ≡ some s → late_as s.socket_type (os.time i) s ≡ false)
    × IsQuietFrom os heap table n (upper_bound fd table) (i + 1)

-- The same in the round that starts now.
abbrev pub IsQuiet : Os → Net → Type 0
IsQuiet os net =
    IsQuietFrom os net.heap net.table 1000 (upper_bound net.check_fd net.table) net.calls

upper_bound_cases :
    (k : ℕ) (net : Net) (e : Option (ℕ × ℕ))
    → IsConsistent net
    → upper_bound k net.table ≡ e
    → Listed e net
upper_bound_cases k net none c h = tt
upper_bound_cases k net (some (fd, p)) c h = find-upper_bound k fd p 0 net.table c.ordered h

module _ (os : Os) (app : App) where
  timeout_at :
      (net : Net) (p : ℕ) (s : Socket) (st : SocketType)
      → net.heap p ≡ some s
      → timeout_as os app st p net
        ≡ (if late_as st (os.time net.calls) s then close os app p (tick net) else tick net)
  unfolding timeout_as late_as Tcp.handle_timeout Udp.handle_timeout Udp.close
  timeout_at net p s tcp h = on_socket_live net p _ s h
  timeout_at net p s udp h = on_socket_live net p _ s h

  -- HandleTimeout of either class.
  handle_timeout_lem :
      (net : Net) (p : ℕ) (s : Socket) (late : Bool)
      → net.heap p ≡ some s
      → late_as s.socket_type (os.time net.calls) s ≡ late
      → handle_timeout os app p net ≡ (if late then close os app p (tick net) else tick net)
  unfolding handle_timeout
  handle_timeout_lem net p s late h e =
      on_socket_live net p _ s h
      ∙ (timeout_at net p s s.socket_type h
          ∙ ap (λ b. if b then close os app p (tick net) else tick net) e)

  visit_quiet :
      (net : Net) (fd p : ℕ)
      → IsConsistent net
      → ((s : Socket) → net.heap p ≡ some s → late_as s.socket_type (os.time net.calls) s ≡ false)
      → Holds net.heap fd p
      → (let net' = record net { check_fd = fd } in
          if p == 0 then net' else handle_timeout os app p net')
        ≡ tick (record net { check_fd = fd })
  visit_quiet net fd p c quiet o = elim (Bool-cases (p == 0)) [
    | inl z ↦
        absurd (none-ne-some o.socket (sym c.null ∙ (ap net.heap (sym (==→eq p 0 z)) ∙ o.here)))
    | inr z ↦ rw z (
        handle_timeout_lem (record net { check_fd = fd }) p o.socket false o.here
          (quiet o.socket o.here))
  ]

  advance_lem :
      (rest : Option (ℕ × ℕ) → Net → Net) (fd p : ℕ) (net : Net)
      → find fd net.table ≡ some p
      → advance os app rest fd net ≡ rest (upper_bound fd net.table) net
  unfolding advance
  advance_lem rest fd p net f = rw (advance, f) refl

  -- The loop of CheckTimeoutSocket where no socket has passed its timeout.
  check_from_quiet :
      (n : ℕ) (e : Option (ℕ × ℕ)) (net : Net)
      → IsConsistent net
      → IsQuietFrom os net.heap net.table n e net.calls
      → Listed e net
      → (k : ℕ) × (i : ℕ) × (check_from os app n e net ≡ record net { check_fd = k; calls = i })
  unfolding check_from
  check_from_quiet n none net c quiet f = (0, net.calls, refl)
  check_from_quiet zero (some (fd, p)) net c quiet f = (net.check_fd, net.calls, refl)
  check_from_quiet (suc n) (some (fd, p)) net c quiet f =
      let o = c.held fd p f in
      let net' = tick (record net { check_fd = fd }) in
      let (k, i, e) =
        check_from_quiet n (upper_bound fd net.table) net' c quiet.1
          (upper_bound_cases fd net' _ c refl) in
      (
        k,
        i,
        ap (advance os app (check_from os app n) fd) (visit_quiet net fd p c quiet.0 o)
            ∙ (advance_lem (check_from os app n) fd p net' f ∙ e),
      )

  pub check_timeout_socket-IsConsistent :
      (net : Net)
      → IsConsistent net
      → IsQuiet os net
      → IsConsistent (check_timeout_socket os app net)
  unfolding check_timeout_socket
  check_timeout_socket-IsConsistent net c quiet =
      let (k, i, e) =
        check_from_quiet 1000 (upper_bound net.check_fd net.table) net c quiet
          (upper_bound_cases net.check_fd net _ c refl) in
      subst IsConsistent (sym e) c

  not_null :
      (net : Net) (p : ℕ) (s : Socket) → IsConsistent net → net.heap p ≡ some s → (p == 0) ≡ false
  not_null net p s c h = elim (Bool-cases (p == 0)) [
    | inl z ↦ absurd (none-ne-some s (sym c.null ∙ (ap net.heap (sym (==→eq p 0 z)) ∙ h)))
    | inr z ↦ z
  ]

  told_same :
      (net : Net) (p : ℕ) (told : Bool)
      → app.handle_close p net ≡ net
      → (if told then app.handle_close p net else net) ≡ net
  told_same net p true a = a
  told_same net p false a = refl

  released_table :
      (net : Net) (p fd : ℕ) (none_open : Bool)
      → IsConsistent net
      → find fd
          (let net₁ = del_fd os p fd net in
            if none_open then net₁ else record net₁ { released = fd ∷ net₁.released }).table
        ≡ none
  unfolding del_fd
  released_table net p fd true c = find-remove fd 0 net.table c.ordered
  released_table net p fd false c = find-remove fd 0 net.table c.ordered

  close_table :
      (net : Net) (p : ℕ) (s : Socket)
      → IsConsistent net
      → net.heap p ≡ some s
      → find s.fd (close_fd os app p (del_socket os p net)).table ≡ none
  close_table net p s c h =
      ap (λ n. find s.fd n.table)
        (ap (close_fd os app p) (del_socket_live os app net p s (not_null net p s c h) h)
          ∙ close_fd_live os app net p s h)
      ∙ released_table net p s.fd (s.fd == no_fd) c

  -- Close of a socket whose handler changes nothing.
  close_unhandled :
      (net : Net) (p : ℕ) (s : Socket)
      → IsConsistent net
      → net.heap p ≡ some s
      → app.handle_close p net ≡ net
      → find s.fd (close os app p net).table ≡ none
  unfolding close
  close_unhandled net p s c h a =
      ap (λ n. find s.fd n.table)
        (on_socket_live net p _ s h
          ∙ ap (λ n. close_fd os app p (del_socket os p n)) (told_same net p s.has_handler a))
      ∙ close_table net p s c h

  advance_fault :
      (rest : Option (ℕ × ℕ) → Net → Net) (fd : ℕ) (net : Net)
      → find fd net.table ≡ none
      → (advance os app rest fd net).faulty ≡ true
  unfolding advance
  advance_fault rest fd net f = rw (advance, f) refl

  visit_late :
      (net : Net) (fd p : ℕ) (s : Socket)
      → IsConsistent net
      → net.heap p ≡ some s
      → late_as s.socket_type (os.time net.calls) s ≡ true
      → (let net' = record net { check_fd = fd } in
          if p == 0 then net' else handle_timeout os app p net')
        ≡ close os app p (tick (record net { check_fd = fd }))
  visit_late net fd p s c h late =
      rw (not_null net p s c h) (handle_timeout_lem (record net { check_fd = fd }) p s true h late)

  -- CheckTimeoutSocket at the entry of a socket that has passed its timeout, in a consistent container
  -- and with a handler that changes nothing when the socket closes: the socket is taken out of
  -- the map and the iterator that stood on it is then moved on.
  pub check_from-timed_out :
      (n fd p : ℕ) (net : Net) (s : Socket)
      → IsConsistent net
      → find fd net.table ≡ some p
      → net.heap p ≡ some s
      → late_as s.socket_type (os.time net.calls) s ≡ true
      → ((net : Net) → app.handle_close p net ≡ net)
      → (check_from os app (suc n) (some (fd, p)) net).faulty ≡ true
  unfolding check_from
  check_from-timed_out n fd p net s c f h late quiet =
      let o = c.held fd p f in
      let key = ap (λ s. s.fd) (some-injective _ _ (sym h ∙ o.here)) ∙ o.its_fd in
      let net' = tick (record net { check_fd = fd }) in
      advance_fault (check_from os app n) fd _ (
        ap (λ n. find fd n.table) (visit_late net fd p s c h late)
        ∙ (ap (λ k. find k (close os app p net').table) (sym key)
            ∙ close_unhandled net' p s c h (quiet net')))
