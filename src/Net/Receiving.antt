-- ===== src/Net/Receiving.antt =====
-- HandleRead, HandleWrite and HandleError of net/tcp_socket.cpp keep the invariant and the streams.
use deps.Prelude.{ℕ, ◌+◌, ◌^◌, ◌<◌, ◌≡◌, refl, arith, inl, inr}
use deps.Prelude.{Bool, true, false, Option, none, some, List, [], ◌∷◌}
use deps.Prelude.{◌==◌, if◌then◌else◌, length, Bool-cases}
use deps.Buffer.{Buffer, append}
use deps.Buffer.Growth.{IsValid, contents, length-contents}
use deps.Buffer.Contents.{Answer, append-Answer}
use deps.Net.{Net, Socket, Os, App, SocketState, Received, no_fd, set_socket, tick, allocate}
use deps.Net.{data_of, no_data, recv_error, socket_event_read, socket_event_error}
use deps.Net.Tcp.{
  close, unpacked, handled, take_input, received, read, peer_socket, adopted, adopt, adopt_for,
  accepted, accept, read_in, handle_read, become_connected, write_in, handle_write, handle_error,
}
use deps.Net.Consistent.{
  on_socket_lem, IsConsistent, Keeps, Keeps-refl, Keeps-same, Keeps-trans, IsLive-after, IsLive,
}
use deps.Net.Updates.{set_socket-Keeps, put_here}
use deps.Net.Container.{add_socket-Keeps, mod_socket-Keeps}
use deps.Net.Closing.{LawfulApp}
use deps.Net.Sending.{LawfulOs, close-Keeps, settle-Keeps, flag-Keeps, write-Keeps}
use deps.Net.Fresh.{new_socket-HasBuffers, allocate-Keeps}

-- Either answer of append leaves a valid buffer.
pub Answer-IsValid :
    (b b' : Buffer) (cs ds : List ℕ) (done : Bool) → Answer 1024 b cs ds done b' → IsValid 1024 b'
Answer-IsValid b b' cs ds true a = a.valid
Answer-IsValid b b' cs ds false a = a.valid

module _ (os : Os) (app : App) (lawful : LawfulApp app) (documented : LawfulOs os) where
  told_packet-Keeps :
      (net : Net) (p : ℕ) (bs : List ℕ) (has_handler : Bool)
      → IsConsistent net
      → IsLive net p
      → length bs < 2 ^ 64
      → Keeps net (if has_handler then (app.handle_packet bs p net).1 else net)
  told_packet-Keeps net p bs true c l b = lawful.on_packet bs p net c l b
  told_packet-Keeps net p bs false c l b = Keeps-refl net c

  handled-Keeps :
      (net : Net) (p : ℕ) → IsConsistent net → IsLive net p → Keeps net (handled os app p net)
  unfolding handled unpacked
  handled-Keeps net p c l = on_socket_lem (Keeps net) net p _ l (λ s h.
      let v = (c.buffers p s h).input in
      told_packet-Keeps net p (contents s.input) s.has_handler c l
        (omega (arith, length-contents v)))

  take_input-Keeps :
      (net : Net) (p : ℕ) (bs : List ℕ)
      → IsConsistent net
      → IsLive net p
      → length bs < 2 ^ 64
      → Keeps net (take_input os app p bs net)
  unfolding take_input
  take_input-Keeps net p bs c l b = on_socket_lem (Keeps net) net p _ l (λ s h.
      (let v = c.buffers p s h in
        let (done, b', pool) = append os.malloc bs s.input net.pool in
        let a = append-Answer os.malloc documented.answers bs net.pool v.input b in
        let k =
          set_socket-Keeps net p s (record s { input = b' }) c h refl
            (record { input = Answer-IsValid _ _ _ _ _ a; output = v.output }) refl in
        Keeps-trans (record { consistent = k.consistent; goes = k.goes })
          (handled-Keeps (set_socket p (record s { input = b' }) (record net { pool = pool })) p
            k.consistent (record s { input = b' }, put_here p _ net.heap))))

  received-Keeps :
      (net : Net) (p i fd size : ℕ) (answer : Received)
      → IsConsistent net
      → IsLive net p
      → size < 2 ^ 64
      → os.recv i fd size ≡ answer
      → Keeps net (received os app p answer net)
  unfolding received
  received-Keeps net p i fd size recv_error c l b e = Keeps-refl net c
  received-Keeps net p i fd size no_data c l b e = close-Keeps os app lawful net p c l
  received-Keeps net p i fd size (data_of []) c l b e = close-Keeps os app lawful net p c l
  received-Keeps net p i fd size (data_of (x ∷ bs)) c l b e =
      take_input-Keeps net p (x ∷ bs) c l (omega (arith, documented.receives i fd size (x ∷ bs) e))

  read-Keeps :
      (net : Net) (p size : ℕ)
      → IsConsistent net
      → IsLive net p
      → size < 2 ^ 64
      → Keeps net (read os app p size net)
  unfolding read
  read-Keeps net p size c l b = on_socket_lem (Keeps net) net p _ l (λ s h.
      (let k =
          flag-Keeps os app lawful net p s (record s { last_access_time = os.time net.calls }) c h
            refl refl refl in
        Keeps-trans (record { consistent = k.consistent; goes = k.goes })
          (received-Keeps _ p (net.calls + 1) s.fd size _ k.consistent
            (record s { last_access_time = os.time net.calls }, put_here p _ net.heap) b refl)))

  adopted-Keeps :
      (net : Net) (q afd : ℕ) (r : Bool × Net)
      → Keeps net r.1
      → IsLive r.1 q
      → Keeps net (adopted os app q afd r)
  unfolding adopted
  adopted-Keeps net q afd (false, net') k l =
      Keeps-trans k (close-Keeps os app lawful net' q k.consistent l)
  adopted-Keeps net q afd (true, net') k l = elim (Bool-cases (os.set_nodelay net'.calls afd)) [
    | inl z ↦ rw z (Keeps-trans k (Keeps-same net' (tick net') k.consistent refl refl))
    | inr z ↦ rw z (
        Keeps-trans k (
          Keeps-trans (Keeps-same net' (tick net') k.consistent refl refl)
            (close-Keeps os app lawful (tick net') q k.consistent l)))
  ]

  adopt-Keeps :
      (net : Net) (afd : ℕ) (s : Socket)
      → IsConsistent net
      → (no_fd == afd) ≡ false
      → Keeps net (adopt os app afd s net)
  unfolding adopt
  adopt-Keeps net afd s c n =
      let q = peer_socket os app afd s net in
      let b = new_socket-HasBuffers (os.junk net.calls) s.has_handler in
      let k = allocate-Keeps net q c (record { input = b.input; output = b.output }) in
      let h = put_here net.next (some q) net.heap in
      let a =
        add_socket-Keeps os (allocate q net) net.next (socket_event_read + socket_event_error) q
          k.consistent h n in
      adopted-Keeps net net.next afd _ (Keeps-trans k a) (IsLive-after net.next a (q, h))

  accepted-Keeps :
      (net : Net) (p afd : ℕ)
      → IsConsistent net
      → IsLive net p
      → (no_fd == afd) ≡ false
      → Keeps net (accepted os app p afd net)
  unfolding accepted adopt_for
  accepted-Keeps net p afd c l n =
      let t = Keeps-same net (tick net) c refl refl in
      elim (Bool-cases (os.set_nonblock net.calls afd)) [
        | inl z ↦ rw z (
            Keeps-trans t (
              on_socket_lem (Keeps (tick net)) (tick net) p _ l
                (λ s h. adopt-Keeps (tick net) afd s c n)))
        | inr z ↦ rw z (Keeps-trans t (close-Keeps os app lawful (tick net) p c l))
      ]

  accept_cases :
      (net : Net) (p i fd : ℕ) (answer : Option ℕ)
      → IsConsistent net
      → IsLive net p
      → os.accept_on i fd ≡ answer
      → Keeps net (elim answer [
        | none ↦ close os app p (tick net)
        | some afd ↦ accepted os app p afd (tick net)
      ])
  accept_cases net p i fd none c l e =
      Keeps-trans (Keeps-same net (tick net) c refl refl)
        (close-Keeps os app lawful (tick net) p c l)
  accept_cases net p i fd (some afd) c l e =
      Keeps-trans (Keeps-same net (tick net) c refl refl)
        (accepted-Keeps (tick net) p afd c l (documented.accepts i fd afd e))

  accept-Keeps :
      (net : Net) (p : ℕ) → IsConsistent net → IsLive net p → Keeps net (accept os app p net)
  unfolding accept
  accept-Keeps net p c l =
      on_socket_lem (Keeps net) net p _ l (λ s h. accept_cases net p net.calls s.fd _ c l refl)

  read_in-Keeps :
      (net : Net) (p size : ℕ) (st : SocketState)
      → IsConsistent net
      → IsLive net p
      → size < 2 ^ 64
      → Keeps net (read_in os app st p size net)
  unfolding read_in
  read_in-Keeps net p size SocketState.listen c l b = accept-Keeps net p c l
  read_in-Keeps net p size SocketState.accept c l b = read-Keeps net p size c l b
  read_in-Keeps net p size SocketState.connecting c l b = read-Keeps net p size c l b
  read_in-Keeps net p size SocketState.connected c l b = read-Keeps net p size c l b
  read_in-Keeps net p size SocketState.close c l b = Keeps-refl net c

  -- HandleRead of a live socket in a consistent container, in any state and whatever the system and
  -- the handler answer within what they promise: the container stays consistent, no socket is lost
  -- and no stream loses a byte.
  pub handle_read-Keeps :
      (net : Net) (p size : ℕ)
      → IsConsistent net
      → IsLive net p
      → size < 2 ^ 64
      → Keeps net (handle_read os app p size net)
  unfolding handle_read
  handle_read-Keeps net p size c l b =
      on_socket_lem (Keeps net) net p _ l (λ s h. read_in-Keeps net p size s.state c l b)

  become_connected-Keeps :
      (net : Net) (p : ℕ) (s : Socket)
      → IsConsistent net
      → net.heap p ≡ some s
      → Keeps net (become_connected os app p s net)
  unfolding become_connected
  become_connected-Keeps net p s c h =
      let k =
        flag-Keeps os app lawful net p s (record s { state = SocketState.connected; timeout = 0 }) c
          h refl refl refl in
      settle-Keeps os app lawful net p _ (s, h)
        (Keeps-trans k (mod_socket-Keeps os _ p _ k.consistent (IsLive-after p k (s, h))))

  write_in-Keeps :
      (net : Net) (p : ℕ) (s : Socket) (st : SocketState)
      → IsConsistent net
      → net.heap p ≡ some s
      → Keeps net (write_in os app st p s net)
  unfolding write_in
  write_in-Keeps net p s SocketState.connecting c h = become_connected-Keeps net p s c h
  write_in-Keeps net p s SocketState.accept c h =
      write-Keeps os app lawful documented net p c (s, h)
  write_in-Keeps net p s SocketState.connected c h =
      write-Keeps os app lawful documented net p c (s, h)
  write_in-Keeps net p s SocketState.listen c h = Keeps-refl net c
  write_in-Keeps net p s SocketState.close c h = Keeps-refl net c

  -- HandleWrite of a live socket in a consistent container, in any state and whatever the system and
  -- the handler answer within what they promise: its loop ends, the container stays consistent, no
  -- socket is lost and no stream loses a byte.
  pub handle_write-Keeps :
      (net : Net) (p : ℕ) → IsConsistent net → IsLive net p → Keeps net (handle_write os app p net)
  unfolding handle_write
  handle_write-Keeps net p c l =
      on_socket_lem (Keeps net) net p _ l (λ s h. write_in-Keeps net p s s.state c h)

  pub handle_error-Keeps :
      (net : Net) (p : ℕ) → IsConsistent net → IsLive net p → Keeps net (handle_error os app p net)
  unfolding handle_error
  handle_error-Keeps net p c l = close-Keeps os app lawful net p c l
