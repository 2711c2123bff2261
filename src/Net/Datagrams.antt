-- ===== src/Net/Datagrams.antt =====
-- The members of UdpSocket in net/udp_socket.cpp keep the invariant and the streams.
use deps.Prelude.{ℕ, ◌+◌, ◌^◌, ◌<◌, ◌≡◌, refl, arith, inl, inr}
use deps.Prelude.{Bool, true, false, List, [], ◌∷◌}
use deps.Prelude.{ltb, ◌==◌, if◌then◌else◌, length, Bool-cases}
use deps.Buffer.{append, erase}
use deps.Buffer.Growth.{contents, length-contents}
use deps.Buffer.Contents.{append-Answer}
use deps.Buffer.Erase.{erase-Edited}
use deps.Net.{Net, Os, App, Received, set_socket}
use deps.Net.{data_of, no_data, recv_error}
use deps.Net.Tcp
use deps.Net.Udp.{
  close, handled, take_input, received, read, handle_read, handle_write, handle_error,
}
use deps.Net.Consistent.{
  on_socket_lem, IsConsistent, Keeps, Keeps-refl, Keeps-trans, IsLive-after, IsLive,
}
use deps.Net.Updates.{set_socket-Keeps, put_here}
use deps.Net.Closing.{LawfulApp}
use deps.Net.Sending.{LawfulOs, flag-Keeps}
use deps.Net.Sending
use deps.Net.Receiving.{Answer-IsValid}

module _ (os : Os) (app : App) (lawful : LawfulApp app) (documented : LawfulOs os) where
  close-Keeps :
      (net : Net) (p : ℕ) → IsConsistent net → IsLive net p → Keeps net (close os app p net)
  unfolding close
  close-Keeps net p c l = Sending.close-Keeps os app lawful net p c l

  unpacked-Keeps :
      (net : Net) (pn p : ℕ)
      → IsConsistent net
      → IsLive net p
      → Keeps net (Tcp.unpacked os app pn p net)
  unfolding Tcp.unpacked
  unpacked-Keeps net pn p c l = elim (Bool-cases (pn == 0)) [
    | inl z ↦ rw z (Keeps-refl net c)
    | inr z ↦ elim (Bool-cases (ltb pn (2 ^ 31))) [
      | inr y ↦ rw (z, y) (Sending.close-Keeps os app lawful net p c l)
      | inl y ↦
          rw (z, y)
            (on_socket_lem (Keeps net) net p _ l (λ s h.
              (let v = c.buffers p s h in
                let e = (erase-Edited 0 pn false net.pool v.input (omega arith)).0 in
                let b = (erase 0 pn false s.input net.pool).0 in
                let k =
                  set_socket-Keeps net p s (record s { input = b }) c h refl
                    (record { input = e.valid; output = v.output }) refl in
                record { consistent = k.consistent; goes = k.goes })))
    ]
  ]

  told_packet-Keeps :
      (net : Net) (p : ℕ) (bs : List ℕ) (has_handler : Bool)
      → IsConsistent net
      → IsLive net p
      → length bs < 2 ^ 64
      → Keeps net (
          if has_handler
          then (let (pn, net') = app.handle_packet bs p net in Tcp.unpacked os app pn p net')
          else Tcp.unpacked os app 0 p net)
  told_packet-Keeps net p bs true c l b =
      let k = lawful.on_packet bs p net c l b in
      Keeps-trans k (unpacked-Keeps _ _ p k.consistent (IsLive-after p k l))
  told_packet-Keeps net p bs false c l b = unpacked-Keeps net 0 p c l

  handled-Keeps :
      (net : Net) (p : ℕ) → IsConsistent net → IsLive net p → Keeps net (handled os app p net)
  unfolding handled
  handled-Keeps net p c l = on_socket_lem (Keeps net) net p _ l (λ s h.
      (let v = (c.buffers p s h).input in
        told_packet-Keeps net p (contents s.input) s.has_handler c l
          (omega (arith, length-contents v))))

  take_input-Keeps :
      (net : Net) (p : ℕ) (bs : List ℕ)
      → IsConsistent net
      → IsLive net p
      → length bs < 2 ^ 64
      → Keeps net (take_input os app p bs net)
  unfolding take_input
  take_input-Keeps net p bs c l b = on_socket_lem (Keeps net) net p _ l (λ s h.
      (let v = c.buffers p s h in
        let (done, b', pool) = append os.malloc bs s.input net.pool in
        let a = append-Answer os.malloc documented.answers bs net.pool v.input b in
        let k =
          set_socket-Keeps net p s (record s { input = b' }) c h refl
            (record { input = Answer-IsValid _ _ _ _ _ a; output = v.output }) refl in
        Keeps-trans (record { consistent = k.consistent; goes = k.goes })
          (handled-Keeps (set_socket p (record s { input = b' }) (record net { pool = pool })) p
            k.consistent (record s { input = b' }, put_here p _ net.heap))))

  received-Keeps :
      (net : Net) (p i fd size : ℕ) (answer : Received)
      → IsConsistent net
      → IsLive net p
      → size < 2 ^ 64
      → os.recv_from i fd size ≡ answer
      → Keeps net (received os app p answer net)
  unfolding received
  received-Keeps net p i fd size recv_error c l b e = Keeps-refl net c
  received-Keeps net p i fd size no_data c l b e = close-Keeps net p c l
  received-Keeps net p i fd size (data_of []) c l b e = close-Keeps net p c l
  received-Keeps net p i fd size (data_of (x ∷ bs)) c l b e =
      take_input-Keeps net p (x ∷ bs) c l
        (omega (arith, documented.receives_from i fd size (x ∷ bs) e))

  pub udp_handle_read-Keeps :
      (net : Net) (p size : ℕ)
      → IsConsistent net
      → IsLive net p
      → size < 2 ^ 64
      → Keeps net (handle_read os app p size net)
  unfolding handle_read read
  udp_handle_read-Keeps net p size c l b = on_socket_lem (Keeps net) net p _ l (λ s h.
      (let k =
          flag-Keeps os app lawful net p s (record s { last_access_time = os.time net.calls }) c h
            refl refl refl in
        Keeps-trans (record { consistent = k.consistent; goes = k.goes })
          (received-Keeps _ p (net.calls + 1) s.fd size _ k.consistent
            (record s { last_access_time = os.time net.calls }, put_here p _ net.heap) b refl)))

  pub udp_handle_write-Keeps :
      (net : Net) (p : ℕ) → IsConsistent net → Keeps net (handle_write os app p net)
  unfolding handle_write
  udp_handle_write-Keeps net p c = Keeps-refl net c

  pub udp_handle_error-Keeps :
      (net : Net) (p : ℕ) → IsConsistent net → IsLive net p → Keeps net (handle_error os app p net)
  unfolding handle_error
  udp_handle_error-Keeps net p c l = close-Keeps net p c l
