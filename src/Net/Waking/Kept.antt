-- ===== src/Net/Waking/Kept.antt =====
-- TcpSocket's HandleWrite and SendPacket: a socket with bytes that wait stays one that is woken.
use deps.Prelude.{ℕ, ◌+◌, ◌≡◌, refl, sym, ◌∙◌, ap, inl, inr}
use deps.Prelude.{Bool, true, false, some, ltb}
use deps.Prelude.{Bool-cases}
use mathlib.Core.Path.{subst}
use deps.Buffer.Growth.{contents, length-contents}
use deps.Net.{set_socket, Net, Socket, SocketState, Os, App}
use deps.Net.{socket_event_read, socket_event_error}
use deps.Net.Tcp.{is_open}
use deps.Net.Tcp.{become_connected, write_in, handle_write, queued, queue, send_packet}
use deps.Prelude.{List, length, ◌<◌, ◌^◌, ◌++◌, append_assoc}
use deps.Buffer.{Buffer, Pool}
use deps.Buffer.Contents.{Answer, append-Answer}
use deps.Net.Consistent.{on_socket_live, IsConsistent}
use deps.Net.Updates.{put_here, put-Keeps}
use deps.Net.Container.{mod_socket-Keeps}
use deps.Net.Closing.{LawfulApp}
use deps.Net.Sending.{LawfulOs, flag-Keeps}
use deps.Net.Waking.{IsResting, Rests, mod_socket-watched, settle-Rests, write-Rests}

module _ (os : Os) (app : App) (lawful : LawfulApp app) (documented : LawfulOs os) where
  -- A socket that becomes connected has no byte that waits.
  become_connected-Rests :
      (net : Net) (p : ℕ) (s : Socket)
      → IsConsistent net
      → net.heap p ≡ some s
      → s.output.size ≡ 0
      → Rests (become_connected os app p s net) p
  unfolding become_connected
  become_connected-Rests net p s c h z =
      let s' = record s { state = SocketState.connected; timeout = 0 } in
      let k = flag-Keeps os app lawful net p s s' c h refl refl refl in
      let here = put_here p (some s') net.heap in
      let m =
        mod_socket-Keeps os (set_socket p s' net) p (socket_event_read + socket_event_error)
          k.consistent (s', here) in
      let (e, w) =
        mod_socket-watched os (set_socket p s' net) p (socket_event_read + socket_event_error) s'
          here in
      settle-Rests os app lawful p s' _ m.consistent (ap (λ f. f p) e ∙ here) z

  write_in-Rests :
      (net : Net) (p : ℕ) (s : Socket) (state : SocketState)
      → IsConsistent net
      → net.heap p ≡ some s
      → s.state ≡ state
      → IsResting net s
      → Rests (write_in os app state p s net) p
  unfolding write_in
  write_in-Rests net p s SocketState.connecting c h e (inl x) = absurd (cc)
  write_in-Rests net p s SocketState.connecting c h e (inr (inl x)) =
      become_connected-Rests net p s c h x
  write_in-Rests net p s SocketState.connecting c h e (inr (inr (o, x, y))) =
      absurd (cc (rw e at o))
  write_in-Rests net p s SocketState.accept c h e r =
      write-Rests os app lawful documented net p s c h (rw e refl)
  write_in-Rests net p s SocketState.connected c h e r =
      write-Rests os app lawful documented net p s c h (rw e refl)
  write_in-Rests net p s SocketState.listen c h e r = (s, h, r)
  write_in-Rests net p s SocketState.close c h e r = (s, h, r)

  handle_write-Rests :
      (net : Net) (p : ℕ) → IsConsistent net → Rests net p → Rests (handle_write os app p net) p
  unfolding handle_write
  handle_write-Rests net p c (s, h, r) =
      subst (λ net'. Rests net' p) (sym (on_socket_live net p _ s h))
        (write_in-Rests net p s s.state c h refl r)

  queued-Rests :
      (net : Net) (p : ℕ) (s : Socket) (bs : List ℕ) (done : Bool) (b : Buffer) (pool : Pool)
      → IsConsistent net
      → net.heap p ≡ some s
      → is_open s.state ≡ true
      → IsResting net s
      → Answer 1024 s.output (contents s.output ++ bs) (contents s.output) done b
      → Rests
          (queued os app p
            (done, set_socket p (record s { output = b }) (record net { pool = pool }))).1
          p
  unfolding queued
  queued-Rests net p s bs true b pool c h o r a =
      let k =
        put-Keeps net net.wire p s (record s { output = b }) bs c h refl
          (record { input = (c.buffers p s h).input; output = a.valid })
          (ap (λ cs. net.wire p ++ cs) a.bytes
            ∙ sym (append_assoc (net.wire p) (contents s.output) bs))
          (λ q z. refl) in
      write-Rests os app lawful documented
        (set_socket p (record s { output = b }) (record net { pool = pool })) p
        (record s { output = b }) k.consistent (put_here p _ net.heap) o
  queued-Rests net p s bs false b pool c h o r a = (
    record s { output = b },
    put_here p _ net.heap,
    elim r [
      | inl x ↦ inl x
      | inr y ↦ elim y [
        | inl x ↦
            let same : b.size ≡ s.output.size =
              sym (length-contents a.valid)
              ∙ (ap length a.bytes ∙ length-contents (c.buffers p s h).output) in
            inr (inl (same ∙ x))
        | inr x ↦ inr (inr x)
      ]
    ],
  )

  send_packet-Rests :
      (net : Net) (p : ℕ) (bs : List ℕ)
      → IsConsistent net
      → Rests net p
      → length bs < 2 ^ 64
      → Rests (send_packet os app p (some bs) net).1 p
  unfolding send_packet queue
  send_packet-Rests net p bs c (s, h, r) l = elim (Bool-cases (is_open s.state)) [
    | inr z ↦ rw (send_packet, h, z) (s, h, r)
    | inl z ↦ elim (Bool-cases (ltb (length bs) 1)) [
      | inl e ↦ rw (send_packet, h, z, e) (s, h, r)
      | inr e ↦
          rw (send_packet, h, z, e)
            (queued-Rests net p s bs _ _ _ c h z r
              (append-Answer os.malloc documented.answers bs net.pool (c.buffers p s h).output l))
    ]
  ]

  -- In a consistent container, with a system as documented and a handler that keeps its promise,
  -- whatever send and epoll_ctl answer: HandleWrite and SendPacket leave a live socket closed, or
  -- with no byte that waits, or open, marked as resending and with an entry in epoll that wakes it
  -- when it can be written to, if it was so before.
  pub Rests-kept :
      (net : Net) (p : ℕ) (bs : List ℕ)
      → IsConsistent net
      → Rests net p
      → length bs < 2 ^ 64
      → Rests (handle_write os app p net) p × Rests (send_packet os app p (some bs) net).1 p
  Rests-kept net p bs c r l = (handle_write-Rests net p c r, send_packet-Rests net p bs c r l)
