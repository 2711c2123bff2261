-- ===== src/Net/Waking.antt =====
-- TcpSocket::Write: bytes that wait are not forgotten. SendPacket and HandleWrite are in the child.
pub mod Kept
use deps.Prelude.{ℕ, zero, suc, ◌+◌, ◌≤◌, ◌≡◌, refl, sym, ◌∙◌, ap, arith, ◌⊎◌, inl, inr}
use deps.Prelude.{Bool, true, false, some, ◌==◌, ltb}
use deps.Prelude.{Bool-cases, Option-cases, tests}
use mathlib.Core.Path.{subst}
use deps.Buffer.{erase}
use deps.Buffer.Growth.{contents, length-contents}
use deps.Net.{set_socket, tick, Net, Socket, SocketState, Os, App, Sent, ctl_mod}
use deps.Net.{
  wrote, try_again, send_error, socket_event_read, socket_event_write, socket_event_error,
}
use deps.Net.Table.{find}
use deps.Net.Epoll.{mod_socket, mod_fd, epoll_events}
use deps.Net.Tcp.{settle, resend, finished, sent, send_all, write, close, is_open}
use deps.Net.Tcp.{become_connected, write_in, handle_write, queued, queue, send_packet}
use deps.Prelude.{List, length, ◌<◌, ◌^◌, ◌++◌, append_assoc}
use deps.Buffer.{Buffer, Pool}
use deps.Buffer.Contents.{Answer, append-Answer}
use deps.Net.Consistent.{on_socket_live, IsConsistent}
use deps.Net.Updates.{put_here, put-Keeps}
use deps.Net.Container.{mod_socket-Keeps}
use deps.Net.Closing.{LawfulApp, close-IsClosed}
use deps.Net.Sending.{LawfulOs, spent-Keeps, erased, spent, flag-Keeps}

-- What a socket may be like between two events: closed, or with no byte that waits, or open, marked as
-- resending and with an entry in epoll that wakes it when it can be written to.
abbrev pub IsResting : Net → Socket → Type 0
IsResting net s =
    (s.state ≡ SocketState.close)
    ⊎ (s.output.size ≡ 0)
    ⊎ ((is_open s.state ≡ true)
        × (s.is_resending ≡ true)
        × (net.watched s.fd
            ≡ epoll_events (socket_event_read + socket_event_write + socket_event_error)))

abbrev pub Rests : Net → ℕ → Type 0
Rests net p = (s : Socket) × (net.heap p ≡ some s) × IsResting net s

module _ (os : Os) where
  mod_fd-watched :
      (net : Net) (fd events : ℕ)
      → let r = mod_fd os fd events net in
        (r.1.heap ≡ net.heap) × (r.0 ≡ true → r.1.watched fd ≡ epoll_events events)
  unfolding mod_fd
  mod_fd-watched net fd events = elim (Option-cases (find fd net.table)) [
    | inl f ↦ rw (f, mod_fd) (refl, λ e. absurd (cc))
    | inr (q, f) ↦ elim (Bool-cases (os.epoll_ctl net.calls ctl_mod fd (epoll_events events))) [
      | inl g ↦ rw (f, g, mod_fd) (refl, λ e. put_here fd (epoll_events events) net.watched)
      | inr g ↦ rw (f, g, mod_fd) (refl, λ e. absurd (cc))
    ]
  ]

  -- ModSocket leaves the sockets as they are, and where it succeeds epoll knows the events.
  pub mod_socket-watched :
      (net : Net) (p events : ℕ) (s : Socket)
      → net.heap p ≡ some s
      → let r = mod_socket os p events net in
        (r.1.heap ≡ net.heap) × (r.0 ≡ true → r.1.watched s.fd ≡ epoll_events events)
  unfolding mod_socket
  mod_socket-watched net p events s h = elim (Bool-cases (p == 0)) [
    | inl z ↦ rw z (refl, λ e. absurd (cc))
    | inr z ↦ rw (z, h) (mod_fd-watched net s.fd events)
  ]

module _ (os : Os) (app : App) (lawful : LawfulApp app) where
  close-Rests :
      (net : Net) (p : ℕ) (s : Socket)
      → IsConsistent net
      → net.heap p ≡ some s
      → Rests (close os app p net) p
  close-Rests net p s c h =
      let (k, d) = close-IsClosed os app net p lawful c (s, h) in (_, d.here, inl refl)

  resend-Rests :
      (p : ℕ) (s : Socket) (r : Bool × Net)
      → IsConsistent r.1
      → r.1.heap p ≡ some s
      → is_open s.state ≡ true
      → (r.0 ≡ true
          → r.1.watched s.fd
            ≡ epoll_events (socket_event_read + socket_event_write + socket_event_error))
      → Rests (resend os app p r) p
  unfolding resend
  resend-Rests p s (false, net) c h o w = close-Rests net p s c h
  resend-Rests p s (true, net) c h o w =
      subst (λ net'. Rests net' p) (sym (on_socket_live net p _ s h))
        (record s { is_resending = true }, put_here p _ net.heap, inr (inr (o, refl, w refl)))

  pub settle-Rests :
      (p : ℕ) (s : Socket) (r : Bool × Net)
      → IsConsistent r.1
      → r.1.heap p ≡ some s
      → s.output.size ≡ 0
      → Rests (settle os app p r) p
  unfolding settle
  settle-Rests p s (false, net) c h z = close-Rests net p s c h
  settle-Rests p s (true, net) c h z = (s, h, inr (inl z))

  finished-Rests :
      (net : Net) (p : ℕ) (s : Socket)
      → IsConsistent net
      → net.heap p ≡ some s
      → s.output.size ≡ 0
      → Rests (finished os app p net) p
  unfolding finished
  finished-Rests net p s c h z =
      subst (λ net'. Rests net' p) (sym (on_socket_live net p _ s h))
        (elim (Bool-cases s.is_resending) [
          | inl y ↦ rw y (
              let s' = record s { is_resending = false } in
              let k = flag-Keeps os app lawful net p s s' c h refl refl refl in
              let here = put_here p (some s') net.heap in
              let m =
                mod_socket-Keeps os (set_socket p s' net) p (socket_event_read + socket_event_error)
                  k.consistent (s', here) in
              let (e, w) =
                mod_socket-watched os (set_socket p s' net) p
                  (socket_event_read + socket_event_error) s' here in
              settle-Rests p s' _ m.consistent (ap (λ f. f p) e ∙ here) z)
          | inr y ↦ rw y (s, h, inr (inl z))
        ])

  module _ (documented : LawfulOs os) where
    -- Each branch on the answer of send, where `rest` goes on with a shorter output.
    sent-Rests :
        (net : Net) (p i m : ℕ) (s : Socket) (rest : Net → Net) (answer : Sent)
        → IsConsistent net
        → net.heap p ≡ some s
        → is_open s.state ≡ true
        → 1 ≤ s.output.size
        → s.output.size ≤ suc m
        → os.send i s.fd (contents s.output) ≡ answer
        → ((net : Net) (s : Socket)
            → IsConsistent net
            → net.heap p ≡ some s
            → is_open s.state ≡ true
            → 1 ≤ s.output.size
            → s.output.size ≤ m
            → Rests (rest net) p)
        → Rests (sent os app rest p answer net) p
    unfolding sent
    sent-Rests net p i m s rest send_error c h o l f a r = close-Rests net p s c h
    sent-Rests net p i m s rest try_again c h o l f a r =
        let events = socket_event_read + socket_event_write + socket_event_error in
        let k = mod_socket-Keeps os net p events c (s, h) in
        let (e, w) = mod_socket-watched os net p events s h in
        resend-Rests p s _ k.consistent (ap (λ f. f p) e ∙ h) o w
    sent-Rests net p i m s rest (wrote n) c h o l f a r =
        subst (λ net'. Rests net' p) (sym (on_socket_live net p _ s h))
          (let v = (c.buffers p s h).output in
            let (one, all) =
              documented.sends i s.fd n (contents s.output) (omega (arith, length-contents v)) a in
            let (_, _, z) = erased net p n s c h in
            let k = spent-Keeps net p n s c h in
            elim (Bool-cases ((erase 0 n false s.output net.pool).0.size == 0)) [
              | inl d ↦ rw d (
                  finished-Rests (spent p n s net) p _ k.consistent (put_here p _ net.heap)
                    (omega tests))
              | inr d ↦ rw d (
                  r (spent p n s net) _ k.consistent (put_here p _ net.heap) o (omega tests)
                    (omega arith))
            ])

    send_all-Rests :
        (n : ℕ) (net : Net) (p : ℕ) (s : Socket)
        → IsConsistent net
        → net.heap p ≡ some s
        → is_open s.state ≡ true
        → 1 ≤ s.output.size
        → s.output.size ≤ n
        → Rests (send_all os app n p net) p
    unfolding send_all
    send_all-Rests zero net p s c h o l f = absurd (omega arith)
    send_all-Rests (suc n) net p s c h o l f =
        subst (λ net'. Rests net' p) (sym (on_socket_live net p _ s h))
          (sent-Rests (tick net) p net.calls n s (send_all os app n p) _ c h o l f refl
            (λ net s c h o l f. send_all-Rests n net p s c h o l f))

    pub write-Rests :
        (net : Net) (p : ℕ) (s : Socket)
        → IsConsistent net
        → net.heap p ≡ some s
        → is_open s.state ≡ true
        → Rests (write os app p net) p
    unfolding write
    write-Rests net p s c h o =
        subst (λ net'. Rests net' p) (sym (on_socket_live net p _ s h))
          (let s' = record s { last_access_time = os.time net.calls } in
            let k = flag-Keeps os app lawful (tick net) p s s' c h refl refl refl in
            elim (Bool-cases (ltb s.output.size 1)) [
              | inl z ↦ rw z (s', put_here p _ net.heap, inr (inl (omega tests)))
              | inr z ↦ rw z (
                  send_all-Rests s.output.size (set_socket p s' (tick net)) p s' k.consistent
                    (put_here p _ net.heap) o (omega tests) (omega arith))
            ])
