-- ===== src/Net/Queueing.antt =====
-- TcpSocket::SendPacket: what it accepts stands in the stream of the socket.
use deps.Prelude.{ℕ, ◌^◌, ◌<◌, ◌≡◌, refl, sym, ◌∙◌, ap, inl, inr}
use deps.Prelude.{Bool, true, false, some, List, [], ◌++◌, append_assoc}
use deps.Prelude.{ltb, length, length_zero}
use deps.Prelude.{Bool-cases, tests, append-nil}
use deps.Buffer.{Buffer, Pool}
use deps.Buffer.Growth.{contents}
use deps.Buffer.Contents.{Answer, append-Answer}
use deps.Net.{set_socket, Net, Socket, Os, App}
use deps.Net.Tcp.{queued, queue, send_packet}
use deps.Net.Tcp.{is_open}
use deps.Net.Consistent.{IsConsistent, Keeps, Keeps-refl}
use deps.Net.Consistent.{Keeps-trans}
use deps.Net.Updates.{put-Keeps, set_socket-Keeps, put_here}
use deps.Net.Closing.{LawfulApp}
use deps.Net.Sending.{LawfulOs, write-Keeps}

-- The stream of the socket s at p has got `bs` at its end, before what was sent since.
pub record Sends (net : Net) (s : Socket) (bs : List ℕ) (net' : Net) (p : ℕ) : Type 0 where
  pub socket : Socket
  pub here : net'.heap p ≡ some socket
  pub later : List ℕ
  pub stream :
      net'.wire p ++ contents socket.output ≡ ((net.wire p ++ contents s.output) ++ bs) ++ later

-- The two answers of SendPacket.
abbrev pub Accepted : Net → Socket → List ℕ → Bool → Net → ℕ → Type 0
Accepted net s bs true net' p = Sends net s bs net' p
Accepted net s bs false net' p =
    (t : Socket) × (net'.heap p ≡ some t)
    × (net'.wire p ++ contents t.output ≡ net.wire p ++ contents s.output)

module _ (os : Os) (app : App) (lawful : LawfulApp app) (documented : LawfulOs os) where
  queued-Accepted :
      (net : Net) (p : ℕ) (s : Socket) (bs : List ℕ) (done : Bool) (b : Buffer) (pool : Pool)
      → IsConsistent net
      → net.heap p ≡ some s
      → Answer 1024 s.output (contents s.output ++ bs) (contents s.output) done b
      → let r =
          queued os app p
            (done, set_socket p (record s { output = b }) (record net { pool = pool })) in
        Keeps net r.1 × Accepted net s bs r.0 r.1 p
  unfolding queued
  queued-Accepted net p s bs true b pool c h a =
      let eq =
        ap (λ cs. net.wire p ++ cs) a.bytes
        ∙ sym (append_assoc (net.wire p) (contents s.output) bs) in
      let k =
        put-Keeps net net.wire p s (record s { output = b }) bs c h refl
          (record { input = (c.buffers p s h).input; output = a.valid }) eq (λ q z. refl) in
      let w =
        write-Keeps os app lawful documented
          (set_socket p (record s { output = b }) (record net { pool = pool })) p k.consistent
          (record s { output = b }, put_here p _ net.heap) in
      let y = w.goes p (record s { output = b }) (put_here p _ net.heap) in
      (
        Keeps-trans (record { consistent = k.consistent; goes = k.goes }) w,
        record {
          socket = y.socket;
          here = y.here;
          later = y.more;
          stream = y.stream ∙ ap (λ cs. cs ++ y.more) eq;
        },
      )
  queued-Accepted net p s bs false b pool c h a =
      let k =
        set_socket-Keeps net p s (record s { output = b }) c h refl
          (record { input = (c.buffers p s h).input; output = a.valid }) a.bytes in
      (
        record { consistent = k.consistent; goes = k.goes },
        (record s { output = b }, put_here p _ net.heap, ap (λ cs. net.wire p ++ cs) a.bytes),
      )

  -- SendPacket of bytes on a live socket of a consistent container, with a system as documented and a
  -- handler that keeps its promise: the container stays consistent and no stream loses a byte; on
  -- true the bytes stand in the stream of the socket right behind all that it had, on false the
  -- stream is that of before.
  pub send_packet-Accepted :
      (net : Net) (p : ℕ) (s : Socket) (bs : List ℕ)
      → IsConsistent net
      → net.heap p ≡ some s
      → length bs < 2 ^ 64
      → let r = send_packet os app p (some bs) net in Keeps net r.1 × Accepted net s bs r.0 r.1 p
  unfolding send_packet queue
  send_packet-Accepted net p s bs c h l = elim (Bool-cases (is_open s.state)) [
    | inr z ↦ rw (send_packet, h, z) (Keeps-refl net c, (s, h, refl))
    | inl z ↦ elim (Bool-cases (ltb (length bs) 1)) [
      | inl e ↦
          rw (send_packet, h, z, e)
            (
              Keeps-refl net c,
              record {
                socket = s;
                here = h;
                later = [];
                stream =
                    sym (append-nil _)
                    ∙ (ap (λ cs. (net.wire p ++ contents s.output) ++ cs)
                          (sym (length_zero bs (omega tests)))
                        ∙ sym (append-nil _));
              },
            )
      | inr e ↦
          rw (send_packet, h, z, e)
            (queued-Accepted net p s bs _ _ _ c h
              (append-Answer os.malloc documented.answers bs net.pool (c.buffers p s h).output l))
    ]
  ]
