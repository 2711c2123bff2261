-- ===== src/Net/Consumed.antt =====
-- Read of net/udp_socket.cpp takes out of the input what the handler says it has handled.
use deps.Prelude.{ℕ, ◌+◌, ◌^◌, ◌<◌, ◌≡◌, ◌∙◌, ap, arith}
use deps.Prelude.{Bool, true, false, some, List, ◌++◌}
use deps.Prelude.{ltb, ◌==◌, if◌then◌else◌, length, drop}
use mathlib.Core.Bool.{false≢true}
use deps.Buffer.{Buffer, append, erase}
use deps.Buffer.Growth.{contents}
use deps.Buffer.Contents.{Answer, append-Answer}
use deps.Buffer.Erase.{erase-Edited}
use deps.Net.{Net, Socket, Os, App, set_socket}
use deps.Net.Tcp
use deps.Net.Udp.{handled, take_input}
use deps.Net.Consistent.{on_socket_live, IsConsistent}
use deps.Net.Updates.{put_here}
use deps.Net.Sending.{LawfulOs}
use deps.Net.Receiving.{Answer-IsValid}

-- What the input holds before the handler is asked.
abbrev pub offered : Bool → List ℕ → List ℕ → List ℕ
offered done cs bs = if done then cs ++ bs else cs

Answer-bytes :
    (b b' : Buffer) (cs bs : List ℕ) (done : Bool)
    → Answer 1024 b (cs ++ bs) cs done b'
    → contents b' ≡ offered done cs bs
Answer-bytes b b' cs bs true a = a.bytes
Answer-bytes b b' cs bs false a = a.bytes

zero_add : (n : ℕ) → 0 + n ≡ n
zero_add n = omega arith

not_zero : (n : ℕ) → 0 < n → (n == 0) ≡ false
not_zero n h = ground arith

below_top : (n : ℕ) → n < 2 ^ 31 → ltb n (2 ^ 31) ≡ true
below_top n h = ground arith

module _ (os : Os) (app : App) (pn : ℕ) (some_handled : 0 < pn) (is_int : pn < 2 ^ 31)
    (answers : (bs : List ℕ) (p : ℕ) (net : Net) → app.handle_packet bs p net ≡ (pn, net)) where
  told :
      (net : Net) (p : ℕ) (bs : List ℕ) (has_handler : Bool)
      → has_handler ≡ true
      → (if has_handler
          then (let (k, net') = app.handle_packet bs p net in Tcp.unpacked os app k p net')
          else Tcp.unpacked os app 0 p net)
        ≡ Tcp.unpacked os app pn p net
  told net p bs true e = ap (λ r. Tcp.unpacked os app r.0 p r.1) (answers bs p net)
  told net p bs false e = absurd (false≢true e)

  unpacked_heap :
      (net : Net) (p : ℕ) (t : Socket)
      → net.heap p ≡ some t
      → (Tcp.unpacked os app pn p net).heap p
        ≡ some (record t { input = (erase 0 pn false t.input net.pool).0 })
  unfolding Tcp.unpacked
  unpacked_heap net p t h =
      rw (not_zero pn some_handled, below_top pn is_int)
        (ap (λ n. n.heap p) (on_socket_live net p _ t h) ∙ put_here p _ net.heap)

  handled_heap :
      (net : Net) (p : ℕ) (t : Socket)
      → net.heap p ≡ some t
      → t.has_handler ≡ true
      → (handled os app p net).heap p
        ≡ some (record t { input = (erase 0 pn false t.input net.pool).0 })
  unfolding handled
  handled_heap net p t h e =
      ap (λ n. n.heap p)
        (on_socket_live net p _ t h ∙ told net p (contents t.input) t.has_handler e)
      ∙ unpacked_heap net p t h

  -- Read's branch with data on a live UdpSocket of a consistent container, with a handler that
  -- changes nothing itself and answers that it has handled pn bytes, at least one: the input then
  -- has the bytes of before and the new ones, if append succeeds, without the first pn.
  pub take_input_consumed :
      (net : Net) (p : ℕ) (s : Socket) (bs : List ℕ)
      → LawfulOs os
      → IsConsistent net
      → net.heap p ≡ some s
      → s.has_handler ≡ true
      → length bs < 2 ^ 64
      → (t : Socket) × ((take_input os app p bs net).heap p ≡ some t)
        × (contents t.input
            ≡ drop pn (offered (append os.malloc bs s.input net.pool).0 (contents s.input) bs))
  unfolding take_input
  take_input_consumed net p s bs documented c h e b =
      let (done, b', pool) = append os.malloc bs s.input net.pool in
      let a = append-Answer os.malloc documented.answers bs net.pool (c.buffers p s h).input b in
      let t = record s { input = b' } in
      let net' = set_socket p t (record net { pool = pool }) in
      let v = Answer-IsValid _ _ _ _ _ a in
      (
        record t { input = (erase 0 pn false b' pool).0 },
        ap (λ n. n.heap p) (on_socket_live net p _ s h)
            ∙ handled_heap net' p t (put_here p _ net.heap) e,
        (erase-Edited 0 pn false pool v (omega arith)).0.bytes
            ∙ (ap (λ k. drop k (contents b')) (zero_add pn)
                ∙ ap (λ cs. drop pn cs) (Answer-bytes _ _ _ bs _ a)),
      )
