-- ===== src/Net/Sending.antt =====
-- TcpSocket::Write and SendPacket: the loop ends, the invariant is kept, and streams stay in order.
use deps.Prelude.{ℕ, zero, suc, ◌+◌, ◌≤◌, ◌≡◌, refl, sym, ◌∙◌, ap, arith, inl, inr}
use deps.Prelude.{Bool, true, false, some, List, [], ◌++◌, append_assoc}
use deps.Prelude.{◌==◌, ltb, length, take, drop, length-drop, take_append_drop, ◌-◌}
use deps.Prelude.{Bool-cases, tests, append-nil}
use mathlib.Core.Path.{subst}
use deps.Buffer.{erase}
use deps.Buffer.Growth.{IsValid, Answers, contents, length-contents}
use deps.Buffer.Erase.{erase-Edited}
use deps.Net.{set_socket, tick, put, Net, Socket, Os, App, Sent, no_fd}
use deps.Net.{data_of, wrote, try_again, send_error}
use deps.Net.Tcp.{settle, resend, finished, sent, send_all, write}
use deps.Net.Tcp.{close}
use deps.Net.Consistent.{on_socket_lem, on_socket_live, IsConsistent, Keeps, Keeps-refl}
use deps.Net.Consistent.{Keeps-same, Keeps-trans, IsLive-after, IsLive}
use deps.Net.Updates.{put-Keeps, set_socket-Keeps, put_here, put_other}
use deps.Net.Container.{mod_socket-Keeps}
use deps.Net.Closing.{LawfulApp, close-IsClosed}

-- What the system documents: malloc gives what was asked for, send takes at least one of the bytes it
-- is given and not more than there are, recv does not answer with more than fits, and a new
-- descriptor is not -1.
pub record LawfulOs (os : Os) : Type 0 where
  pub answers : Answers os.malloc
  pub sends :
      (i fd n : ℕ) (bs : List ℕ)
      → 1 ≤ length bs
      → os.send i fd bs ≡ wrote n
      → (1 ≤ n) × (n ≤ length bs)
  pub receives : (i fd size : ℕ) (bs : List ℕ) → os.recv i fd size ≡ data_of bs → length bs ≤ size
  pub receives_from :
      (i fd size : ℕ) (bs : List ℕ) → os.recv_from i fd size ≡ data_of bs → length bs ≤ size
  pub accepts : (i fd afd : ℕ) → os.accept_on i fd ≡ some afd → (no_fd == afd) ≡ false
  pub opens : (i fd : ℕ) → os.socket i ≡ some fd → (no_fd == fd) ≡ false

module _ (os : Os) (app : App) (lawful : LawfulApp app) where
  pub close-Keeps :
      (net : Net) (p : ℕ) → IsConsistent net → IsLive net p → Keeps net (close os app p net)
  close-Keeps net p c l = (close-IsClosed os app net p lawful c l).0

  pub settle-Keeps :
      (net : Net) (p : ℕ) (r : Bool × Net)
      → IsLive net p
      → Keeps net r.1
      → Keeps net (settle os app p r)
  unfolding settle
  settle-Keeps net p (true, net') l k = k
  settle-Keeps net p (false, net') l k =
      Keeps-trans k (close-Keeps net' p k.consistent (IsLive-after p k l))

  -- A write of one of the fields that the invariant does not read.
  pub flag-Keeps :
      (net : Net) (p : ℕ) (s s' : Socket)
      → IsConsistent net
      → net.heap p ≡ some s
      → s'.fd ≡ s.fd
      → s'.input ≡ s.input
      → s'.output ≡ s.output
      → Keeps net (set_socket p s' net)
  flag-Keeps net p s s' c h e i o =
      let v = c.buffers p s h in
      set_socket-Keeps net p s s' c h e (record { input = rw i v.input; output = rw o v.output })
        (ap contents o)

  resend-Keeps :
      (net : Net) (p : ℕ) (r : Bool × Net)
      → IsLive net p
      → Keeps net r.1
      → Keeps net (resend os app p r)
  unfolding resend
  resend-Keeps net p (false, net') l k =
      Keeps-trans k (close-Keeps net' p k.consistent (IsLive-after p k l))
  resend-Keeps net p (true, net') l k = Keeps-trans k (
      on_socket_lem (Keeps net') net' p _ (IsLive-after p k l) (λ s h.
        flag-Keeps net' p s (record s { is_resending = true }) k.consistent h refl refl refl))

  finished-Keeps :
      (net : Net) (p : ℕ) → IsConsistent net → IsLive net p → Keeps net (finished os app p net)
  unfolding finished
  finished-Keeps net p c l = on_socket_lem (Keeps net) net p _ l (λ s h.
      elim (Bool-cases s.is_resending) [
        | inl z ↦ rw z (
            let k = flag-Keeps net p s (record s { is_resending = false }) c h refl refl refl in
            settle-Keeps net p _ l
              (Keeps-trans k (mod_socket-Keeps os _ p _ k.consistent (IsLive-after p k l))))
        | inr z ↦ rw z (Keeps-refl net c)
      ])

zero_add : (n : ℕ) → 0 + n ≡ n
zero_add n = omega arith

-- What erase leaves of an output of which send has taken n bytes.
pub erased :
    (net : Net) (p n : ℕ) (s : Socket)
    → IsConsistent net
    → net.heap p ≡ some s
    → let b = (erase 0 n false s.output net.pool).0 in
      IsValid 1024 b × (contents b ≡ drop n (contents s.output)) × (b.size ≡ s.output.size - n)
erased net p n s c h =
    let v = (c.buffers p s h).output in
    let e = (erase-Edited 0 n false net.pool v (omega arith)).0 in
    let bytes = e.bytes ∙ ap (λ k. drop k (contents s.output)) (zero_add n) in
    (
      e.valid,
      bytes,
      sym (length-contents e.valid)
          ∙ (ap length bytes
              ∙ (length-drop n (contents s.output) ∙ ap (λ k. k - n) (length-contents v))),
    )

-- The state after send has taken n bytes.
abbrev pub spent : ℕ → ℕ → Socket → Net → Net
spent p n s net =
    (let (b, pool) = erase 0 n false s.output net.pool in
      set_socket p (record s { output = b })
        (record net {
          pool = pool;
          wire = put p (net.wire p ++ take n (contents s.output)) net.wire;
        }))

pub spent-Keeps :
    (net : Net) (p n : ℕ) (s : Socket)
    → IsConsistent net
    → net.heap p ≡ some s
    → Keeps net (spent p n s net)
spent-Keeps net p n s c h =
    let (v, e, z) = erased net p n s c h in
    let k =
      put-Keeps net (put p (net.wire p ++ take n (contents s.output)) net.wire) p s
        (record s { output = (erase 0 n false s.output net.pool).0 }) [] c h refl
        (record { input = (c.buffers p s h).input; output = v })
        (ap (λ w. w ++ contents (erase 0 n false s.output net.pool).0)
            (put_here p (net.wire p ++ take n (contents s.output)) net.wire)
          ∙ (ap (λ bs. (net.wire p ++ take n (contents s.output)) ++ bs) e
              ∙ (append_assoc (net.wire p) (take n (contents s.output)) (drop n (contents s.output))
                  ∙ (ap (λ bs. net.wire p ++ bs) (take_append_drop n (contents s.output))
                      ∙ sym (append-nil _)))))
        (λ q d. put_other p q _ net.wire d) in
    record { consistent = k.consistent; goes = k.goes }

module _ (os : Os) (app : App) (lawful : LawfulApp app) (documented : LawfulOs os) where
  -- The branch in which send has taken n bytes, where `rest` goes on with a shorter output.
  wrote-Keeps :
      (net : Net) (p n m : ℕ) (s : Socket) (rest : Net → Net)
      → IsConsistent net
      → net.heap p ≡ some s
      → 1 ≤ n
      → n ≤ s.output.size
      → s.output.size ≤ suc m
      → ((net : Net) (s : Socket)
          → IsConsistent net
          → net.heap p ≡ some s
          → 1 ≤ s.output.size
          → s.output.size ≤ m
          → Keeps net (rest net))
      → Keeps net (sent os app rest p (wrote n) net)
  unfolding sent
  wrote-Keeps net p n m s rest c h l g f r = subst (Keeps net) (sym (on_socket_live net p _ s h)) (
      let (v, e, z) = erased net p n s c h in
      let k = spent-Keeps net p n s c h in
      elim (Bool-cases ((erase 0 n false s.output net.pool).0.size == 0)) [
        | inl d ↦ rw d (
            Keeps-trans k (finished-Keeps os app lawful _ p k.consistent (IsLive-after p k (s, h))))
        | inr d ↦
            rw d (
              Keeps-trans k
                (r _ _ k.consistent (put_here p _ net.heap) (omega tests) (omega arith)))
      ])

  sent-Keeps :
      (net : Net) (p i m : ℕ) (s : Socket) (rest : Net → Net) (answer : Sent)
      → IsConsistent net
      → net.heap p ≡ some s
      → 1 ≤ s.output.size
      → s.output.size ≤ suc m
      → os.send i s.fd (contents s.output) ≡ answer
      → ((net : Net) (s : Socket)
          → IsConsistent net
          → net.heap p ≡ some s
          → 1 ≤ s.output.size
          → s.output.size ≤ m
          → Keeps net (rest net))
      → Keeps net (sent os app rest p answer net)
  unfolding sent
  sent-Keeps net p i m s rest (wrote n) c h l f a r =
      let v = (c.buffers p s h).output in
      let (one, all) =
        documented.sends i s.fd n (contents s.output) (omega (arith, length-contents v)) a in
      wrote-Keeps net p n m s rest c h one (omega (arith, length-contents v)) f r
  sent-Keeps net p i m s rest try_again c h l f a r =
      resend-Keeps os app lawful net p _ (s, h) (mod_socket-Keeps os net p _ c (s, h))
  sent-Keeps net p i m s rest send_error c h l f a r = close-Keeps os app lawful net p c (s, h)

  -- The loop of Write on a live socket whose output is not empty, on fuel for each byte of it: it
  -- ends before its fuel, and keeps the invariant and the streams.
  pub send_all-Keeps :
      (n : ℕ) (net : Net) (p : ℕ) (s : Socket)
      → IsConsistent net
      → net.heap p ≡ some s
      → 1 ≤ s.output.size
      → s.output.size ≤ n
      → Keeps net (send_all os app n p net)
  unfolding send_all
  send_all-Keeps zero net p s c h l f = absurd (omega arith)
  send_all-Keeps (suc n) net p s c h l f = subst (Keeps net) (sym (on_socket_live net p _ s h)) (
      Keeps-trans (Keeps-same net (tick net) c refl refl) (
        sent-Keeps (tick net) p net.calls n s (send_all os app n p) _ c h l f refl
          (λ net s c h l f. send_all-Keeps n net p s c h l f)))

  pub write-Keeps :
      (net : Net) (p : ℕ) → IsConsistent net → IsLive net p → Keeps net (write os app p net)
  unfolding write
  write-Keeps net p c l = on_socket_lem (Keeps net) net p _ l (λ s h.
      (let k = Keeps-trans (Keeps-same net (tick net) c refl refl) (
          flag-Keeps os app lawful (tick net) p s
            (record s { last_access_time = os.time net.calls }) c h refl refl refl) in
        elim (Bool-cases (ltb s.output.size 1)) [
          | inl z ↦ rw z k
          | inr z ↦ rw z (
              Keeps-trans k (
                send_all-Keeps s.output.size _ p _ k.consistent (put_here p _ net.heap)
                  (omega tests) (omega arith)))
        ]))
