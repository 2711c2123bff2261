-- ===== src/Net/Updates.antt =====
-- A write of one socket keeps the invariant of net/epoll_container.h.
use deps.Prelude.{ℕ, ◌≤◌, ◌≡◌, refl, sym, ◌∙◌, ap, inl, inr}
use deps.Prelude.{false, none, some, List, [], ◌++◌, append-nil, ◌==◌}
use deps.Prelude.{Bool-cases, tests, ==→eq}
use mathlib.Core.Option.{none-ne-some, some-injective}
use deps.Buffer.Growth.{contents}
use deps.Net.{Net, Socket, no_fd, put}
use deps.Net.Table.{self_key}
use deps.Net.Consistent.{Heap, Holds, HasBuffers, IsConsistent, Goes, Goes-refl, Keeps}

pub put_here : {A : Type 0} (p : ℕ) (a : A) (f : ℕ → A) → put p a f p ≡ a
put_here p a f = rw (self_key p) refl

pub put_other : {A : Type 0} (p q : ℕ) (a : A) (f : ℕ → A) → (q == p) ≡ false → put p a f q ≡ f q
put_other p q a f e = rw e refl

-- A write of a socket that keeps its descriptor keeps what is held.
pub put-Holds :
    (heap : Heap) (p fd q : ℕ) (s s' : Socket)
    → heap p ≡ some s
    → s'.fd ≡ s.fd
    → Holds heap fd q
    → Holds (put p (some s') heap) fd q
put-Holds heap p fd q s s' h e o = elim (Bool-cases (q == p)) [
  | inl k ↦ record {
    socket = s';
    here = rw k refl;
    its_fd =
        e
        ∙ ap (λ x. x.fd) (some-injective _ _ (sym h ∙ ap heap (sym (==→eq q p k)) ∙ o.here))
        ∙ o.its_fd;
  }
  | inr k ↦ record { socket = o.socket; here = rw k o.here; its_fd = o.its_fd }
]

pub put-buffers :
    (heap : Heap) (p q : ℕ) (s s' : Socket)
    → ((q : ℕ) (s : Socket) → heap q ≡ some s → HasBuffers s)
    → HasBuffers s'
    → put p (some s') heap q ≡ some s
    → HasBuffers s
put-buffers heap p q s s' b v h = elim (Bool-cases (q == p)) [
  | inl k ↦ rw (← some-injective _ _ (rw k at h)) v
  | inr k ↦ b q s (rw k at h)
]

put-Goes :
    (net : Net) (wire : ℕ → List ℕ) (p q : ℕ) (s s' t : Socket) (bs : List ℕ)
    → net.heap p ≡ some s
    → wire p ++ contents s'.output ≡ (net.wire p ++ contents s.output) ++ bs
    → ((q == p) ≡ false → wire q ≡ net.wire q)
    → net.heap q ≡ some t
    → Goes net t (put p (some s') net.heap) wire q
put-Goes net wire p q s s' t bs h e w k = elim (Bool-cases (q == p)) [
  | inl z ↦
      rw (==→eq q p z, some-injective _ _ (sym k ∙ (ap net.heap (==→eq q p z) ∙ h)))
        (record { socket = s'; here = put_here p (some s') net.heap; more = bs; stream = e })
  | inr z ↦ Goes-refl net _ wire q t (rw z k) (w z)
]

-- A live pointer is below `next`.
pub live_below :
    (heap : Heap) (p next : ℕ) (s : Socket)
    → ((p : ℕ) → next ≤ p → heap p ≡ none)
    → heap p ≡ some s
    → (next == p) ≡ false
live_below heap p next s fresh h = elim (Bool-cases (next == p)) [
  | inl k ↦ absurd (none-ne-some s (sym (fresh p (omega tests)) ∙ h))
  | inr k ↦ k
]

pub put-fresh :
    (heap : Heap) (p next q : ℕ) (s s' : Socket)
    → ((p : ℕ) → next ≤ p → heap p ≡ none)
    → heap p ≡ some s
    → next ≤ q
    → put p (some s') heap q ≡ none
put-fresh heap p next q s s' fresh h l = elim (Bool-cases (q == p)) [
  | inl k ↦ absurd (none-ne-some s (sym (fresh p (rw (← ==→eq q p k) l)) ∙ h))
  | inr k ↦ rw k (fresh q l)
]

pub put-null :
    (heap : Heap) (p : ℕ) (s s' : Socket)
    → heap 0 ≡ none
    → heap p ≡ some s
    → put p (some s') heap 0 ≡ none
put-null heap p s s' n h = elim (Bool-cases (0 == p)) [
  | inl k ↦ absurd (none-ne-some s (sym n ∙ (ap heap (==→eq 0 p k) ∙ h)))
  | inr k ↦ rw k n
]

-- The state after a write of a socket.
pub put-IsConsistent :
    (net : Net) (p : ℕ) (s s' : Socket)
    → IsConsistent net
    → net.heap p ≡ some s
    → s'.fd ≡ s.fd
    → HasBuffers s'
    → IsConsistent (record net { heap = put p (some s') net.heap })
put-IsConsistent net p s s' c h e v = record {
  ordered = c.ordered;
  counted = c.counted;
  bounded = c.bounded;
  held = λ fd q f. put-Holds net.heap p fd q s s' h e (c.held fd q f);
  valid_keys = c.valid_keys;
  waiting = λ q m. put-Holds net.heap p no_fd q s s' h e (c.waiting q m);
  once = c.once;
  fresh = λ q l. put-fresh net.heap p net.next q s s' c.fresh h l;
  started = c.started;
  null = put-null net.heap p s s' c.null h;
  buffers = λ q t k. put-buffers net.heap p q t s' c.buffers v k;
  sound = c.sound;
  ended = c.ended;
}

-- The same with bytes that move from the output to the wire, or come behind.
pub put-Keeps :
    (net : Net) (wire : ℕ → List ℕ) (p : ℕ) (s s' : Socket) (bs : List ℕ)
    → IsConsistent net
    → net.heap p ≡ some s
    → s'.fd ≡ s.fd
    → HasBuffers s'
    → wire p ++ contents s'.output ≡ (net.wire p ++ contents s.output) ++ bs
    → ((q : ℕ) → (q == p) ≡ false → wire q ≡ net.wire q)
    → Keeps net (record net { heap = put p (some s') net.heap; wire = wire })
put-Keeps net wire p s s' bs c h e v eq w = record {
  consistent = put-IsConsistent net p s s' c h e v;
  goes = λ q t k. put-Goes net wire p q s s' t bs h eq (w q) k;
}

-- The same for a write that leaves the output alone.
pub set_socket-Keeps :
    (net : Net) (p : ℕ) (s s' : Socket)
    → IsConsistent net
    → net.heap p ≡ some s
    → s'.fd ≡ s.fd
    → HasBuffers s'
    → contents s'.output ≡ contents s.output
    → Keeps net (record net { heap = put p (some s') net.heap })
set_socket-Keeps net p s s' c h e v o =
    put-Keeps net net.wire p s s' [] c h e v (ap (λ bs. net.wire p ++ bs) o ∙ sym (append-nil _))
      (λ q z. refl)

-- The streams after a write of a socket that keeps its output.
pub set_socket-Goes :
    (net : Net) (p q : ℕ) (s s' t : Socket)
    → net.heap p ≡ some s
    → contents s'.output ≡ contents s.output
    → net.heap q ≡ some t
    → Goes net t (put p (some s') net.heap) net.wire q
set_socket-Goes net p q s s' t h o k =
    put-Goes net net.wire p q s s' t [] h (ap (λ bs. net.wire p ++ bs) o ∙ sym (append-nil _))
      (λ z. refl) k
