-- ===== src/Net/Closing.antt =====
-- TcpSocket::Close with EpollContainer::DelSocket keeps the invariant.
use deps.Prelude.{ℕ, ◌<◌, ◌^◌, ◌-◌, ◌≤◌, ◌≡◌, refl, sym, ◌∙◌, ap, arith, inl, inr}
use deps.Prelude.{Bool, true, false, none, some, List, ◌∷◌}
use deps.Prelude.{◌==◌, if◌then◌else◌, length}
use deps.Prelude.{Bool-cases, Option-cases, ==→eq, ==→ne}
use mathlib.Core.Option.{none-ne-some, some-injective}
use mathlib.Core.Path.{subst}
use deps.Net.{set_socket, Net, Socket, Os, App, SocketState, no_fd, put}
use deps.Net.Epoll.{del_fd, del_socket}
use deps.Net.Tcp.{close, close_fd}
use deps.Net.Table.{find, remove, member, add_member, remove-IsSorted, find-remove}
use deps.Net.Table.{
  find-remove_other, length-remove, length-remove-none, add_member-IsDistinct, member-add_member,
  member_self,
}
use deps.Net.Consistent.{
  on_socket_lem, on_socket_live, Heap, Holds, IsConsistent, Keeps, Keeps-refl, Keeps-trans, IsLive,
}
use deps.Net.Consistent.{IsLive-after}
use deps.Net.Updates.{put_here, put-buffers, put-fresh, put-null, set_socket-Goes}

-- The socket that Close leaves.
abbrev pub closed : Socket → Socket
closed s = record s { fd = no_fd; state = SocketState.close; create_time = 0; last_access_time = 0 }

-- The count after the entry of fd is taken out.
abbrev count_without : ℕ → Net → ℕ
count_without fd net = elim (find fd net.table) [
  | none ↦ net.socket_num
  | some q ↦ net.socket_num - 1
]

count_without_lem :
    (fd : ℕ) (net : Net)
    → IsConsistent net
    → (count_without fd net ≡ length (remove fd net.table))
      × (length (remove fd net.table) ≤ length net.table)
count_without_lem fd net c = elim (Option-cases (find fd net.table)) [
  | inl f ↦ rw (f, count_without) (omega (arith, length-remove-none fd net.table f, c.counted))
  | inr (q, f) ↦ rw (f, count_without) (omega (arith, length-remove fd q net.table f, c.counted))
]

put_closed-Holds :
    (heap : Heap) (p fd q : ℕ) (s : Socket)
    → heap p ≡ some s
    → (fd == s.fd) ≡ false
    → Holds heap fd q
    → Holds (put p (some (closed s)) heap) fd q
put_closed-Holds heap p fd q s h n o = elim (Bool-cases (q == p)) [
  | inl e ↦
      let same = some-injective _ _ (sym o.here ∙ (ap heap (==→eq q p e) ∙ h)) in
      absurd (==→ne fd s.fd n (sym o.its_fd ∙ ap (λ s. s.fd) same))
  | inr e ↦ record { socket = o.socket; here = rw e o.here; its_fd = o.its_fd }
]

-- What DelSocket and the rest of Close make of a live socket.
drop-Keeps :
    (net : Net) (p : ℕ) (s : Socket)
    → IsConsistent net
    → net.heap p ≡ some s
    → IsConsistent (record net {
      heap = put p (some (closed s)) net.heap;
      table = remove s.fd net.table;
      socket_num = count_without s.fd net;
      closing = add_member p net.closing;
    })
drop-Keeps net p s c h = record {
  ordered = remove-IsSorted s.fd 0 net.table c.ordered;
  counted = (count_without_lem s.fd net c).0;
  bounded = omega (arith, count_without_lem s.fd net c, c.bounded);
  held = λ fd q f. elim (Bool-cases (fd == s.fd)) [
    | inl e ↦ absurd (
        none-ne-some q (
          sym (find-remove s.fd 0 net.table c.ordered)
          ∙ (ap (λ k. find k (remove s.fd net.table)) (sym (==→eq fd s.fd e)) ∙ f)))
    | inr e ↦
        put_closed-Holds net.heap p fd q s h e
          (c.held fd q (sym (find-remove_other fd s.fd net.table e) ∙ f))
  ];
  valid_keys = elim (Bool-cases (no_fd == s.fd)) [
    | inl e ↦ rw (==→eq no_fd s.fd e) (find-remove s.fd 0 net.table c.ordered)
    | inr e ↦ find-remove_other no_fd s.fd net.table e ∙ c.valid_keys
  ];
  waiting = λ q m. elim (Bool-cases (q == p)) [
    | inl e ↦ record { socket = closed s; here = rw e refl; its_fd = refl }
    | inr e ↦
        let o = c.waiting q (sym (member-add_member p q net.closing e) ∙ m) in
        record { socket = o.socket; here = rw e o.here; its_fd = o.its_fd }
  ];
  once = add_member-IsDistinct p net.closing c.once;
  fresh = λ q l. put-fresh net.heap p net.next q s (closed s) c.fresh h l;
  started = c.started;
  null = put-null net.heap p s (closed s) c.null h;
  buffers = λ q t k.
      put-buffers net.heap p q t (closed s) c.buffers
        (record { input = (c.buffers p s h).input; output = (c.buffers p s h).output }) k;
  sound = c.sound;
  ended = c.ended;
}

-- What the application promises: that its members, called for a live socket, leave the container
-- consistent, delete no socket and take nothing back that they have sent.
pub record LawfulApp (app : App) : Type 0 where
  pub on_close :
      (p : ℕ) (net : Net) → IsConsistent net → IsLive net p → Keeps net (app.handle_close p net)
  pub on_packet :
      (bs : List ℕ) (p : ℕ) (net : Net)
      → IsConsistent net
      → IsLive net p
      → length bs < 2 ^ 64
      → Keeps net (app.handle_packet bs p net).1

-- A socket that has been closed: no descriptor, and it waits for its deletion.
pub record IsClosed (net : Net) (p : ℕ) : Type 0 where
  pub socket : Socket
  pub here : net.heap p ≡ some (closed socket)
  pub waits : member p net.closing ≡ true

module _ (os : Os) (app : App) where
  pub del_socket_live :
      (net : Net) (p : ℕ) (s : Socket)
      → (p == 0) ≡ false
      → net.heap p ≡ some s
      → del_socket os p net ≡ del_fd os p s.fd net
  unfolding del_socket
  del_socket_live net p s z h = rw (z, h) refl

  -- The same, whether a descriptor is closed or there is none.
  dropped :
      (net : Net) (p : ℕ) (s : Socket) (none_open : Bool)
      → IsConsistent net
      → net.heap p ≡ some s
      → let net₁ = del_fd os p s.fd net in
        let net₂ = if none_open then net₁ else record net₁ { released = s.fd ∷ net₁.released } in
        let net' = set_socket p (closed s) net₂ in Keeps net net' × IsClosed net' p
  unfolding del_fd
  dropped net p s true c h = (
    record {
      consistent = drop-Keeps net p s c h;
      goes = λ q t k. set_socket-Goes net p q s (closed s) t h refl k;
    },
    record {
      socket = s;
      here = put_here p (some (closed s)) net.heap;
      waits = member_self p net.closing;
    },
  )
  dropped net p s false c h = (
    record {
      consistent = drop-Keeps net p s c h;
      goes = λ q t k. set_socket-Goes net p q s (closed s) t h refl k;
    },
    record {
      socket = s;
      here = put_here p (some (closed s)) net.heap;
      waits = member_self p net.closing;
    },
  )

  pub close_fd_live :
      (net : Net) (p : ℕ) (s : Socket)
      → net.heap p ≡ some s
      → close_fd os app p (del_fd os p s.fd net)
        ≡ set_socket p (closed s) (
            let net₁ = del_fd os p s.fd net in
            if s.fd == no_fd then net₁ else record net₁ { released = s.fd ∷ net₁.released })
  unfolding close_fd del_fd
  close_fd_live net p s h = on_socket_live (del_fd os p s.fd net) p _ s h

  close_fd-Keeps :
      (net : Net) (p : ℕ) (s : Socket)
      → IsConsistent net
      → net.heap p ≡ some s
      → let net' = close_fd os app p (del_socket os p net) in Keeps net net' × IsClosed net' p
  close_fd-Keeps net p s c h = elim (Bool-cases (p == 0)) [
    | inl z ↦ absurd (none-ne-some s (sym c.null ∙ (ap net.heap (sym (==→eq p 0 z)) ∙ h)))
    | inr z ↦
        subst (λ net'. Keeps net net' × IsClosed net' p)
          (sym (ap (close_fd os app p) (del_socket_live net p s z h) ∙ close_fd_live net p s h))
          (dropped net p s (s.fd == no_fd) c h)
  ]

  told-Keeps :
      (net : Net) (p : ℕ) (told : Bool)
      → LawfulApp app
      → IsConsistent net
      → IsLive net p
      → Keeps net (if told then app.handle_close p net else net)
  told-Keeps net p told lawful c l = elim (Bool-cases told) [
    | inl e ↦ rw e (lawful.on_close p net c l)
    | inr e ↦ rw e (Keeps-refl net c)
  ]

  -- Close of a live socket in a consistent container, with a handler that keeps its promise: the
  -- container stays consistent, no socket is lost, and the socket has no descriptor, is in the
  -- state close and waits for its deletion.
  pub close-IsClosed :
      (net : Net) (p : ℕ)
      → LawfulApp app
      → IsConsistent net
      → IsLive net p
      → Keeps net (close os app p net) × IsClosed (close os app p net) p
  unfolding close
  close-IsClosed net p lawful c l =
      on_socket_lem (λ net'. Keeps net net' × IsClosed net' p) net p _ l
        (λ s h.
          let k = told-Keeps net p s.has_handler lawful c l in
          let (s', h') = IsLive-after p k l in
          let (e, d) = close_fd-Keeps _ p s' k.consistent h' in (Keeps-trans k e, d))
