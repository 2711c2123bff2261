-- ===== src/Net/Container.antt =====
-- AddSocket and ModSocket of net/epoll_container.cpp keep the invariant.
use deps.Prelude.{ℕ, ◌+◌, ◌≤◌, ◌≡◌, refl, sym, ◌∙◌, ap, arith, inl, inr}
use deps.Prelude.{false, none, some}
use deps.Prelude.{◌==◌, leb, length}
use deps.Prelude.{Bool-cases, Option-cases, ==→eq, leb→gt}
use mathlib.Core.Option.{some-injective}
use deps.Net.{Net, Socket, Os, ctl_add, ctl_mod, no_fd}
use deps.Net.Epoll.{add_fd, add_socket, mod_fd, mod_socket}
use deps.Net.Epoll.{epoll_events}
use deps.Net.Table.{find, insert}
use deps.Net.Table.{insert-IsSorted, find-insert, find-insert_other, length-insert}
use deps.Net.Consistent.{Holds, IsConsistent, Keeps, Keeps-refl, Keeps-same, IsLive}

-- A new entry for a live socket.
insert-Core :
    (net : Net) (p fd : ℕ)
    → IsConsistent net
    → Holds net.heap fd p
    → (no_fd == fd) ≡ false
    → length net.table + 1 ≤ net.max_fd_count
    → find fd net.table ≡ none
    → IsConsistent (record net { table = insert fd p net.table; socket_num = net.socket_num + 1 })
insert-Core net p fd c o n b f = record {
  ordered = insert-IsSorted fd p 0 net.table (omega arith) c.ordered f;
  counted = omega (arith, length-insert fd p net.table, c.counted);
  bounded = omega (arith, length-insert fd p net.table);
  held = λ k q g. elim (Bool-cases (k == fd)) [
    | inl e ↦
        rw
          (
            ==→eq k fd e,
            some-injective _ _ (
                sym g
                ∙ (ap (λ i. find i (insert fd p net.table)) (==→eq k fd e)
                    ∙ find-insert fd p net.table f)),
          )
          o
    | inr e ↦ c.held k q (sym (find-insert_other fd k p net.table e) ∙ g)
  ];
  valid_keys = find-insert_other fd no_fd p net.table n ∙ c.valid_keys;
  waiting = c.waiting;
  once = c.once;
  fresh = c.fresh;
  started = c.started;
  null = c.null;
  buffers = c.buffers;
  sound = c.sound;
  ended = c.ended;
}

module _ (os : Os) where
  pub add_fd-Keeps :
      (net : Net) (p fd events : ℕ)
      → IsConsistent net
      → Holds net.heap fd p
      → (no_fd == fd) ≡ false
      → length net.table + 1 ≤ net.max_fd_count
      → Keeps net (add_fd os p fd events net).1
  unfolding add_fd
  add_fd-Keeps net p fd events c o n b = elim (Option-cases (find fd net.table)) [
    | inl f ↦ elim (Bool-cases (os.epoll_ctl net.calls ctl_add fd (epoll_events events))) [
      | inl g ↦ rw (f, g, add_fd) (Keeps-same net _ (insert-Core net p fd c o n b f) refl refl)
      | inr g ↦ rw (f, g, add_fd) (Keeps-same net _ c refl refl)
    ]
    | inr (q, f) ↦ rw (f, add_fd) (Keeps-refl net c)
  ]

  pub add_socket-Keeps :
      (net : Net) (p events : ℕ) (s : Socket)
      → IsConsistent net
      → net.heap p ≡ some s
      → (no_fd == s.fd) ≡ false
      → Keeps net (add_socket os p events net).1
  unfolding add_socket
  add_socket-Keeps net p events s c h n =
      elim (Bool-cases (leb net.max_fd_count (length net.table))) [
        | inl b ↦ rw b (Keeps-refl net c)
        | inr b ↦ elim (Bool-cases (p == 0)) [
          | inl z ↦ rw (b, z) (Keeps-refl net c)
          | inr z ↦
              rw (b, z, h)
                (add_fd-Keeps net p s.fd events c (record { socket = s; here = h; its_fd = refl }) n
                  (omega (arith, leb→gt _ _ b)))
        ]
      ]

  add_fd_heap : (net : Net) (p fd events : ℕ) → (add_fd os p fd events net).1.heap ≡ net.heap
  unfolding add_fd
  add_fd_heap net p fd events = elim (Option-cases (find fd net.table)) [
    | inl f ↦ elim (Bool-cases (os.epoll_ctl net.calls ctl_add fd (epoll_events events))) [
      | inl g ↦ rw (f, g, add_fd) refl
      | inr g ↦ rw (f, g, add_fd) refl
    ]
    | inr (q, f) ↦ rw (f, add_fd) refl
  ]

  -- AddSocket changes no socket.
  pub add_socket_heap : (net : Net) (p events : ℕ) → (add_socket os p events net).1.heap ≡ net.heap
  unfolding add_socket
  add_socket_heap net p events = elim (Bool-cases (leb net.max_fd_count (length net.table))) [
    | inl b ↦ rw b refl
    | inr b ↦ elim (Bool-cases (p == 0)) [
      | inl z ↦ rw (b, z) refl
      | inr z ↦ elim (Option-cases (net.heap p)) [
        | inl h ↦ rw (b, z, h) refl
        | inr (s, h) ↦ rw (b, z, h) (add_fd_heap net p s.fd events)
      ]
    ]
  ]

  mod_fd-Keeps :
      (net : Net) (fd events : ℕ) → IsConsistent net → Keeps net (mod_fd os fd events net).1
  unfolding mod_fd
  mod_fd-Keeps net fd events c = elim (Option-cases (find fd net.table)) [
    | inl f ↦ rw (f, mod_fd) (Keeps-refl net c)
    | inr (q, f) ↦ elim (Bool-cases (os.epoll_ctl net.calls ctl_mod fd (epoll_events events))) [
      | inl g ↦ rw (f, g, mod_fd) (Keeps-same net _ c refl refl)
      | inr g ↦ rw (f, g, mod_fd) (Keeps-same net _ c refl refl)
    ]
  ]

  pub mod_socket-Keeps :
      (net : Net) (p events : ℕ)
      → IsConsistent net
      → IsLive net p
      → Keeps net (mod_socket os p events net).1
  unfolding mod_socket
  mod_socket-Keeps net p events c (s, h) = elim (Bool-cases (p == 0)) [
    | inl z ↦ rw z (Keeps-refl net c)
    | inr z ↦ rw (z, h) (mod_fd-Keeps net s.fd events c)
  ]
