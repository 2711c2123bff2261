-- ===== src/Net/Epoll.antt =====
-- net/epoll_container.cpp: the members of EpollContainer that change its table, as compiled for Linux.
use deps.Prelude.{ℕ, ◌+◌, ◌-◌, ◌/◌, ◌%◌, Bool, true, false, Option, none, some, List, [], ◌∷◌}
use deps.Prelude.{leb, ◌==◌, if◌then◌else◌, length}
use deps.Buffer.{free}
use deps.Net.{Net, Os, ctl_add, ctl_mod, fault, tick, put}
use deps.Net.Table.{find, insert, remove, add_member}

-- EPOLLIN, EPOLLOUT and EPOLLERR for the bits that `events` has.
unfoldable pub epoll_events : ℕ → ℕ
epoll_events events =
    (if events % 2 == 1 then 1 else 0)
    + (if events / 2 % 2 == 1 then 4 else 0)
    + (if events / 4 % 2 == 1 then 8 else 0)

-- A call of epoll_ctl that succeeded.
abbrev pub watch : ℕ → ℕ → Net → Net
watch fd interest net = record net { watched = put fd interest net.watched }

module _ (os : Os) where
  -- AddSocket from `m_socketMap.find` on.
  unfoldable pub add_fd : ℕ → ℕ → ℕ → Net → Bool × Net
  add_fd p fd events net = elim (find fd net.table) [
    | some q ↦ (false, net)
    | none ↦
        if os.epoll_ctl net.calls ctl_add fd (epoll_events events)
        then (
          true,
          record (watch fd (epoll_events events) (tick net)) {
            table = insert fd p net.table;
            socket_num = net.socket_num + 1;
          },
        )
        else (false, tick net)
  ]

  unfoldable pub add_socket : ℕ → ℕ → Net → Bool × Net
  add_socket p events net =
      if leb net.max_fd_count (length net.table)
      then (false, net)
      else if p == 0
      then (false, net)
      else elim (net.heap p) [ none ↦ (false, fault net) | some s ↦ add_fd p s.fd events net ]

  unfoldable pub mod_fd : ℕ → ℕ → Net → Bool × Net
  mod_fd fd events net = elim (find fd net.table) [
    | none ↦ (false, net)
    | some q ↦
        if os.epoll_ctl net.calls ctl_mod fd (epoll_events events)
        then (true, watch fd (epoll_events events) (tick net))
        else (false, tick net)
  ]

  unfoldable pub mod_socket : ℕ → ℕ → Net → Bool × Net
  mod_socket p events net =
      if p == 0
      then (false, net)
      else elim (net.heap p) [ none ↦ (false, fault net) | some s ↦ mod_fd s.fd events net ]

  -- The answer of epoll_ctl does not matter here.
  unfoldable pub del_fd : ℕ → ℕ → Net → Net
  del_fd p fd net = record (watch fd 0 (tick net)) {
    table = remove fd net.table;
    socket_num = elim (find fd net.table) [ none ↦ net.socket_num | some q ↦ net.socket_num - 1 ];
    closing = add_member p net.closing;
  }

  -- DelSocket, whose answer is always true.
  unfoldable pub del_socket : ℕ → Net → Net
  del_socket p net =
      if p == 0 then net else elim (net.heap p) [ none ↦ fault net | some s ↦ del_fd p s.fd net ]

abbrev pub get_socket : ℕ → Net → Option ℕ
get_socket fd net = find fd net.table

-- `delete`, with the destructors of the two buffers.
unfoldable pub delete : ℕ → Net → Net
delete p net = if p == 0 then net else elim (net.heap p) [
  | none ↦ fault net
  | some s ↦ record net {
    heap = put p none net.heap;
    pool = (free s.output (free s.input net.pool).1).1;
  }
]

unfoldable pub delete_all : List ℕ → Net → Net
delete_all [] net = net
delete_all (p ∷ ps) net = delete_all ps (delete p net)

unfoldable pub check_close_socket : Net → Net
check_close_socket net = record (delete_all net.closing net) { closing = [] }
