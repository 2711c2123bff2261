-- ===== src/Net/Deleting.antt =====
-- CheckCloseSocket of net/epoll_container.cpp: the sockets that wait are deleted, and no others.
use deps.Prelude.{ℕ, ◌≡◌, refl, sym, ◌∙◌, ap, inl, inr}
use deps.Prelude.{true, false, none, some, List, [], ◌∷◌}
use deps.Prelude.{◌==◌}
use deps.Prelude.{Bool-cases, Option-cases, ==→eq}
use mathlib.Core.Option.{none-ne-some, some-injective}
use mathlib.Core.Bool.{false≢true}
use deps.Net.{Net, Socket, no_fd, put}
use deps.Net.Epoll.{delete, delete_all, check_close_socket}
use deps.Net.Table.{find, member, self_key}
use deps.Net.Consistent.{Heap, Core, Holds, IsConsistent}

-- A state in which the sockets `ps` are still to be deleted.
abbrev Deleting : List ℕ → Net → Type 0
Deleting ps net =
    Core net.heap net.table ps net.socket_num net.max_fd_count net.next net.faulty net.stuck

put_none-Holds :
    (heap : Heap) (p fd q : ℕ) → (q == p) ≡ false → Holds heap fd q → Holds (put p none heap) fd q
put_none-Holds heap p fd q e o = record { socket = o.socket; here = rw e o.here; its_fd = o.its_fd }

none_put : (heap : Heap) (p q : ℕ) → ((q == p) ≡ false → heap q ≡ none) → put p none heap q ≡ none
none_put heap p q f = elim (Bool-cases (q == p)) [ inl e ↦ rw e refl | inr e ↦ rw e (f e) ]

-- A socket that waits for its deletion has no entry in the table.
pub waiting_unlisted :
    (ps : List ℕ) (net : Net) (fd p q : ℕ)
    → Deleting ps net
    → member p ps ≡ true
    → find fd net.table ≡ some q
    → (q == p) ≡ false
waiting_unlisted ps net fd p q c m f = elim (Bool-cases (q == p)) [
  | inl e ↦
      let o = c.held fd q f in
      let w = c.waiting p m in
      let same = some-injective _ _ (sym o.here ∙ (ap net.heap (==→eq q p e) ∙ w.here)) in
      absurd (
        none-ne-some q (
          sym c.valid_keys
          ∙ (ap (λ k. find k net.table) (sym w.its_fd ∙ (sym (ap (λ s. s.fd) same) ∙ o.its_fd))
              ∙ f)))
  | inr e ↦ e
]

pub none_put_lem :
    (heap : Heap) (p q : ℕ) (s : Socket) → put p none heap q ≡ some s → heap q ≡ some s
none_put_lem heap p q s h = elim (Bool-cases (q == p)) [
  | inl e ↦ absurd (none-ne-some s (rw e at h))
  | inr e ↦ rw e at h
]

delete-Deleting :
    (p : ℕ) (ps : List ℕ) (net : Net) → Deleting (p ∷ ps) net → Deleting ps (delete p net)
unfolding delete
delete-Deleting p ps net c =
    let w = c.waiting p (rw (self_key p) refl) in
    elim (Bool-cases (p == 0)) [
      | inl z ↦
          absurd (none-ne-some w.socket (sym c.null ∙ (ap net.heap (sym (==→eq p 0 z)) ∙ w.here)))
      | inr z ↦
          rw (z, w.here)
            (record {
              ordered = c.ordered;
              counted = c.counted;
              bounded = c.bounded;
              held = λ fd q f.
                  put_none-Holds net.heap p fd q
                    (waiting_unlisted (p ∷ ps) net fd p q c (rw (self_key p) refl) f)
                    (c.held fd q f);
              valid_keys = c.valid_keys;
              waiting = λ q m. elim (Bool-cases (q == p)) [
                | inl e ↦
                    absurd
                      (false≢true (sym c.once.0 ∙ (ap (λ x. member x ps) (sym (==→eq q p e)) ∙ m)))
                | inr e ↦ put_none-Holds net.heap p no_fd q e (c.waiting q (rw e m))
              ];
              once = c.once.1;
              fresh = λ q l. none_put net.heap p q (λ e. c.fresh q l);
              started = c.started;
              null = none_put net.heap p 0 (λ e. c.null);
              buffers = λ q s h. c.buffers q s (none_put_lem net.heap p q s h);
              sound = c.sound;
              ended = c.ended;
            })
    ]

delete_lem :
    (p q : ℕ) (net : Net) (s : Socket) → (delete p net).heap q ≡ some s → net.heap q ≡ some s
unfolding delete
delete_lem p q net s h = elim (Bool-cases (p == 0)) [
  | inl z ↦ rw z at h
  | inr z ↦ elim (Option-cases (net.heap p)) [
    | inl e ↦ rw (z, e) at h
    | inr (t, e) ↦ none_put_lem net.heap p q s (rw (z, e) at h)
  ]
]

delete_self :
    (p : ℕ) (net : Net) → net.heap 0 ≡ none → Holds net.heap no_fd p → (delete p net).heap p ≡ none
unfolding delete
delete_self p net null w = elim (Bool-cases (p == 0)) [
  | inl z ↦ absurd (none-ne-some w.socket (sym null ∙ (ap net.heap (sym (==→eq p 0 z)) ∙ w.here)))
  | inr z ↦ rw (z, w.here) (rw (self_key p) refl)
]

delete_all_lem :
    (ps : List ℕ) (q : ℕ) (net : Net) (s : Socket)
    → (delete_all ps net).heap q ≡ some s
    → net.heap q ≡ some s
unfolding delete_all
delete_all_lem [] q net s h = h
delete_all_lem (p ∷ ps) q net s h = delete_lem p q net s (delete_all_lem ps q (delete p net) s h)

delete_other : (p q : ℕ) (net : Net) → (q == p) ≡ false → (delete p net).heap q ≡ net.heap q
unfolding delete
delete_other p q net e = elim (Bool-cases (p == 0)) [
  | inl z ↦ rw z refl
  | inr z ↦ elim (Option-cases (net.heap p)) [
    | inl h ↦ rw (z, h) refl
    | inr (s, h) ↦ rw (z, h, e) refl
  ]
]

delete_all-Deleting : (ps : List ℕ) (net : Net) → Deleting ps net → Deleting [] (delete_all ps net)
unfolding delete_all
delete_all-Deleting [] net c = c
delete_all-Deleting (p ∷ ps) net c =
    delete_all-Deleting ps (delete p net) (delete-Deleting p ps net c)

delete_all_other :
    (ps : List ℕ) (q : ℕ) (net : Net)
    → member q ps ≡ false
    → (delete_all ps net).heap q ≡ net.heap q
unfolding delete_all
delete_all_other [] q net m = refl
delete_all_other (p ∷ ps) q net m = elim (Bool-cases (q == p)) [
  | inl e ↦ absurd (false≢true (sym (rw e at m)))
  | inr e ↦ delete_all_other ps q (delete p net) (rw e at m) ∙ delete_other p q net e
]

-- A socket that is deleted is not there, and it does not come back.
delete_all_gone :
    (ps : List ℕ) (q : ℕ) (net : Net)
    → Deleting ps net
    → member q ps ≡ true
    → (delete_all ps net).heap q ≡ none
unfolding delete_all
delete_all_gone [] q net c m = absurd (false≢true m)
delete_all_gone (p ∷ ps) q net c m = elim (Bool-cases (q == p)) [
  | inl e ↦
      let w = c.waiting p (rw (self_key p) refl) in
      let gone : (delete p net).heap q ≡ none =
        ap (delete p net).heap (==→eq q p e) ∙ delete_self p net c.null w in
      elim (Option-cases ((delete_all ps (delete p net)).heap q)) [
        | inl h ↦ h
        | inr (s, h) ↦ absurd (none-ne-some s (sym gone ∙ delete_all_lem ps q (delete p net) s h))
      ]
  | inr e ↦ delete_all_gone ps q (delete p net) (delete-Deleting p ps net c) (rw e at m)
]

-- CheckCloseSocket on a consistent container: it deletes each socket that waits, once and while it is
-- live, leaves a consistent container in which none waits and of these sockets none is there, and
-- every other socket as it was.
pub check_close_socket-IsConsistent :
    (net : Net)
    → IsConsistent net
    → IsConsistent (check_close_socket net)
      × ((check_close_socket net).closing ≡ [])
      × ((q : ℕ) → member q net.closing ≡ true → (check_close_socket net).heap q ≡ none)
      × ((q : ℕ) → member q net.closing ≡ false → (check_close_socket net).heap q ≡ net.heap q)
unfolding check_close_socket
check_close_socket-IsConsistent net c = (
  delete_all-Deleting net.closing net c,
  refl,
  λ q m. delete_all_gone net.closing q net c m,
  λ q m. delete_all_other net.closing q net m,
)
