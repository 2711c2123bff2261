-- ===== src/Net/Fresh.antt =====
-- `new TcpSocket` keeps the invariant.
use deps.Prelude.{ℕ, ◌<◌, ◌≡◌, refl, sym, ◌∙◌, arith, inl, inr}
use deps.Prelude.{Bool, false, none, some, ◌==◌}
use deps.Prelude.{Bool-cases, ==→eq}
use mathlib.Core.Option.{none-ne-some}
use deps.Buffer.Run.{new-IsValid}
use deps.Net.{Net, Socket, new_socket, allocate, put}
use deps.Net.Consistent.{Holds, HasBuffers, IsConsistent, Keeps, Goes-refl}
use deps.Net.Updates.{put-buffers}

put_next :
    (net : Net) (q : ℕ) (s t : Socket)
    → IsConsistent net
    → net.heap q ≡ some t
    → put net.next (some s) net.heap q ≡ some t
put_next net q s t c h = elim (Bool-cases (q == net.next)) [
  | inl e ↦ absurd (none-ne-some t (sym (c.fresh q (omega (arith, ==→eq q net.next e))) ∙ h))
  | inr e ↦ rw e h
]

put_next_none :
    (net : Net) (q : ℕ) (s : Socket)
    → (q == net.next) ≡ false
    → net.heap q ≡ none
    → put net.next (some s) net.heap q ≡ none
put_next_none net q s e h = rw e h

put_next-Holds :
    (net : Net) (fd q : ℕ) (s : Socket)
    → IsConsistent net
    → Holds net.heap fd q
    → Holds (put net.next (some s) net.heap) fd q
put_next-Holds net fd q s c o = record {
  socket = o.socket;
  here = put_next net q s o.socket c o.here;
  its_fd = o.its_fd;
}

apart : (a b : ℕ) → a < b → (a == b) ≡ false
apart a b h = ground arith

apart_above : (a b : ℕ) → b < a → (a == b) ≡ false
apart_above a b h = ground arith

pub new_socket-HasBuffers : (junk handler : Bool) → HasBuffers (new_socket junk handler)
unfolding new_socket
new_socket-HasBuffers junk handler = record {
  input = new-IsValid 1024 (omega arith);
  output = new-IsValid 1024 (omega arith);
}

-- An allocation changes no other socket.
pub allocate-Keeps :
    (net : Net) (s : Socket) → IsConsistent net → HasBuffers s → Keeps net (allocate s net)
allocate-Keeps net s c v = record {
  consistent = record {
    ordered = c.ordered;
    counted = c.counted;
    bounded = c.bounded;
    held = λ fd q f. put_next-Holds net fd q s c (c.held fd q f);
    valid_keys = c.valid_keys;
    waiting = λ q m. put_next-Holds net _ q s c (c.waiting q m);
    once = c.once;
    fresh = λ q l.
        put_next_none net q s (apart_above q net.next (omega arith)) (c.fresh q (omega arith));
    started = omega arith;
    null = put_next_none net 0 s (apart 0 net.next (omega (arith, c.started))) c.null;
    buffers = λ q t k. put-buffers net.heap net.next q t s c.buffers v k;
    sound = c.sound;
    ended = c.ended;
  };
  goes = λ q t k. Goes-refl net _ net.wire q t (put_next net q s t c k) refl;
}
