-- ===== src/Net/Consistent.antt =====
-- The invariant of a container and its sockets, and the elementary changes that keep it.
use deps.Prelude.{ℕ, ◌≤◌, ◌≡◌, refl, sym, ◌∙◌, ap}
use deps.Prelude.{
  Bool, true, false, Option, none, some, List, [], ◌++◌, append-nil, append_assoc, length,
}
use deps.Buffer.Growth.{IsValid, contents}
use deps.Net.{Net, Socket, no_fd, on_socket}
use deps.Net.Table.{find, member, IsSorted, IsDistinct}

abbrev pub Heap : Type 0
Heap = ℕ → Option Socket

-- A live socket at p with the descriptor fd.
pub record Holds (heap : Heap) (fd p : ℕ) : Type 0 where
  pub socket : Socket
  pub here : heap p ≡ some socket
  pub its_fd : socket.fd ≡ fd

pub record HasBuffers (s : Socket) : Type 0 where
  pub input : IsValid 1024 s.input
  pub output : IsValid 1024 s.output

-- The parts of a container that agree with one another.
pub record Core (heap : Heap) (table : List (ℕ × ℕ)) (closing : List ℕ)
    (socket_num max_fd_count next : ℕ) (faulty stuck : Bool) : Type 0 where
  pub ordered : IsSorted 0 table
  pub counted : socket_num ≡ length table
  pub bounded : length table ≤ max_fd_count
  pub held : (fd p : ℕ) → find fd table ≡ some p → Holds heap fd p
  pub valid_keys : find no_fd table ≡ none
  pub waiting : (p : ℕ) → member p closing ≡ true → Holds heap no_fd p
  pub once : IsDistinct closing
  pub fresh : (p : ℕ) → next ≤ p → heap p ≡ none
  pub started : 1 ≤ next
  pub null : heap 0 ≡ none
  pub buffers : (p : ℕ) (s : Socket) → heap p ≡ some s → HasBuffers s
  pub sound : faulty ≡ false
  pub ended : stuck ≡ false

-- Each entry of the table is a live socket with the descriptor of its key, a socket that waits for
-- its deletion is live, waits once and has no descriptor, the count is that of the table, no freed
-- memory has been used and no loop has outlasted its fuel.
abbrev pub IsConsistent : Net → Type 0
IsConsistent net =
    Core net.heap net.table net.closing net.socket_num net.max_fd_count net.next net.faulty
      net.stuck

abbrev pub IsLive : Net → ℕ → Type 0
IsLive net p = (s : Socket) × (net.heap p ≡ some s)

-- The socket s at p is there later, and its stream, the bytes that send has taken and then those that
-- wait for it, is the one of before or has grown at its end.
pub record Goes (net : Net) (s : Socket) (heap : Heap) (wire : ℕ → List ℕ) (p : ℕ) : Type 0 where
  pub socket : Socket
  pub here : heap p ≡ some socket
  pub more : List ℕ
  pub stream : wire p ++ contents socket.output ≡ (net.wire p ++ contents s.output) ++ more

-- What an operation leaves: a consistent state in which every socket is still there and no stream has
-- lost or changed a byte.
pub record Keeps (net net' : Net) : Type 0 where
  pub consistent : IsConsistent net'
  pub goes : (p : ℕ) (s : Socket) → net.heap p ≡ some s → Goes net s net'.heap net'.wire p

pub Goes-refl :
    (net : Net) (heap : Heap) (wire : ℕ → List ℕ) (p : ℕ) (s : Socket)
    → heap p ≡ some s
    → wire p ≡ net.wire p
    → Goes net s heap wire p
Goes-refl net heap wire p s h w = record {
  socket = s;
  here = h;
  more = [];
  stream = ap (λ bs. bs ++ contents s.output) w ∙ sym (append-nil _);
}

pub Keeps-refl : (net : Net) → IsConsistent net → Keeps net net
Keeps-refl net c = record {
  consistent = c;
  goes = λ p s h. Goes-refl net net.heap net.wire p s h refl;
}

-- A change outside the sockets and the streams.
pub Keeps-same :
    (net net' : Net)
    → IsConsistent net'
    → net'.heap ≡ net.heap
    → net'.wire ≡ net.wire
    → Keeps net net'
Keeps-same net net' c h w = record {
  consistent = c;
  goes = λ p s k. Goes-refl net net'.heap net'.wire p s (ap (λ f. f p) h ∙ k) (ap (λ f. f p) w);
}

pub Keeps-trans : {a b c : Net} → Keeps a b → Keeps b c → Keeps a c
Keeps-trans {a} {b} {c} f g = record {
  consistent = g.consistent;
  goes = λ p s h.
      (let x = f.goes p s h in
        let y = g.goes p x.socket x.here in
        record {
          socket = y.socket;
          here = y.here;
          more = x.more ++ y.more;
          stream = y.stream ∙ (ap (λ bs. bs ++ y.more) x.stream ∙ append_assoc _ x.more y.more);
        });
}

pub IsLive-after : {a b : Net} (p : ℕ) → Keeps a b → IsLive a p → IsLive b p
IsLive-after p k (s, h) = let x = k.goes p s h in (x.socket, x.here)

-- The use of a live pointer.
pub on_socket_lem :
    (P : Net → Type 0) (net : Net) (p : ℕ) (f : Socket → Net)
    → IsLive net p
    → ((s : Socket) → net.heap p ≡ some s → P (f s))
    → P (on_socket p f net)
on_socket_lem P net p f (s, h) g = rw (on_socket, h) (g s h)

pub on_socket_live :
    (net : Net) (p : ℕ) (f : Socket → Net) (s : Socket)
    → net.heap p ≡ some s
    → on_socket p f net ≡ f s
on_socket_live net p f s h = rw (on_socket, h) refl
