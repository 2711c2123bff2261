-- ===== src/Net/Options.antt =====
-- The options of a TCP socket in net/tcp_socket.cpp, as on Linux, and the members of net/socket_base.h
-- that set fields or name values.
use deps.Prelude.{ℕ, ◌≡◌, ◌⊎◌, refl, inl, inr}
use deps.Prelude.{ℤ, pos, negsuc, Bool, true, false, Option, some}
use deps.Prelude.{if◌then◌else◌, Bool-cases}
use deps.Net.{Socket, SocketState, SocketType, tcp, udp}
use Prim.Native.String.{String}
use deps.Net

-- The options of a descriptor, where they have been set.
pub record Options : Type 0 where
  pub keepalive : Option ℤ
  pub keepidle : Option ℤ
  pub keepintvl : Option ℤ
  pub keepcnt : Option ℤ
  pub nodelay : Option ℤ

pub data OptionName : Type 0 where
  so_keepalive : OptionName
  tcp_keepidle : OptionName
  tcp_keepintvl : OptionName
  tcp_keepcnt : OptionName
  tcp_nodelay : OptionName

unfoldable pub put_option : OptionName → ℤ → Options → Options
put_option so_keepalive v o = record o { keepalive = some v }
put_option tcp_keepidle v o = record o { keepidle = some v }
put_option tcp_keepintvl v o = record o { keepintvl = some v }
put_option tcp_keepcnt v o = record o { keepcnt = some v }
put_option tcp_nodelay v o = record o { nodelay = some v }

-- `accepts` is whether setsockopt takes an option.
module _ (accepts : OptionName → Bool) where
  -- `if (-1 == setsockopt(...)) return false;`, and what follows.
  unfoldable pub set_option : OptionName → ℤ → (Options → Bool × Options) → Options → Bool × Options
  set_option name v go_on o = if accepts name then go_on (put_option name v o) else (false, o)

  unfoldable pub done : Options → Bool × Options
  done o = (true, o)

  -- The options that only Linux knows.
  unfoldable pub set_intervals : ℤ → ℤ → ℤ → Options → Bool × Options
  set_intervals alive_time interval count =
      set_option tcp_keepidle alive_time
        (set_option tcp_keepintvl interval (set_option tcp_keepcnt count done))

  unfoldable pub enable_tcp_keep_alive : ℤ → ℤ → ℤ → Options → Bool × Options
  enable_tcp_keep_alive alive_time interval count =
      set_option so_keepalive (pos 1) (set_intervals alive_time interval count)

  unfoldable pub enable_tcp_no_delay : Options → Bool × Options
  enable_tcp_no_delay = set_option tcp_nodelay (pos 1) done

  -- The outcome of EnableTcpKeepAlive: with all four options set; or false, because one of them is not
  -- taken, and with the ones before it set, so that keepalive may be on with the times of before.
  abbrev pub KeptAlive : ℤ → ℤ → ℤ → Options → Bool × Options → Type 0
  KeptAlive alive_time interval count o (true, o') = o' ≡ record {
    keepalive = some (pos 1);
    keepidle = some alive_time;
    keepintvl = some interval;
    keepcnt = some count;
    nodelay = o.nodelay;
  }
  KeptAlive alive_time interval count o (false, o') =
      ((accepts so_keepalive ≡ false) × (o' ≡ o))
      ⊎ ((o'.keepalive ≡ some (pos 1)) × (o'.keepcnt ≡ o.keepcnt) × (o'.nodelay ≡ o.nodelay))

  -- EnableTcpKeepAlive sets its four options and answers true; or it answers false with the first
  -- refused, and nothing changed, or with keepalive on and the count of probes as before.
  pub enable_tcp_keep_alive-KeptAlive :
      (alive_time interval count : ℤ) (o : Options)
      → KeptAlive alive_time interval count o (enable_tcp_keep_alive alive_time interval count o)
  unfolding enable_tcp_keep_alive set_intervals set_option put_option done
  enable_tcp_keep_alive-KeptAlive alive_time interval count o =
      elim (Bool-cases (accepts so_keepalive)) [
        | inr a ↦ rw a (inl (a, refl))
        | inl a ↦ elim (Bool-cases (accepts tcp_keepidle)) [
          | inr b ↦ rw (a, b) (inr (refl, refl, refl))
          | inl b ↦ elim (Bool-cases (accepts tcp_keepintvl)) [
            | inr c ↦ rw (a, b, c) (inr (refl, refl, refl))
            | inl c ↦ elim (Bool-cases (accepts tcp_keepcnt)) [
              | inr d ↦ rw (a, b, c, d) (inr (refl, refl, refl))
              | inl d ↦ rw (a, b, c, d) refl
            ]
          ]
        ]
      ]

-- `timeout > 0 ? timeout : 0`
unfoldable pub clamped_timeout : ℤ → ℕ
clamped_timeout (pos n) = n
clamped_timeout (negsuc n) = 0

unfoldable pub set_timeout : ℤ → Socket → Socket
set_timeout timeout s = record s { timeout = clamped_timeout timeout }

unfoldable pub set_fd : ℕ → Socket → Socket
set_fd fd s = record s { fd = fd }

unfoldable pub set_state : SocketState → Socket → Socket
set_state st s = record s { state = st }

unfoldable pub set_create_time : ℕ → Socket → Socket
set_create_time time s = record s { create_time = time }

unfoldable pub set_last_access_time : ℕ → Socket → Socket
set_last_access_time time s = record s { last_access_time = time }

-- toString of a SocketType and of a SocketState.
unfoldable pub type_str : SocketType → String
type_str tcp = "tcp"
type_str udp = "udp"

unfoldable pub state_str : SocketState → String
state_str Net.connecting = "connecting"
state_str Net.connected = "connected"
state_str Net.listen = "listen"
state_str Net.accept = "accept"
state_str Net.close = "close"
