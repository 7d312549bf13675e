-- ===== src/Socket/Udp.antt =====
-- `UdpSocket` of common/udp_socket.cc.
use sik_telnet_radio.Prelude.{ℕ, Bool, true, false, ◌∷◌, Option, none, some, if◌then◌else◌}
use sik_telnet_radio.Outcome.{Outcome, ok, crash, fatal, ◌>>=◌}
use sik_telnet_radio.Net.{SockaddrIn, Resolver, af_inet}
use sik_telnet_radio.Socket.{
  IpMreqSource, SocketOption, so_broadcast, so_reuseaddr, so_sndtimeo, so_rcvtimeo,
  ip_add_source_membership, ip_drop_source_membership, opened, closed, option, bound, connected,
  Log, Kernel, must, must_on,
}

-- `fd` is `none` for -1. `_connected` is never set and never read.
pub record UdpSocket : Type 0 where
  pub fd : Option ℕ
  pub mcast_recv_enabled : Bool
  pub ipmreq : IpMreqSource
  pub local_addr : SockaddrIn
  pub conn_addr : SockaddrIn

abbrev pub inaddr_any : ℕ
inaddr_any = 0

abbrev pub default_ttl : ℕ
default_ttl = 4

-- The request for a group from one source, on any interface.
abbrev pub request : SockaddrIn → SockaddrIn → IpMreqSource
request multicast_addr source_addr = record {
  imr_interface = inaddr_any;
  imr_multiaddr = multicast_addr.s_addr;
  imr_sourceaddr = source_addr.s_addr;
}

module _ (net : Resolver) (sys : Kernel) where
  unfoldable pub set_local_port : UdpSocket → ℕ → UdpSocket
  set_local_port s port = record s {
    local_addr = record { sin_family = af_inet; s_addr = inaddr_any; sin_port = net.htons port };
  }

  abbrev constructed : UdpSocket → Log → Option ℕ → Outcome (UdpSocket × Log)
  constructed memory log none = crash fatal
  constructed memory log (some fd) = ok (
    set_local_port (record memory { fd = some fd; mcast_recv_enabled = false }) 0,
    opened fd ∷ log,
  )

  -- The constructor, in `memory`, whose other fields keep what they hold.
  unfoldable pub new_udp_socket : UdpSocket → Log → Outcome (UdpSocket × Log)
  new_udp_socket memory log = constructed memory log (sys.socket log)

  unfoldable pub set_opt : UdpSocket → SocketOption → Log → Outcome Log
  set_opt s opt log = must_on sys s.fd (λ fd. option fd opt) log

  unfoldable pub set_broadcast : UdpSocket → Log → Outcome Log
  set_broadcast s log = set_opt s (so_broadcast 1) log

  unfoldable pub set_reuseaddr : UdpSocket → Log → Outcome Log
  set_reuseaddr s log = set_opt s (so_reuseaddr 1) log

  unfoldable pub set_mcast_ttl : UdpSocket → ℕ → Log → Outcome Log
  set_mcast_ttl s ttl log = set_opt s (so_reuseaddr ttl) log

  unfoldable pub set_drop_membership : UdpSocket → Log → Outcome Log
  set_drop_membership s log = set_opt s (ip_drop_source_membership s.ipmreq) log

  unfoldable pub set_sending_timeout : UdpSocket → ℕ → Log → Outcome Log
  set_sending_timeout s secs log = set_opt s (so_sndtimeo secs) log

  unfoldable pub set_receiving_timeout : UdpSocket → ℕ → Log → Outcome Log
  set_receiving_timeout s secs log = set_opt s (so_rcvtimeo secs) log

  unfoldable pub enable_mcast_recv :
      UdpSocket → SockaddrIn → SockaddrIn → Log → Outcome (UdpSocket × Log)
  enable_mcast_recv s multicast_addr source_addr log = do
    let req = request multicast_addr source_addr
    let s' = record s { ipmreq = req; mcast_recv_enabled = true }
    log' ← set_opt s' (ip_add_source_membership req) log
    ok (s', log')

  unfoldable pub disable_mcast_recv : UdpSocket → Log → Outcome (UdpSocket × Log)
  disable_mcast_recv s log = do
    let s' = record s { mcast_recv_enabled = false }
    log' ← set_drop_membership s' log
    ok (s', log')

  unfoldable pub connect : UdpSocket → SockaddrIn → Log → Outcome (UdpSocket × Log)
  connect s conn_addr log = do
    log' ← must_on sys s.fd (λ fd. connected fd conn_addr) log
    ok (record s { conn_addr = conn_addr }, log')

  unfoldable pub bind : UdpSocket → ℕ → Log → Outcome (UdpSocket × Log)
  bind s port log = do
    let s' = set_local_port s port
    log' ← must_on sys s'.fd (λ fd. bound fd s'.local_addr) log
    ok (s', log')

  -- What the destructor does with the descriptor `fd`, if multicast reception is enabled or not.
  abbrev pub closing : Bool → UdpSocket → ℕ → Log → Outcome (UdpSocket × Log)
  closing enabled s fd log = do
    (s', log') ← if enabled then disable_mcast_recv s log else ok (s, log)
    log'' ← must sys (closed fd) log'
    ok (record s' { fd = none }, log'')

  abbrev pub destroy_fd : UdpSocket → Option ℕ → Log → Outcome (UdpSocket × Log)
  destroy_fd s none log = ok (record s { fd = none }, log)
  destroy_fd s (some fd) log = closing s.mcast_recv_enabled s fd log

  -- The destructor. What it leaves in memory is looked at by the next assignment only.
  unfoldable pub destroy : UdpSocket → Log → Outcome (UdpSocket × Log)
  destroy s log = destroy_fd s s.fd log

-- `operator=`: the socket that is assigned to, and the one that is moved from.
unfoldable pub assign : UdpSocket → UdpSocket → UdpSocket × UdpSocket
assign s other = (
  record s {
    fd = other.fd;
    mcast_recv_enabled = other.mcast_recv_enabled;
    ipmreq = other.ipmreq;
    local_addr = other.local_addr;
    conn_addr = other.conn_addr;
  },
  record other { fd = none },
)
