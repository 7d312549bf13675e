-- ===== src/Socket/Tcp.antt =====
-- `TcpServerSocket` and `TcpClientSocket` of common/tcp_socket.cc.
use sik_telnet_radio.Prelude.{ℕ, Bool, true, false, [], ◌∷◌, Option, none, some, if◌then◌else◌}
use sik_telnet_radio.Outcome.{Outcome, ok, crash, fatal, thrown, ◌>>=◌}
use sik_telnet_radio.Net.{Bytes, SockaddrIn, Resolver, af_inet}
use sik_telnet_radio.Socket.{opened, closed, bound, listening, written, Log, Kernel, must}
use sik_telnet_radio.Socket.Udp.{inaddr_any}

pub record TcpServerSocket : Type 0 where
  pub fd : ℕ
  pub port : ℕ
  pub queue_len : ℕ

-- `fd` is `none` for -1.
pub record TcpClientSocket : Type 0 where
  pub fd : Option ℕ

module _ (net : Resolver) (sys : Kernel) where
  abbrev pub server_address : ℕ → SockaddrIn
  server_address port = record {
    sin_family = af_inet;
    s_addr = inaddr_any;
    sin_port = net.htons port;
  }

  abbrev pub constructed : ℕ → ℕ → Log → Option ℕ → Outcome (TcpServerSocket × Log)
  constructed port queue_len log none = crash fatal
  constructed port queue_len log (some fd) = do
    log' ← must sys (bound fd (server_address port)) (opened fd ∷ log)
    ok (record { fd = fd; port = port; queue_len = queue_len }, log')

  unfoldable pub new_server_socket : ℕ → ℕ → Log → Outcome (TcpServerSocket × Log)
  new_server_socket port queue_len log = constructed port queue_len log (sys.socket log)

  unfoldable pub close_server : TcpServerSocket → Log → Outcome Log
  close_server s log = must sys (closed s.fd) log

  unfoldable pub listen : TcpServerSocket → Log → Outcome Log
  listen s log = must sys (listening s.fd s.queue_len) log

  abbrev accepted : Log → Option ℕ → Outcome (TcpClientSocket × Log)
  accepted log none = crash thrown
  accepted log (some fd) = ok (record { fd = some fd }, opened fd ∷ log)

  unfoldable pub accept : TcpServerSocket → Log → Outcome (TcpClientSocket × Log)
  accept s log = accepted log (sys.accept log s.fd)

  abbrev pub close_fd : Option ℕ → Log → Log
  close_fd none log = log
  close_fd (some fd) log = if sys.succeeds log (closed fd) then closed fd ∷ log else log

  -- The destructor. A `close` that fails is logged.
  unfoldable pub close_client : TcpClientSocket → Log → Log
  close_client c log = close_fd c.fd log

  abbrev got : Option Bytes → Outcome (Bool × Bytes)
  got none = crash thrown
  got (some []) = ok (false, [])
  got (some (b ∷ bytes)) = ok (true, b ∷ bytes)

  abbrev read_fd : Option ℕ → ℕ → Log → Outcome (Bool × Bytes)
  read_fd none nbytes log = crash thrown
  read_fd (some fd) nbytes log = got (sys.read log fd nbytes)

  -- Whether anything came, and what.
  unfoldable pub read : TcpClientSocket → ℕ → Log → Outcome (Bool × Bytes)
  read c nbytes log = read_fd c.fd nbytes log

  abbrev write_fd : Option ℕ → Bytes → Log → Outcome Log
  write_fd none msg log = crash thrown
  write_fd (some fd) msg log =
      if sys.succeeds log (written fd msg) then ok (written fd msg ∷ log) else crash thrown

  unfoldable pub write : TcpClientSocket → Bytes → Log → Outcome Log
  write c msg log = write_fd c.fd msg log

-- `operator=`: the socket that is assigned to, and the one that is moved from.
unfoldable pub move_client : TcpClientSocket → TcpClientSocket → TcpClientSocket × TcpClientSocket
move_client c other = (record c { fd = other.fd }, record other { fd = none })
