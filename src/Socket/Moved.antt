-- ===== src/Socket/Moved.antt =====
-- What becomes of a connection's descriptor when its socket is moved, and of the time to live.
use sik_telnet_radio.Prelude.{ℕ, ◌≡◌, refl, true, none, some, ◌∷◌, Option-cases, inl, inr}
use sik_telnet_radio.Outcome.{Outcome, ok, ◌>>=◌, After, done, raised}
use sik_telnet_radio.Net.{Resolver}
use sik_telnet_radio.Socket.{
  so_reuseaddr, closed, option, Log, Kernel, open_fds, mcast_ttl, must, forget_opened,
}
use sik_telnet_radio.Socket.Udp.{UdpSocket, set_opt, set_mcast_ttl}
use sik_telnet_radio.Socket.Tcp.{TcpServerSocket, accept, close_client, move_client}

-- A connection from `accept` to its end: it is moved into a client, as the constructor of `TcpClient`
-- in receiver/ui_menu.hh does, the socket that it came with is destroyed, and then the client.
unfoldable pub connection : Resolver → Kernel → TcpServerSocket → Log → Outcome Log
connection net sys server log = do
  (socket, log1) ← accept net sys server log
  let (client, moved) = move_client (record { fd = none }) socket
  let log2 = close_client net sys moved log1
  ok (close_client net sys client log2)

-- A connection that is accepted, moved into a client and erased leaves the open descriptors as they
-- were, if `close` succeeds; or `accept` has thrown.
pub connection-open_fds :
    (net : Resolver) (sys : Kernel) (server : TcpServerSocket) (log : Log)
    → ((log : Log) (fd : ℕ) → sys.succeeds log (closed fd) ≡ true)
    → After (λ log'. open_fds log' ≡ open_fds log) (connection net sys server log)
unfolding connection accept move_client close_client open_fds
connection-open_fds net sys server log closes = elim (Option-cases (sys.accept log server.fd)) [
  | inl e ↦ rw e raised
  | inr (fd, e) ↦ rw (e, closes) (done (forget_opened fd (open_fds log)))
]

-- `set_mcast_ttl` of an open socket, in a system that takes the call, succeeds, and leaves the time to live
-- of every descriptor's multicast datagrams as it was.
pub set_mcast_ttl-unchanged :
    (net : Resolver) (sys : Kernel) (s : UdpSocket) (ttl fd : ℕ) (log : Log)
    → s.fd ≡ some fd
    → sys.succeeds log (option fd (so_reuseaddr ttl)) ≡ true
    → (log' : Log) × (set_mcast_ttl net sys s ttl log ≡ ok log')
      × ((f : ℕ) → mcast_ttl f log' ≡ mcast_ttl f log)
unfolding set_mcast_ttl set_opt must mcast_ttl
set_mcast_ttl-unchanged net sys s ttl fd log is_open taken =
    (option fd (so_reuseaddr ttl) ∷ log, rw (is_open, taken) refl, λ f. refl)
