-- ===== src/Receiver/Clients/Start.antt =====
-- The constructor of `UiMenuWorker`, and its `run` from the start on.
use sik_telnet_radio.Prelude.{ℕ, ◌≡◌, ◌⊎◌, List, [], ◌∷◌, none, some, Bool, false}
use sik_telnet_radio.Outcome.{Outcome, ok, ◌>>=◌}
use sik_telnet_radio.Net.{Bytes, Resolver}
use sik_telnet_radio.Socket.{Log, Kernel, opened, bound, listening}
use sik_telnet_radio.Socket.Tcp
use sik_telnet_radio.Socket.Tcp.{TcpServerSocket, new_server_socket}
use sik_telnet_radio.Receiver.{Shared}
use sik_telnet_radio.Receiver.Clients.{Menu, quiet}
use sik_telnet_radio.Receiver.Clients.Loop.{Round, run_menu}

-- `DEFAULT_QUEUE_LEN`
abbrev pub default_queue_len : ℕ
default_queue_len = 42

-- The table of a menu without clients. The places 0 and 1, of the event queue and the server, are none of
-- a client's.
unfoldable pub new_menu : Shared → Menu
new_menu shared = record {
  shared = shared;
  poll_fds = λ id. none;
  revents = λ id. quiet;
  clients = λ id. none;
  written = [];
  closed = [];
}

module _ (net : Resolver) (sys : Kernel) where
  -- The constructor.
  unfoldable pub new_ui_menu : ℕ → Shared → Log → Outcome (Menu × TcpServerSocket × Log)
  new_ui_menu ui_port shared log = do
    (server, log') ← new_server_socket net sys ui_port default_queue_len log
    ok (new_menu shared, server, log')

  -- The system refuses the menu its socket, or the address of the port, or to listen on it.
  abbrev pub Refused : ℕ → Log → Type 0
  Refused ui_port log =
      (sys.socket log ≡ none)
      ⊎ ((fd : ℕ) × (sys.socket log ≡ some fd)
          × let bind = bound fd (Tcp.server_address net sys ui_port) in
            (sys.succeeds (opened fd ∷ log) bind ≡ false)
            ⊎ (sys.succeeds (bind ∷ opened fd ∷ log) (listening fd default_queue_len) ≡ false))

module _ (net : Resolver) (sys : Kernel) (write : List (ℕ × Bytes) → ℕ → Bytes → Bool) where
  -- `run`: it listens, and then goes through the rounds to come.
  unfoldable pub run_ui_menu : List Round → Menu × TcpServerSocket × Log → Outcome Menu
  run_ui_menu rounds (m, server, log) =
      Tcp.listen net sys server log >>= λ log'. run_menu write m rounds
