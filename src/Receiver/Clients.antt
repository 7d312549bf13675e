-- ===== src/Receiver/Clients.antt =====
-- The telnet clients of `UiMenuWorker` of receiver/ui_menu.cc: the table of `pollfd`s, the map of
-- clients, and the loop.
pub mod Linked
pub mod Register
pub mod Accept
pub mod Loop
pub mod Typing
pub mod Fine
pub mod Rounds
pub mod Start
mod Tests
use sik_telnet_radio.Prelude.{
  ℕ, zero, suc, ◌+◌, ◌-◌, Bool, true, false, not, ◌||◌, List, [], ◌∷◌, ◌++◌, Option, none, some,
  ltb, ◌==◌, if◌then◌else◌, length,
}
use sik_telnet_radio.Outcome.{Outcome, ok, crash, thrown, bounds, ◌>>=◌, ◌>>◌, guard}
use sik_telnet_radio.Net.{Bytes}
use sik_telnet_radio.Events.{
  EventType, terminate, station_added, station_removed, current_station_changed,
}
use sik_telnet_radio.Receiver.{Shared}
use sik_telnet_radio.Receiver.Menu.{verdict, apply_cmd}
use sik_telnet_radio.Receiver.Screen.{clear, menu_to_str}

-- `TcpClient`: the descriptor of its socket, `none` for -1, and the first `nread` bytes of `cmd_buf`.
pub record Client : Type 0 where
  pub socket : Option ℕ
  pub typed : Bytes

-- What `read` on a client's socket gives.
pub data Read : Type 0 where
  failed eof : Read
  byte : ℕ → Read

-- `POLLERR`, `POLLIN` with what a read then gives, and `POLLOUT`.
pub record Revents : Type 0 where
  pub err : Bool
  pub input : Option Read
  pub out : Bool

abbrev pub quiet : Revents
quiet = record { err = false; input = none; out = false }

-- `poll_fds` is the field `fd` of the array, `none` for -1, and `clients` is the map. `written` and
-- `closed` are what became of the descriptors.
pub record Menu : Type 0 where
  pub shared : Shared
  pub poll_fds : ℕ → Option ℕ
  pub revents : ℕ → Revents
  pub clients : ℕ → Option Client
  pub written : List (ℕ × Bytes)
  pub closed : List ℕ

abbrev pub put : {A : Type 0} → (ℕ → A) → ℕ → A → ℕ → A
put f id a i = if i == id then a else f i

abbrev pub min_client_id : ℕ
min_client_id = 2

abbrev pub max_clients : ℕ
max_clients = 42

abbrev pub total_pollfds : ℕ
total_pollfds = 44

abbrev pub client_or_new : Option Client → Client
client_or_new none = record { socket = none; typed = [] }
client_or_new (some c) = c

-- `_clients[id]`, which makes an entry if there is none.
unfoldable pub client_at : Menu → ℕ → Client
client_at m id = client_or_new (m.clients id)

unfoldable pub set_client : Menu → ℕ → Client → Menu
set_client m id c = record m { clients = put m.clients id (some c) }

abbrev pub freed : Option Client → List ℕ
freed none = []
freed (some c) = elim c.socket [ none ↦ [] | some fd ↦ fd ∷ [] ]

-- To erase a client is to close its socket.
unfoldable pub disconnect_client : Menu → ℕ → Menu
disconnect_client m id = record m {
  clients = put m.clients id none;
  poll_fds = put m.poll_fds id none;
  revents = put m.revents id quiet;
  closed = m.closed ++ freed (m.clients id);
}

unfoldable pub reset_client_input : Menu → ℕ → Menu
reset_client_input m id = set_client m id (record (client_at m id) { typed = [] })

abbrev pub or_disconnect : Menu → ℕ → Outcome Menu → Outcome Menu
or_disconnect m id (ok m') = ok m'
or_disconnect m id (crash thrown) = ok (disconnect_client m id)
or_disconnect m id (crash e) = crash e

abbrev pub is_open : Option ℕ → Bool
is_open none = false
is_open (some fd) = true

-- `IAC WILL ECHO IAC DO ECHO IAC DO LINEMODE`
abbrev pub negotiation : Bytes
negotiation = 255 ∷ 251 ∷ 1 ∷ 255 ∷ 253 ∷ 1 ∷ 255 ∷ 253 ∷ 34 ∷ []

-- `emplace` leaves an entry that is there; the socket is closed then.
abbrev pub emplace : Menu → ℕ → ℕ → Option Client → Menu
emplace m id fd none = set_client m id (record { socket = some fd; typed = [] })
emplace m id fd (some c) = record m { closed = m.closed ++ fd ∷ [] }

-- A read from the descriptor -1 fails.
abbrev pub of_socket : Option ℕ → Read → Read
of_socket none r = failed
of_socket (some fd) r = r

-- The first of `n` ids from `id` on that is free, or an exception; the socket is closed then too.
unfoldable pub register_from : ℕ → Menu → ℕ → ℕ → Outcome (ℕ × Menu)
register_from zero m id fd = crash thrown
register_from (suc n) m id fd =
    let rest = register_from n m (id + 1) fd in
    let m' = record m {
      poll_fds = put m.poll_fds id (some fd);
      revents = put m.revents id quiet;
    } in
    if is_open (m.poll_fds id) then rest else ok (id, emplace m' id fd (m.clients id))

unfoldable pub register_client : Menu → ℕ → Outcome (ℕ × Menu)
register_client m fd = register_from (total_pollfds - min_client_id) m min_client_id fd

-- `write` says whether the system takes the bytes, after what was written before.
module _ (write : List (ℕ × Bytes) → ℕ → Bytes → Bool) where
  -- `TcpClientSocket::write`. A write to the descriptor -1 fails.
  unfoldable pub write_socket : Menu → Option ℕ → Bytes → Outcome Menu
  write_socket m none msg = crash thrown
  write_socket m (some fd) msg =
      if write m.written fd msg
      then ok (record m { written = m.written ++ (fd, msg) ∷ [] })
      else crash thrown

  unfoldable pub send_msg : Menu → ℕ → Bytes → Outcome Menu
  send_msg m id msg =
      let m' = set_client m id (client_at m id) in
      or_disconnect m' id (write_socket m' (client_at m id).socket (clear ++ msg))

  -- The loop over `n` ids from `id` on.
  unfoldable pub send_from : ℕ → Menu → ℕ → Bytes → Outcome Menu
  send_from zero m id msg = ok m
  send_from (suc n) m id msg =
      (if is_open (m.poll_fds id) then send_msg m id msg else ok m) >>= λ m'.
      send_from n m' (id + 1) msg

  unfoldable pub send_to_all : Menu → Bytes → Outcome Menu
  send_to_all m msg = send_from (max_clients - min_client_id) m min_client_id msg

  unfoldable pub config_client : Menu → ℕ → Outcome Menu
  config_client m id =
      write_socket (set_client m id (client_at m id)) (client_at m id).socket negotiation

  unfoldable pub greet_client : Menu → ℕ → Outcome Menu
  greet_client m id = send_msg m id (menu_to_str m.shared)

  -- The inner `try` of `accept_new_client`.
  abbrev pub introduce : ℕ × Menu → Outcome Menu
  introduce (id, m) = or_disconnect m id (config_client m id >>= λ m'. greet_client m' id)

  abbrev pub welcome : Menu → ℕ → Outcome (ℕ × Menu) → Outcome Menu
  welcome m fd (ok registered) = introduce registered
  welcome m fd (crash thrown) = ok (record m { closed = m.closed ++ fd ∷ [] })
  welcome m fd (crash e) = crash e

  -- `none` is an `accept` that fails.
  unfoldable pub accept_new_client : Menu → Option ℕ → Outcome Menu
  accept_new_client m none = ok m
  accept_new_client m (some fd) = welcome m fd (register_client m fd)

  -- A command that is complete: it moves, sends the menu to all, and forgets what was typed.
  unfoldable pub run_cmd : Menu → ℕ → Bytes → Outcome Menu
  run_cmd m id cmd = do
    shared ← apply_cmd m.shared cmd
    let m' = record m { shared = shared }
    m'' ← send_to_all m' (menu_to_str shared)
    ok (reset_client_input m'' id)

  -- The byte `c` of client `id`. `cmd_buf` has room for four bytes.
  unfoldable pub handle_byte : Menu → ℕ → ℕ → Outcome Menu
  handle_byte m id c =
      let client = client_at m id in
      let typed = client.typed ++ c ∷ [] in
      let (success, cmd_complete) = verdict (length client.typed + 1) c in
      let m' = set_client m id (record client { typed = typed }) in
      guard (ltb (length client.typed) 4) bounds
      >> (if not success
          then ok (reset_client_input m' id)
          else if cmd_complete
          then run_cmd m' id typed
          else ok m')

  abbrev pub handle_read : Menu → ℕ → Read → Outcome Menu
  handle_read m id failed = ok (disconnect_client m id)
  handle_read m id eof = ok (disconnect_client m id)
  handle_read m id (byte c) = handle_byte m id c

  unfoldable pub handle_client_input : Menu → ℕ → Read → Outcome Menu
  handle_client_input m id r = handle_read m id (of_socket (client_at m id).socket r)
