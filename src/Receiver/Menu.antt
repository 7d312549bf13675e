-- ===== src/Receiver/Menu.antt =====
-- The keys of a telnet client: `handle_client_input`, `reset_client_input` and `apply_cmd` of
-- receiver/ui_menu.cc, with the keys of receiver/ui.hh.
pub mod Keys
pub mod Tests
use sik_telnet_radio.Prelude.{
  ℕ, suc, ◌+◌, Bool, true, false, not, ◌||◌, List, [], ◌∷◌, ◌++◌, Option, none, some, ltb, ◌==◌,
  if◌then◌else◌, length,
}
use sik_telnet_radio.Outcome.{Outcome, ok, crash, assertion, bounds, ◌>>=◌, ◌>>◌, guard}
use sik_telnet_radio.Net.{Bytes}
use sik_telnet_radio.Station.{bytes_eq}
use sik_telnet_radio.Receiver.{Shared}
use sik_telnet_radio.Receiver.Stations.{cmd_move_up, cmd_move_down}

abbrev pub escape : ℕ
escape = 27

abbrev pub up_command : Bytes
up_command = escape ∷ b'[' ∷ b'A' ∷ []

abbrev pub down_command : Bytes
down_command = escape ∷ b'[' ∷ b'B' ∷ []

-- `success` and `cmd_complete` for the byte `c`, the `nread`-th of the command.
abbrev pub verdict : ℕ → ℕ → Bool × Bool
verdict nread c =
    if c == escape
    then (nread == 1, false)
    else if c == b'['
    then (nread == 2, false)
    else if c == b'A' || c == b'B'
    then (nread == 3, nread == 3)
    else (false, false)

-- The command is looked up in a map of two.
unfoldable pub apply_cmd : Shared → Bytes → Outcome Shared
apply_cmd st cmd =
    if bytes_eq cmd up_command
    then cmd_move_up st
    else if bytes_eq cmd down_command
    then cmd_move_down st
    else crash assertion

-- The branch of `handle_client_input` for a byte that was read. `typed` is the first `nread` bytes of
-- `cmd_buf`, which has room for four; the others are zero.
unfoldable pub handle_key : Shared → Bytes → ℕ → Outcome (Bytes × Shared)
handle_key st typed c =
    let (success, cmd_complete) = verdict (length typed + 1) c in
    guard (ltb (length typed) 4) bounds
    >> (if not success
        then ok ([], st)
        else if cmd_complete
        then (do st' ← apply_cmd st (typed ++ c ∷ []); ok ([], st'))
        else ok (typed ++ c ∷ [], st))

-- One byte after another.
unfoldable pub handle_keys : Shared → Bytes → Bytes → Outcome (Bytes × Shared)
handle_keys st typed [] = ok (typed, st)
handle_keys st typed (c ∷ cs) = do (typed', st') ← handle_key st typed c; handle_keys st' typed' cs
