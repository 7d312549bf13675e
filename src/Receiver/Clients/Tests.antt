-- ===== src/Receiver/Clients/Tests.antt =====
-- A menu with one client, which sends an arrow down, and another that connects.
use sik_telnet_radio.Prelude.{ℕ, [], ◌∷◌, none, some, Bool, true, false, ◌==◌, if◌then◌else◌, List}
use sik_telnet_radio.Net.{Bytes, Resolver}
use sik_telnet_radio.Receiver.Menu.{escape}
use sik_telnet_radio.Receiver.Clients.{Menu, Revents, byte, quiet}
use sik_telnet_radio.Receiver.Clients.Loop.{Round}
use sik_telnet_radio.Socket.{Kernel}

abbrev net : Resolver
net = record {
  getaddrinfo = λ host. some 7;
  inet_pton = λ host. some 7;
  htons = λ x. x;
  ntohl = λ x. x;
}

abbrev willing : Kernel
willing = record {
  socket = λ log. some 3;
  accept = λ log fd. none;
  succeeds = λ log call. true;
  read = λ log fd nbytes. none;
}

-- Client 2 types, if it is there.
abbrev typing_key : ℕ → ℕ → Revents
typing_key c i =
    if i == 2 then record { err = false; input = some (byte c); out = false } else quiet

abbrev key : ℕ → Round
key c = record { event = none; accepted = none; ready = typing_key c }

abbrev connects : ℕ → Round
connects fd = record { event = none; accepted = some (some fd); ready = λ i. quiet }

abbrev session : List Round
session = connects 9 ∷ key escape ∷ key b'[' ∷ key b'B' ∷ connects 11 ∷ []

abbrev accepts : List (ℕ × Bytes) → ℕ → Bytes → Bool
accepts written fd msg = true
