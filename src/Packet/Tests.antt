-- ===== src/Packet/Tests.antt =====
-- A packet there and back, on a machine whose byte order is the network's.
use sik_telnet_radio.Prelude.{ℕ, ◌%◌, ◌^◌, ◌≡◌, [], ◌∷◌, some, arith}
use sik_telnet_radio.Outcome.{ok}
use sik_telnet_radio.Packet.{outgoing, read_packet}
use sik_telnet_radio.Packet.RoundTrip.{read_packet-outgoing}

abbrev pub half : ℕ → ℕ
half x = x % 2 ^ 32

read_packet-outgoing_example :
    read_packet half (some (outgoing half 1234 5678 (1 ∷ 2 ∷ 3 ∷ []) 2).bytes)
    ≡ ok (outgoing half 1234 5678 (1 ∷ 2 ∷ 3 ∷ []) 2)
read_packet-outgoing_example =
    read_packet-outgoing half half (λ y. omega arith) (λ y h. omega arith) 1234 5678
      (1 ∷ 2 ∷ 3 ∷ []) 2 (omega arith) (omega arith) (omega arith)
