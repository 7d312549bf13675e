-- ===== src/Broadcast/Tests.antt =====
-- Five bytes in packets of two, from a cache of nine bytes to a buffer of nine.
use sik_telnet_radio.Prelude.{
  ℕ, ◌/◌, ◌-◌, ◌<◌, ◌≡◌, refl, List, [], ◌∷◌, ◌++◌, some, arith, length, map, keep_last,
}
use sik_telnet_radio.Outcome.{ok}
use sik_telnet_radio.Packet.Tests.{half}
use sik_telnet_radio.Buffer.{create}
use sik_telnet_radio.Buffer.Refine.{Holds}
use sik_telnet_radio.Receiver.Audio.{AudioReceiver, listen}
use sik_telnet_radio.Receiver.Audio.Tests.{silent}
use sik_telnet_radio.Sender.Audio.{AudioSender, new_sender, run}
use sik_telnet_radio.Sender.Audio.Stream.{Even, concat, reads}
use sik_telnet_radio.Params.Tests.{pieces}
use sik_telnet_radio.Broadcast.{on_air}
use sik_telnet_radio.Broadcast.Received.{broadcast-received}

broadcast-received_example :
    (sender : AudioSender) × (run length half (new_sender 7 2 9) (reads pieces) ≡ ok sender)
    × (st' : AudioReceiver) × (listen half silent (on_air sender.sent) ≡ ok st')
    × (chunks : List (List ℕ)) × Even 2 chunks
    × (concat chunks ++ sender.filled ≡ 1 ∷ 2 ∷ 3 ∷ 4 ∷ 5 ∷ [])
    × (length sender.filled < 2)
    × Holds st'.buffer (9 / 2) (keep_last (9 / 2 - 1) (map some chunks))
unfolding create
broadcast-received_example =
    broadcast-received length half half (λ y. omega arith) (λ y h. omega arith) 7 2 9 pieces silent
      (λ bytes. refl) (omega arith) (omega arith) (omega arith) (omega arith) (omega arith)
      (omega arith) (omega arith) (omega arith) (omega arith) (omega arith) (omega arith)
