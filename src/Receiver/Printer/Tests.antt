-- ===== src/Receiver/Printer/Tests.antt =====
-- A buffer with a missing packet, whose printer is woken twice.
use sik_telnet_radio.Prelude.{◌≡◌, refl, List, [], ◌∷◌, some, none}
use sik_telnet_radio.Outcome.{ok}
use sik_telnet_radio.Events.{EventType, new_jobs, client_added, terminate}
use sik_telnet_radio.Buffer.{CircularBuffer}
use sik_telnet_radio.Buffer.Refine.{Holds}
use sik_telnet_radio.Buffer.Tests.{everything, gapped, gapped-Holds}
use sik_telnet_radio.Receiver.Printer.{print_loop}
use sik_telnet_radio.Receiver.Printer.Printed.{print_loop-heard}

abbrev calls : List EventType
calls = new_jobs ∷ client_added ∷ new_jobs ∷ terminate ∷ new_jobs ∷ []

print_loop-heard_example :
    (b' : CircularBuffer) × (print_loop everything gapped calls ≡ ok (1 ∷ 2 ∷ 0 ∷ 0 ∷ [], b'))
    × Holds b' 4 (some (5 ∷ 6 ∷ []) ∷ [])
    × (b'.abs_head ≡ 16)
print_loop-heard_example =
    print_loop-heard everything (λ bytes. refl) calls (some (1 ∷ 2 ∷ []) ∷ none ∷ [])
      (some (5 ∷ 6 ∷ []) ∷ []) gapped-Holds refl
