-- ===== src/Shutdown/Tests.antt =====
-- Two signals to three workers, of which one has an event already.
use sik_telnet_radio.Prelude.{◌≡◌, refl, [], ◌∷◌, arith, true, false}
use sik_telnet_radio.Events.{push, new_jobs, terminate}
use sik_telnet_radio.Shutdown.{Process, signals, signals-once}

abbrev working : Process
working = record { running = true; signalled = λ i. false; event_queues = λ i. new_jobs ∷ [] }

signals-once_example : (signals 3 2 working).event_queues 1 ≡ push (new_jobs ∷ []) terminate
signals-once_example = signals-once 3 1 working 1 (omega arith) refl
