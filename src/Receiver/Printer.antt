-- ===== src/Receiver/Printer.antt =====
-- The loop of `AudioPrinterWorker` of receiver/audio_printer.cc.
pub mod Printed
mod Tests
use sik_telnet_radio.Prelude.{ℕ, List, [], ◌∷◌, ◌++◌}
use sik_telnet_radio.Outcome.{Outcome, ok, ◌>>=◌}
use sik_telnet_radio.Events.{EventType, terminate, new_jobs}
use sik_telnet_radio.Buffer.{CircularBuffer}
use sik_telnet_radio.Receiver.Audio.{handle_print}

-- The events that `pop` gives; the first component of the result is what is printed. The buffer changes
-- through this worker alone while the events are handled.
unfoldable pub print_loop :
    (List ℕ → ℕ) → CircularBuffer → List EventType → Outcome (List ℕ × CircularBuffer)
print_loop write b [] = ok ([], b)
print_loop write b (terminate ∷ events) = ok ([], b)
print_loop write b (new_jobs ∷ events) = do
  (printed, b') ← handle_print write b
  (rest, b'') ← print_loop write b' events
  ok (printed ++ rest, b'')
print_loop write b (_ ∷ events) = print_loop write b events
