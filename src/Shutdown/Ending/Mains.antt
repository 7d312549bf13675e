-- ===== src/Shutdown/Ending/Mains.antt =====
-- How `main` of receiver/receiver.cc and that of sender/sender.cc come to their ends.
use sik_telnet_radio.Prelude.{◌≡◌, ◌⊎◌, false, [], ◌∷◌}
use sik_telnet_radio.Shutdown.Ending.{join, raise_sigint, sender_main, Program, main}

-- Until `main` raises the signal it waits for the audio sender.
abbrev AtAudioSender : Program → Type 0
AtAudioSender p =
    (p.process.running ≡ false)
    ⊎ ((p.main ≡ sender_main) ⊎ (p.main ≡ raise_sigint ∷ join 1 ∷ join 0 ∷ []))
