-- ===== src/Params.antt =====
-- What sender/sender_params.hh and receiver/receiver_params.hh have in common. The option parser is a
-- library; it gives the options that stand on the command line, or throws.
pub mod Sender
pub mod Receiver
pub mod Accepted
pub mod Streams
pub mod Overflow
pub mod Ready
pub mod Tests
use sik_telnet_radio.Prelude.{Bool, true, false, Option, none, some}
use sik_telnet_radio.Outcome.{Outcome, ok, crash, thrown, fatal}

-- `default_value`
abbrev pub value_or {ℓ} : {A : Type ℓ} → Option A → A → A
value_or none d = d
value_or (some a) d = a

abbrev pub is_some {ℓ} : {A : Type ℓ} → Option A → Bool
is_some none = false
is_some (some a) = true

-- `try { m } catch (const std::exception& e) { fatal(e.what()); }`
abbrev pub or_fatal {ℓ} : {A : Type ℓ} → Outcome A → Outcome A
or_fatal (ok a) = ok a
or_fatal (crash thrown) = crash fatal
or_fatal (crash e) = crash e
