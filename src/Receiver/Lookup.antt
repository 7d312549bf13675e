-- ===== src/Receiver/Lookup.antt =====
-- The loop of `LookupReceiverWorker` of receiver/lookup_receiver.cc.
pub mod Current
pub mod Tests
use sik_telnet_radio.Prelude.{ℕ, List, [], ◌∷◌, Option}
use sik_telnet_radio.Outcome.{Outcome, ok, ◌>>=◌, handled}
use sik_telnet_radio.Net.{Bytes, SockaddrIn, Resolver}
use sik_telnet_radio.Events.{EventType, terminate}
use sik_telnet_radio.Text.{c_str}
use sik_telnet_radio.Datagram.{parse_reply}
use sik_telnet_radio.Receiver.{Shared}
use sik_telnet_radio.Receiver.Stations.{handle_lookup_reply}

-- What `poll` reports in a round: an event, or a datagram with the time at which it is handled. A
-- `recvfrom` that fails leaves the empty text.
pub data Heard : Type 0 where
  event : EventType → Heard
  datagram : ℕ → SockaddrIn → Bytes → Heard

module _ (net : Resolver) (prio : Option Bytes) where
  -- The `try` block and its handler, which logs.
  unfoldable pub hear_one : Shared → ℕ → SockaddrIn → Bytes → Outcome Shared
  hear_one st now src_addr bytes =
      handled
        (parse_reply net (c_str bytes) >>= λ reply.
          handle_lookup_reply net prio now st reply src_addr)
        (ok st)

  unfoldable pub hear : Shared → List Heard → Outcome Shared
  hear st [] = ok st
  hear st (event terminate ∷ rest) = ok st
  hear st (event _ ∷ rest) = hear st rest
  hear st (datagram now src_addr bytes ∷ rest) =
      hear_one st now src_addr bytes >>= λ st'. hear st' rest
