-- ===== src/Receiver/LookupSender.antt =====
-- The loop of `LookupSenderWorker` of receiver/lookup_sender.cc.
use sik_telnet_radio.Prelude.{List, [], ◌∷◌}
use sik_telnet_radio.Net.{Bytes, SockaddrIn}
use sik_telnet_radio.Events.{EventType, terminate}
use sik_telnet_radio.Datagram.{print_lookup}

-- What `poll` reports in a round: an event, or that the socket can be written to, which it can be after
-- the sleep of five seconds too.
pub data Tick : Type 0 where
  event : EventType → Tick
  writable : Tick

-- The datagrams that are sent, with where they go. One that is not sent whole is logged.
unfoldable pub look_around : SockaddrIn → List Tick → List (SockaddrIn × Bytes)
look_around discover_addr [] = []
look_around discover_addr (event terminate ∷ ticks) = []
look_around discover_addr (event _ ∷ ticks) = look_around discover_addr ticks
look_around discover_addr (writable ∷ ticks) =
    (discover_addr, print_lookup) ∷ look_around discover_addr ticks
