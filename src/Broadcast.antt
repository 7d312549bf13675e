-- ===== src/Broadcast.antt =====
-- From the sender's input to the receiver's buffer: sender/audio_sender.cc, the packets of
-- common/datagram.cc, and receiver/audio_receiver.cc together.
pub mod Playing
pub mod Received
mod Tests
use sik_telnet_radio.Prelude.{ℕ, List, map, some}
use sik_telnet_radio.Packet.{AudioPacket}
use sik_telnet_radio.Receiver.Audio.{Round, datagram}

-- The datagrams of the packets, as the receiver's socket gives them.
abbrev pub on_air : List AudioPacket → List Round
on_air = map (λ packet. datagram (some packet.bytes))
