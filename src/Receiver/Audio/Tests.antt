-- ===== src/Receiver/Audio/Tests.antt =====
-- A receiver of packets of two bytes, with a buffer of nine.
use sik_telnet_radio.Prelude.{◌≡◌, refl, [], ◌∷◌, ◌++◌, arith, false, replicate}
use sik_telnet_radio.Outcome.{crash, division}
use sik_telnet_radio.Packet.{AudioPacket}
use sik_telnet_radio.Buffer.{create}
use sik_telnet_radio.Receiver.Audio.{AudioReceiver, handle_audio_packet}
use sik_telnet_radio.Receiver.Audio.Session.{handle_audio_packet-no_audio}

abbrev pub silent : AudioReceiver
silent = record {
  buffer = create 9;
  has_printed = false;
  cur_session = 0;
  audio_printer_event = [];
}

abbrev opening : AudioPacket
opening = record {
  session_id = 5;
  first_byte_num = 20;
  psize = 2;
  bytes = replicate 16 0 ++ 8 ∷ 9 ∷ [];
}

handle_audio_packet-no_audio_example :
    handle_audio_packet silent (record opening { psize = 0 }) ≡ crash division
unfolding create
handle_audio_packet-no_audio_example =
    handle_audio_packet-no_audio silent (record opening { psize = 0 }) (omega arith) (omega arith)
      (omega arith) refl
