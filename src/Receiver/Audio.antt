-- ===== src/Receiver/Audio.antt =====
-- `AudioReceiverWorker` of receiver/audio_receiver.cc and `AudioPrinterWorker` of
-- receiver/audio_printer.cc.
pub mod Session
pub mod Tuner
pub mod Reception
pub mod Tuned
pub mod Tests
use sik_telnet_radio.Prelude.{
  ℕ, ◌+◌, Bool, true, false, ◌||◌, List, [], ◌∷◌, Option, none, some, ltb, leb, if◌then◌else◌,
}
use sik_telnet_radio.Outcome.{Outcome, ok, crash, thrown, fatal, ◌>>=◌, handled, add_size, sub_size}
use sik_telnet_radio.Packet.{AudioPacket, read_packet}
use sik_telnet_radio.Events.{
  EventType, EventQueue, push, terminate, current_station_changed, new_jobs,
}
use sik_telnet_radio.Buffer.{CircularBuffer, reset_at, try_put, printing_threshold, dump_tail}

abbrev pub no_session : ℕ
no_session = 0

-- `has_printed` and `cur_session` are variables of `run`.
pub record AudioReceiver : Type 0 where
  pub buffer : CircularBuffer
  pub has_printed : Bool
  pub cur_session : ℕ
  pub audio_printer_event : EventQueue

unfoldable pub start_session : AudioReceiver → AudioPacket → AudioReceiver
start_session st packet =
    if ltb st.cur_session packet.session_id
    then record st {
      cur_session = packet.session_id;
      has_printed = false;
      buffer = reset_at st.buffer packet.psize packet.first_byte_num;
    }
    else st

-- The event for the printer, once enough has come.
unfoldable pub wake_printer : AudioReceiver → AudioPacket → AudioReceiver
wake_printer st packet =
    let last_byte = sub_size (add_size packet.first_byte_num st.buffer.psize) 1 in
    if st.has_printed || leb (printing_threshold st.buffer) last_byte
    then record st {
      has_printed = true;
      audio_printer_event = push st.audio_printer_event new_jobs;
    }
    else st

unfoldable pub take_packet : AudioReceiver → AudioPacket → Outcome AudioReceiver
take_packet st packet = if ltb packet.first_byte_num st.buffer.byte0 then ok st else (do
  buffer ← try_put st.buffer packet
  ok (wake_printer (record st { buffer = buffer }) packet))

unfoldable pub handle_audio_packet : AudioReceiver → AudioPacket → Outcome AudioReceiver
handle_audio_packet st packet =
    if ltb packet.session_id st.cur_session
    then ok st
    else if ltb st.buffer.capacity st.buffer.psize
    then ok (record st { cur_session = no_session })
    else take_packet (start_session st packet) packet

-- What `poll` reports in a round: an event, or what the socket gives.
pub data Round : Type 0 where
  event : EventType → Round
  datagram : Option (List ℕ) → Round

-- `run`. To change the station is to open another socket and to forget the session.
unfoldable pub listen : (ℕ → ℕ) → AudioReceiver → List Round → Outcome AudioReceiver
listen ntohl st [] = ok st
listen ntohl st (event terminate ∷ rounds) = ok st
listen ntohl st (event current_station_changed ∷ rounds) =
    listen ntohl (record st { cur_session = no_session }) rounds
listen ntohl st (event _ ∷ rounds) = listen ntohl st rounds
listen ntohl st (datagram bytes ∷ rounds) =
    handled (read_packet ntohl bytes >>= handle_audio_packet st) (ok st) >>= λ st'.
    listen ntohl st' rounds

-- The printer's `handle_print`; the first component of the result is what is printed.
unfoldable pub handle_print : (List ℕ → ℕ) → CircularBuffer → Outcome (List ℕ × CircularBuffer)
handle_print write b = dump_tail write b b.psize
