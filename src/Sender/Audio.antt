-- ===== src/Sender/Audio.antt =====
-- `AudioSenderWorker` of sender/audio_sender.cc.
pub mod Stream
mod Tests
use sik_telnet_radio.Prelude.{
  ℕ, ◌+◌, List, [], ◌∷◌, ◌++◌, Option, none, some, length, ◌==◌, if◌then◌else◌,
}
use sik_telnet_radio.Outcome.{Outcome, ok, crash, fatal, ◌>>=◌, ◌>>◌, guard, add_size}
use sik_telnet_radio.Packet.{AudioPacket, outgoing}
use sik_telnet_radio.Events.{EventType, terminate}
use sik_telnet_radio.Buffer.{CircularBuffer, create, reset, try_put}

-- `filled` is the first `nread` bytes of `audio_buf`; the rest of it is zero and not looked at. `sent`
-- is what went to the network.
pub record AudioSender : Type 0 where
  pub session_id : ℕ
  pub psize : ℕ
  pub filled : List ℕ
  pub first_byte_num : ℕ
  pub packet_cache : CircularBuffer
  pub sent : List AudioPacket

-- The sender as `main` of sender/sender.cc makes it, with a cache of `fsize` bytes.
unfoldable pub new_sender : ℕ → ℕ → ℕ → AudioSender
new_sender session_id psize fsize = record {
  session_id = session_id;
  psize = psize;
  filled = [];
  first_byte_num = 0;
  packet_cache = reset (create fsize) psize;
  sent = [];
}

-- What `poll` reports in a round: an event, or what `read` gives on the standard input, `none` being
-- its -1.
pub data Input : Type 0 where
  event : EventType → Input
  audio : Option (List ℕ) → Input

-- `sendto` returns how many bytes went out, `htonl` is the system's.
module _ (sendto : List ℕ → ℕ) (htonl : ℕ → ℕ) where
  unfoldable pub send_packet : AudioSender → AudioPacket → Outcome AudioSender
  send_packet st packet = do
    guard (packet.psize + 16 == sendto packet.bytes) fatal
    cache ← try_put st.packet_cache packet
    ok (record st { packet_cache = cache; sent = st.sent ++ packet ∷ [] })

  -- The round that got `chunk`, which is not empty.
  unfoldable pub take_chunk : AudioSender → List ℕ → Outcome AudioSender
  take_chunk st chunk =
      let filled = st.filled ++ chunk in
      if length filled == st.psize
      then (do
        st' ← send_packet st (outgoing htonl st.session_id st.first_byte_num filled st.psize)
        ok (record st' { first_byte_num = add_size st.first_byte_num st.psize; filled = [] }))
      else ok (record st { filled = filled })

  -- The loop, on the rounds to come: an empty list is a `poll` that waits.
  unfoldable pub run : AudioSender → List Input → Outcome AudioSender
  run st [] = ok st
  run st (event terminate ∷ inputs) = ok st
  run st (event _ ∷ inputs) = run st inputs
  run st (audio none ∷ inputs) = crash fatal
  run st (audio (some []) ∷ inputs) = ok st
  run st (audio (some (b ∷ bytes)) ∷ inputs) = take_chunk st (b ∷ bytes) >>= λ st'. run st' inputs
