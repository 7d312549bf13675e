-- ===== src/Receiver/Rexmit.antt =====
-- `RexmitSenderWorker` of receiver/rexmit_sender.cc.
pub mod Asked
mod Tests
use sik_telnet_radio.Prelude.{
  ℕ, zero, suc, ◌+◌, Bool, true, false, List, [], ◌∷◌, Option, none, some, ltb, ◌==◌, if◌then◌else◌,
}
use sik_telnet_radio.Outcome.{
  Outcome, ok, crash, bounds, hang, ◌>>=◌, ◌>>◌, guard, add_size, mod_size,
}
use sik_telnet_radio.Net.{SockaddrIn, Bytes, af_inet}
use sik_telnet_radio.Station.{RadioStation}
use sik_telnet_radio.Datagram.{RexmitRequest, print_rexmit}
use sik_telnet_radio.Buffer.{CircularBuffer, rounded_cap, abs_tail}

-- The loop from index `i` on, a round for each unit of fuel: the ids that it collects.
unfoldable pub missing_from : ℕ → CircularBuffer → ℕ → Outcome (List ℕ)
missing_from zero b i = crash hang
missing_from (suc fuel) b i =
    let rest =
      rounded_cap b >>= λ r. mod_size (add_size i b.psize) r >>= λ j. missing_from fuel b j in
    let ask = abs_tail b >>= λ tail_num. rest >>= λ ids. ok (add_size i tail_num ∷ ids) in
    let round = guard (ltb i b.capacity) bounds >> (if b.occupied i then rest else ask) in
    if i == b.head then ok [] else round

-- No slot is visited twice, so `capacity` rounds are enough.
unfoldable pub missing_ids : CircularBuffer → Outcome (List ℕ)
missing_ids b = if b.empty then ok [] else missing_from (b.capacity + 1) b b.tail

abbrev my_addr : SockaddrIn
my_addr = record { sin_family = af_inet; s_addr = 0; sin_port = 0 }

abbrev request : RadioStation → List ℕ → Option (SockaddrIn × Bytes)
request station [] = none
request station (id ∷ ids) =
    some
      (station.ctrl_addr, print_rexmit (record { receiver_addr = my_addr; packet_ids = id ∷ ids }))

-- The datagram that is sent, with where it goes. Whether it went out is only logged.
unfoldable pub order_retransmission :
    Option RadioStation → CircularBuffer → Outcome (Option (SockaddrIn × Bytes))
order_retransmission none b = ok none
order_retransmission (some station) b = do ids ← missing_ids b; ok (request station ids)
