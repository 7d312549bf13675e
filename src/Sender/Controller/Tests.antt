-- ===== src/Sender/Controller/Tests.antt =====
-- A run on three requests.
use sik_telnet_radio.Prelude.{◌≡◌, List, [], ◌∷◌, map, arith}
use sik_telnet_radio.Outcome.{ok}
use sik_telnet_radio.Net.{SockaddrIn}
use sik_telnet_radio.Events.{new_jobs}
use sik_telnet_radio.Datagram.{print_reply}
use sik_telnet_radio.Sender.Controller.{Controller, serve}
use sik_telnet_radio.Sender.Controller.Requests.{
  Request, lookup, rexmit, message, lookups, rexmits, serve-requests,
}

abbrev pub listener : SockaddrIn
listener = record { sin_family = 2; s_addr = 5; sin_port = 6 }

abbrev pub idle : Controller
idle = record {
  lookup_reply = record { mcast_addr = b'g' ∷ []; data_port = 40; name = b'X' ∷ [] };
  retransmitter_event = [];
  rexmit_job_queue = [];
  replies = [];
}

abbrev requests : List Request
requests =
    lookup listener
    ∷ rexmit (record { receiver_addr = listener; packet_ids = 3 ∷ 12 ∷ [] })
    ∷ lookup listener
    ∷ []

serve-requests_example :
    (st' : Controller) × (serve idle (map message requests) ≡ ok st')
    × (st'.replies ≡ map (λ addr. (addr, print_reply idle.lookup_reply)) (lookups requests))
    × (st'.rexmit_job_queue ≡ rexmits requests)
    × (st'.retransmitter_event ≡ new_jobs ∷ [])
serve-requests_example = serve-requests idle requests (omega arith)
