-- ===== src/Sender/Controller.antt =====
-- `ControllerWorker` of sender/controller.cc.
pub mod Requests
pub mod Tests
use sik_telnet_radio.Prelude.{ℕ, Bool, List, [], ◌∷◌, ◌++◌, Option, none, some, ◌==◌, if◌then◌else◌}
use sik_telnet_radio.Outcome.{Outcome, ok, crash, bounds, thrown, ◌>>=◌}
use sik_telnet_radio.Net.{Bytes, SockaddrIn}
use sik_telnet_radio.Packet.{LookupReply}
use sik_telnet_radio.Events.{EventType, EventQueue, push, terminate, new_jobs}
use sik_telnet_radio.Text.{c_str}
use sik_telnet_radio.Datagram.{RexmitRequest, parse_lookup, parse_rexmit, print_reply}

-- `replies` is what went to the network, with where it went.
pub record Controller : Type 0 where
  pub lookup_reply : LookupReply
  pub retransmitter_event : EventQueue
  pub rexmit_job_queue : List RexmitRequest
  pub replies : List (SockaddrIn × Bytes)

-- A reply that is not sent whole is logged, and nothing else.
unfoldable pub handle_lookup_request : Controller → SockaddrIn → Controller
handle_lookup_request st src_addr = record st {
  replies = st.replies ++ (src_addr, print_reply st.lookup_reply) ∷ [];
}

unfoldable pub handle_rexmit_request : Controller → RexmitRequest → Controller
handle_rexmit_request st req = record st {
  rexmit_job_queue = st.rexmit_job_queue ++ req ∷ [];
  retransmitter_event = push st.retransmitter_event new_jobs;
}

-- What the second `try` makes of the request: an exception is caught and the request is not known.
abbrev second_try : Controller → Outcome RexmitRequest → Outcome Controller
second_try st (ok req) = ok (handle_rexmit_request st req)
second_try st (crash thrown) = ok st
second_try st (crash e) = crash e

abbrev first_try : Controller → SockaddrIn → Bytes → Outcome (Unit {0}) → Outcome Controller
first_try st src_addr text (ok _) = ok (handle_lookup_request st src_addr)
first_try st src_addr text (crash thrown) = second_try st (parse_rexmit src_addr text)
first_try st src_addr text (crash e) = crash e

unfoldable pub handle_request : Controller → SockaddrIn → Bytes → Outcome Controller
handle_request st src_addr text = first_try st src_addr text (parse_lookup text)

-- What `poll` reports in a round: an event, or what `recvfrom` gives, `none` being its -1, which makes
-- the code write in front of `req_buf`.
pub data Message : Type 0 where
  event : EventType → Message
  datagram : SockaddrIn → Option Bytes → Message

unfoldable pub serve : Controller → List Message → Outcome Controller
serve st [] = ok st
serve st (event terminate ∷ messages) = ok st
serve st (event _ ∷ messages) = serve st messages
serve st (datagram src_addr none ∷ messages) = crash bounds
serve st (datagram src_addr (some bytes) ∷ messages) =
    handle_request st src_addr (c_str bytes) >>= λ st'. serve st' messages
