-- ===== src/Sender/Controller/Requests.antt =====
-- What the controller does with the requests that receivers send.
use sik_telnet_radio.Prelude.{
  ℕ, ◌≡◌, refl, sym, ◌∙◌, true, List, [], ◌∷◌, ◌++◌, arith, some, append_assoc, map, append-nil,
  length, replicate,
}
use sik_telnet_radio.Outcome.{ok, crash, thrown}
use sik_telnet_radio.Net.{Bytes, SockaddrIn}
use sik_telnet_radio.Station.{bytes_eq}
use sik_telnet_radio.Text.{c_str, trimmed, print}
use sik_telnet_radio.Text.Numbers.{is_numeric-digits}
use sik_telnet_radio.Text.Pieces.{lacks, trimmed-newline, is_numeric-lacks_other, lacks-append}
use sik_telnet_radio.Events.{push, new_jobs}
use sik_telnet_radio.Datagram.{
  RexmitRequest, parse_lookup, print_lookup, rexmit_prefix, print_rexmit, print_ids, print_more,
  print_reply,
}
use sik_telnet_radio.Datagram.RoundTrip.{Small, parse_rexmit-print_rexmit}
use sik_telnet_radio.Sender.Controller.{
  Controller, Message, datagram, handle_lookup_request, handle_rexmit_request, handle_request,
  serve,
}

-- A request with who sends it.
pub data Request : Type 0 where
  lookup : SockaddrIn → Request
  rexmit : RexmitRequest → Request

abbrev pub message : Request → Message
message (lookup src_addr) = datagram src_addr (some print_lookup)
message (rexmit req) = datagram req.receiver_addr (some (print_rexmit req))

abbrev pub Sendable : List Request → Type 0
Sendable [] = Unit {0}
Sendable (lookup src_addr ∷ requests) = Sendable requests
Sendable (rexmit req ∷ requests) = Small req.packet_ids × Sendable requests

abbrev pub lookups : List Request → List SockaddrIn
lookups [] = []
lookups (lookup src_addr ∷ requests) = src_addr ∷ lookups requests
lookups (rexmit req ∷ requests) = lookups requests

abbrev pub rexmits : List Request → List RexmitRequest
rexmits [] = []
rexmits (lookup src_addr ∷ requests) = rexmits requests
rexmits (rexmit req ∷ requests) = req ∷ rexmits requests

pub c_str_whole : (cs : Bytes) → lacks 0 cs ≡ true → c_str cs ≡ cs
unfolding c_str
c_str_whole [] h = refl
c_str_whole (c ∷ cs) h = ground (arith, c_str_whole cs)

pub print-lacks_zero : (n : ℕ) → lacks 0 (print n) ≡ true
print-lacks_zero n = is_numeric-lacks_other 0 (print n) refl (is_numeric-digits 20 n)

print_more-lacks : (ids : List ℕ) → lacks 0 (print_more ids) ≡ true
unfolding print_more
print_more-lacks [] = refl
print_more-lacks (id ∷ ids) =
    lacks-append 0 (print id) (print_more ids) (print-lacks_zero id) (print_more-lacks ids)

print_ids-lacks : (ids : List ℕ) → lacks 0 (print_ids ids) ≡ true
unfolding print_ids
print_ids-lacks [] = refl
print_ids-lacks (id ∷ ids) =
    lacks-append 0 (print id) (print_more ids) (print-lacks_zero id) (print_more-lacks ids)

print_rexmit-lacks : (req : RexmitRequest) → lacks 0 (print_rexmit req) ≡ true
unfolding print_rexmit
print_rexmit-lacks req =
    lacks-append 0 (rexmit_prefix ++ b' ' ∷ print_ids req.packet_ids) (b'\n' ∷ [])
      (print_ids-lacks req.packet_ids) refl

-- A printed request for retransmission is no lookup request.
print_rexmit-no_lookup : (req : RexmitRequest) → parse_lookup (print_rexmit req) ≡ crash thrown
unfolding parse_lookup print_rexmit bytes_eq
print_rexmit-no_lookup req =
    rw (trimmed-newline (rexmit_prefix ++ b' ' ∷ print_ids req.packet_ids)) refl

serve_lookup :
    (st : Controller) (src_addr : SockaddrIn) (messages : List Message)
    → serve st (message (lookup src_addr) ∷ messages)
      ≡ serve (handle_lookup_request st src_addr) messages
unfolding serve handle_request parse_lookup print_lookup c_str trimmed bytes_eq
serve_lookup st src_addr messages = refl

serve_rexmit :
    (st : Controller) (req : RexmitRequest) (messages : List Message)
    → Small req.packet_ids
    → serve st (message (rexmit req) ∷ messages) ≡ serve (handle_rexmit_request st req) messages
unfolding serve handle_request
serve_rexmit st req messages small =
    rw
      (
        c_str_whole (print_rexmit req) (print_rexmit-lacks req),
        print_rexmit-no_lookup req,
        parse_rexmit-print_rexmit req small,
      )
      refl

-- The controller serves requests as receivers print them, with packet ids of 64 bits, without a fault.
-- Each lookup is answered with the sender's reply, and each request for retransmission is queued as it
-- was, with an event for it, all in the order in which they came.
pub serve-requests :
    (st : Controller) (requests : List Request)
    → Sendable requests
    → (st' : Controller) × (serve st (map message requests) ≡ ok st')
      × (st'.replies
          ≡ st.replies ++ map (λ addr. (addr, print_reply st.lookup_reply)) (lookups requests))
      × (st'.rexmit_job_queue ≡ st.rexmit_job_queue ++ rexmits requests)
      × (st'.retransmitter_event
          ≡ st.retransmitter_event ++ replicate (length (rexmits requests)) new_jobs)
unfolding handle_lookup_request handle_rexmit_request push
serve-requests st [] h = (
  st,
  unfold serve in refl,
  sym (append-nil st.replies),
  sym (append-nil st.rexmit_job_queue),
  sym (append-nil st.retransmitter_event),
)
serve-requests st (lookup src_addr ∷ requests) h =
    let (st', runs, replies, jobs, events) =
      serve-requests (handle_lookup_request st src_addr) requests h in
    (
      st',
      serve_lookup st src_addr (map message requests) ∙ runs,
      replies ∙ append_assoc st.replies _ _,
      jobs,
      events,
    )
serve-requests st (rexmit req ∷ requests) (small, h) =
    let (st', runs, replies, jobs, events) =
      serve-requests (handle_rexmit_request st req) requests h in
    (
      st',
      serve_rexmit st req (map message requests) small ∙ runs,
      replies,
      jobs ∙ append_assoc st.rexmit_job_queue _ _,
      events ∙ append_assoc st.retransmitter_event _ _,
    )
