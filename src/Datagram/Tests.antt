-- ===== src/Datagram/Tests.antt =====
-- Concrete datagrams.
use sik_telnet_radio.Prelude.{◌≡◌, refl, [], ◌∷◌, some, arith}
use sik_telnet_radio.Outcome.{ok, crash, bounds}
use sik_telnet_radio.Net.{SockaddrIn, Resolver, get_mcast_addr}
use sik_telnet_radio.Packet.{LookupReply}
use sik_telnet_radio.Station.{is_valid_name, all_printable, bytes_eq}
use sik_telnet_radio.Text.{trimmed}
use sik_telnet_radio.Datagram.{
  parse_lookup, print_lookup, parse_reply, print_reply, RexmitRequest, check_back, parse_rexmit,
  print_rexmit,
}
use sik_telnet_radio.Datagram.RoundTrip.{parse_rexmit-print_rexmit}
use sik_telnet_radio.Datagram.Replies.{parse_reply-print_reply}

abbrev somewhere : SockaddrIn
somewhere = record { sin_family = 2; s_addr = 3_758_096_384; sin_port = 9 }

-- A resolver that knows one address, 224.0.0.0, on a machine with the network's byte order.
abbrev group : Resolver
group = record {
  getaddrinfo = λ host. some 3_758_096_384;
  inet_pton = λ host. some 3_758_096_384;
  htons = λ port. port;
  ntohl = λ a. a;
}

abbrev answer : LookupReply
answer = record { mcast_addr = b'g' ∷ []; data_port = 29_629; name = b'a' ∷ b' ' ∷ b'b' ∷ [] }

abbrev missing : RexmitRequest
missing = record {
  receiver_addr = somewhere;
  packet_ids = 0 ∷ 512 ∷ 18_446_744_073_709_551_615 ∷ [];
}

lookup_there_and_back : parse_lookup print_lookup ≡ ok tt
unfolding parse_lookup print_lookup trimmed bytes_eq
lookup_there_and_back = refl

empty_request : parse_rexmit somewhere [] ≡ crash bounds
unfolding parse_rexmit check_back trimmed
empty_request = refl

parse_rexmit-print_rexmit_example : parse_rexmit somewhere (print_rexmit missing) ≡ ok missing
parse_rexmit-print_rexmit_example = parse_rexmit-print_rexmit missing (omega arith)

parse_reply-print_reply_example : parse_reply group (print_reply answer) ≡ ok answer
unfolding get_mcast_addr is_valid_name all_printable
parse_reply-print_reply_example =
    parse_reply-print_reply group answer {addr = record somewhere { sin_port = 29_629 }} refl
      (omega arith) refl refl
