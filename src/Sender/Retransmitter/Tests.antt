-- ===== src/Sender/Retransmitter/Tests.antt =====
-- A request for two of the three packets in a cache.
use sik_telnet_radio.Prelude.{◌≡◌, [], ◌∷◌, arith, length, true, false}
use sik_telnet_radio.Outcome.{ok}
use sik_telnet_radio.Net.{SockaddrIn}
use sik_telnet_radio.Datagram.{RexmitRequest}
use sik_telnet_radio.Buffer.{CircularBuffer}
use sik_telnet_radio.Buffer.Shape.{Shape}
use sik_telnet_radio.Sender.Retransmitter.{handle_retransmission}
use sik_telnet_radio.Sender.Retransmitter.Cached.{handle_retransmission-nothing}

abbrev cache : CircularBuffer
cache = record {
  abs_head = 16;
  byte0 = 10;
  capacity = 9;
  psize = 2;
  tail = 0;
  head = 6;
  memory = λ i. i;
  occupied = λ i. true;
  empty = false;
}

abbrev cache-Shape : Shape cache 4 0 3
cache-Shape = omega arith

abbrev receiver : SockaddrIn
receiver = record { sin_family = 2; s_addr = 5; sin_port = 6 }

abbrev wanted : RexmitRequest
wanted = record { receiver_addr = receiver; packet_ids = 14 ∷ 10 ∷ [] }

handle_retransmission-nothing_example : handle_retransmission length 7 cache wanted ≡ ok []
handle_retransmission-nothing_example =
    handle_retransmission-nothing cache-Shape length 7 wanted
      ((2, omega arith, omega arith), ((0, omega arith, omega arith), tt))
