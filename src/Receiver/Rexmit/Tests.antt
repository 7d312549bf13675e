-- ===== src/Receiver/Rexmit/Tests.antt =====
-- A buffer whose tail is on slot 1 and that misses the packet behind it, number 12.
use sik_telnet_radio.Prelude.{◌≡◌, refl, [], ◌∷◌, arith, false, not, ◌==◌}
use sik_telnet_radio.Outcome.{ok}
use sik_telnet_radio.Buffer.{CircularBuffer}
use sik_telnet_radio.Buffer.Shape.{Shape}
use sik_telnet_radio.Receiver.Rexmit.{missing_ids}
use sik_telnet_radio.Receiver.Rexmit.Asked.{asked, missing_ids-asked}

abbrev holed : CircularBuffer
holed = record {
  abs_head = 16;
  byte0 = 0;
  capacity = 9;
  psize = 2;
  tail = 2;
  head = 0;
  memory = λ i. i;
  occupied = λ i. not (i == 4);
  empty = false;
}

abbrev holed-Shape : Shape holed 4 1 3
holed-Shape = omega arith

-- The slot of packet 12 is number 4, and the tail is packet 10.
asks_beyond : asked holed-Shape 1 3 ≡ 14 ∷ []
asks_beyond = refl

missing_ids-asked_example : missing_ids holed ≡ ok (asked holed-Shape 1 3)
missing_ids-asked_example = missing_ids-asked holed-Shape refl
