-- ===== src/Buffer/Put.antt =====
-- `try_put`: which packets are taken, which are dismissed, and what a stream of packets leaves.
use sik_telnet_radio.Prelude.{
  ℕ, ◌+◌, ◌-◌, ◌*◌, ◌%◌, ◌^◌, ◌≤◌, ◌<◌, ◌≡◌, ap, ◌∙◌, ◌≢◌, arith, ◌==◌, le→leb, lt→leb, lt→ltb,
  le→ltb, length, take, some, none, List, false, remember,
}
use sik_telnet_radio.Outcome.{ok, crash, assertion, mod_size_lem}
use sik_telnet_radio.Packet.{AudioPacket, audio_data}
use sik_telnet_radio.Buffer.{CircularBuffer, push_at, try_push_head, fill_gap, try_put}
use sik_telnet_radio.Buffer.Shape.{Shape-abs_tail}
use sik_telnet_radio.Buffer.Slots.{Payload}
use sik_telnet_radio.Buffer.Refine.{Holds, Advanced, push-next, push-skip}

abbrev pub payload_of : ℕ → AudioPacket → Payload
payload_of p packet = some (take p (audio_data packet))

eq_no : (a : ℕ) → a ≢ 0 → (a == 0) ≡ false
eq_no a h = ground arith

module _ {b : CircularBuffer} {k : ℕ} {xs : List Payload} (h : Holds b k xs) where
  open h use {tail_slot as t, count as n, shape as v}

  put_ahead :
      (packet : AudioPacket)
      → b.abs_head ≤ packet.first_byte_num
      → try_put b packet ≡ try_push_head b packet
  unfolding try_put
  put_ahead packet lo = rw (
    Shape-abs_tail v,
    le→ltb packet.first_byte_num (b.abs_head - n * b.psize) (omega arith),
    le→leb b.abs_head packet.first_byte_num lo,
  )

  put_inside :
      (packet : AudioPacket)
      → b.abs_head ≤ packet.first_byte_num + n * b.psize
      → packet.first_byte_num < b.abs_head
      → try_put b packet ≡ fill_gap b packet
  unfolding try_put
  put_inside packet lo hi = rw (
    Shape-abs_tail v,
    le→ltb packet.first_byte_num (b.abs_head - n * b.psize) (omega arith),
    lt→leb b.abs_head packet.first_byte_num hi,
  )

  -- A packet that follows the newest one is appended to what the buffer holds; of a full buffer the
  -- oldest packet is forgotten.
  pub try_put-next :
      (packet : AudioPacket)
      → b.psize ≤ length (audio_data packet)
      → packet.first_byte_num + b.psize < 2 ^ 63
      → packet.first_byte_num ≡ b.abs_head
      → (b' : CircularBuffer) × (try_put b packet ≡ ok b')
        × Holds b' k (remember (k - 1) xs (payload_of b.psize packet))
        × Advanced b b' packet.first_byte_num
  try_put-next packet enough small e =
      let (b', run, holds, rest) = push-next h packet enough small e in
      (b', put_ahead packet (omega arith) ∙ run, holds, rest)

  -- A packet that leaves one packet missing before it is appended behind an empty place.
  pub try_put-skip :
      (packet : AudioPacket)
      → b.psize ≤ length (audio_data packet)
      → packet.first_byte_num + b.psize < 2 ^ 63
      → packet.first_byte_num ≡ b.abs_head + b.psize
      → (b' : CircularBuffer) × (try_put b packet ≡ ok b')
        × Holds b' k (remember (k - 1) (remember (k - 1) xs none) (payload_of b.psize packet))
        × Advanced b b' packet.first_byte_num
  try_put-skip packet enough small e =
      let (b', run, holds, rest) = push-skip h packet enough small e in
      (b', put_ahead packet (omega arith) ∙ run, holds, rest)

  -- A packet from before the window changes nothing.
  pub try_put-old :
      (packet : AudioPacket)
      → packet.first_byte_num + n * b.psize < b.abs_head
      → try_put b packet ≡ ok b
  unfolding try_put
  try_put-old packet old =
      rw (Shape-abs_tail v, lt→ltb packet.first_byte_num (b.abs_head - n * b.psize) (omega arith))

  -- A packet of the stream, more than one packet beyond the newest one, changes nothing.
  pub try_put-far :
      (packet : AudioPacket)
      → b.abs_head + b.psize < packet.first_byte_num
      → packet.first_byte_num < 2 ^ 63
      → (packet.first_byte_num - b.abs_head) % b.psize ≡ 0
      → try_put b packet ≡ ok b
  unfolding try_push_head push_at
  try_put-far packet far small aligned =
      put_ahead packet (omega arith)
      ∙ ap (push_at b packet) {y = packet.first_byte_num - b.abs_head} (omega arith)
      ∙ rw (
        mod_size_lem (packet.first_byte_num - b.abs_head) b.psize v.psize_pos,
        aligned,
        lt→ltb b.psize (packet.first_byte_num - b.abs_head) (omega arith),
      )

  -- A packet ahead of the newest one that is out of step with the packet size fails an assertion.
  pub try_put-misaligned :
      (packet : AudioPacket)
      → b.abs_head ≤ packet.first_byte_num
      → packet.first_byte_num < 2 ^ 63
      → (packet.first_byte_num - b.abs_head) % b.psize ≢ 0
      → try_put b packet ≡ crash assertion
  unfolding try_push_head push_at
  try_put-misaligned packet lo small odd =
      put_ahead packet lo
      ∙ ap (push_at b packet) {y = packet.first_byte_num - b.abs_head} (omega arith)
      ∙ rw (mod_size_lem (packet.first_byte_num - b.abs_head) b.psize v.psize_pos, eq_no _ odd)
