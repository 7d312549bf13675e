-- ===== src/Params/Overflow.antt =====
-- A cache that is smaller than a packet.
use native.Mathlib.Nat.{div-eq_of_lt, zero-mod}
use sik_telnet_radio.Prelude.{
  ℕ, suc, ◌+◌, ◌%◌, ◌<◌, ◌≡◌, refl, ap, true, [], ◌∷◌, List, arith, length, le→ltb, lt→leb, ◌==◌,
  ==_iff,
}
use sik_telnet_radio.Outcome.{ok, crash, bounds, mod_size_lem, div_size_lem, add_size}
use sik_telnet_radio.Packet.{AudioPacket, outgoing}
use sik_telnet_radio.Packet.RoundTrip.{length-take}
use sik_telnet_radio.Buffer.{
  CircularBuffer, create, reset, try_put, abs_tail, range, rounded_cap, try_push_head, push_at,
  restart, store,
}
use sik_telnet_radio.Sender.Audio.{new_sender, send_packet, take_chunk, run}
use sik_telnet_radio.Sender.Audio.Stream.{reads}

no_slots : (b : CircularBuffer) → b.capacity < b.psize → rounded_cap b ≡ ok 0
unfolding rounded_cap
no_slots b h =
    rw (div_size_lem b.capacity b.psize (omega arith), div-eq_of_lt h) (ap ok (omega arith))

full : (a b : ℕ) → a ≡ b → (a == b) ≡ true
full a b = (==_iff a b).1

zero_mod : (n : ℕ) → (0 % n == 0) ≡ true
zero_mod n = ap (λ m. m == 0) (zero-mod n)

small_store :
    (b : CircularBuffer) (packet : AudioPacket)
    → b.capacity < b.psize
    → store b 0 packet ≡ crash bounds
unfolding store
small_store b packet h = rw (lt→leb (0 + b.psize) b.capacity (omega arith)) refl

small_push :
    (b : CircularBuffer) (packet : AudioPacket)
    → b.capacity < b.psize
    → push_at b packet 0 ≡ crash bounds
unfolding push_at restart reset
small_push b packet h =
    let b' = record b { abs_head = add_size packet.first_byte_num b.psize } in
    rw
      (
        mod_size_lem 0 b.psize (omega arith),
        zero_mod b.psize,
        le→ltb b.psize 0 (omega arith),
        no_slots b' h,
        small_store (reset b' b.psize) packet h,
      )
      refl

-- The first packet for a cache that is smaller than a packet is written past its end.
small_put :
    (f p : ℕ) (packet : AudioPacket)
    → f < p
    → try_put (reset (create f) p) (record packet { first_byte_num = 0 }) ≡ crash bounds
unfolding try_put try_push_head abs_tail range reset create
small_put f p packet h = small_push (reset (create f) p) (record packet { first_byte_num = 0 }) h

-- A sender whose packets are larger than its cache writes past the end of the cache as soon as it has
-- read one packet, although `sendto` took it.
pub run-overflow :
    (sendto : List ℕ → ℕ) (htonl : ℕ → ℕ) (session_id psize fsize : ℕ) (c : List ℕ)
    → ((bytes : List ℕ) → sendto bytes ≡ length bytes)
    → fsize < psize
    → length c ≡ psize
    → run sendto htonl (new_sender session_id psize fsize) (reads (c ∷ [])) ≡ crash bounds
unfolding run take_chunk send_packet new_sender outgoing
run-overflow sendto htonl s p f [] all h e = absurd (omega (arith, h, e))
run-overflow sendto htonl s p f (x ∷ xs) all h e =
    let packet = outgoing htonl s 0 (x ∷ xs) p in
    rw
      (
        full (suc (length xs)) p e,
        all packet.bytes,
        full (p + 16) (length packet.bytes)
            (omega (arith, length-take p (x ∷ xs) (omega (arith, e)))),
        small_put f p packet h,
      )
      refl
