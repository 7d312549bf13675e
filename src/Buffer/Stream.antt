-- ===== src/Buffer/Stream.antt =====
-- Whole streams of packets, from the reset of a buffer on.
use native.Mathlib.Nat.{zero-mul, le-div_iff_mul-le, div-mul-le_self, lt-div-mul-add}
use sik_telnet_radio.Prelude.{
  ℕ, ◌+◌, ◌-◌, ◌*◌, ◌%◌, ◌/◌, ◌^◌, ◌≤◌, ◌<◌, ◌≡◌, refl, ap, ◌∙◌, arith, length, List, [], ◌∷◌,
  remember, remember_all, remember_all-nil, keep_last, map, subst,
}
use sik_telnet_radio.Outcome.{ok, ◌>>=◌, memset}
use sik_telnet_radio.Packet.{AudioPacket, audio_data}
use sik_telnet_radio.Window.{turn}
use sik_telnet_radio.Buffer.{CircularBuffer, put_all, reset, reset_at}
use sik_telnet_radio.Buffer.Shape.{room-mul}
use sik_telnet_radio.Buffer.Slots.{Payload, read_constant}
use sik_telnet_radio.Buffer.Refine.{Holds}
use sik_telnet_radio.Buffer.Put.{payload_of, try_put-next, try_put-far}

-- Each packet starts where the one before it ends, and carries at least `p` bytes.
abbrev pub Consecutive : ℕ → ℕ → List AudioPacket → Type 0
Consecutive p first [] = Unit {0}
Consecutive p first (packet ∷ packets) =
    (packet.first_byte_num ≡ first)
    × (p ≤ length (audio_data packet))
    × Consecutive p (first + p) packets

put_all-remember :
    (p : ℕ) (packets : List AudioPacket) {b : CircularBuffer} {k : ℕ} {xs : List Payload}
    → Holds b k xs
    → b.psize ≡ p
    → Consecutive p b.abs_head packets
    → b.abs_head + length packets * p < 2 ^ 63
    → (b' : CircularBuffer) × (put_all b packets ≡ ok b')
      × Holds b' k (remember_all (k - 1) xs (map (payload_of p) packets))
      × (b'.abs_head ≡ b.abs_head + length packets * p)
unfolding put_all
put_all-remember p [] {b} h e c small = (b, refl, h, omega arith)
put_all-remember p (packet ∷ packets) {b} {k} {xs} h e (at, enough, c) small =
    let (b', run, holds, moved) =
      try_put-next h packet (omega (arith, e, enough)) (omega (arith, at, e, small)) at in
    let (b'', runs, final, far) =
      put_all-remember p packets holds (moved.same_psize ∙ e)
        (subst (λ first. Consecutive p first packets) (omega (arith, moved.abs_head_is, at, e)) c)
        (omega (arith, moved.abs_head_is, at, e, small)) in
    (
      b'',
      ap (λ r. r >>= λ b'. put_all b' packets) run ∙ runs,
      subst
          (λ q. Holds b'' k (
            remember_all (k - 1) (remember (k - 1) xs (payload_of q packet))
              (map (payload_of p) packets)))
          e final,
      omega (arith, far, moved.abs_head_is, at, e),
    )

-- The arithmetic of a capacity that holds `k` packets.
reset_at-Holds_slots :
    (b : CircularBuffer) (p a k : ℕ)
    → 0 < p
    → 1 < k
    → k * p ≤ b.capacity
    → b.capacity < k * p + p
    → b.capacity < 2 ^ 62
    → a < 2 ^ 63
    → Holds (reset_at b p a) k []
unfolding reset_at reset memset
reset_at-Holds_slots b p a k pos two lo hi small far = record {
  tail_slot = 0;
  count = 0;
  shape = record {
    psize_pos = pos;
    two_slots = two;
    slots_fit = lo;
    slots_fill = hi;
    small = small;
    tail_in = omega (arith, two);
    count_in = omega (arith, two);
    tail_is = omega arith;
    head_is =
        omega (arith, zero-mul p, ap (λ (s : ℕ). s * p) {x = turn k 0 0} {y = 0} (ground arith));
    past = omega arith;
    abs_small = far;
  };
  reads = refl;
  quiet = λ j hj _.
      read_constant (memset b.memory 0 b.capacity 0) 0 (j * p) p
        (λ i low high. ground (arith, room-mul p j k hj));
}

-- `reset` to packets of `p` bytes, of which the buffer has room for two or more, leaves a buffer with
-- `capacity / p` slots that holds nothing and starts at `a`.
pub reset_at-Holds :
    (b : CircularBuffer) (p a : ℕ)
    → 0 < p
    → 2 * p ≤ b.capacity
    → b.capacity < 2 ^ 62
    → a < 2 ^ 63
    → Holds (reset_at b p a) (b.capacity / p) []
reset_at-Holds b p a pos room small far =
    reset_at-Holds_slots b p a (b.capacity / p) pos ((le-div_iff_mul-le pos).1 room)
      (div-mul-le_self b.capacity p) (lt-div-mul-add pos) small far

-- A stream of consecutive packets leaves the last `k - 1` of them in an empty buffer of `k` slots, in
-- their order, and ends no run by a fault.
pub put_all-stream :
    {b : CircularBuffer} {k : ℕ} (packets : List AudioPacket)
    → Holds b k []
    → Consecutive b.psize b.abs_head packets
    → b.abs_head + length packets * b.psize < 2 ^ 63
    → (b' : CircularBuffer) × (put_all b packets ≡ ok b')
      × Holds b' k (keep_last (k - 1) (map (payload_of b.psize) packets))
      × (b'.abs_head ≡ b.abs_head + length packets * b.psize)
put_all-stream {b} {k} packets h c small =
    let (b', run, holds, far) = put_all-remember b.psize packets h refl c small in
    (
      b',
      run,
      subst (Holds b' k) (remember_all-nil (k - 1) (map (payload_of b.psize) packets)) holds,
      far,
    )

-- Every packet of the stream after a loss of two or more.
abbrev pub Beyond : ℕ → ℕ → List AudioPacket → Type 0
Beyond p head [] = Unit {0}
Beyond p head (packet ∷ packets) =
    (head + p < packet.first_byte_num)
    × (packet.first_byte_num < 2 ^ 63)
    × ((packet.first_byte_num - head) % p ≡ 0)
    × Beyond p head packets

-- Once two packets in a row are missing, no later packet of the stream gets into the buffer: it stays
-- as it is, however many packets come.
pub put_all-far :
    {b : CircularBuffer} {k : ℕ} {xs : List Payload} (packets : List AudioPacket)
    → Holds b k xs
    → Beyond b.psize b.abs_head packets
    → put_all b packets ≡ ok b
unfolding put_all
put_all-far [] h far = refl
put_all-far {b} (packet ∷ packets) h (far, small, aligned, rest) =
    ap (λ r. r >>= λ b'. put_all b' packets) (try_put-far h packet far small aligned)
    ∙ put_all-far packets h rest
