-- ===== src/Buffer/Gap.antt =====
-- `fill_gap`: a packet that belongs into the window.
use native.Mathlib.Nat.{mul-mod_left}
use sik_telnet_radio.Prelude.{
  ℕ, ◌+◌, ◌-◌, ◌*◌, ◌≤◌, ◌<◌, ◌≡◌, refl, ap, ap₂, ◌∙◌, arith, ltb, leb, if◌then◌else◌, ◌&&◌, lt→leb,
  lt→ltb, length, take, set, some, List, true, false, not,
}
use sik_telnet_radio.Outcome.{ok, crash, assertion, bounds, ◌>>◌, guard, sub_size, mod_size_lem}
use sik_telnet_radio.Packet.{AudioPacket, audio_data}
use sik_telnet_radio.Window.{turn, window-set}
use sik_telnet_radio.Buffer.{
  CircularBuffer, Side, left, right, is_left, is_none, sideof, store, gap_position, gap_at,
  fill_gap,
}
use sik_telnet_radio.Buffer.Shape.{
  Shape, Shape-rounded_cap, Shape-abs_tail, room-mul, leb-mul, ltb-mul,
}
use sik_telnet_radio.Buffer.Slots.{Payload, slot, stored, store-Fills}
use sik_telnet_radio.Buffer.Refine.{Holds}

-- The side that `sideof` finds for slot number `j`.
abbrev slot_side : ℕ → ℕ → ℕ → ℕ → Side
slot_side k t h j =
    if leb t h
    then (if leb t j && leb j h then left else Side.none)
    else if leb j h
    then left
    else if leb t j
    then (if ltb j k then right else Side.none)
    else Side.none

module _ {b : CircularBuffer} {k t n : ℕ} (v : Shape b k t n) where
  sideof-slot : (j : ℕ) → sideof b (j * b.psize) ≡ ok (slot_side k t (turn k t n) j)
  unfolding sideof
  sideof-slot j =
      rw
        (
          Shape-rounded_cap v,
          v.tail_is,
          v.head_is,
          leb-mul b.psize t (turn k t n) v.psize_pos,
          leb-mul b.psize t j v.psize_pos,
          leb-mul b.psize j (turn k t n) v.psize_pos,
          ltb-mul b.psize j k v.psize_pos,
        )
        (ground arith)

module _ {b : CircularBuffer} {k t n : ℕ} (v : Shape b k t n) (packet : AudioPacket) (j : ℕ)
    (place : packet.first_byte_num + n * b.psize ≡ b.abs_head + j * b.psize) (inside : j < n) where
  gap_run : fill_gap b packet ≡ (
      (guard (not (is_none (slot_side k t (turn k t n) j))) assertion)
      >> store b (gap_position b (k * b.psize) (slot_side k t (turn k t n) j) (j * b.psize)) packet)
  unfolding fill_gap gap_at
  gap_run = rw (Shape-abs_tail v) (
      ap (gap_at b packet) {y = j * b.psize} offset
      ∙ rw (
        mod_size_lem (j * b.psize) b.psize v.psize_pos,
        mul-mod_left j b.psize,
        sideof-slot v j,
        Shape-rounded_cap v,
      ))
    where
      offset : sub_size packet.first_byte_num (b.abs_head - n * b.psize) ≡ j * b.psize
      offset = omega (
        arith,
        place,
        v.past,
        v.abs_small,
        v.slots_fit,
        v.small,
        room-mul b.psize j n inside,
        room-mul b.psize n k v.count_in,
      )

  wrapped_test : ltb b.head b.tail ≡ ltb (turn k t n) t
  wrapped_test = ap₂ ltb v.head_is v.tail_is ∙ ltb-mul b.psize (turn k t n) t v.psize_pos

  side_none : t + n < k → j < t → slot_side k t (turn k t n) j ≡ Side.none
  side_none flat low = ground arith

  side_some : t ≤ j → t + j < k → is_none (slot_side k t (turn k t n) j) ≡ false
  side_some low flat = ground (arith, v.tail_in, v.count_in, inside)

  side_not_wrapped :
      t ≤ j → t + j < k → (ltb (turn k t n) t && is_left (slot_side k t (turn k t n) j)) ≡ false
  side_not_wrapped low flat = ground (arith, v.tail_in, v.count_in, inside)

  gap_place :
      t ≤ j
      → t + j < k
      → gap_position b (k * b.psize) (slot_side k t (turn k t n) j) (j * b.psize)
        ≡ turn k t j * b.psize
  unfolding gap_position
  gap_place low flat =
      rw (wrapped_test, side_not_wrapped low flat, lt→ltb (t + j) k flat)
        (omega (arith, v.tail_is, v.slots_fit, v.small, room-mul b.psize (t + j) k flat))

  -- While the window lies in one piece, `t + n < k`, a packet for one of its first `t` places fails an
  -- assertion.
  pub gap_refused : t + n < k → j < t → fill_gap b packet ≡ crash assertion
  gap_refused flat low = gap_run ∙ rw (side_none flat low)

  pub gap_stored :
      t ≤ j
      → t + j < k
      → b.psize ≤ length (audio_data packet)
      → fill_gap b packet ≡ ok (stored b (turn k t j) packet)
  gap_stored low flat enough =
      gap_run
      ∙ rw (side_some low flat, gap_place low flat)
          (store-Fills b (turn k t j) packet v.psize_pos k
            (omega (arith, room-mul b.psize (turn k t j) k (ground (arith, flat)), v.slots_fit))
            enough).0

  side_wrapped :
      k ≤ t + n
      → j + k ≤ t + n
      → (slot_side k t (turn k t n) j ≡ left) × (ltb (turn k t n) t ≡ true)
  side_wrapped round near =
      (ground (arith, v.tail_in, v.count_in), ground (arith, v.tail_in, v.count_in))

  overflow_place :
      t + j + t < k
      → ltb b.head b.tail ≡ true
      → b.capacity < gap_position b (k * b.psize) left (j * b.psize) + b.psize
  unfolding gap_position
  overflow_place low wraps = rw wraps (
      omega
        (arith, v.tail_is, v.slots_fit, v.small, room-mul b.psize (t + j + t) k low, v.psize_pos))

  store_outside : (pos : ℕ) → b.capacity < pos + b.psize → store b pos packet ≡ crash bounds
  unfolding store
  store_outside pos far = rw (lt→leb (pos + b.psize) b.capacity far)

  -- Once the window goes round the end, `k ≤ t + n`, a packet for a place `j` up to the head's number
  -- with `2 * t + j < k` is written out of the bounds of the array.
  pub gap_overflow : k ≤ t + n → j + k ≤ t + n → t + j + t < k → fill_gap b packet ≡ crash bounds
  gap_overflow round near low =
      let (on_left, wraps) = side_wrapped round near in
      gap_run ∙ rw on_left (store_outside _ (overflow_place low (wrapped_test ∙ wraps)))

-- What `fill_gap` leaves of the numbers of the buffer.
abbrev pub Kept : CircularBuffer → CircularBuffer → Type 0
Kept b b' =
    (b'.abs_head ≡ b.abs_head)
    × (b'.tail ≡ b.tail)
    × (b'.head ≡ b.head)
    × (b'.byte0 ≡ b.byte0)
    × (b'.empty ≡ false)

-- A packet for place `j` of the window is put there, and nothing else of the window changes, if `j` is
-- at least the tail's slot and the place lies before the end of the array.
pub fill_gap-Holds :
    {b : CircularBuffer} {k : ℕ} {xs : List Payload} (h : Holds b k xs) (packet : AudioPacket)
    (j : ℕ)
    → packet.first_byte_num + h.count * b.psize ≡ b.abs_head + j * b.psize
    → j < h.count
    → b.psize ≤ length (audio_data packet)
    → h.tail_slot ≤ j
    → h.tail_slot + j < k
    → (b' : CircularBuffer) × (fill_gap b packet ≡ ok b')
      × Holds b' k (set xs j (some (take b.psize (audio_data packet))))
      × Kept b b'
fill_gap-Holds {b} {k} h packet j place inside enough low flat =
    let spot = turn k t j in
    let (_, fills) =
      store-Fills b spot packet v.psize_pos k
        (omega (arith, room-mul b.psize spot k (ground (arith, flat)), v.slots_fit)) enough in
    (
      stored b spot packet,
      gap_stored v packet j place inside low flat enough,
      record {
        tail_slot = t;
        count = n;
        shape = record {
          psize_pos = v.psize_pos;
          two_slots = v.two_slots;
          slots_fit = v.slots_fit;
          slots_fill = v.slots_fill;
          small = v.small;
          tail_in = v.tail_in;
          count_in = v.count_in;
          tail_is = v.tail_is;
          head_is = v.head_is;
          past = v.past;
          abs_small = v.abs_small;
        };
        reads =
            window-set (slot b) (slot (stored b spot packet)) k t n j v.tail_in v.count_in inside
              fills.self fills.others
            ∙ ap (λ ys. set ys j (some (take b.psize (audio_data packet)))) h.reads;
        quiet = fills.quiet h.quiet;
      },
      (refl, refl, refl, refl, refl),
    )
  where
    open h use {tail_slot as t, count as n, shape as v}
