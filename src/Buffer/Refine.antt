-- ===== src/Buffer/Refine.antt =====
-- A buffer in use refines a sequence of packets, some of them missing, that remembers the last ones.
use native.Mathlib.Nat.{mul-le-mul_right, mod_self, zero-mod}
use sik_telnet_radio.Prelude.{
  ℕ, ◌+◌, ◌-◌, ◌*◌, ◌%◌, ◌^◌, ◌≤◌, ◌<◌, ◌≡◌, refl, sym, ap, ap₂, ◌∙◌, arith, lt→leb, le→ltb, length,
  take, some, none, List, remember, false,
}
use sik_telnet_radio.Outcome.{ok, add_size, mod_size_lem}
use sik_telnet_radio.Packet.{AudioPacket, audio_data}
use sik_telnet_radio.Window.{turn, window, next_tail, next_count, window_push}
use sik_telnet_radio.Buffer.{CircularBuffer, push_at, try_push_head, advance_head}
use sik_telnet_radio.Buffer.Shape.{Shape, rounded_cap_lem, room-mul}
use sik_telnet_radio.Buffer.Slots.{
  Payload, slot, IsQuiet, cleared, stored, clear-Fills, store-Fills,
}
use sik_telnet_radio.Buffer.Tail.{turn_next}
use sik_telnet_radio.Buffer.Push.{pushed_next, advance_next, pushed_skip, advance_skip}

-- The buffer has `k` slots, its window reads `xs`, and slots of missing packets hold silence.
pub record Holds (b : CircularBuffer) (k : ℕ) (xs : List Payload) : Type 0 where
  pub tail_slot : ℕ
  pub count : ℕ
  pub shape : Shape b k tail_slot count
  pub reads : window (slot b) k tail_slot count ≡ xs
  pub quiet : (j : ℕ) → j < k → IsQuiet b j

-- What `try_push_head` leaves of the numbers of the buffer.
pub record Advanced (b b' : CircularBuffer) (first_byte_num : ℕ) : Type 0 where
  pub abs_head_is : b'.abs_head ≡ first_byte_num + b.psize
  pub same_psize : b'.psize ≡ b.psize
  pub same_capacity : b'.capacity ≡ b.capacity
  pub same_byte0 : b'.byte0 ≡ b.byte0
  pub not_empty : b'.empty ≡ false

next_count_mul : (k n p : ℕ) → next_count k n * p ≤ n * p + p
next_count_mul k n p =
    omega (arith, mul-le-mul_right {m = next_count k n} {n = n + 1} p (ground arith))

next_in : (k t n : ℕ) → t < k → n < k → 1 < k → (next_tail k t n < k) × (next_count k n < k)
next_in k t n ht hn hk = ground arith

-- The buffer with its absolute head moved, as `try_push_head` goes on with.
abbrev moved : CircularBuffer → ℕ → CircularBuffer
moved b a = record b { abs_head = a }

moved-Shape :
    {b : CircularBuffer} {k t n : ℕ} (a : ℕ)
    → Shape b k t n
    → b.abs_head ≤ a
    → a < 2 ^ 63
    → Shape (moved b a) k t n
moved-Shape a v lo hi = record {
  psize_pos = v.psize_pos;
  two_slots = v.two_slots;
  slots_fit = v.slots_fit;
  slots_fill = v.slots_fill;
  small = v.small;
  tail_in = v.tail_in;
  count_in = v.count_in;
  tail_is = v.tail_is;
  head_is = v.head_is;
  past = omega (arith, v.past);
  abs_small = hi;
}

module _ {b : CircularBuffer} {k : ℕ} {xs : List Payload} (h : Holds b k xs) (packet : AudioPacket)
    (enough : b.psize ≤ length (audio_data packet))
    (small : packet.first_byte_num + b.psize < 2 ^ 63) where
  open h use {tail_slot as t, count as n, shape as v}

  abbrev payload : Payload
  payload = some (take b.psize (audio_data packet))

  moved_shape :
      b.abs_head ≤ packet.first_byte_num
      → Shape (moved b (add_size packet.first_byte_num b.psize)) k t n
  moved_shape lo = moved-Shape _ v (omega (arith, small, v.small)) (omega (arith, small))

  -- An offset of nothing or of one packet gets past all tests of `try_push_head`.
  push_at_run :
      (off : ℕ)
      → off % b.psize ≡ 0
      → off ≤ b.psize
      → push_at b packet off
        ≡ advance_head (moved b (add_size packet.first_byte_num b.psize)) packet off (k * b.psize)
  unfolding push_at
  push_at_run off aligned near = rw (
    mod_size_lem off b.psize v.psize_pos,
    aligned,
    le→ltb b.psize off near,
    rounded_cap_lem (moved b (add_size packet.first_byte_num b.psize)) k v.psize_pos v.slots_fit
        v.slots_fill,
    lt→leb (k * b.psize) off (omega (arith, room-mul b.psize 1 k v.two_slots, near, v.psize_pos)),
  )

  -- The buffer that goes on has the new absolute head, and the packets of the old one.
  abbrev base : CircularBuffer
  base = moved b (add_size packet.first_byte_num b.psize)

  base_abs_head : base.abs_head ≡ packet.first_byte_num + b.psize
  base_abs_head = omega (arith, small)

  next-Holds :
      (lo : b.abs_head ≤ packet.first_byte_num)
      → Holds (pushed_next (moved_shape lo) packet enough) k (remember (k - 1) xs payload)
  unfolding pushed_next
  next-Holds lo =
      let (_, fills) =
        store-Fills base (turn k t n) packet v.psize_pos k
          (omega (arith, room-mul b.psize (turn k t n) k (ground arith), v.slots_fit)) enough in
      let (t_in, n_in) = next_in k t n v.tail_in v.count_in v.two_slots in
      record {
        tail_slot = next_tail k t n;
        count = next_count k n;
        shape = record {
          psize_pos = v.psize_pos;
          two_slots = v.two_slots;
          slots_fit = v.slots_fit;
          slots_fill = v.slots_fill;
          small = v.small;
          tail_in = t_in;
          count_in = n_in;
          tail_is = refl;
          head_is =
              ap (λ (s : ℕ). s * b.psize) (sym (turn_next k t n v.tail_in v.count_in v.two_slots));
          past = omega (arith, next_count_mul k n b.psize, v.past, lo, base_abs_head);
          abs_small = omega (arith, small);
        };
        reads =
            window_push (slot base) (slot (stored base (turn k t n) packet)) k t n v.tail_in
              v.count_in v.two_slots fills.others
            ∙ ap₂ (remember (k - 1)) h.reads fills.self;
        quiet = fills.quiet h.quiet;
      }

  skip-Holds :
      (lo : b.abs_head + b.psize ≤ packet.first_byte_num)
      → Holds
          (pushed_skip (moved_shape (omega (arith, lo))) packet enough)
          k
          (remember (k - 1) (remember (k - 1) xs none) payload)
  unfolding pushed_skip
  skip-Holds lo =
      let hole = turn k t n in
      let place = turn k hole 1 in
      let hole_in : hole < k = ground (arith, v.tail_in, v.count_in) in
      let place_in : place < k = ground (arith, hole_in) in
      let (_, emptied) =
        clear-Fills base k hole v.psize_pos
          (omega (arith, room-mul b.psize hole k hole_in, v.slots_fit)) in
      let (_, filled) =
        store-Fills (cleared base hole) place packet v.psize_pos k
          (omega (arith, room-mul b.psize place k place_in, v.slots_fit)) enough in
      let (t_in, n_in) = next_in k t n v.tail_in v.count_in v.two_slots in
      let (t_in', n_in') = next_in k (next_tail k t n) (next_count k n) t_in n_in v.two_slots in
      let again = turn_next k t n v.tail_in v.count_in v.two_slots in
      record {
        tail_slot = next_tail k (next_tail k t n) (next_count k n);
        count = next_count k (next_count k n);
        shape = record {
          psize_pos = v.psize_pos;
          two_slots = v.two_slots;
          slots_fit = v.slots_fit;
          slots_fill = v.slots_fill;
          small = v.small;
          tail_in = t_in';
          count_in = n_in';
          tail_is = refl;
          head_is =
              ap (λ (s : ℕ). s * b.psize)
                (ap (λ s. turn k s 1) (sym again)
                  ∙ sym (turn_next k (next_tail k t n) (next_count k n) t_in n_in v.two_slots));
          past = omega (
            arith,
            next_count_mul k n b.psize,
            next_count_mul k (next_count k n) b.psize,
            v.past,
            lo,
            base_abs_head,
          );
          abs_small = omega (arith, small);
        };
        reads =
            window_push (slot (cleared base hole)) (slot (stored (cleared base hole) place packet))
              k (next_tail k t n) (next_count k n) t_in n_in v.two_slots
              (λ j hj ne. filled.others j hj (λ e. ne (e ∙ sym again)))
            ∙ ap₂ (remember (k - 1))
                (window_push (slot base) (slot (cleared base hole)) k t n v.tail_in v.count_in
                    v.two_slots emptied.others
                  ∙ ap₂ (remember (k - 1)) h.reads emptied.self)
                (ap (slot (stored (cleared base hole) place packet)) again ∙ filled.self);
        quiet = filled.quiet (emptied.quiet h.quiet);
      }

  -- The packet that follows the newest one is appended.
  pub push-next :
      packet.first_byte_num ≡ b.abs_head
      → (b' : CircularBuffer) × (try_push_head b packet ≡ ok b')
        × Holds b' k (remember (k - 1) xs payload)
        × Advanced b b' packet.first_byte_num
  unfolding try_push_head pushed_next
  push-next e =
      let lo : b.abs_head ≤ packet.first_byte_num = omega (arith, e) in
      (
        pushed_next (moved_shape lo) packet enough,
        ap (push_at b packet) {y = 0} (omega (arith, e, v.abs_small))
            ∙ push_at_run 0 (zero-mod b.psize) (omega arith)
            ∙ advance_next (moved_shape lo) packet enough,
        next-Holds lo,
        record {
          abs_head_is = base_abs_head;
          same_psize = refl;
          same_capacity = refl;
          same_byte0 = refl;
          not_empty = refl;
        },
      )

  -- After one missing packet, its place stays empty and the packet is appended.
  pub push-skip :
      packet.first_byte_num ≡ b.abs_head + b.psize
      → (b' : CircularBuffer) × (try_push_head b packet ≡ ok b')
        × Holds b' k (remember (k - 1) (remember (k - 1) xs none) payload)
        × Advanced b b' packet.first_byte_num
  unfolding try_push_head pushed_skip
  push-skip e =
      let lo : b.abs_head ≤ packet.first_byte_num = omega (arith, e) in
      (
        pushed_skip (moved_shape lo) packet enough,
        ap (push_at b packet) {y = b.psize} (omega (arith, e, v.abs_small, v.small, small))
            ∙ push_at_run b.psize (mod_self b.psize) (omega arith)
            ∙ advance_skip (moved_shape lo) packet enough,
        skip-Holds (omega (arith, e)),
        record {
          abs_head_is = base_abs_head;
          same_psize = refl;
          same_capacity = refl;
          same_byte0 = refl;
          not_empty = refl;
        },
      )
