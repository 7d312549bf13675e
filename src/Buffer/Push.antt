-- ===== src/Buffer/Push.antt =====
-- `try_push_head` on a buffer in use: what it does to the slots, the head and the tail.
use native.Mathlib.Nat.{zero-mul}
use sik_telnet_radio.Prelude.{
  ℕ, ◌+◌, ◌*◌, ◌%◌, ◌≤◌, ◌<◌, ◌≡◌, refl, ap, ap₂, ◌∙◌, arith, dec_lt, le→leb, lt→leb, lt→ltb,
  le→ltb, length,
}
use sik_telnet_radio.Outcome.{ok, ◌>>=◌, add_size, sub_size, mod_size, mod_size_lem}
use sik_telnet_radio.Packet.{AudioPacket, audio_data}
use sik_telnet_radio.Window.{turn, next_tail, next_count}
use sik_telnet_radio.Buffer.{CircularBuffer, clear, store, skip_to, pushed_tail, advance_head}
use sik_telnet_radio.Buffer.Shape.{Shape, room-mul}
use sik_telnet_radio.Buffer.Slots.{clear-Fills, cleared, stored, store-Fills, memset-none}
use sik_telnet_radio.Buffer.Tail.{pushed_tail-mul, mod-turn-mul, slot_tail_next, slot_tail_skip}

pub mod_turn :
    (a p k s n : ℕ)
    → a ≡ s * p + n * p
    → 0 < p
    → s < k
    → n ≤ k
    → mod_size a (k * p) ≡ ok (turn k s n * p)
mod_turn a p k s n e pos hs hn =
    mod_size_lem a (k * p) (omega (arith, room-mul p s k hs))
    ∙ ap ok (ap (λ x. x % (k * p)) e ∙ mod-turn-mul p k s n pos hs hn)

turn_two : (k s : ℕ) → s < k → 1 < k → turn k s 2 ≡ turn k (turn k s 1) 1
turn_two k s h hk = ground arith

pub clear_none : (b : CircularBuffer) (at : ℕ) → at ≤ b.capacity → clear b at 0 ≡ ok b
unfolding clear
clear_none b at h =
    rw (le→leb (at + 0) b.capacity (omega arith), memset-none b.memory at 0)
      (rw (memset-none b.occupied at) refl)

module _ {b : CircularBuffer} {k t n : ℕ} (v : Shape b k t n) (packet : AudioPacket)
    (enough : b.psize ≤ length (audio_data packet)) where
  slot_room : (s : ℕ) → s < k → s * b.psize + b.psize ≤ b.capacity
  slot_room s h = omega (arith, room-mul b.psize s k h, v.slots_fit)

  head_in : turn k t n < k
  head_in = ground (arith, v.tail_in, v.count_in)

  -- With no packet missing, no slot is cleared.
  skip_next : skip_to b (k * b.psize) (turn k t n * b.psize) ≡ ok b
  unfolding skip_to
  skip_next = rw (le→leb b.head (turn k t n * b.psize) (omega (arith, v.head_is))) (
      ap (clear b b.head) {y = 0} (omega (arith, v.head_is))
      ∙ clear_none b b.head (omega (arith, v.head_is, slot_room (turn k t n) head_in)))

  -- The buffer after the packet that follows the newest one.
  unfoldable pub pushed_next : CircularBuffer
  pushed_next = record (stored b (turn k t n) packet) {
    head = turn k (turn k t n) 1 * b.psize;
    tail = next_tail k t n * b.psize;
  }

  head_small : turn k t n * b.psize + b.psize ≤ b.capacity
  head_small = slot_room (turn k t n) head_in

  write_next : mod_size (add_size b.head 0) (k * b.psize) ≡ ok (turn k t n * b.psize)
  write_next =
      mod_turn (add_size b.head 0) b.psize k (turn k t n) 0
        (omega (arith, v.head_is, head_small, v.small)) v.psize_pos head_in (omega arith)
      ∙ ap (λ (s : ℕ). ok (s * b.psize)) {y = turn k t n} (ground (arith, head_in))

  head_next :
      mod_size (add_size (add_size b.head 0) b.psize) (k * b.psize)
      ≡ ok (turn k (turn k t n) 1 * b.psize)
  head_next =
      mod_turn _ b.psize k (turn k t n) 1 (omega (arith, v.head_is, head_small, v.small))
        v.psize_pos head_in (omega (arith, v.two_slots))

  -- One slot behind any slot, as the code finds it.
  slot_behind :
      (s : ℕ)
      → s < k
      → mod_size (add_size (s * b.psize) b.psize) (k * b.psize) ≡ ok (turn k s 1 * b.psize)
  slot_behind s hs =
      mod_turn _ b.psize k s 1 (omega (arith, slot_room s hs, v.small)) v.psize_pos hs
        (omega (arith, v.two_slots))

  tail_next :
      let x = turn k (turn k t n) 1 in
      pushed_tail b
        (k * b.psize)
        (add_size (add_size b.head 0) b.psize)
        (x * b.psize)
        (turn k x 1 * b.psize)
      ≡ next_tail k t n * b.psize
  tail_next =
      ap
        (λ w.
          pushed_tail b (k * b.psize) w (turn k (turn k t n) 1 * b.psize)
            (turn k (turn k (turn k t n) 1) 1 * b.psize))
        {y = (turn k t n + 1) * b.psize} (omega (arith, v.head_is, head_small, v.small))
      ∙ pushed_tail-mul b b.psize k t (turn k t n) (turn k t n + 1) _ _ v.psize_pos v.tail_is
          v.head_is
      ∙ ap (λ (s : ℕ). s * b.psize) (slot_tail_next k t n v.tail_in v.count_in v.two_slots)

  store_next : store b (turn k t n * b.psize) packet ≡ ok (stored b (turn k t n) packet)
  store_next = (store-Fills b (turn k t n) packet v.psize_pos k head_small enough).0

  pub advance_next : advance_head b packet 0 (k * b.psize) ≡ ok pushed_next
  unfolding advance_head pushed_next
  advance_next = rw (
    write_next,
    skip_next,
    store_next,
    head_next,
    slot_behind (turn k (turn k t n) 1) (ground (arith, head_in)),
    tail_next,
  )

  next_in : turn k (turn k t n) 1 < k
  next_in = ground (arith, head_in)

  clear_slot : (h : ℕ) → h < k → clear b (h * b.psize) b.psize ≡ ok (cleared b h)
  clear_slot h hh = (clear-Fills b k h v.psize_pos (slot_room h hh)).0

  skip_inner :
      (h : ℕ)
      → b.head ≡ h * b.psize
      → h + 1 < k
      → skip_to b (k * b.psize) ((h + 1) * b.psize) ≡ ok (cleared b h)
  unfolding skip_to
  skip_inner h e lt =
      rw (le→leb b.head ((h + 1) * b.psize) (omega (arith, e)))
        (ap₂ (clear b) e (omega (arith, e)) ∙ clear_slot h (omega arith))

  left_behind : (h : ℕ) → b.head ≡ h * b.psize → h + 1 ≡ k → sub_size (k * b.psize) b.head ≡ b.psize
  left_behind h e last = omega (
    arith,
    e,
    v.slots_fit,
    v.small,
    slot_room h (omega arith),
    ap (λ (x : ℕ). x * b.psize) {x = h + 1} {y = k} last,
  )

  skip_round :
      (h : ℕ) → b.head ≡ h * b.psize → h + 1 ≡ k → skip_to b (k * b.psize) 0 ≡ ok (cleared b h)
  unfolding skip_to
  skip_round h e last =
      rw
        (lt→leb b.head 0
          (omega (arith, e, room-mul b.psize 0 h (omega (arith, v.two_slots)), v.psize_pos)))
        (ap₂ (λ x y. clear b x y >>= λ b'. clear b' 0 0) e (left_behind h e last)
          ∙ rw (clear_slot h (omega arith)) (clear_none (cleared b h) 0 (omega arith)))

  -- With one packet missing, its slot is cleared.
  skip_missing :
      skip_to b (k * b.psize) (turn k (turn k t n) 1 * b.psize) ≡ ok (cleared b (turn k t n))
  skip_missing = elim (dec_lt (turn k t n + 1) k) [
    | yes p ↦
        ap (λ (x : ℕ). skip_to b (k * b.psize) (x * b.psize)) {y = turn k t n + 1}
          (rw (lt→ltb (turn k t n + 1) k p))
        ∙ skip_inner (turn k t n) v.head_is p
    | no p ↦
        ap (λ (x : ℕ). skip_to b (k * b.psize) x)
          (ap (λ (x : ℕ). x * b.psize) {y = 0}
              (rw (le→ltb (turn k t n + 1) k (omega arith)) (omega (arith, head_in)))
            ∙ zero-mul b.psize)
        ∙ skip_round (turn k t n) v.head_is (omega (arith, head_in))
  ]

  -- The buffer after a packet that leaves one packet missing before it.
  unfoldable pub pushed_skip : CircularBuffer
  pushed_skip = record (stored (cleared b (turn k t n)) (turn k (turn k t n) 1) packet) {
    head = turn k (turn k (turn k t n) 1) 1 * b.psize;
    tail = next_tail k (next_tail k t n) (next_count k n) * b.psize;
  }

  write_skip :
      mod_size (add_size b.head b.psize) (k * b.psize) ≡ ok (turn k (turn k t n) 1 * b.psize)
  write_skip =
      mod_turn (add_size b.head b.psize) b.psize k (turn k t n) 1
        (omega (arith, v.head_is, head_small, v.small)) v.psize_pos head_in
        (omega (arith, v.two_slots))

  head_skip :
      mod_size (add_size (add_size b.head b.psize) b.psize) (k * b.psize)
      ≡ ok (turn k (turn k (turn k t n) 1) 1 * b.psize)
  head_skip =
      mod_turn _ b.psize k (turn k t n) 2 (omega (arith, v.head_is, head_small, v.small))
        v.psize_pos head_in (omega (arith, v.two_slots))
      ∙ ap (λ (s : ℕ). ok (s * b.psize)) (turn_two k (turn k t n) head_in v.two_slots)

  tail_skip :
      let x = turn k (turn k (turn k t n) 1) 1 in
      pushed_tail b
        (k * b.psize)
        (add_size (add_size b.head b.psize) b.psize)
        (x * b.psize)
        (turn k x 1 * b.psize)
      ≡ next_tail k (next_tail k t n) (next_count k n) * b.psize
  tail_skip =
      ap
        (λ w.
          pushed_tail b (k * b.psize) w (turn k (turn k (turn k t n) 1) 1 * b.psize)
            (turn k (turn k (turn k (turn k t n) 1) 1) 1 * b.psize))
        {y = (turn k t n + 2) * b.psize} (omega (arith, v.head_is, head_small, v.small))
      ∙ pushed_tail-mul b b.psize k t (turn k t n) (turn k t n + 2) _ _ v.psize_pos v.tail_is
          v.head_is
      ∙ ap (λ (s : ℕ). s * b.psize) (slot_tail_skip k t n v.tail_in v.count_in v.two_slots)

  store_skip :
      store (cleared b (turn k t n)) (turn k (turn k t n) 1 * b.psize) packet
      ≡ ok (stored (cleared b (turn k t n)) (turn k (turn k t n) 1) packet)
  store_skip =
      (store-Fills (cleared b (turn k t n)) (turn k (turn k t n) 1) packet v.psize_pos k
        (slot_room _ next_in) enough).0

  pub advance_skip : advance_head b packet b.psize (k * b.psize) ≡ ok pushed_skip
  unfolding advance_head pushed_skip
  advance_skip = rw (
    write_skip,
    skip_missing,
    store_skip,
    head_skip,
    slot_behind (turn k (turn k (turn k t n) 1) 1) (ground (arith, next_in)),
    tail_skip,
  )
