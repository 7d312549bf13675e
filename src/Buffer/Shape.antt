-- ===== src/Buffer/Shape.antt =====
-- The shape of a circular buffer in use: `k` slots of one packet each, of which the window holds the
-- `n` slots from slot `t` on. The head stands on the slot behind the window.
use native.Mathlib.Nat.{mul-lt-mul_of_pos_right, mul-le-mul_right, div-eq_of_lt-le}
use sik_telnet_radio.Prelude.{
  ℕ, ◌+◌, ◌-◌, ◌*◌, ◌^◌, ◌≤◌, ◌<◌, ◌≡◌, sym, ap, ◌∙◌, arith, ltb, leb, dec_lt, dec_le, le→leb,
  lt→leb, lt→ltb, le→ltb,
}
use sik_telnet_radio.Outcome.{ok, div_size_lem}
use sik_telnet_radio.Window.{turn}
use sik_telnet_radio.Buffer.{CircularBuffer, rounded_cap, range, abs_tail}

-- Comparing multiples of one positive number.
pub leb-mul : (p a b : ℕ) → 0 < p → leb (a * p) (b * p) ≡ leb a b
leb-mul p a b h = elim (dec_le a b) [
  | yes q ↦ le→leb (a * p) (b * p) (mul-le-mul_right p q) ∙ sym (le→leb a b q)
  | no q ↦
      lt→leb (a * p) (b * p) (mul-lt-mul_of_pos_right {m = b} {n = a} (omega arith) h)
      ∙ sym (lt→leb a b (omega arith))
]

pub ltb-mul : (p a b : ℕ) → 0 < p → ltb (a * p) (b * p) ≡ ltb a b
ltb-mul p a b h = elim (dec_lt a b) [
  | yes q ↦ lt→ltb (a * p) (b * p) (mul-lt-mul_of_pos_right q h) ∙ sym (lt→ltb a b q)
  | no q ↦
      le→ltb (a * p) (b * p) (mul-le-mul_right {m = b} {n = a} p (omega arith))
      ∙ sym (le→ltb a b (omega arith))
]

-- Going round by slots is going round by bytes.
pub turn-mul : (p k s n : ℕ) → 0 < p → turn k s n * p ≡ turn (k * p) (s * p) (n * p)
turn-mul p k s n h = elim (dec_lt (s + n) k) [
  | yes q ↦ ground (arith, mul-lt-mul_of_pos_right {m = s + n} {n = k} {k = p} q h)
  | no q ↦ ground (
    arith,
    mul-le-mul_right {m = k} {n = s + n} p (omega arith),
    ap (λ (x : ℕ). x * p) {x = s + n - k + k} {y = s + n} (omega arith),
  )
]

pub room-mul : (p a b : ℕ) → a < b → a * p + p ≤ b * p
room-mul p a b h = omega (arith, mul-le-mul_right {m = a + 1} {n = b} p (omega arith))

pub record Shape (b : CircularBuffer) (k t n : ℕ) : Type 0 where
  pub psize_pos : 0 < b.psize
  pub two_slots : 1 < k
  pub slots_fit : k * b.psize ≤ b.capacity
  pub slots_fill : b.capacity < k * b.psize + b.psize
  pub small : b.capacity < 2 ^ 62
  pub tail_in : t < k
  pub count_in : n < k
  pub tail_is : b.tail ≡ t * b.psize
  pub head_is : b.head ≡ turn k t n * b.psize
  pub past : n * b.psize ≤ b.abs_head
  pub abs_small : b.abs_head < 2 ^ 63

-- The same by bytes, as linear facts.
pub record Bytes (b : CircularBuffer) (k t n : ℕ) : Type 0 where
  pub tail_room : t * b.psize + b.psize ≤ k * b.psize
  pub count_room : n * b.psize + b.psize ≤ k * b.psize
  pub head_bytes : b.head ≡ turn (k * b.psize) (t * b.psize) (n * b.psize)

pub Shape-Bytes : {b : CircularBuffer} {k t n : ℕ} → Shape b k t n → Bytes b k t n
Shape-Bytes {b} {k} {t} {n} v = record {
  tail_room = room-mul b.psize t k v.tail_in;
  count_room = room-mul b.psize n k v.count_in;
  head_bytes = v.head_is ∙ turn-mul b.psize k t n v.psize_pos;
}

pub rounded_cap_lem :
    (b : CircularBuffer) (k : ℕ)
    → 0 < b.psize
    → k * b.psize ≤ b.capacity
    → b.capacity < k * b.psize + b.psize
    → rounded_cap b ≡ ok (k * b.psize)
unfolding rounded_cap
rounded_cap_lem b k h lo hi = rw (div_size_lem b.capacity b.psize h) (
    ap (λ (q : ℕ). ok (q * b.psize))
      (div-eq_of_lt-le {k = k} b.psize {m = b.capacity} lo (omega arith)))

module _ {b : CircularBuffer} {k t n : ℕ} (v : Shape b k t n) where
  pub Shape-rounded_cap : rounded_cap b ≡ ok (k * b.psize)
  Shape-rounded_cap = rounded_cap_lem b k v.psize_pos v.slots_fit v.slots_fill

  pub Shape-range : range b ≡ ok (n * b.psize)
  unfolding range
  Shape-range =
      let w = Shape-Bytes v in
      elim (dec_lt (t * b.psize + n * b.psize) (k * b.psize)) [
        | yes p ↦
            rw (le→leb b.tail b.head (ground (arith, v.tail_is)))
              (ap ok (ground (arith, v.tail_is)))
        | no p ↦
            rw (lt→leb b.tail b.head (ground (arith, v.tail_is)), Shape-rounded_cap)
              (ap ok (ground (arith, v.tail_is)))
      ]

  pub Shape-abs_tail : abs_tail b ≡ ok (b.abs_head - n * b.psize)
  unfolding abs_tail
  Shape-abs_tail = rw Shape-range (ap ok (omega arith))
