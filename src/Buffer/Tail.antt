-- ===== src/Buffer/Tail.antt =====
-- How `try_push_head` moves the tail, by slots: one slot always stays free.
use native.Mathlib.Nat.{mul-lt-mul_of_pos_right, mul-le-mul_right}
use sik_telnet_radio.Prelude.{
  ℕ, ◌+◌, ◌*◌, ◌%◌, ◌≤◌, ◌<◌, ◌≡◌, sym, ◌∙◌, ◌&&◌, ◌||◌, arith, ltb, leb, if◌then◌else◌, dec_lt,
  ◌⊎◌, ap, lt→ltb, le→ltb,
}
use sik_telnet_radio.Window.{turn, mod-turn, next_tail, next_count}
use sik_telnet_radio.Buffer.{CircularBuffer, pushed_tail}
use sik_telnet_radio.Buffer.Shape.{leb-mul, ltb-mul, turn-mul}

-- `pushed_tail` with slots in place of bytes.
abbrev slot_tail : ℕ → ℕ → ℕ → ℕ → ℕ → ℕ → ℕ
slot_tail k t h v x y =
    if leb k v && (leb t h && leb t x || ltb h t) then y else if ltb h t && leb t x then y else t

pub pushed_tail-mul :
    (b : CircularBuffer) (p k t h v x y : ℕ)
    → 0 < p
    → b.tail ≡ t * p
    → b.head ≡ h * p
    → pushed_tail b (k * p) (v * p) (x * p) (y * p) ≡ slot_tail k t h v x y * p
unfolding pushed_tail
pushed_tail-mul b p k t h v x y pos et eh =
    rw (et, eh, leb-mul p k v pos, leb-mul p t h pos, leb-mul p t x pos, ltb-mul p h t pos)
      (ground arith)

-- Going round the ring by bytes, in the two sums of the code.
pub mod-turn-mul :
    (p k s n : ℕ) → 0 < p → s < k → n ≤ k → (s * p + n * p) % (k * p) ≡ turn k s n * p
mod-turn-mul p k s n pos hs hn =
    mod-turn (k * p) (s * p) (n * p) (mul-lt-mul_of_pos_right hs pos) (mul-le-mul_right p hn)
    ∙ sym (turn-mul p k s n pos)

-- A packet right behind the head.
pub slot_tail_next :
    (k t n : ℕ)
    → t < k
    → n < k
    → 1 < k
    → let h = turn k t n in
      let x = turn k h 1 in slot_tail k t h (h + 1) x (turn k x 1) ≡ next_tail k t n
slot_tail_next k t n ht hn hk = ground arith

-- Slot `b` is the `n`-th behind slot `a`.
record Ahead (k a n b : ℕ) : Type 0 where
  around : (b ≡ a + n) ⊎ (b + k ≡ a + n)
  inside : b < k

turn-Ahead : (k a n : ℕ) → a < k → n ≤ k → Ahead k a n (turn k a n)
turn-Ahead k a n ha hn = ground arith

two : (k a b c : ℕ) → 1 < k → a < k → Ahead k a 1 b → Ahead k b 1 c → Ahead k a 2 c
two k a b c hk ha p q = ground arith

module _ (k t n h x y : ℕ) (ht : t < k) (hn : n < k) (at_head : Ahead k t n h)
    (at_new : Ahead k h 2 x) where
  skip_roomy : n + 2 < k → slot_tail k t h (h + 2) x y ≡ t
  skip_roomy roomy = ground arith

  skip_tight : 1 < k → k ≤ n + 2 → slot_tail k t h (h + 2) x y ≡ y
  skip_tight hk tight = ground arith

  head_home : n + 2 ≡ k → x ≡ t
  head_home e = omega arith

  head_past : n + 1 ≡ k → x ≡ turn k t 1
  head_past e = ground arith

-- A packet one slot further on.
pub slot_tail_skip :
    (k t n : ℕ)
    → t < k
    → n < k
    → 1 < k
    → let h = turn k t n in
      let x = turn k (turn k h 1) 1 in
      slot_tail k t h (h + 2) x (turn k x 1) ≡ next_tail k (next_tail k t n) (next_count k n)
slot_tail_skip k t n ht hn hk = elim (dec_lt (n + 2) k) [
  | yes roomy ↦
      rw (lt→ltb (n + 1) k (omega arith), lt→ltb (n + 1 + 1) k (omega arith))
        (skip_roomy k t n _ _ _ ht hn at_head at_new roomy)
  | no tight ↦
      skip_tight k t n _ _ _ ht hn at_head at_new hk (omega arith) ∙ elim (dec_lt (n + 1) k) [
        | yes p ↦
            rw (lt→ltb (n + 1) k p, le→ltb (n + 1 + 1) k (omega arith))
              (ap (λ i. turn k i 1) (head_home k t n _ _ 0 ht hn at_head at_new (omega arith)))
        | no p ↦
            rw (le→ltb (n + 1) k (omega arith), le→ltb (n + 1) k (omega arith))
              (ap (λ i. turn k i 1) (head_past k t n _ _ 0 ht hn at_head at_new (omega arith)))
      ]
]
  where
    at_head : Ahead k t n (turn k t n)
    at_head = turn-Ahead k t n ht (omega arith)

    step : Ahead k (turn k t n) 1 (turn k (turn k t n) 1)
    step = turn-Ahead k (turn k t n) 1 at_head.inside (omega arith)

    last : Ahead k (turn k (turn k t n) 1) 1 (turn k (turn k (turn k t n) 1) 1)
    last = turn-Ahead k (turn k (turn k t n) 1) 1 step.inside (omega arith)

    at_new : Ahead k (turn k t n) 2 (turn k (turn k (turn k t n) 1) 1)
    at_new = two k _ _ _ hk at_head.inside step last

-- The head stays on the slot behind the window.
pub turn_next :
    (k t n : ℕ)
    → t < k
    → n < k
    → 1 < k
    → turn k (next_tail k t n) (next_count k n) ≡ turn k (turn k t n) 1
turn_next k t n ht hn hk = ground arith
