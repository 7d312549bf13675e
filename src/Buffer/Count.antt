-- ===== src/Buffer/Count.antt =====
-- How many packets lie behind the tail without a gap.
use native.Mathlib.Nat.{le-mul_of_pos_right}
use sik_telnet_radio.Prelude.{
  ℕ, zero, suc, ◌+◌, ◌*◌, ◌≤◌, ◌<◌, ◌≡◌, ◌⊎◌, inl, inr, refl, ap, sym, ◌∙◌, subst, true, false,
  arith, ◌==◌, lt→ltb, dec_lt, Bool-cases,
}
use sik_telnet_radio.Outcome.{Outcome, ok}
use sik_telnet_radio.Window.{turn}
use sik_telnet_radio.Buffer.{CircularBuffer, cnt_from, cnt_upto_gap}
use sik_telnet_radio.Buffer.Shape.{Shape, Shape-rounded_cap, room-mul}
use sik_telnet_radio.Buffer.Next.{mul_differs, next_slot, same_index}

-- A run that counts the slots from slot `t` on that hold packets, up to the first that holds none, or
-- all `k` of them.
pub record Counts (b : CircularBuffer) (k t : ℕ) (run : Outcome ℕ) : Type 0 where
  pub count : ℕ
  pub runs : run ≡ ok count
  pub bound : count ≤ k
  pub taken : (j : ℕ) → j < count → b.occupied (turn k t j * b.psize) ≡ true
  pub ended : (count ≡ k) ⊎ (b.occupied (turn k t count * b.psize) ≡ false)

module _ {b : CircularBuffer} {k t n : ℕ} (v : Shape b k t n) where
  turn_on : (d : ℕ) → d + 1 < k → turn k (turn k t d) 1 ≡ turn k t (d + 1)
  turn_on d h = ground (arith, v.tail_in)

  turn_round : (d : ℕ) → d + 1 ≡ k → turn k (turn k t d) 1 ≡ t
  turn_round d h = ground (arith, v.tail_in)

  turn_in : (d : ℕ) → d < k → turn k t d < k
  turn_in d h = ground (arith, v.tail_in)

  turn_moved : (d : ℕ) → 0 < d → d < k → ¬ (turn k t d ≡ t)
  turn_moved d pos h = ground (arith, v.tail_in)

  not_tail : (d : ℕ) → 0 < d → d < k → (turn k t d * b.psize == b.tail) ≡ false
  not_tail d pos h =
      ap (λ i. turn k t d * b.psize == i) v.tail_is
      ∙ mul_differs v (turn k t d) t (turn_moved d pos h)

  taken_next :
      (d : ℕ)
      → ((j : ℕ) → j < d → b.occupied (turn k t j * b.psize) ≡ true)
      → b.occupied (turn k t d * b.psize) ≡ true
      → (j : ℕ) → j < d + 1
      → b.occupied (turn k t j * b.psize) ≡ true
  taken_next d before full j h = elim (dec_lt j d) [
    | yes lo ↦ before j lo
    | no at ↦ ap (λ i. b.occupied (turn k t i * b.psize)) {y = d} (omega arith) ∙ full
  ]

  cnt_from-Counts :
      (fuel d : ℕ)
      → k < d + fuel + 1
      → d < k
      → ((j : ℕ) → j < d → b.occupied (turn k t j * b.psize) ≡ true)
      → Counts b k t (cnt_from fuel b (turn k t d * b.psize) d)
  unfolding cnt_from
  cnt_from-Counts zero d enough h before = absurd (omega arith)
  cnt_from-Counts (suc fuel) d enough h before =
      let p = b.psize in
      let s = turn k t d in
      let inside =
        lt→ltb (s * p) b.capacity
          (omega (arith, room-mul p s k (turn_in d h), v.slots_fit, v.psize_pos)) in
      elim (Bool-cases (b.occupied (s * p))) [
        | inr gap ↦ record {
          count = d;
          runs = rw (inside, gap) refl;
          bound = omega arith;
          taken = before;
          ended = inr gap;
        }
        | inl full ↦ elim (dec_lt (d + 1) k) [
          | yes more ↦
              let rest =
                cnt_from-Counts fuel (d + 1) (omega arith) more (taken_next d before full) in
              record {
                count = rest.count;
                runs =
                    rw
                      (
                        inside,
                        full,
                        Shape-rounded_cap v,
                        next_slot v s (turn_in d h),
                        turn_on d more,
                        not_tail (d + 1) (omega arith) more,
                      )
                      rest.runs;
                bound = rest.bound;
                taken = rest.taken;
                ended = rest.ended;
              }
          | no last ↦ record {
            count = d + 1;
            runs =
                rw
                  (
                    inside,
                    full,
                    Shape-rounded_cap v,
                    next_slot v s (turn_in d h),
                    turn_round d (omega arith),
                    same_index v (t * p) b.tail (sym v.tail_is),
                  )
                  refl;
            bound = omega arith;
            taken = taken_next d before full;
            ended = inl (omega arith);
          }
        ]
      ]

-- In a buffer of `k` slots the loop comes to an end after at most `k` rounds, without a fault: it counts
-- the packets from the tail on up to the first slot that holds none, or all `k` slots.
pub cnt_upto_gap-Counts :
    {b : CircularBuffer} {k t n : ℕ} → Shape b k t n → Counts b k t (cnt_upto_gap b)
unfolding cnt_upto_gap
cnt_upto_gap-Counts {b} {k} {t} v =
    subst (λ i. Counts b k t (cnt_from (b.capacity + 1) b i 0)) {x = turn k t 0 * b.psize}
      (ap (λ s. s * b.psize) {y = t} (ground (arith, v.tail_in)) ∙ sym v.tail_is)
      (cnt_from-Counts v (b.capacity + 1) 0
        (omega (arith, le-mul_of_pos_right k v.psize_pos, v.slots_fit)) (omega (arith, v.tail_in))
        (λ j h. absurd (omega arith)))
