-- ===== src/Receiver/Rexmit/Asked.antt =====
-- Which packets the receiver asks for.
use native.Mathlib.Nat.{le-mul_of_pos_right}
use sik_telnet_radio.Prelude.{
  ℕ, zero, suc, ◌+◌, ◌*◌, ◌-◌, ◌%◌, ◌^◌, ◌<◌, ◌≡◌, refl, ap, sym, ◌∙◌, Bool, true, false, List, [],
  ◌∷◌, arith, ◌==◌, if◌then◌else◌, lt→ltb, mod-eq_of_lt,
}
use sik_telnet_radio.Outcome.{Outcome, ok}
use sik_telnet_radio.Window.{turn}
use sik_telnet_radio.Buffer.{CircularBuffer}
use sik_telnet_radio.Buffer.Shape.{Shape, Shape-rounded_cap, Shape-abs_tail, room-mul}
use sik_telnet_radio.Buffer.Next.{mul_differs, next_slot, same_index}
use sik_telnet_radio.Receiver.Rexmit.{missing_from, missing_ids}

module _ {b : CircularBuffer} {k t n : ℕ} (v : Shape b k t n) where
  -- Of the `m` slots from slot `s` on, those that hold no packet, by their index and the number of the
  -- tail.
  abbrev pub asked : ℕ → ℕ → List ℕ
  asked s zero = []
  asked s (suc m) =
      if b.occupied (s * b.psize)
      then asked (turn k s 1) m
      else (s * b.psize + (b.abs_head - n * b.psize)) ∷ asked (turn k s 1) m

  turn-suc : (s m : ℕ) → s < k → suc m < k → turn k s (suc m) ≡ turn k (turn k s 1) m
  turn-suc s m hs hm = ground (arith, v.two_slots)

  not_head :
      (s m : ℕ)
      → s < k
      → suc m < k
      → turn k s (suc m) ≡ turn k t n
      → (s * b.psize == b.head) ≡ false
  not_head s m hs hm e =
      ap (λ h. s * b.psize == h) (v.head_is ∙ ap (λ q. q * b.psize) (sym e))
      ∙ mul_differs v s (turn k s (suc m)) (ground arith)

  otherwise : (c : Bool) (x y : Outcome (List ℕ)) → c ≡ false → (if c then x else y) ≡ y
  otherwise c x y h = rw h refl

  ask_or_not :
      (there : Bool) {a : ℕ} (ids : List ℕ)
      → a < 2 ^ 64
      → (if there then ok ids else ok (a % 2 ^ 64 ∷ ids)) ≡ ok (if there then ids else a ∷ ids)
  ask_or_not true ids h = refl
  ask_or_not false {a} ids h = ap (λ x. ok (x ∷ ids)) (mod-eq_of_lt h)

  missing_from-asked :
      (fuel m s : ℕ)
      → m < fuel
      → s < k
      → m < k
      → turn k s m ≡ turn k t n
      → missing_from fuel b (s * b.psize) ≡ ok (asked s m)
  unfolding missing_from
  missing_from-asked zero m s f hs hm e = absurd (omega arith)
  missing_from-asked (suc fuel) zero s f hs hm e =
      rw
        (same_index v (s * b.psize) b.head
          (ap (λ q. q * b.psize) {y = turn k t n} (ground (arith, e)) ∙ sym v.head_is))
        refl
  missing_from-asked (suc fuel) (suc m) s f hs hm e =
      let p = b.psize in
      rw
        (
          not_head s m hs hm e,
          lt→ltb (s * p) b.capacity (omega (arith, room-mul p s k hs, v.slots_fit, v.psize_pos)),
          Shape-rounded_cap v,
          next_slot v s hs,
          missing_from-asked fuel m (turn k s 1) (omega arith) (ground (arith, v.two_slots))
              (omega arith) (sym (turn-suc s m hs hm) ∙ e),
          Shape-abs_tail v,
        )
        (ask_or_not (b.occupied (s * p)) (asked (turn k s 1) m)
          (omega (arith, room-mul p s k hs, v.slots_fit, v.small, v.abs_small)))

  -- Of a buffer that is not empty, the receiver asks for the packets whose slots hold none, without a
  -- fault and in the order of the slots. The number that it asks for is the index of the slot plus the
  -- number of the tail.
  pub missing_ids-asked : b.empty ≡ false → missing_ids b ≡ ok (asked t n)
  unfolding missing_ids
  missing_ids-asked h =
      otherwise b.empty (ok []) (missing_from (b.capacity + 1) b b.tail) h
      ∙ (ap (missing_from (b.capacity + 1) b) v.tail_is
          ∙ missing_from-asked (b.capacity + 1) n t
              (omega (arith, le-mul_of_pos_right k v.psize_pos, v.slots_fit, v.count_in)) v.tail_in
              v.count_in refl)
