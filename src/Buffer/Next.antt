-- ===== src/Buffer/Next.antt =====
-- From one slot to the next, as the code finds it by its index.
use native.Mathlib.Nat.{mul-lt-mul_of_pos_right}
use sik_telnet_radio.Prelude.{
  ℕ, ◌+◌, ◌*◌, ◌%◌, ◌<◌, ◌≡◌, ◌≢◌, ap, ◌∙◌, true, false, arith, ◌==◌, dec_lt,
}
use sik_telnet_radio.Outcome.{ok, add_size, mod_size, mod_size_lem}
use sik_telnet_radio.Window.{turn}
use sik_telnet_radio.Buffer.{CircularBuffer}
use sik_telnet_radio.Buffer.Shape.{Shape, room-mul}
use sik_telnet_radio.Buffer.Tail.{mod-turn-mul}

module _ {b : CircularBuffer} {k t n : ℕ} (v : Shape b k t n) where
  pub mul_differs : (s s' : ℕ) → s ≢ s' → (s * b.psize == s' * b.psize) ≡ false
  mul_differs s s' h = elim (dec_lt s s') [
    | yes lo ↦ differs (omega (arith, mul-lt-mul_of_pos_right lo v.psize_pos))
    | no hi ↦ differs (
        omega
          (arith, mul-lt-mul_of_pos_right {m = s'} {n = s} {k = b.psize} (omega arith) v.psize_pos))
  ]
    where
      differs : {a c : ℕ} → a ≢ c → (a == c) ≡ false
      differs h = ground arith

  pub next_slot :
      (s : ℕ)
      → s < k
      → mod_size (add_size (s * b.psize) b.psize) (k * b.psize) ≡ ok (turn k s 1 * b.psize)
  next_slot s h =
      mod_size_lem (add_size (s * b.psize) b.psize) (k * b.psize)
        (omega (arith, room-mul b.psize s k h, v.psize_pos))
      ∙ ap ok (
          ap (λ x. x % (k * b.psize)) {y = s * b.psize + 1 * b.psize}
            (omega (arith, room-mul b.psize s k h, v.slots_fit, v.small))
          ∙ mod-turn-mul b.psize k s 1 v.psize_pos h (omega (arith, v.two_slots)))

  pub same_index : (a c : ℕ) → a ≡ c → (a == c) ≡ true
  same_index a c h = ground arith
