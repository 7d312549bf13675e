-- ===== src/Receiver/Printer/Printed.antt =====
-- What the printer prints.
use sik_telnet_radio.Prelude.{ℕ, suc, ◌≡◌, refl, ap, ◌∙◌, List, [], ◌∷◌, ◌++◌, map, length, arith}
use sik_telnet_radio.Outcome.{ok}
use sik_telnet_radio.Events.{
  EventType, terminate, station_added, station_removed, current_station_changed, client_added,
  new_jobs,
}
use sik_telnet_radio.Buffer.{CircularBuffer}
use sik_telnet_radio.Buffer.Slots.{Payload}
use sik_telnet_radio.Buffer.Refine.{Holds}
use sik_telnet_radio.Buffer.Dump.{played, WritesAll, dump_tail-Kept}
use sik_telnet_radio.Sender.Audio.Stream.{concat}
use sik_telnet_radio.Receiver.Audio.{handle_print}
use sik_telnet_radio.Receiver.Printer.{print_loop}

-- The calls of `handle_print`.
abbrev pub prints : List EventType → ℕ
prints [] = 0
prints (terminate ∷ events) = 0
prints (new_jobs ∷ events) = suc (prints events)
prints (current_station_changed ∷ events) = prints events
prints (station_added ∷ events) = prints events
prints (station_removed ∷ events) = prints events
prints (client_added ∷ events) = prints events

-- What is heard of the packets, silence for those that are missing.
abbrev pub heard : ℕ → List Payload → List ℕ
heard p xs = concat (map (played p) xs)

module _ (write : List ℕ → ℕ) (all : WritesAll write) where
  -- A printer that is woken as often as the buffer holds packets `xs` prints these in their order, with
  -- as many zero bytes for each that is missing, without a fault, and leaves what lies behind them.
  pub print_loop-heard :
      (events : List EventType) {b : CircularBuffer} {k : ℕ} (xs ys : List Payload)
      → Holds b k (xs ++ ys)
      → prints events ≡ length xs
      → (b' : CircularBuffer) × (print_loop write b events ≡ ok (heard b.psize xs, b'))
        × Holds b' k ys
        × (b'.abs_head ≡ b.abs_head)
  unfolding print_loop handle_print
  print_loop-heard [] {b} [] ys h e = (b, refl, h, refl)
  print_loop-heard [] (x ∷ xs) ys h e = absurd (omega (arith, e))
  print_loop-heard (terminate ∷ events) {b} [] ys h e = (b, refl, h, refl)
  print_loop-heard (terminate ∷ events) (x ∷ xs) ys h e = absurd (omega (arith, e))
  print_loop-heard (new_jobs ∷ events) [] ys h e = absurd (omega (arith, e))
  print_loop-heard (new_jobs ∷ events) {b} (x ∷ xs) ys h e =
      let (b1, prints_x, h1, head1, size1) = dump_tail-Kept write all h in
      let (b2, prints_xs, h2, head2) = print_loop-heard events xs ys h1 (omega (arith, e)) in
      (
        b2,
        rw (prints_x, prints_xs) (ap (λ p. ok (played b.psize x ++ heard p xs, b2)) size1),
        h2,
        head2 ∙ head1,
      )
  print_loop-heard (current_station_changed ∷ events) xs ys h e = print_loop-heard events xs ys h e
  print_loop-heard (station_added ∷ events) xs ys h e = print_loop-heard events xs ys h e
  print_loop-heard (station_removed ∷ events) xs ys h e = print_loop-heard events xs ys h e
  print_loop-heard (client_added ∷ events) xs ys h e = print_loop-heard events xs ys h e
