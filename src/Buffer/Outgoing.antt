-- ===== src/Buffer/Outgoing.antt =====
-- A packet that was made for sending, in a buffer.
use sik_telnet_radio.Prelude.{
  ℕ, ◌+◌, ◌-◌, ◌^◌, ◌<◌, ◌≡◌, ap, sym, ◌∙◌, subst, List, some, arith, length, take, remember,
}
use sik_telnet_radio.Outcome.{ok}
use sik_telnet_radio.Packet.{outgoing, audio_data}
use sik_telnet_radio.Packet.RoundTrip.{take-all}
use sik_telnet_radio.Buffer.{CircularBuffer, try_put}
use sik_telnet_radio.Buffer.Slots.{Payload}
use sik_telnet_radio.Buffer.Refine.{Holds, Advanced}
use sik_telnet_radio.Buffer.Put.{try_put-next}

-- The packet that follows is put into the buffer with its audio.
pub try_put-outgoing :
    {b : CircularBuffer} {k : ℕ} {xs : List Payload} (htonl : ℕ → ℕ) (s a p : ℕ) (c : List ℕ)
    → Holds b k xs
    → b.psize ≡ p
    → b.abs_head ≡ a
    → a + p < 2 ^ 63
    → length c ≡ p
    → (b' : CircularBuffer) × (try_put b (outgoing htonl s a c p) ≡ ok b')
      × Holds b' k (remember (k - 1) xs (some c))
      × Advanced b b' a
unfolding outgoing audio_data
try_put-outgoing {b} {k} {xs} htonl s a p c h size at far e =
    let whole = take-all p c (omega (arith, e)) in
    let (b', run, holds, moved) =
      try_put-next h (outgoing htonl s a c p) (omega (arith, ap length whole, e, size))
        (omega (arith, size, far)) (sym at) in
    (
      b',
      run,
      subst (λ payload. Holds b' k (remember (k - 1) xs (some payload)))
          (ap (λ q. take q (take p c)) size ∙ ap (take p) whole ∙ whole) holds,
      moved,
    )
