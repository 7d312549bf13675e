-- ===== src/Broadcast/Playing.antt =====
-- One packet of a session after another.
use sik_telnet_radio.Prelude.{
  ℕ, ◌+◌, ◌*◌, ◌-◌, ◌/◌, ◌^◌, ◌≤◌, ◌<◌, ◌≡◌, refl, ap, sym, ◌∙◌, subst, false, List, [], some,
  arith, length, remember, le→ltb,
}
use sik_telnet_radio.Outcome.{Outcome, ok, ◌>>=◌}
use sik_telnet_radio.Packet.{AudioPacket, outgoing}
use sik_telnet_radio.Buffer.{CircularBuffer, try_put, reset_at, reset}
use sik_telnet_radio.Buffer.Slots.{Payload}
use sik_telnet_radio.Buffer.Refine.{Holds, Advanced}
use sik_telnet_radio.Buffer.Outgoing.{try_put-outgoing}
use sik_telnet_radio.Buffer.Stream.{reset_at-Holds}
use sik_telnet_radio.Receiver.Audio.{
  AudioReceiver, start_session, wake_printer, take_packet, handle_audio_packet,
}
use sik_telnet_radio.Receiver.Audio.Session.{
  wake_printer-buffer, wake_printer-session, session_started,
}

-- A receiver in session `s` with packets of `p` bytes, whose buffer of `k` slots holds `xs` and waits
-- for the byte with the number `a`.
pub record Playing (st : AudioReceiver) (s p k : ℕ) (xs : List Payload) (a : ℕ) : Type 0 where
  pub session : st.cur_session ≡ s
  pub holds : Holds st.buffer k xs
  pub size : st.buffer.psize ≡ p
  pub fits : p ≤ st.buffer.capacity
  pub begun : st.buffer.byte0 ≤ a
  pub awaits : st.buffer.abs_head ≡ a

-- What a buffer is that has taken the packet, once the printer was woken.
woken :
    (st : AudioReceiver) (packet : AudioPacket) {s p k a : ℕ} {xs : List Payload}
    {b : CircularBuffer}
    → st.cur_session ≡ s
    → Holds st.buffer k xs
    → b.psize ≡ p
    → p ≤ b.capacity
    → b.byte0 ≤ a
    → Advanced b st.buffer a
    → Playing (wake_printer st packet) s p k xs (a + p)
woken st packet {s} {p} {k} {a} {xs} session holds size fits begun moved =
    let same = wake_printer-buffer st packet in
    record {
      session = wake_printer-session st packet ∙ session;
      holds = subst (λ b. Holds b k xs) (sym same) holds;
      size = ap (λ (b : CircularBuffer). b.psize) same ∙ moved.same_psize ∙ size;
      fits = omega (arith, ap (λ (b : CircularBuffer). b.capacity) same, moved.same_capacity, fits);
      begun = omega (arith, ap (λ (b : CircularBuffer). b.byte0) same, moved.same_byte0, begun);
      awaits = omega (arith, ap (λ (b : CircularBuffer). b.abs_head) same, moved.abs_head_is, size);
    }

-- A packet of the session that is played.
session_goes_on :
    (st : AudioReceiver) (packet : AudioPacket) {b : CircularBuffer}
    → st.cur_session ≡ packet.session_id
    → st.buffer.psize ≤ st.buffer.capacity
    → st.buffer.byte0 ≤ packet.first_byte_num
    → try_put st.buffer packet ≡ ok b
    → handle_audio_packet st packet ≡ ok (wake_printer (record st { buffer = b }) packet)
unfolding handle_audio_packet start_session take_packet
session_goes_on st packet same fits begun run =
    rw
      (
        le→ltb packet.session_id st.cur_session (omega (arith, same)),
        le→ltb st.cur_session packet.session_id (omega (arith, same)),
        le→ltb st.buffer.capacity st.buffer.psize fits,
        le→ltb packet.first_byte_num st.buffer.byte0 begun,
        run,
      )
      refl

pub next_packet-Playing :
    {k : ℕ} {xs : List Payload} (st : AudioReceiver) (htonl : ℕ → ℕ) (s a p : ℕ) (c : List ℕ)
    → Playing st s p k xs a
    → a + p < 2 ^ 63
    → length c ≡ p
    → (st' : AudioReceiver) × (handle_audio_packet st (outgoing htonl s a c p) ≡ ok st')
      × Playing st' s p k (remember (k - 1) xs (some c)) (a + p)
unfolding outgoing
next_packet-Playing st htonl s a p c h far e =
    let packet = outgoing htonl s a c p in
    let (b, run, holds, moved) = try_put-outgoing htonl s a p c h.holds h.size h.awaits far e in
    (
      wake_printer (record st { buffer = b }) packet,
      session_goes_on st packet h.session (omega (arith, h.size, h.fits)) h.begun run,
      woken (record st { buffer = b }) packet h.session holds h.size h.fits h.begun moved,
    )

-- The first packet of a session that is newer.
pub first_packet-Playing :
    (st : AudioReceiver) (htonl : ℕ → ℕ) (s a p : ℕ) (c : List ℕ)
    → st.cur_session < s
    → st.buffer.psize ≤ st.buffer.capacity
    → 0 < p
    → 2 * p ≤ st.buffer.capacity
    → st.buffer.capacity < 2 ^ 62
    → a + p < 2 ^ 63
    → length c ≡ p
    → let k = st.buffer.capacity / p in
      (st' : AudioReceiver) × (handle_audio_packet st (outgoing htonl s a c p) ≡ ok st')
      × Playing st' s p k (remember (k - 1) [] (some c)) (a + p)
unfolding outgoing reset_at reset
first_packet-Playing st htonl s a p c newer fits pos room small far e =
    let packet = outgoing htonl s a c p in
    let fresh = reset_at st.buffer p a in
    let (b, run, holds, moved) =
      try_put-outgoing htonl s a p c
        (reset_at-Holds st.buffer p a pos room small (omega (arith, far))) refl refl far e in
    let st1 = record st { cur_session = s; has_printed = false; buffer = b } in
    (
      wake_printer st1 packet,
      session_started st packet newer fits
          ∙ ap
              (λ (m : Outcome CircularBuffer).
                m >>= λ b. ok (wake_printer (record st1 { buffer = b }) packet))
              run,
      woken st1 packet {b = fresh} refl holds refl (omega (arith, room)) (omega arith) moved,
    )
