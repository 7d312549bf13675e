-- ===== src/Receiver/Audio/Session.antt =====
-- The first packet of a session.
use sik_telnet_radio.Prelude.{
  ℕ, ◌+◌, ◌*◌, ◌-◌, ◌/◌, ◌^◌, ◌<◌, ◌≤◌, ◌≡◌, refl, ap, sym, ◌∙◌, subst, false, [], ◌∷◌, some, arith,
  le→ltb, lt→ltb, le→leb, length, take, remember, drop,
}
use sik_telnet_radio.Outcome.{Outcome, ok, crash, division, ◌>>=◌, mod_size, sub_size}
use sik_telnet_radio.Packet.{AudioPacket, audio_data}
use sik_telnet_radio.Buffer.{
  CircularBuffer, reset, reset_at, try_put, abs_tail, range, try_push_head, push_at,
}
use sik_telnet_radio.Buffer.Slots.{Payload}
use sik_telnet_radio.Buffer.Refine.{Holds}
use sik_telnet_radio.Buffer.Put.{try_put-next}
use sik_telnet_radio.Buffer.Stream.{reset_at-Holds}
use sik_telnet_radio.Receiver.Audio.{
  AudioReceiver, start_session, wake_printer, take_packet, handle_audio_packet,
}

pub wake_printer-buffer :
    (st : AudioReceiver) (packet : AudioPacket) → (wake_printer st packet).buffer ≡ st.buffer
unfolding wake_printer
wake_printer-buffer st packet = ground arith

pub wake_printer-session :
    (st : AudioReceiver) (packet : AudioPacket)
    → (wake_printer st packet).cur_session ≡ st.cur_session
unfolding wake_printer
wake_printer-session st packet = ground arith

remember_first : (k : ℕ) (x : Payload) → 1 < k → remember (k - 1) [] x ≡ x ∷ []
remember_first k x h = ap (λ d. drop d (x ∷ [])) {y = 0} (omega arith)

pub session_started :
    (st : AudioReceiver) (packet : AudioPacket)
    → st.cur_session < packet.session_id
    → st.buffer.psize ≤ st.buffer.capacity
    → handle_audio_packet st packet ≡ (
        try_put (reset_at st.buffer packet.psize packet.first_byte_num) packet >>= λ buffer. ok (
          wake_printer
            (record st { cur_session = packet.session_id; has_printed = false; buffer = buffer })
            packet))
unfolding handle_audio_packet start_session take_packet reset_at reset
session_started st packet newer fits =
    rw
      (
        le→ltb packet.session_id st.cur_session (omega arith),
        le→ltb st.buffer.capacity st.buffer.psize fits,
        lt→ltb st.cur_session packet.session_id newer,
        le→ltb packet.first_byte_num packet.first_byte_num (omega arith),
      )
      refl

-- The first packet of a newer session runs without a fault, if two packets of its size fit into the
-- buffer and the old packet size fitted too. After it the session is the current one, and the buffer
-- holds this packet alone.
pub handle_audio_packet-new_session :
    (st : AudioReceiver) (packet : AudioPacket)
    → st.cur_session < packet.session_id
    → st.buffer.psize ≤ st.buffer.capacity
    → 0 < packet.psize
    → 2 * packet.psize ≤ st.buffer.capacity
    → st.buffer.capacity < 2 ^ 62
    → packet.first_byte_num + packet.psize < 2 ^ 63
    → packet.psize ≤ length (audio_data packet)
    → (st' : AudioReceiver) × (handle_audio_packet st packet ≡ ok st')
      × (st'.cur_session ≡ packet.session_id)
      × Holds st'.buffer
          (st.buffer.capacity / packet.psize)
          (some (take packet.psize (audio_data packet)) ∷ [])
unfolding reset_at reset
handle_audio_packet-new_session st packet newer fits pos room small far enough =
    let k = st.buffer.capacity / packet.psize in
    let h =
      reset_at-Holds st.buffer packet.psize packet.first_byte_num pos room small
        (omega (arith, far)) in
    let (buffer, run, holds, _) = try_put-next h packet enough far refl in
    let st1 = record st { cur_session = packet.session_id; has_printed = false; buffer = buffer } in
    let payload = some (take packet.psize (audio_data packet)) in
    (
      wake_printer st1 packet,
      session_started st packet newer fits
          ∙ ap
              (λ (m : Outcome CircularBuffer).
                m >>= λ buffer. ok (wake_printer (record st1 { buffer = buffer }) packet))
              run,
      wake_printer-session st1 packet,
      subst (λ b. Holds b k (payload ∷ [])) (sym (wake_printer-buffer st1 packet))
          (subst (Holds buffer k) (remember_first k payload h.shape.two_slots) holds),
    )

fresh-abs_tail : (b : CircularBuffer) (p a : ℕ) → a < 2 ^ 63 → abs_tail (reset_at b p a) ≡ ok a
unfolding abs_tail range reset_at reset
fresh-abs_tail b p a h = ap ok (omega arith)

mod_size_zero : (a p : ℕ) → p ≡ 0 → mod_size a p ≡ crash division
unfolding mod_size
mod_size_zero a p h = ground arith

zero_put :
    (b : CircularBuffer) (p : ℕ) (packet : AudioPacket)
    → p ≡ 0
    → packet.first_byte_num < 2 ^ 63
    → try_put (reset_at b p packet.first_byte_num) packet ≡ crash division
unfolding try_put try_push_head push_at reset_at reset
zero_put b p packet none_left h =
    rw
      (
        fresh-abs_tail b p packet.first_byte_num h,
        le→ltb packet.first_byte_num packet.first_byte_num (omega arith),
        le→leb packet.first_byte_num packet.first_byte_num (omega arith),
        mod_size_zero (sub_size packet.first_byte_num packet.first_byte_num) p none_left,
      )
      refl

-- The first packet of a newer session divides by zero if it has no audio bytes.
pub handle_audio_packet-no_audio :
    (st : AudioReceiver) (packet : AudioPacket)
    → st.cur_session < packet.session_id
    → st.buffer.psize ≤ st.buffer.capacity
    → packet.first_byte_num < 2 ^ 63
    → packet.psize ≡ 0
    → handle_audio_packet st packet ≡ crash division
handle_audio_packet-no_audio st packet newer fits far none_left =
    session_started st packet newer fits
    ∙ rw (zero_put st.buffer packet.psize packet none_left far) refl
