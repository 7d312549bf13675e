-- ===== src/Broadcast/Received.antt =====
-- A receiver that gets all packets of a session.
use sik_telnet_radio.Prelude.{
  ℕ, ◌+◌, ◌*◌, ◌-◌, ◌/◌, ◌^◌, ◌≤◌, ◌<◌, ◌≡◌, refl, ap, ◌∙◌, subst, List, [], ◌∷◌, ◌++◌, some, arith,
  length, map, keep_last, remember_all, remember_all-nil, length-append,
}
use sik_telnet_radio.Outcome.{ok}
use sik_telnet_radio.Packet.{outgoing}
use sik_telnet_radio.Packet.RoundTrip.{read_packet-outgoing}
use sik_telnet_radio.Buffer.Slots.{Payload}
use sik_telnet_radio.Buffer.Refine.{Holds}
use sik_telnet_radio.Receiver.Audio.{AudioReceiver, handle_audio_packet, listen}
use sik_telnet_radio.Sender.Audio.{AudioSender, new_sender, run}
use sik_telnet_radio.Sender.Audio.Stream.{Even, Fits, concat, reads, packets_from, run-packets}
use sik_telnet_radio.Broadcast.{on_air}
use sik_telnet_radio.Broadcast.Playing.{Playing, first_packet-Playing, next_packet-Playing}

-- Chunks of `p` bytes have `p` bytes each.
length-concat :
    (p : ℕ) (chunks : List (List ℕ)) → Even p chunks → length (concat chunks) ≡ length chunks * p
length-concat p [] even = omega arith
length-concat p (c ∷ cs) (e, even) =
    omega (arith, length-append c (concat cs), e, length-concat p cs even)

module _ (sendto : List ℕ → ℕ) (htonl ntohl : ℕ → ℕ) (bounded : (y : ℕ) → htonl y < 2 ^ 32)
    (back : (y : ℕ) → y < 2 ^ 32 → ntohl (htonl y) ≡ y) where
  -- The loop gets a packet as it was sent.
  listen_one :
      (st : AudioReceiver) {st' : AudioReceiver} (s a p : ℕ) (c : List ℕ) (chunks : List (List ℕ))
      → s < 2 ^ 64
      → a + p < 2 ^ 63
      → length c ≡ p
      → handle_audio_packet st (outgoing htonl s a c p) ≡ ok st'
      → listen ntohl st (on_air (packets_from sendto htonl s p a (c ∷ chunks)))
        ≡ listen ntohl st' (on_air (packets_from sendto htonl s p (a + p) chunks))
  unfolding listen
  listen_one st s a p c chunks hs far e handles =
      rw
        (
          read_packet-outgoing htonl ntohl bounded back s a c p hs (omega (arith, far))
              (omega (arith, e)),
          handles,
        )
        refl

  listen-Playing :
      (chunks : List (List ℕ)) {k : ℕ} {xs : List Payload} (st : AudioReceiver) (s a p : ℕ)
      → Playing st s p k xs a
      → s < 2 ^ 64
      → Even p chunks
      → a + length chunks * p < 2 ^ 63
      → (st' : AudioReceiver) × (listen ntohl st (on_air (packets_from sendto htonl s p a chunks))
          ≡ ok st')
        × Holds st'.buffer k (remember_all (k - 1) xs (map some chunks))
  listen-Playing [] st s a p h hs even far = (st, unfold listen in refl, h.holds)
  listen-Playing (c ∷ cs) st s a p h hs (e, even) far =
      let (st1, handles, h1) = next_packet-Playing st htonl s a p c h (omega (arith, far)) e in
      let (st', runs, holds) = listen-Playing cs st1 s (a + p) p h1 hs even (omega (arith, far)) in
      (st', listen_one st s a p c cs hs (omega (arith, far)) e handles ∙ runs, holds)

  listen-session :
      (chunks : List (List ℕ)) (st : AudioReceiver) (s p : ℕ)
      → st.cur_session < s
      → s < 2 ^ 64
      → st.buffer.psize ≤ st.buffer.capacity
      → 0 < p
      → 2 * p ≤ st.buffer.capacity
      → st.buffer.capacity < 2 ^ 62
      → Even p chunks
      → 0 < length chunks
      → length chunks * p < 2 ^ 63
      → let k = st.buffer.capacity / p in
        (st' : AudioReceiver) × (listen ntohl st (on_air (packets_from sendto htonl s p 0 chunks))
          ≡ ok st')
        × Holds st'.buffer k (keep_last (k - 1) (map some chunks))
  listen-session [] st s p newer hs fits pos room small even some_chunk far =
      absurd (omega (arith, some_chunk))
  listen-session (c ∷ cs) st s p newer hs fits pos room small (e, even) some_chunk far =
      let k = st.buffer.capacity / p in
      let (st1, handles, h1) =
        first_packet-Playing st htonl s 0 p c newer fits pos room small (omega (arith, far)) e in
      let (st', runs, holds) = listen-Playing cs st1 s (0 + p) p h1 hs even (omega (arith, far)) in
      (
        st',
        listen_one st s 0 p c cs hs (omega (arith, far)) e handles ∙ runs,
        subst (Holds st'.buffer k) (remember_all-nil (k - 1) (map some (c ∷ cs))) holds,
      )

  -- Nothing that has a packet of bytes is cut into no chunks.
  some_chunk :
      (p : ℕ) (chunks : List (List ℕ)) (rest input : List ℕ)
      → concat chunks ++ rest ≡ input
      → length rest < p
      → p ≤ length input
      → 0 < length chunks
  some_chunk p [] rest input joined partial enough =
      absurd (omega (arith, ap length joined, partial, enough))
  some_chunk p (c ∷ cs) rest input joined partial enough = omega arith

  -- What a sender reads, in any pieces, a receiver holds: if a new sender reads at least one packet of
  -- input, runs with a cache of two packets or more, and all its packets reach a receiver of an older
  -- session in their order, then neither meets a fault, and at the end the receiver's buffer holds the
  -- last packets of the input, as many as it has slots, less one; what is not sent is less than a
  -- packet.
  pub broadcast-received :
      (s p fsize : ℕ) (cs : List (List ℕ)) (st : AudioReceiver)
      → ((bytes : List ℕ) → sendto bytes ≡ length bytes)
      → 0 < p
      → 2 * p ≤ fsize
      → fsize < 2 ^ 62
      → Fits p 0 cs
      → p ≤ length (concat cs)
      → length (concat cs) < 2 ^ 63
      → st.cur_session < s
      → s < 2 ^ 64
      → st.buffer.psize ≤ st.buffer.capacity
      → 2 * p ≤ st.buffer.capacity
      → st.buffer.capacity < 2 ^ 62
      → let k = st.buffer.capacity / p in
        (sender : AudioSender) × (run sendto htonl (new_sender s p fsize) (reads cs) ≡ ok sender)
        × (st' : AudioReceiver) × (listen ntohl st (on_air sender.sent) ≡ ok st')
        × (chunks : List (List ℕ)) × Even p chunks
        × (concat chunks ++ sender.filled ≡ concat cs)
        × (length sender.filled < p)
        × Holds st'.buffer k (keep_last (k - 1) (map some chunks))
  broadcast-received s p fsize cs st all pos room small fits enough short newer hs fitted room'
        small' =
      let (sender, sends, chunks, even, joined, partial, sent, _) =
        run-packets sendto htonl s p fsize cs all pos room small fits short in
      let (st', hears, holds) =
        listen-session chunks st s p newer hs fitted pos room' small' even
          (some_chunk p chunks sender.filled (concat cs) joined partial enough)
          (omega (
            arith,
            length-concat p chunks even,
            length-append (concat chunks) sender.filled,
            ap length joined,
            short,
          )) in
      (
        sender,
        sends,
        st',
        ap (λ packets. listen ntohl st (on_air packets)) sent ∙ hears,
        chunks,
        even,
        joined,
        partial,
        holds,
      )
