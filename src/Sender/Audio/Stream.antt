-- ===== src/Sender/Audio/Stream.antt =====
-- What is sent is the input, cut into packets.
use sik_telnet_radio.Prelude.{
  ℕ, ◌+◌, ◌*◌, ◌-◌, ◌^◌, ◌<◌, ◌≤◌, ◌≡◌, refl, ap, sym, ◌∙◌, subst, List, [], ◌∷◌, ◌++◌, some, ◌/◌,
  length, arith, map, ◌==◌, if◌then◌else◌, append-nil, append_assoc, length-append, remember,
  remember_all, remember_all-nil, keep_last, Bool-cases, inl, inr, true, false, ==_iff,
}
use sik_telnet_radio.Outcome.{ok}
use sik_telnet_radio.Packet.{AudioPacket, outgoing}
use sik_telnet_radio.Packet.RoundTrip.{length-take}
use sik_telnet_radio.Buffer.{CircularBuffer, create, reset, reset_at}
use sik_telnet_radio.Buffer.Slots.{Payload}
use sik_telnet_radio.Buffer.Refine.{Holds}
use sik_telnet_radio.Buffer.Stream.{reset_at-Holds}
use sik_telnet_radio.Buffer.Outgoing.{try_put-outgoing}
use sik_telnet_radio.Sender.Audio.{
  AudioSender, Input, audio, new_sender, send_packet, take_chunk, run,
}

-- Every chunk has `p` bytes.
abbrev pub Even : ℕ → List (List ℕ) → Type 0
Even p [] = Unit {0}
Even p (c ∷ cs) = (length c ≡ p) × Even p cs

-- A read gets at least one byte, and no more than it asks for: what is missing to `p`.
abbrev pub Fits : ℕ → ℕ → List (List ℕ) → Type 0
Fits p n [] = Unit {0}
Fits p n (c ∷ cs) =
    (0 < length c) × (n + length c ≤ p) × Fits p (if n + length c == p then 0 else n + length c) cs

abbrev pub concat : List (List ℕ) → List ℕ
concat [] = []
concat (c ∷ cs) = c ++ concat cs

abbrev pub reads : List (List ℕ) → List Input
reads [] = []
reads (c ∷ cs) = audio (some c) ∷ reads cs

eq_no : (a b : ℕ) → (a == b) ≡ false → ¬ (a ≡ b)
eq_no a b h = ground arith

eq_yes : (a b : ℕ) → a ≡ b → (a == b) ≡ true
eq_yes a b h = ground arith

module _ (sendto : List ℕ → ℕ) (htonl : ℕ → ℕ) where
  -- The packets of `p` bytes of a session, from byte `first` on.
  abbrev pub packets_from : ℕ → ℕ → ℕ → List (List ℕ) → List AudioPacket
  packets_from session_id p first [] = []
  packets_from session_id p first (c ∷ cs) =
      outgoing htonl session_id first c p ∷ packets_from session_id p (first + p) cs

  sends_one :
      {k : ℕ} {xs : List Payload} (st : AudioSender) (c : List ℕ)
      → ((bytes : List ℕ) → sendto bytes ≡ length bytes)
      → Holds st.packet_cache k xs
      → st.packet_cache.psize ≡ st.psize
      → st.packet_cache.abs_head ≡ st.first_byte_num
      → st.first_byte_num + st.psize < 2 ^ 63
      → length c ≡ st.psize
      → (cache : CircularBuffer) × (send_packet sendto htonl st
            (outgoing htonl st.session_id st.first_byte_num c st.psize)
          ≡ ok (record st {
            packet_cache = cache;
            sent = st.sent ++ outgoing htonl st.session_id st.first_byte_num c st.psize ∷ [];
          }))
        × Holds cache k (remember (k - 1) xs (some c))
        × (cache.psize ≡ st.psize)
        × (cache.abs_head ≡ st.first_byte_num + st.psize)
  unfolding send_packet outgoing
  sends_one {k} {xs} st c all h size at far e =
      let p = st.psize in
      let packet = outgoing htonl st.session_id st.first_byte_num c p in
      let (cache, run, holds, moved) =
        try_put-outgoing htonl st.session_id st.first_byte_num p c h size at far e in
      (
        cache,
        rw
            (
              all packet.bytes,
              run,
              eq_yes (p + 16) (length packet.bytes)
                  (omega (arith, e, length-take p c (omega (arith, e)))),
            )
            refl,
        holds,
        moved.same_psize ∙ size,
        omega (arith, moved.abs_head_is, size),
      )

  -- What a run from `st` to `st'` made of the input: whole chunks that went out as consecutive packets,
  -- the last of them in the cache of `k` slots, and less than a packet that is left.
  pub record Streamed (k : ℕ) (xs : List Payload) (st st' : AudioSender) (input : List ℕ)
      : Type 0 where
    pub chunks : List (List ℕ)
    pub even : Even st.psize chunks
    pub joined : concat chunks ++ st'.filled ≡ st.filled ++ input
    pub partial : length st'.filled < st.psize
    pub sent_is : st'.sent ≡ st.sent ++ packets_from st.session_id st.psize st.first_byte_num chunks
    pub cached : Holds st'.packet_cache k (remember_all (k - 1) xs (map some chunks))

  -- The state after the packet with `whole` was sent.
  abbrev next : AudioSender → List ℕ → CircularBuffer → AudioSender
  next st whole cache = record st {
    packet_cache = cache;
    sent = st.sent ++ outgoing htonl st.session_id st.first_byte_num whole st.psize ∷ [];
    first_byte_num = st.first_byte_num + st.psize;
    filled = [];
  }

  take_part :
      (st : AudioSender) (c : List ℕ)
      → (length st.filled + length c == st.psize) ≡ false
      → take_chunk sendto htonl st c ≡ ok (record st { filled = st.filled ++ c })
  unfolding take_chunk
  take_part st c h = rw (length-append st.filled c, h) refl

  take_full :
      (st : AudioSender) (c : List ℕ) {cache : CircularBuffer}
      → (length st.filled + length c == st.psize) ≡ true
      → send_packet sendto htonl st
          (outgoing htonl st.session_id st.first_byte_num (st.filled ++ c) st.psize)
        ≡ ok (record st {
          packet_cache = cache;
          sent =
              st.sent
              ++ outgoing htonl st.session_id st.first_byte_num (st.filled ++ c) st.psize ∷ [];
        })
      → st.first_byte_num + st.psize < 2 ^ 63
      → take_chunk sendto htonl st c ≡ ok (next st (st.filled ++ c) cache)
  unfolding take_chunk
  take_full st c {cache} h e small =
      rw (length-append st.filled c, h, e)
        (ap (λ f. ok (record (next st (st.filled ++ c) cache) { first_byte_num = f }))
          {y = st.first_byte_num + st.psize} (omega arith))

  streams :
      (cs : List (List ℕ)) {k : ℕ} {xs : List Payload} (st : AudioSender)
      → ((bytes : List ℕ) → sendto bytes ≡ length bytes)
      → Holds st.packet_cache k xs
      → st.packet_cache.psize ≡ st.psize
      → st.packet_cache.abs_head ≡ st.first_byte_num
      → st.first_byte_num + length st.filled + length (concat cs) < 2 ^ 63
      → length st.filled < st.psize
      → Fits st.psize (length st.filled) cs
      → (st' : AudioSender) × (run sendto htonl st (reads cs) ≡ ok st')
        × Streamed k xs st st' (concat cs)
  unfolding run
  streams [] st all h size at small part fits = (
    st,
    refl,
    record {
      chunks = [];
      even = tt;
      joined = sym (append-nil st.filled);
      partial = part;
      sent_is = sym (append-nil st.sent);
      cached = h;
    },
  )
  streams ([] ∷ cs) st all h size at small part (some_bytes, room, fits) =
      absurd (omega (arith, some_bytes))
  streams ((b ∷ bytes) ∷ cs) {k} {xs} st all h size at small part (some_bytes, room, fits) =
      elim (Bool-cases (length st.filled + length (b ∷ bytes) == st.psize)) [
        | inl full ↦
            let c = b ∷ bytes in
            let whole = st.filled ++ c in
            let e = (==_iff (length st.filled + length c) st.psize).0 full in
            let (cache, sends, holds, size', at') =
              sends_one st whole all h size at
                (omega (arith, e, small, length-append c (concat cs)))
                (length-append st.filled c ∙ e) in
            let (st', runs, out) =
              streams cs (next st whole cache) all holds size' at'
                (omega (arith, e, small, length-append c (concat cs)))
                (omega (arith, e, some_bytes))
                (subst (λ t. Fits st.psize (if t then 0 else length st.filled + length c) cs) full
                  fits) in
            (
              st',
              rw (take_full st c full sends (omega (arith, e, small, length-append c (concat cs))))
                  runs,
              record {
                chunks = whole ∷ out.chunks;
                even = (length-append st.filled c ∙ e, out.even);
                joined =
                    append_assoc whole (concat out.chunks) st'.filled
                    ∙ ap (λ rest. whole ++ rest) out.joined
                    ∙ append_assoc st.filled c (concat cs);
                partial = out.partial;
                sent_is = out.sent_is ∙ append_assoc st.sent _ _;
                cached = out.cached;
              },
            )
        | inr on ↦
            let c = b ∷ bytes in
            let (st', runs, out) =
              streams cs (record st { filled = st.filled ++ c }) all h size at
                (omega (arith, small, length-append c (concat cs), length-append st.filled c))
                (omega (
                  arith,
                  room,
                  length-append st.filled c,
                  eq_no (length st.filled + length c) st.psize on,
                ))
                (subst (λ n. Fits st.psize n cs) (sym (length-append st.filled c))
                  (subst (λ t. Fits st.psize (if t then 0 else length st.filled + length c) cs) on
                    fits)) in
            (
              st',
              rw (take_part st c on) runs,
              record {
                chunks = out.chunks;
                even = out.even;
                joined = out.joined ∙ append_assoc st.filled c (concat cs);
                partial = out.partial;
                sent_is = out.sent_is;
                cached = out.cached;
              },
            )
      ]

  pub run-packets :
      (session_id psize fsize : ℕ) (cs : List (List ℕ))
      → ((bytes : List ℕ) → sendto bytes ≡ length bytes)
      → 0 < psize
      → 2 * psize ≤ fsize
      → fsize < 2 ^ 62
      → Fits psize 0 cs
      → length (concat cs) < 2 ^ 63
      → (st' : AudioSender) × (run sendto htonl (new_sender session_id psize fsize) (reads cs)
          ≡ ok st')
        × (chunks : List (List ℕ)) × Even psize chunks
        × (concat chunks ++ st'.filled ≡ concat cs)
        × (length st'.filled < psize)
        × (st'.sent ≡ packets_from session_id psize 0 chunks)
        × Holds st'.packet_cache (fsize / psize) (keep_last (fsize / psize - 1) (map some chunks))
  unfolding new_sender reset_at reset create
  run-packets s p f cs all pos room small fits short =
      let fresh = reset_at-Holds (create f) p 0 pos room small (omega arith) in
      let (st', runs, out) =
        streams cs (new_sender s p f) all fresh refl refl (omega (arith, short)) pos fits in
      (
        st',
        runs,
        out.chunks,
        out.even,
        out.joined,
        out.partial,
        out.sent_is,
        subst (Holds st'.packet_cache (f / p)) (remember_all-nil (f / p - 1) (map some out.chunks))
            out.cached,
      )
