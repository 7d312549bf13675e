-- ===== src/Packet/RoundTrip.antt =====
-- An audio packet that is sent is the one that is received.
use sik_telnet_radio.Prelude.{
  ℕ, zero, suc, ◌+◌, ◌*◌, ◌/◌, ◌%◌, ◌^◌, ◌<◌, ◌≤◌, ◌≡◌, refl, ap, ap₂, ◌∙◌, List, [], ◌∷◌, ◌++◌,
  some, take, length, arith, le→ltb,
}
use sik_telnet_radio.Outcome.{ok}
use sik_telnet_radio.Packet.{
  AudioPacket, htonll, ntohll, word_bytes, word_of, outgoing, incoming, read_packet,
}

word_of-word_bytes :
    (n x : ℕ) (rest : List ℕ) → x < 256 ^ n → word_of n (word_bytes n x ++ rest) ≡ x
word_of-word_bytes zero x rest h = omega arith
word_of-word_bytes (suc n) x rest h =
    omega (arith, word_of-word_bytes n (x / 256) rest (omega arith))

ntohll-htonll :
    (htonl ntohl : ℕ → ℕ) (x : ℕ)
    → ((y : ℕ) → htonl y < 2 ^ 32)
    → ((y : ℕ) → y < 2 ^ 32 → ntohl (htonl y) ≡ y)
    → x < 2 ^ 64
    → ntohll ntohl (htonll htonl x) ≡ x
unfolding ntohll htonll
ntohll-htonll htonl ntohl x bounded back h =
    let low = htonl (x % 2 ^ 32) in
    let high = htonl (x / 2 ^ 32) in
    ap₂ (λ a b. a * 2 ^ 32 + b)
      (ap ntohl {y = high} (omega (arith, bounded (x / 2 ^ 32))) ∙ back (x / 2 ^ 32) (omega arith))
      (ap ntohl {y = low} (omega (arith, bounded (x / 2 ^ 32))) ∙ back (x % 2 ^ 32) (omega arith))
    ∙ omega arith

pub take-all {ℓ} : {A : Type ℓ} (n : ℕ) (xs : List A) → length xs ≤ n → take n xs ≡ xs
take-all zero [] h = refl
take-all zero (x ∷ xs) h = absurd (omega arith)
take-all (suc n) [] h = refl
take-all (suc n) (x ∷ xs) h = ap (λ ys. x ∷ ys) (take-all n xs (omega arith))

pub length-take {ℓ} : {A : Type ℓ} (n : ℕ) (xs : List A) → n ≤ length xs → length (take n xs) ≡ n
length-take zero xs h = refl
length-take (suc n) [] h = absurd (omega arith)
length-take (suc n) (x ∷ xs) h = ap suc (length-take n xs (omega arith))

abbrev fields : ℕ → ℕ → ℕ → List ℕ → AudioPacket
fields s f p b = record { session_id = s; first_byte_num = f; psize = p; bytes = b }

fields-ext :
    {s s' f f' p p' : ℕ} {b b' : List ℕ}
    → s ≡ s'
    → f ≡ f'
    → p ≡ p'
    → b ≡ b'
    → fields s f p b ≡ fields s' f' p' b'
fields-ext hs hf hp hb = cc

read_run :
    (ntohl : ℕ → ℕ) (bytes : List ℕ) (p : ℕ)
    → length bytes ≡ p + 16
    → read_packet ntohl (some bytes) ≡ ok (incoming ntohl bytes p)
unfolding read_packet
read_run ntohl bytes p e =
    rw (le→ltb (length bytes) 16 (omega (arith, e)))
      (ap (λ q. ok (incoming ntohl bytes q)) {y = p} (omega (arith, e)))

module _ (htonl ntohl : ℕ → ℕ) (bounded : (y : ℕ) → htonl y < 2 ^ 32)
    (back : (y : ℕ) → y < 2 ^ 32 → ntohl (htonl y) ≡ y) where
  htonll-small : (x : ℕ) → htonll htonl x < 256 ^ 8
  unfolding htonll
  htonll-small x = omega (arith, bounded (x % 2 ^ 32), bounded (x / 2 ^ 32))

  incoming-outgoing :
      (s f : ℕ) (audio : List ℕ) (p : ℕ)
      → s < 2 ^ 64
      → f < 2 ^ 64
      → p ≤ length audio
      → incoming ntohl (outgoing htonl s f audio p).bytes p ≡ outgoing htonl s f audio p
  unfolding outgoing incoming
  incoming-outgoing s f audio p hs hf hp =
      let first = word_bytes 8 (htonll htonl s) in
      let second = word_bytes 8 (htonll htonl f) in
      fields-ext
        (ap (ntohll ntohl)
            (word_of-word_bytes 8 (htonll htonl s) (second ++ take p audio) (htonll-small s))
          ∙ ntohll-htonll htonl ntohl s bounded back hs)
        (ap (ntohll ntohl) (word_of-word_bytes 8 (htonll htonl f) (take p audio) (htonll-small f))
          ∙ ntohll-htonll htonl ntohl f bounded back hf)
        refl
        (take-all (p + 16) (first ++ second ++ take p audio)
          (omega (arith, length-take p audio hp)))

  -- A datagram with the bytes of a packet that was made for sending is read as that packet, if its two
  -- numbers have 64 bits, it is not longer than its audio bytes, and `ntohl` undoes `htonl` on numbers of 32 bits.
  pub read_packet-outgoing :
      (session_id first_byte_num : ℕ) (audio : List ℕ) (psize : ℕ)
      → session_id < 2 ^ 64
      → first_byte_num < 2 ^ 64
      → psize ≤ length audio
      → read_packet ntohl (some (outgoing htonl session_id first_byte_num audio psize).bytes)
        ≡ ok (outgoing htonl session_id first_byte_num audio psize)
  read_packet-outgoing s f audio p hs hf hp =
      read_run ntohl (outgoing htonl s f audio p).bytes p
        (unfold outgoing in omega (arith, length-take p audio hp))
      ∙ ap ok (incoming-outgoing s f audio p hs hf hp)
