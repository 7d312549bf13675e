-- ===== src/Sender/Retransmitter/Cached.antt =====
-- What happens to a request for packets that are in the cache.
use native.Mathlib.Nat.{mul-lt-mul_of_pos_right, le-mul_of_pos_right}
use sik_telnet_radio.Prelude.{
  ℕ, zero, suc, ◌+◌, ◌*◌, ◌-◌, ◌%◌, ◌<◌, ◌≡◌, refl, ap, sym, false, List, [], ◌∷◌, arith, leb, ◌==◌,
  Bool-cases, inl, inr, le→ltb, lt→ltb,
}
use sik_telnet_radio.Outcome.{ok, add_size, mod_size_lem}
use sik_telnet_radio.Net.{Bytes}
use sik_telnet_radio.Datagram.{RexmitRequest}
use sik_telnet_radio.Buffer.{CircularBuffer}
use sik_telnet_radio.Buffer.Shape.{Shape, Shape-rounded_cap, Shape-abs_tail, room-mul}
use sik_telnet_radio.Sender.Retransmitter.{
  sorted, place, skip_before, seek, resend, resend_from, answer, handle_retransmission,
}

-- The number is that of the packet in place `j` of the `n` places of the cache.
abbrev pub IsCached : CircularBuffer → ℕ → ℕ → Type 0
IsCached b n id = (j : ℕ) × (j < n) × (id ≡ b.abs_head - n * b.psize + j * b.psize)

abbrev pub AllCached : CircularBuffer → ℕ → List ℕ → Type 0
AllCached b n [] = Unit {0}
AllCached b n (id ∷ ids) = IsCached b n id × AllCached b n ids

module _ {b : CircularBuffer} {k t n : ℕ} (v : Shape b k t n) where
  place-AllCached :
      (id : ℕ) (ids : List ℕ) → IsCached b n id → AllCached b n ids → AllCached b n (place id ids)
  place-AllCached id [] c h = (c, tt)
  place-AllCached id (x ∷ xs) c (cx, h) = elim (Bool-cases (leb id x)) [
    | inl e ↦ rw e (c, (cx, h))
    | inr e ↦ rw e (cx, place-AllCached id xs c h)
  ]

  sorted-AllCached : (ids : List ℕ) → AllCached b n ids → AllCached b n (sorted ids)
  sorted-AllCached [] h = tt
  sorted-AllCached (id ∷ ids) (c, h) = place-AllCached id (sorted ids) c (sorted-AllCached ids h)

  off_end : (num : ℕ) → num < b.abs_head → (num == b.abs_head) ≡ false
  off_end num h = ground arith

  seek-reaches :
      (fuel i num idx id : ℕ)
      → i < fuel
      → num + i * b.psize ≡ id
      → id < b.abs_head
      → (idx' : ℕ) × (seek fuel b id num idx ≡ ok (id, idx'))
  unfolding seek
  seek-reaches zero i num idx id f e h = absurd (omega arith)
  seek-reaches (suc fuel) zero num idx id f e h = (
    idx,
    rw (le→ltb num id (omega (arith, e)), off_end num (omega (arith, e)))
        (ap (λ m. ok (m, idx)) {y = id} (omega (arith, e))),
  )
  seek-reaches (suc fuel) (suc i) num idx id f e h =
      let r = k * b.psize in
      let (idx', run) =
        seek-reaches fuel i (add_size num b.psize) ((add_size idx b.psize) % r) id (omega arith)
          (omega (arith, v.abs_small)) h in
      (
        idx',
        rw
            (
              lt→ltb num id (omega (arith, e, v.psize_pos)),
              off_end num (omega (arith, e)),
              Shape-rounded_cap v,
              mod_size_lem (add_size idx b.psize) r
                  (omega (arith, room-mul b.psize 0 k (omega (arith, v.two_slots)), v.psize_pos)),
            )
            run,
      )

  round_enough : (j : ℕ) → j < n → j < b.capacity + 1
  round_enough j h = omega (arith, le-mul_of_pos_right k v.psize_pos, v.slots_fit, v.count_in)

  resends_none :
      (sendto : Bytes → ℕ) (session_id : ℕ) (ids : List ℕ)
      → AllCached b n ids
      → resend_from sendto session_id b
          (b.abs_head - n * b.psize)
          (skip_before (b.abs_head - n * b.psize) ids)
        ≡ ok []
  unfolding resend
  resends_none sendto session_id [] h = refl
  resends_none sendto session_id (id ∷ ids) ((j, inside, e), h) =
      let tail_num = b.abs_head - n * b.psize in
      let before : id < b.abs_head = omega (
        arith,
        e,
        mul-lt-mul_of_pos_right {m = j} {n = n} {k = b.psize} inside v.psize_pos,
        v.past,
      ) in
      let (idx', found) =
        seek-reaches (b.capacity + 1) j tail_num b.tail id (round_enough j inside) (sym e) before in
      rw (le→ltb id tail_num (omega (arith, e))) (rw found (rw (off_end id before) refl))

  answers_none :
      (sendto : Bytes → ℕ) (session_id : ℕ) (ids : List ℕ)
      → AllCached b n ids
      → answer sendto session_id b ids ≡ ok []
  answers_none sendto session_id [] h = refl
  answers_none sendto session_id (id ∷ ids) h =
      rw (Shape-abs_tail v) (resends_none sendto session_id (id ∷ ids) h)

  -- A request for packets that are all in the cache is handled without a fault, and no datagram is sent.
  pub handle_retransmission-nothing :
      (sendto : Bytes → ℕ) (session_id : ℕ) (req : RexmitRequest)
      → AllCached b n req.packet_ids
      → handle_retransmission sendto session_id b req ≡ ok []
  unfolding handle_retransmission
  handle_retransmission-nothing sendto session_id req h =
      answers_none sendto session_id (sorted req.packet_ids) (sorted-AllCached req.packet_ids h)
