-- ===== src/Sender/Retransmitter.antt =====
-- `RetransmitterWorker` of sender/retransmitter.cc.
pub mod Cached
mod Tests
use sik_telnet_radio.Prelude.{
  ℕ, zero, suc, ◌+◌, Bool, true, false, not, ◌&&◌, List, [], ◌∷◌, ◌++◌, ltb, leb, ◌==◌,
  if◌then◌else◌, length,
}
use sik_telnet_radio.Outcome.{
  Outcome, ok, crash, bounds, fatal, hang, ◌>>=◌, ◌>>◌, guard, add_size, mod_size, read_from,
}
use sik_telnet_radio.Net.{Bytes, SockaddrIn}
use sik_telnet_radio.Packet.{word_bytes}
use sik_telnet_radio.Events.{EventType, terminate, new_jobs}
use sik_telnet_radio.Datagram.{RexmitRequest}
use sik_telnet_radio.Buffer.{CircularBuffer, rounded_cap, abs_tail}

-- `std::sort`
abbrev place : ℕ → List ℕ → List ℕ
place id [] = id ∷ []
place id (x ∷ xs) = if leb id x then id ∷ x ∷ xs else x ∷ place id xs

abbrev pub sorted : List ℕ → List ℕ
sorted [] = []
sorted (id ∷ ids) = place id (sorted ids)

-- The ids from the first on that is not before the tail.
abbrev pub skip_before : ℕ → List ℕ → List ℕ
skip_before tail_num [] = []
skip_before tail_num (id ∷ ids) = if ltb id tail_num then skip_before tail_num ids else id ∷ ids

-- The inner loop: it moves the number of a packet and its index up to `id`, or to the end of the cache.
unfoldable pub seek : ℕ → CircularBuffer → ℕ → ℕ → ℕ → Outcome (ℕ × ℕ)
seek zero b id num idx = crash hang
seek (suc fuel) b id num idx =
    let more = rounded_cap b >>= λ r.
    mod_size (add_size idx b.psize) r >>= λ idx'. seek fuel b id (add_size num b.psize) idx' in
    if not (num == b.abs_head) && ltb num id then more else ok (num, idx)

-- `sendto` returns how many bytes went out. The session and the number of the packet are written in the
-- byte order of the host.
module _ (sendto : Bytes → ℕ) (session_id : ℕ) where
  -- The outer loop. Between the tail and the head lie no more packets than bytes, so `capacity` rounds
  -- are enough for the inner one.
  unfoldable pub resend : CircularBuffer → ℕ → ℕ → List ℕ → Outcome (List Bytes)
  resend b num idx [] = ok []
  resend b num idx (id ∷ ids) = do
    (num', idx') ← seek (b.capacity + 1) b id num idx
    let pkt = word_bytes 8 session_id ++ word_bytes 8 num' ++ read_from b.memory idx' b.psize
    let sent =
        guard (leb (idx' + b.psize) b.capacity) bounds
        >> guard (length pkt == sendto pkt) fatal
        >> (resend b num' idx' ids >>= λ rest. ok (pkt ∷ rest))
    if not (num' == b.abs_head) then ok [] else sent

  abbrev resend_from : CircularBuffer → ℕ → List ℕ → Outcome (List Bytes)
  resend_from b tail_num [] = ok []
  resend_from b tail_num (id ∷ ids) = resend b tail_num b.tail (id ∷ ids)

  -- The tail is looked at only if there is an id to compare it with.
  abbrev answer : CircularBuffer → List ℕ → Outcome (List Bytes)
  answer b [] = ok []
  answer b (id ∷ ids) = do
    tail_num ← abs_tail b
    resend_from b tail_num (skip_before tail_num (id ∷ ids))

  -- The datagrams that go to the receiver.
  unfoldable pub handle_retransmission : CircularBuffer → RexmitRequest → Outcome (List Bytes)
  handle_retransmission b req = answer b (sorted req.packet_ids)

  abbrev addressed : SockaddrIn → List Bytes → List (SockaddrIn × Bytes)
  addressed addr [] = []
  addressed addr (pkt ∷ pkts) = (addr, pkt) ∷ addressed addr pkts

  -- The loop over the jobs that are in the queue, with where each datagram goes.
  unfoldable pub handle_jobs :
      CircularBuffer → List RexmitRequest → Outcome (List (SockaddrIn × Bytes))
  handle_jobs b [] = ok []
  handle_jobs b (req ∷ reqs) = do
    sent ← handle_retransmission b req
    rest ← handle_jobs b reqs
    ok (addressed req.receiver_addr sent ++ rest)
