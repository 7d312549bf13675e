-- ===== src/Buffer/Tests.antt =====
-- The buffer on concrete packets of two bytes, four slots to a buffer.
use sik_telnet_radio.Prelude.{
  ℕ, zero, suc, ◌<◌, ◌≡◌, refl, arith, true, false, List, [], ◌∷◌, ◌++◌, some, none, get_or,
  replicate, length, keep_last, map,
}
use sik_telnet_radio.Outcome.{
  Outcome, ok, crash, assertion, bounds, ◌>>=◌, read_from, memset, memcpy, div_size, mod_size,
}
use sik_telnet_radio.Packet.{AudioPacket, audio_data}
use sik_telnet_radio.Buffer.{
  CircularBuffer, create, rounded_cap, range, abs_tail, sideof, reset, reset_at, clear, store,
  dump_chunks, dump_tail, gap_position, gap_at, fill_gap, restart, skip_to, pushed_tail,
  advance_head, push_at, try_push_head, try_put, put_all, cnt_from, cnt_upto_gap,
  printing_threshold,
}
use sik_telnet_radio.Buffer.Slots.{Payload, IsQuiet}
use sik_telnet_radio.Buffer.Refine.{Holds}
use sik_telnet_radio.Buffer.Count.{Counts, cnt_upto_gap-Counts}
use sik_telnet_radio.Buffer.Gap.{gap_refused, gap_overflow}
use sik_telnet_radio.Buffer.Put.{payload_of, try_put-old}
use sik_telnet_radio.Buffer.Stream.{put_all-stream, put_all-far}

-- A packet of two bytes that starts at byte `n`.
abbrev packet : ℕ → ℕ → ℕ → AudioPacket
packet n x y = record {
  session_id = 1;
  first_byte_num = n;
  psize = 2;
  bytes = replicate 16 0 ++ x ∷ y ∷ [];
}

abbrev started : CircularBuffer
started = record (create 9) { psize = 2; abs_head = 10; byte0 = 10; empty = true }

-- Three packets, the one in the middle missing.
abbrev pub gapped : CircularBuffer
gapped = record {
  abs_head = 16;
  byte0 = 10;
  capacity = 9;
  psize = 2;
  tail = 0;
  head = 6;
  memory = λ i. get_or (1 ∷ 2 ∷ 0 ∷ 0 ∷ 5 ∷ 6 ∷ 0 ∷ 0 ∷ []) i 0;
  occupied = λ i. get_or (true ∷ false ∷ false ∷ false ∷ true ∷ []) i false;
  empty = false;
}

abbrev held : List Payload
held = some (1 ∷ 2 ∷ []) ∷ none ∷ some (5 ∷ 6 ∷ []) ∷ []

pub gapped-IsQuiet : (j : ℕ) → j < 4 → IsQuiet gapped j
unfolding read_from
gapped-IsQuiet zero h = λ e. cc
gapped-IsQuiet (suc zero) h = λ _. refl
gapped-IsQuiet (suc (suc zero)) h = λ e. cc
gapped-IsQuiet (suc (suc (suc zero))) h = λ _. refl
gapped-IsQuiet (suc (suc (suc (suc j)))) h = absurd (omega arith)

abbrev pub gapped-Holds : Holds gapped 4 held
unfolding read_from
gapped-Holds = record {
  tail_slot = 0;
  count = 3;
  shape = omega arith;
  reads = refl;
  quiet = gapped-IsQuiet;
}

abbrev pub everything : List ℕ → ℕ
everything = length

-- All that a run of the buffer computes with.
opened : ℕ
unfolding create rounded_cap range abs_tail sideof reset reset_at clear store dump_chunks dump_tail
    gap_position gap_at fill_gap restart skip_to pushed_tail advance_head push_at try_push_head
    try_put put_all cnt_from cnt_upto_gap printing_threshold read_from memset memcpy div_size
    mod_size audio_data
opened = 0

heads : Outcome CircularBuffer → Outcome (ℕ × ℕ × ℕ × List ℕ)
heads m = m >>= λ b. ok (b.abs_head, b.tail, b.head, read_from b.memory 0 8)

stream_runs :
    heads (put_all started (packet 10 1 2 ∷ packet 12 3 4 ∷ packet 14 5 6 ∷ packet 16 7 8 ∷ []))
    ≡ ok (18, 2, 0, 1 ∷ 2 ∷ 3 ∷ 4 ∷ 5 ∷ 6 ∷ 7 ∷ 8 ∷ [])
unfolding opened heads
stream_runs = refl

skip_runs :
    heads (try_put gapped (packet 18 9 9)) ≡ ok (20, 4, 2, 9 ∷ 9 ∷ 0 ∷ 0 ∷ 5 ∷ 6 ∷ 0 ∷ 0 ∷ [])
unfolding opened heads
skip_runs = refl

try_put-old_example : try_put gapped (packet 8 1 1) ≡ ok gapped
unfolding gapped-Holds
try_put-old_example = try_put-old gapped-Holds (packet 8 1 1) (omega arith)

put_all-far_example : put_all gapped (packet 20 1 1 ∷ packet 22 2 2 ∷ []) ≡ ok gapped
put_all-far_example = put_all-far (packet 20 1 1 ∷ packet 22 2 2 ∷ []) gapped-Holds (omega arith)

abbrev five : List AudioPacket
five = packet 10 1 2 ∷ packet 12 3 4 ∷ packet 14 5 6 ∷ packet 16 7 8 ∷ packet 18 9 9 ∷ []

started-IsQuiet : (j : ℕ) → j < 4 → IsQuiet started j
unfolding read_from create
started-IsQuiet zero h = λ _. refl
started-IsQuiet (suc zero) h = λ _. refl
started-IsQuiet (suc (suc zero)) h = λ _. refl
started-IsQuiet (suc (suc (suc zero))) h = λ _. refl
started-IsQuiet (suc (suc (suc (suc j)))) h = absurd (omega arith)

abbrev started-Holds : Holds started 4 []
unfolding create
started-Holds = record {
  tail_slot = 0;
  count = 0;
  shape = omega arith;
  reads = refl;
  quiet = started-IsQuiet;
}

put_all-stream_example :
    (b' : CircularBuffer) × (put_all started five ≡ ok b')
    × Holds b' 4 (keep_last 3 (map (payload_of 2) five))
    × (b'.abs_head ≡ 20)
unfolding audio_data
put_all-stream_example = put_all-stream five started-Holds (omega arith) (omega arith)

-- The first packet was printed; the window has two packets left.
abbrev printed_once : CircularBuffer
printed_once = record gapped { tail = 2 }

gap_refused_example : fill_gap printed_once (packet 12 3 4) ≡ crash assertion
gap_refused_example =
    gap_refused {b = printed_once} {k = 4} {t = 1} {n = 2} (omega arith) (packet 12 3 4) 0 refl
      (omega arith) (omega arith) (omega arith)

-- The window went round the end: the slots 1, 2 and 3, with the head on slot 0.
abbrev wrapped : CircularBuffer
wrapped = record gapped { tail = 2; head = 0; abs_head = 18 }

gap_overflow_example : fill_gap wrapped (packet 12 3 4) ≡ crash bounds
gap_overflow_example =
    gap_overflow {b = wrapped} {k = 4} {t = 1} {n = 3} (omega arith) (packet 12 3 4) 0 refl
      (omega arith) (omega arith) (omega arith) (omega arith)

cnt_upto_gap-Counts_example : Counts gapped 4 0 (cnt_upto_gap gapped)
unfolding gapped-Holds
cnt_upto_gap-Counts_example = cnt_upto_gap-Counts gapped-Holds.shape
