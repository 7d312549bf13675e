-- ===== src/Buffer/Dump.antt =====
-- `dump_tail` of one packet: the oldest packet is printed, or silence in its place.
use mathlib.Core.List.{nil≢cons, head-eq_of_cons-eq, tail-eq_of_cons-eq}
use native.Mathlib.Nat.{mod_self}
use sik_telnet_radio.Prelude.{
  ℕ, zero, suc, ◌+◌, ◌-◌, ◌*◌, ◌≤◌, ◌≡◌, refl, sym, ap, ◌∙◌, arith, ltb, ◌==◌, ◌&&◌, le→leb, le→ltb,
  length, some, none, List, [], ◌∷◌, ==_iff, true, false, append-nil, replicate, Bool-cases, inl,
  inr,
}
use sik_telnet_radio.Outcome.{ok, Array, add_size, sub_size, mod_size, mod_size_lem, read_from}
use sik_telnet_radio.Window.{turn, window, window_frame, length-window}
use sik_telnet_radio.Buffer.{CircularBuffer, dump_chunks, dump_tail, clear}
use sik_telnet_radio.Buffer.Shape.{Shape, Shape-rounded_cap, room-mul}
use sik_telnet_radio.Buffer.Slots.{Payload, slot, IsQuiet, cleared, clear-Fills}
use sik_telnet_radio.Buffer.Push.{mod_turn, clear_none}
use sik_telnet_radio.Buffer.Refine.{Holds}

-- What is heard of a slot: its packet, or silence.
abbrev pub played : ℕ → Payload → List ℕ
played p (some bytes) = bytes
played p none = replicate p 0

-- `write` takes all that it is given.
abbrev pub WritesAll : (List ℕ → ℕ) → Type 0
WritesAll write = (bytes : List ℕ) → write bytes ≡ length bytes

length-read_from : {A : Type 0} (a : Array A) (pos len : ℕ) → length (read_from a pos len) ≡ len
unfolding read_from
length-read_from a pos zero = refl
length-read_from a pos (suc len) = ap suc (length-read_from a (pos + 1) len)

-- The bytes of a slot are its packet, or silence if the packet is missing.
read-played :
    (b : CircularBuffer) (s : ℕ)
    → IsQuiet b s
    → read_from b.memory (s * b.psize) b.psize ≡ played b.psize (slot b s)
read-played b s quiet = elim (Bool-cases (b.occupied (s * b.psize))) [
  | inl full ↦ rw full
  | inr gap ↦ rw gap (quiet gap)
]

module _ (write : List ℕ → ℕ) (all : WritesAll write) {b : CircularBuffer} {k t n : ℕ}
    (v : Shape b k t n) where
  tail_room : t * b.psize + b.psize ≤ k * b.psize
  tail_room = room-mul b.psize t k v.tail_in

  one_chunk : (ltb b.head b.tail && ltb (sub_size (k * b.psize) b.tail) b.psize) ≡ false
  one_chunk =
      rw
        (le→ltb (sub_size (k * b.psize) b.tail) b.psize
          (omega (arith, v.tail_is, tail_room, v.slots_fit, v.small)))
        (ground arith)

  next_tail_run : mod_size (add_size b.tail b.psize) (k * b.psize) ≡ ok (turn k t 1 * b.psize)
  next_tail_run =
      mod_turn _ b.psize k t 1 (omega (arith, v.tail_is, tail_room, v.slots_fit, v.small))
        v.psize_pos v.tail_in (omega (arith, v.two_slots))

  clear_tail : clear b b.tail b.psize ≡ ok (cleared b t)
  clear_tail =
      ap (λ s. clear b s b.psize) v.tail_is
      ∙ (clear-Fills b k t v.psize_pos (omega (arith, tail_room, v.slots_fit))).0

  all_written :
      (add_size (write (read_from b.memory b.tail b.psize)) (write (read_from b.memory 0 0))
        == add_size b.psize 0)
      ≡ true
  unfolding read_from
  all_written = (==_iff _ (add_size b.psize 0)).1 (
      omega (
        arith,
        all [],
        all (read_from b.memory b.tail b.psize),
        length-read_from b.memory b.tail b.psize,
      ))

  chunks_run :
      dump_chunks write b b.psize 0 ≡ ok (read_from b.memory (t * b.psize) b.psize, cleared b t)
  unfolding dump_chunks
  chunks_run =
      rw
        (
          le→leb (b.tail + b.psize) b.capacity (omega (arith, v.tail_is, tail_room, v.slots_fit)),
          le→leb 0 b.capacity (omega arith),
          all_written,
          clear_tail,
          clear_none (cleared b t) 0 (omega arith),
        )
        (unfold read_from in
          ap (λ xs. ok (xs, cleared b t))
            (append-nil _ ∙ ap (λ s. read_from b.memory s b.psize) v.tail_is))

  pub dump_run :
      dump_tail write b b.psize
      ≡ ok (
        read_from b.memory (t * b.psize) b.psize,
        record (cleared b t) { tail = turn k t 1 * b.psize },
      )
  unfolding dump_tail
  dump_run = rw (
    mod_size_lem b.psize b.psize v.psize_pos,
    mod_self b.psize,
    Shape-rounded_cap v,
    one_chunk,
    chunks_run,
    next_tail_run,
  )

-- The oldest slot of a window that is not empty, and the rest.
window-cons :
    {x : Payload} {xs : List Payload} (f : ℕ → Payload) (k t n : ℕ)
    → window f k t n ≡ x ∷ xs
    → (m : ℕ) × (n ≡ suc m) × (f t ≡ x) × (window f k (turn k t 1) m ≡ xs)
window-cons f k t zero e = absurd (nil≢cons e)
window-cons f k t (suc m) e = (m, refl, head-eq_of_cons-eq e, tail-eq_of_cons-eq e)

module _ {b : CircularBuffer} {k : ℕ} where
  -- After the oldest slot was printed and cleared, the window holds the rest.
  dumped-Holds :
      {x : Payload} {xs : List Payload} (h : Holds b k (x ∷ xs)) (m : ℕ)
      → h.count ≡ suc m
      → window (slot b) k (turn k h.tail_slot 1) m ≡ xs
      → Holds (record (cleared b h.tail_slot) { tail = turn k h.tail_slot 1 * b.psize }) k xs
  dumped-Holds h m e rest =
      let (_, fills) =
        clear-Fills b k t v.psize_pos
          (omega (arith, room-mul b.psize t k v.tail_in, v.slots_fit)) in
      record {
        tail_slot = turn k t 1;
        count = m;
        shape = record {
          psize_pos = v.psize_pos;
          two_slots = v.two_slots;
          slots_fit = v.slots_fit;
          slots_fill = v.slots_fill;
          small = v.small;
          tail_in = ground (arith, v.tail_in);
          count_in = omega (arith, e, v.count_in);
          tail_is = refl;
          head_is =
              v.head_is
              ∙ ap (λ (s : ℕ). s * b.psize) (ground (arith, e, v.tail_in, v.count_in, v.two_slots));
          past = omega (arith, v.past, ap (λ (s : ℕ). s * b.psize) e);
          abs_small = v.abs_small;
        };
        reads =
            window_frame (slot b) (slot (cleared b t)) k (turn k t 1) m (k - 1)
              (ground (arith, v.tail_in)) (omega (arith, e, v.count_in))
              (omega (arith, v.two_slots))
              (λ j hj ne. fills.others j hj (λ q. ne (q ∙ ground (arith, v.tail_in, v.two_slots))))
            ∙ rest;
        quiet = fills.quiet h.quiet;
      }
    where
      open h use {tail_slot as t, shape as v}

module _ (write : List ℕ → ℕ) (all : WritesAll write) {b : CircularBuffer} {k : ℕ} where
  -- The same as below, with what is left of the numbers of the buffer.
  pub dump_tail-Kept :
      {x : Payload} {xs : List Payload}
      → Holds b k (x ∷ xs)
      → (b' : CircularBuffer) × (dump_tail write b b.psize ≡ ok (played b.psize x, b'))
        × Holds b' k xs
        × (b'.abs_head ≡ b.abs_head)
        × (b'.psize ≡ b.psize)
  dump_tail-Kept h =
      let (m, e, first, rest) = window-cons (slot b) k h.tail_slot h.count h.reads in
      (
        record (cleared b h.tail_slot) { tail = turn k h.tail_slot 1 * b.psize },
        dump_run write all h.shape
            ∙ ap
                (λ out.
                  ok
                    (out, record (cleared b h.tail_slot) { tail = turn k h.tail_slot 1 * b.psize }))
                (read-played b h.tail_slot (h.quiet h.tail_slot h.shape.tail_in)
                  ∙ ap (played b.psize) first),
        dumped-Holds h m e rest,
        refl,
        refl,
      )

  -- Printing one packet from a buffer that holds `x` and then `xs` prints `x`, or as many zero bytes
  -- if it is missing, and leaves `xs`.
  pub dump_tail-cons :
      {x : Payload} {xs : List Payload}
      → Holds b k (x ∷ xs)
      → (b' : CircularBuffer) × (dump_tail write b b.psize ≡ ok (played b.psize x, b'))
        × Holds b' k xs
        × (b'.abs_head ≡ b.abs_head)
  dump_tail-cons h = let (b', run, holds, same, _) = dump_tail-Kept h in (b', run, holds, same)

  -- After printing from a buffer with nothing in its window, the window is as long as it can be.
  drained-Holds :
      (h : Holds b k [])
      → h.count ≡ 0
      → (k - 1) * b.psize ≤ b.abs_head
      → Holds
          (record (cleared b h.tail_slot) { tail = turn k h.tail_slot 1 * b.psize })
          k
          (window (slot (cleared b h.tail_slot)) k (turn k h.tail_slot 1) (k - 1))
  drained-Holds h none_left far =
      let (_, fills) =
        clear-Fills b k t v.psize_pos
          (omega (arith, room-mul b.psize t k v.tail_in, v.slots_fit)) in
      record {
        tail_slot = turn k t 1;
        count = k - 1;
        shape = record {
          psize_pos = v.psize_pos;
          two_slots = v.two_slots;
          slots_fit = v.slots_fit;
          slots_fill = v.slots_fill;
          small = v.small;
          tail_in = ground (arith, v.tail_in);
          count_in = omega (arith, v.two_slots);
          tail_is = refl;
          head_is =
              v.head_is
              ∙ ap (λ (s : ℕ). s * b.psize) (ground (arith, none_left, v.tail_in, v.two_slots));
          past = far;
          abs_small = v.abs_small;
        };
        reads = refl;
        quiet = fills.quiet h.quiet;
      }
    where
      open h use {tail_slot as t, shape as v}

  -- Printing a packet from a buffer that holds none makes it claim as many packets as it can hold,
  -- `k - 1`, if the stream is that far; the absolute head stays.
  pub dump_tail-nil :
      Holds b k []
      → (k - 1) * b.psize ≤ b.abs_head
      → (printed : List ℕ) × (b' : CircularBuffer) × (ys : List Payload) × (dump_tail write b
            b.psize
          ≡ ok (printed, b'))
        × Holds b' k ys
        × (length ys ≡ k - 1)
        × (b'.abs_head ≡ b.abs_head)
  dump_tail-nil h far = (
    _,
    _,
    _,
    dump_run write all h.shape,
    drained-Holds h (sym (length-window (slot b) k h.tail_slot h.count) ∙ ap length h.reads) far,
    length-window _ k _ (k - 1),
    refl,
  )
