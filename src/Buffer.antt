-- ===== src/Buffer.antt =====
-- `CircularBuffer` of common/circular_buffer.cc: its state and operations.
pub mod Shape
pub mod Slots
pub mod Tail
pub mod Push
pub mod Refine
pub mod Dump
pub mod Gap
pub mod Put
pub mod Outgoing
pub mod Next
pub mod Count
pub mod Stream
pub mod Tests
use sik_telnet_radio.Prelude.{
  ℕ, zero, suc, ◌+◌, ◌-◌, ◌*◌, ◌/◌, Bool, true, false, not, ◌&&◌, ◌||◌, List, [], ◌∷◌, ◌++◌, ltb,
  leb, ◌==◌, if◌then◌else◌, length,
}
use sik_telnet_radio.Outcome.{
  Outcome, ok, crash, assertion, bounds, fatal, hang, ◌>>=◌, ◌>>◌, guard, add_size, sub_size,
  div_size, mod_size, Array, memset, memcpy, read_from,
}
use sik_telnet_radio.Packet.{AudioPacket, audio_data}

pub record CircularBuffer : Type 0 where
  pub abs_head : ℕ
  pub byte0 : ℕ
  pub capacity : ℕ
  pub psize : ℕ
  pub tail : ℕ
  pub head : ℕ
  pub memory : Array ℕ
  pub occupied : Array Bool
  pub empty : Bool

-- The constructor: two zeroed arrays of `capacity` items each.
unfoldable pub create : ℕ → CircularBuffer
create capacity = record {
  abs_head = 0;
  byte0 = 0;
  capacity = capacity;
  psize = 0;
  tail = 0;
  head = 0;
  memory = λ _. 0;
  occupied = λ _. false;
  empty = true;
}

-- `capacity / psize * psize` is at most `capacity`, so the product does not wrap.
unfoldable pub rounded_cap : CircularBuffer → Outcome ℕ
rounded_cap b = do q ← div_size b.capacity b.psize; ok (q * b.psize)

unfoldable pub range : CircularBuffer → Outcome ℕ
range b =
    if leb b.tail b.head
    then ok (sub_size b.head b.tail)
    else do r ← rounded_cap b; ok (add_size b.head (sub_size r b.tail))

unfoldable pub abs_tail : CircularBuffer → Outcome ℕ
abs_tail b = do n ← range b; ok (sub_size b.abs_head n)

unfoldable pub printing_threshold : CircularBuffer → ℕ
printing_threshold b = add_size b.byte0 (b.capacity / 4 * 3)

pub data Side : Type 0 where
  none left right : Side

abbrev pub is_left : Side → Bool
is_left left = true
is_left _ = false

abbrev pub is_none : Side → Bool
is_none none = true
is_none _ = false

unfoldable pub sideof : CircularBuffer → ℕ → Outcome Side
sideof b idx =
    if leb b.tail b.head
    then ok (if leb b.tail idx && leb idx b.head then left else none)
    else if leb idx b.head
    then ok left
    else if leb b.tail idx
    then (do r ← rounded_cap b; ok (if ltb idx r then right else none))
    else ok none

-- `reset(psize)`
unfoldable pub reset : CircularBuffer → ℕ → CircularBuffer
reset b psize = record b {
  tail = 0;
  head = 0;
  psize = psize;
  empty = true;
  memory = memset b.memory 0 b.capacity 0;
  occupied = memset b.occupied 0 b.capacity false;
}

-- `reset(psize, abs_head)`
unfoldable pub reset_at : CircularBuffer → ℕ → ℕ → CircularBuffer
reset_at b psize abs_head = reset (record b { abs_head = abs_head; byte0 = abs_head }) psize

-- The two `memset` calls, on the bytes and on the flags, that always go together.
unfoldable pub clear : CircularBuffer → ℕ → ℕ → Outcome CircularBuffer
clear b pos len =
    if leb (pos + len) b.capacity
    then ok (record b {
      memory = memset b.memory pos len 0;
      occupied = memset b.occupied pos len false;
    })
    else crash bounds

-- `memcpy(_data + pos, packet.audio_data(), _psize); _occupied[pos] = true; _empty = false`
unfoldable pub store : CircularBuffer → ℕ → AudioPacket → Outcome CircularBuffer
store b pos packet = do
  guard (leb (pos + b.psize) b.capacity && ltb pos b.capacity) bounds
  guard (leb b.psize (length (audio_data packet))) bounds
  ok (record b {
    memory = memcpy b.memory pos b.psize (audio_data packet);
    occupied = memset b.occupied pos 1 true;
    empty = false;
  })

-- The `write` and `memset` calls of `dump_tail` on its two chunks. `write` returns how many bytes went
-- out; the first component of the result is what is printed.
unfoldable pub dump_chunks :
    (List ℕ → ℕ) → CircularBuffer → ℕ → ℕ → Outcome (List ℕ × CircularBuffer)
dump_chunks write b fst_chunk snd_chunk = do
  guard (leb (b.tail + fst_chunk) b.capacity && leb snd_chunk b.capacity) bounds
  let fst = read_from b.memory b.tail fst_chunk
  let snd = read_from b.memory 0 snd_chunk
  guard (add_size (write fst) (write snd) == add_size fst_chunk snd_chunk) fatal
  b' ← clear b b.tail fst_chunk
  b'' ← clear b' 0 snd_chunk
  ok (fst ++ snd, b'')

unfoldable pub dump_tail : (List ℕ → ℕ) → CircularBuffer → ℕ → Outcome (List ℕ × CircularBuffer)
dump_tail write b nbytes = do
  m ← mod_size nbytes b.psize
  guard (m == 0) assertion
  r ← rounded_cap b
  let room = sub_size r b.tail
  let wraps = ltb b.head b.tail && ltb room nbytes
  let fst_chunk = if wraps then room else nbytes
  let snd_chunk = if wraps then sub_size nbytes fst_chunk else 0
  (printed, b') ← dump_chunks write b fst_chunk snd_chunk
  tail ← mod_size (add_size b.tail nbytes) r
  ok (printed, record b' { tail = tail })

-- Where `fill_gap` puts the packet; `r` is `rounded_cap()`.
unfoldable pub gap_position : CircularBuffer → ℕ → Side → ℕ → ℕ
gap_position b r side tail_offset =
    let pos = add_size b.tail tail_offset in
    if ltb b.head b.tail && is_left side then sub_size pos (sub_size r b.tail) else pos

-- `fill_gap` once the offset of the packet from the tail is known.
unfoldable pub gap_at : CircularBuffer → AudioPacket → ℕ → Outcome CircularBuffer
gap_at b packet tail_offset = do
  m ← mod_size tail_offset b.psize
  guard (m == 0) assertion
  side ← sideof b tail_offset
  guard (not (is_none side)) assertion
  r ← rounded_cap b
  store b (gap_position b r side tail_offset) packet

unfoldable pub fill_gap : CircularBuffer → AudioPacket → Outcome CircularBuffer
fill_gap b packet = do first ← abs_tail b; gap_at b packet (sub_size packet.first_byte_num first)

-- The branch of `try_push_head` for an offset past the whole buffer.
unfoldable pub restart : CircularBuffer → AudioPacket → ℕ → Outcome CircularBuffer
restart b packet r = do
  b' ← store (reset b b.psize) 0 packet
  tail ← mod_size (add_size b.psize b.psize) r
  ok (record b' { head = b.psize; tail = tail })

-- The `memset` calls between the old head and the place of the packet.
unfoldable pub skip_to : CircularBuffer → ℕ → ℕ → Outcome CircularBuffer
skip_to b r write_pos =
    if leb b.head write_pos
    then clear b b.head (write_pos - b.head)
    else do b' ← clear b b.head (sub_size r b.head); clear b' 0 write_pos

-- Where the tail goes when the head moves to `virt_new_head`, taken round to `new_head`.
unfoldable pub pushed_tail : CircularBuffer → ℕ → ℕ → ℕ → ℕ → ℕ
pushed_tail b r virt_new_head new_head new_tail =
    if leb r virt_new_head && (leb b.tail b.head && leb b.tail new_head || ltb b.head b.tail)
    then new_tail
    else if ltb b.head b.tail && leb b.tail new_head
    then new_tail
    else b.tail

-- The rest of `try_push_head`.
unfoldable pub advance_head : CircularBuffer → AudioPacket → ℕ → ℕ → Outcome CircularBuffer
advance_head b packet head_offset r = do
  write_pos ← mod_size (add_size b.head head_offset) r
  b' ← skip_to b r write_pos
  b'' ← store b' write_pos packet
  let virt_new_head = add_size (add_size b.head head_offset) b.psize
  new_head ← mod_size virt_new_head r
  new_tail ← mod_size (add_size new_head b.psize) r
  ok (record b'' { head = new_head; tail = pushed_tail b r virt_new_head new_head new_tail })

-- `try_push_head` once the offset of the packet from the head is known.
unfoldable pub push_at : CircularBuffer → AudioPacket → ℕ → Outcome CircularBuffer
push_at b packet head_offset = do
  m ← mod_size head_offset b.psize
  guard (m == 0) assertion
  let b' = record b { abs_head = add_size packet.first_byte_num b.psize }
  let pushed = rounded_cap b' >>= λ r.
      if leb r head_offset then restart b' packet r else advance_head b' packet head_offset r
  if ltb b.psize head_offset then ok b else pushed

unfoldable pub try_push_head : CircularBuffer → AudioPacket → Outcome CircularBuffer
try_push_head b packet = push_at b packet (sub_size packet.first_byte_num b.abs_head)

unfoldable pub try_put : CircularBuffer → AudioPacket → Outcome CircularBuffer
try_put b packet = do
  first ← abs_tail b
  if ltb packet.first_byte_num first
      then ok b
      else if leb b.abs_head packet.first_byte_num
      then try_push_head b packet
      else fill_gap b packet

-- One `try_put` after another.
unfoldable pub put_all : CircularBuffer → List AudioPacket → Outcome CircularBuffer
put_all b [] = ok b
put_all b (packet ∷ packets) = try_put b packet >>= λ b'. put_all b' packets

-- The loop of `cnt_upto_gap`, a round for each unit of fuel.
unfoldable pub cnt_from : ℕ → CircularBuffer → ℕ → ℕ → Outcome ℕ
cnt_from zero b i cnt = crash hang
cnt_from (suc fuel) b i cnt = do
  guard (ltb i b.capacity) bounds
  let more = rounded_cap b >>= λ r. mod_size (add_size i b.psize) r >>= λ j.
      if j == b.tail then ok (cnt + 1) else cnt_from fuel b j (cnt + 1)
  if b.occupied i then more else ok cnt

-- No round visits a slot twice, so `capacity` rounds are enough.
unfoldable pub cnt_upto_gap : CircularBuffer → Outcome ℕ
cnt_upto_gap b = cnt_from (b.capacity + 1) b b.tail 0
