-- ===== src/Packet.antt =====
-- The datagrams of common/datagram.hh as values, and the audio packets of common/datagram.cc with the
-- byte order of common/endian.hh.
pub mod RoundTrip
pub mod Tests
use sik_telnet_radio.Prelude.{
  ℕ, zero, suc, ◌+◌, ◌*◌, ◌-◌, ◌/◌, ◌%◌, ◌^◌, List, [], ◌∷◌, ◌++◌, Option, none, some, drop, take,
  length, ltb, if◌then◌else◌,
}
use sik_telnet_radio.Outcome.{Outcome, ok, crash, thrown}

pub record AudioPacket : Type 0 where
  pub session_id : ℕ
  pub first_byte_num : ℕ
  pub psize : ℕ
  pub bytes : List ℕ

-- The payload stands behind two 8-byte numbers.
unfoldable pub audio_data : AudioPacket → List ℕ
audio_data p = drop 16 p.bytes

pub record LookupReply : Type 0 where
  pub mcast_addr : List ℕ
  pub data_port : ℕ
  pub name : List ℕ

-- `htonll` on a little-endian machine, with the system's `htonl` on 32 bits. The two halves share no
-- bit, so `|` is a sum.
unfoldable pub htonll : (ℕ → ℕ) → ℕ → ℕ
htonll htonl x = htonl (x % 2 ^ 32) * 2 ^ 32 + htonl (x / 2 ^ 32)

unfoldable pub ntohll : (ℕ → ℕ) → ℕ → ℕ
ntohll ntohl x = ntohl (x % 2 ^ 32) * 2 ^ 32 + ntohl (x / 2 ^ 32)

-- The bytes of a number in memory, the lowest first, and the number that `n` bytes stand for.
abbrev pub word_bytes : ℕ → ℕ → List ℕ
word_bytes zero x = []
word_bytes (suc n) x = x % 256 ∷ word_bytes n (x / 256)

abbrev pub word_of : ℕ → List ℕ → ℕ
word_of zero bytes = 0
word_of (suc n) [] = 0
word_of (suc n) (b ∷ bytes) = b + 256 * word_of n bytes

-- The constructor for sending.
unfoldable pub outgoing : (ℕ → ℕ) → ℕ → ℕ → List ℕ → ℕ → AudioPacket
outgoing htonl session_id first_byte_num audio psize = record {
  session_id = session_id;
  first_byte_num = first_byte_num;
  psize = psize;
  bytes =
      word_bytes 8 (htonll htonl session_id)
      ++ word_bytes 8 (htonll htonl first_byte_num)
      ++ take psize audio;
}

-- The constructor for receiving.
unfoldable pub incoming : (ℕ → ℕ) → List ℕ → ℕ → AudioPacket
incoming ntohl buf psize = record {
  session_id = ntohll ntohl (word_of 8 buf);
  first_byte_num = ntohll ntohl (word_of 8 (drop 8 buf));
  psize = psize;
  bytes = take (psize + 16) buf;
}

-- The move constructor: the packet that is made and the one that is moved from. It does not set `psize`,
-- which is what the memory holds.
unfoldable pub move_packet : ℕ → AudioPacket → AudioPacket × AudioPacket
move_packet memory other = (record other { psize = memory }, record other { bytes = [] })

-- `read_packet` of receiver/audio_receiver.cc, with what the socket gives: `none` is a `read` that
-- fails, whose -1 leaves a negative size as well.
unfoldable pub read_packet : (ℕ → ℕ) → Option (List ℕ) → Outcome AudioPacket
read_packet ntohl none = crash thrown
read_packet ntohl (some datagram) =
    if ltb (length datagram) 16
    then crash thrown
    else ok (incoming ntohl datagram (length datagram - 16))
