-- ===== src/Datagram.antt =====
-- The textual datagrams of common/datagram.cc.
pub mod RoundTrip
pub mod Replies
mod Tests
use sik_telnet_radio.Prelude.{
  ℕ, ◌+◌, ◌^◌, Bool, true, false, not, ◌||◌, List, [], ◌∷◌, ◌++◌, Option, none, some, ltb, leb,
  ◌==◌, if◌then◌else◌, length,
}
use sik_telnet_radio.Outcome.{Outcome, ok, crash, thrown, bounds, ◌>>=◌, ◌>>◌, guard}
use sik_telnet_radio.Net.{Bytes, SockaddrIn, Resolver, get_mcast_addr}
use sik_telnet_radio.Packet.{LookupReply}
use sik_telnet_radio.Station.{bytes_eq, is_valid_name, last_of}
use sik_telnet_radio.Text.{trimmed, is_digit, is_numeric, field, tokens, print, stoull, stoul}

abbrev pub lookup_prefix : Bytes
lookup_prefix =
    b'Z' ∷ b'E' ∷ b'R' ∷ b'O' ∷ b'_' ∷ b'S' ∷ b'E' ∷ b'V' ∷ b'E' ∷ b'N' ∷ b'_' ∷ b'C' ∷ b'O' ∷ b'M'
    ∷ b'E' ∷ b'_' ∷ b'I' ∷ b'N' ∷ []

abbrev pub reply_prefix : Bytes
reply_prefix =
    b'B' ∷ b'O' ∷ b'R' ∷ b'E' ∷ b'W' ∷ b'I' ∷ b'C' ∷ b'Z' ∷ b'_' ∷ b'H' ∷ b'E' ∷ b'R' ∷ b'E' ∷ []

abbrev pub rexmit_prefix : Bytes
rexmit_prefix =
    b'L' ∷ b'O' ∷ b'U' ∷ b'D' ∷ b'E' ∷ b'R' ∷ b'_' ∷ b'P' ∷ b'L' ∷ b'E' ∷ b'A' ∷ b'S' ∷ b'E' ∷ []

unfoldable pub parse_lookup : Bytes → Outcome (Unit {0})
parse_lookup str = guard (bytes_eq (trimmed str) lookup_prefix) thrown

unfoldable pub print_lookup : Bytes
print_lookup = lookup_prefix ++ b'\n' ∷ []

abbrev pub or_throw : Option (Bytes × Bytes) → Outcome (Bytes × Bytes)
or_throw none = crash thrown
or_throw (some parts) = ok parts

-- `find` and the two `substr` of a field that must be there.
unfoldable pub next_field : Bytes → Outcome (Bytes × Bytes)
next_field input = or_throw (field input)

-- The first field is compared with the prefix, its length first.
unfoldable pub behind_prefix : Bytes → Bytes → Outcome Bytes
behind_prefix prefix input = do
  (first, rest) ← next_field input
  guard (length first == length prefix) thrown
  guard (bytes_eq first prefix) thrown
  ok rest

abbrev pub is_some {ℓ} : {A : Type ℓ} → Option A → Bool
is_some none = false
is_some (some a) = true

unfoldable pub parse_reply : Resolver → Bytes → Outcome LookupReply
parse_reply net str = do
  rest ← behind_prefix reply_prefix (trimmed str)
  (mcast_addr, rest') ← next_field rest
  (port, name) ← next_field rest'
  data_port ← stoul port
  guard (leb data_port 65535) thrown
  guard (is_some (get_mcast_addr net mcast_addr data_port)) thrown
  guard (is_valid_name name) thrown
  ok (record { mcast_addr = mcast_addr; data_port = data_port; name = name })

unfoldable pub print_reply : LookupReply → Bytes
print_reply reply =
    reply_prefix
    ++ b' ' ∷ reply.mcast_addr
    ++ b' ' ∷ print reply.data_port
    ++ b' ' ∷ reply.name
    ++ b'\n' ∷ []

pub record RexmitRequest : Type 0 where
  pub receiver_addr : SockaddrIn
  pub packet_ids : List ℕ

unfoldable pub parse_ids : List Bytes → Outcome (List ℕ)
parse_ids [] = ok []
parse_ids (token ∷ rest) = do
  guard (is_numeric token) thrown
  id ← stoull token
  ids ← parse_ids rest
  ok (id ∷ ids)

-- `back()` of an empty string has no meaning in C++.
unfoldable pub check_back : Bytes → Outcome (Unit {0})
check_back [] = crash bounds
check_back (c ∷ cs) = guard (is_digit (last_of c cs) || last_of c cs == b' ') thrown

unfoldable pub parse_rexmit : SockaddrIn → Bytes → Outcome RexmitRequest
parse_rexmit receiver_addr str = do
  check_back (trimmed str)
  rest ← behind_prefix rexmit_prefix (trimmed str)
  ids ← parse_ids (tokens rest)
  ok (record { receiver_addr = receiver_addr; packet_ids = ids })

-- The loop over the packet ids behind the first.
unfoldable pub print_more : List ℕ → Bytes
print_more [] = []
print_more (id ∷ ids) = b',' ∷ print id ++ print_more ids

unfoldable pub print_ids : List ℕ → Bytes
print_ids [] = []
print_ids (id ∷ ids) = print id ++ print_more ids

unfoldable pub print_rexmit : RexmitRequest → Bytes
print_rexmit req = rexmit_prefix ++ b' ' ∷ print_ids req.packet_ids ++ b'\n' ∷ []
