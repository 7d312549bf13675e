-- ===== src/Datagram/Replies.antt =====
-- Replies that are printed are read again.
use sik_telnet_radio.Prelude.{
  ℕ, ◌≡◌, ◌<◌, ◌^◌, refl, ◌∙◌, true, [], ◌∷◌, ◌++◌, arith, append_assoc, some, le→leb,
}
use sik_telnet_radio.Outcome.{ok}
use sik_telnet_radio.Net.{Bytes, SockaddrIn, Resolver, get_mcast_addr}
use sik_telnet_radio.Packet.{LookupReply}
use sik_telnet_radio.Station.{is_valid_name}
use sik_telnet_radio.Text.{trimmed, print, stoul}
use sik_telnet_radio.Text.Numbers.{is_numeric-digits, stoul-stoull}
use sik_telnet_radio.Text.Pieces.{trimmed-newline, lacks, field-append, is_numeric-lacks_space}
use sik_telnet_radio.Datagram.{reply_prefix, next_field, parse_reply, print_reply}
use sik_telnet_radio.Datagram.RoundTrip.{stoull-print, digits≢nil, behind_prefix-append}

trimmed_reply :
    (a p n : Bytes)
    → trimmed (reply_prefix ++ b' ' ∷ a ++ b' ' ∷ p ++ b' ' ∷ n ++ b'\n' ∷ [])
      ≡ reply_prefix ++ b' ' ∷ (a ++ b' ' ∷ (p ++ b' ' ∷ n))
trimmed_reply a p n =
    trimmed-newline (reply_prefix ++ b' ' ∷ a ++ b' ' ∷ p ++ b' ' ∷ n)
    ∙ append_assoc (reply_prefix ++ b' ' ∷ a) (b' ' ∷ p) (b' ' ∷ n)
    ∙ append_assoc reply_prefix (b' ' ∷ a) (b' ' ∷ p ++ b' ' ∷ n)

next_field-append :
    (cs rest : Bytes) → lacks b' ' cs ≡ true → next_field (cs ++ b' ' ∷ rest) ≡ ok (cs, rest)
unfolding next_field
next_field-append cs rest h = rw (field-append cs rest h) refl

stoul-print : (n : ℕ) → n < 2 ^ 64 → stoul (print n) ≡ ok n
stoul-print n h =
    stoul-stoull (print n) (digits≢nil 19 n) (is_numeric-digits 20 n) ∙ stoull-print n h

-- A reply that is printed is read as the same reply, if its multicast address is one and has no space,
-- its port has 16 bits and its name is valid.
pub parse_reply-print_reply :
    (net : Resolver) (reply : LookupReply) {addr : SockaddrIn}
    → lacks b' ' reply.mcast_addr ≡ true
    → reply.data_port < 2 ^ 16
    → get_mcast_addr net reply.mcast_addr reply.data_port ≡ some addr
    → is_valid_name reply.name ≡ true
    → parse_reply net (print_reply reply) ≡ ok reply
unfolding parse_reply print_reply
parse_reply-print_reply net reply no_space small multicast valid =
    let port = print reply.data_port in
    rw
      (
        trimmed_reply reply.mcast_addr port reply.name,
        behind_prefix-append reply_prefix (reply.mcast_addr ++ b' ' ∷ (port ++ b' ' ∷ reply.name))
            refl,
        next_field-append reply.mcast_addr (port ++ b' ' ∷ reply.name) no_space,
        next_field-append port reply.name
            (is_numeric-lacks_space port (is_numeric-digits 20 reply.data_port)),
        stoul-print reply.data_port (omega arith),
        le→leb reply.data_port 65535 (omega arith),
        multicast,
        valid,
      )
      refl
