-- ===== src/Discovery.antt =====
-- How a receiver finds a sender: receiver/lookup_sender.cc, sender/controller.cc and
-- receiver/lookup_receiver.cc together.
mod Tests
use sik_telnet_radio.Prelude.{
  ℕ, zero, suc, ◌^◌, ◌≡◌, refl, ap, sym, ◌∙◌, ◌<◌, ◌&&◌, true, List, [], ◌∷◌, ◌++◌, Option, none,
  some, arith, map, replicate, if◌then◌else◌,
}
use sik_telnet_radio.Outcome.{Outcome, ok, crash, ◌>>=◌, ◌>>◌, guard, handled}
use sik_telnet_radio.Net.{Bytes, SockaddrIn, Resolver, get_addr, get_mcast_addr}
use sik_telnet_radio.Packet.{LookupReply}
use sik_telnet_radio.Station.{RadioStation, new_station, is_valid_name, all_printable}
use sik_telnet_radio.Events.{
  EventType, terminate, station_added, station_removed, current_station_changed, client_added,
  new_jobs,
}
use sik_telnet_radio.Text.{c_str, print}
use sik_telnet_radio.Text.Pieces.{lacks, lacks-append}
use sik_telnet_radio.Datagram.{reply_prefix, print_lookup, print_reply, parse_reply}
use sik_telnet_radio.Datagram.Replies.{parse_reply-print_reply}
use sik_telnet_radio.Sender.Controller.{Controller, serve, Message}
use sik_telnet_radio.Sender.Controller.Requests.{
  Request, lookup, message, lookups, Sendable, serve-requests, c_str_whole, print-lacks_zero,
}
use sik_telnet_radio.Receiver.{Shared}
use sik_telnet_radio.Receiver.LookupSender.{Tick, event, writable, look_around}
use sik_telnet_radio.Receiver.Lookup.{Heard, hear, hear_one}
use sik_telnet_radio.Receiver.Stations.{handle_lookup_reply}
use sik_telnet_radio.Receiver.Stations.Known.{Known, handle_lookup_reply-Known}
use sik_telnet_radio.Receiver.Stations.Current.{CurrentIn, handle_lookup_reply-CurrentIn}

-- A reply that can be read where it arrives: what a sender with accepted parameters has, if its
-- multicast address is a C string without spaces and its port has 16 bits.
pub record IsReadable (net : Resolver) (reply : LookupReply) : Type 0 where
  pub no_space : lacks b' ' reply.mcast_addr ≡ true
  pub no_zero : lacks 0 reply.mcast_addr ≡ true
  pub small_port : reply.data_port < 2 ^ 16
  pub group : SockaddrIn
  pub is_group : get_mcast_addr net reply.mcast_addr reply.data_port ≡ some group
  pub valid_name : is_valid_name reply.name ≡ true

-- The rounds in which the receiver asks.
abbrev pub asks : List Tick → ℕ
asks [] = 0
asks (event terminate ∷ ticks) = 0
asks (event _ ∷ ticks) = asks ticks
asks (writable ∷ ticks) = suc (asks ticks)

-- The datagrams, as the sender gets them from the receiver's address.
abbrev pub delivered : SockaddrIn → List (SockaddrIn × Bytes) → List Message
delivered src_addr = map (λ sent. Message.datagram src_addr (some (sent.1)))

all_printable-lacks : (cs : Bytes) → all_printable cs ≡ true → lacks 0 cs ≡ true
unfolding all_printable
all_printable-lacks [] h = refl
all_printable-lacks (c ∷ cs) h = ground (arith, all_printable-lacks cs)

name-lacks : (name : Bytes) → is_valid_name name ≡ true → lacks 0 name ≡ true
unfolding is_valid_name
name-lacks [] h = refl
name-lacks (c ∷ cs) h = ground (arith, all_printable-lacks (c ∷ cs))

print_reply-lacks :
    {net : Resolver} (reply : LookupReply)
    → IsReadable net reply
    → lacks 0 (print_reply reply) ≡ true
unfolding print_reply
print_reply-lacks reply h =
    let head = reply_prefix ++ b' ' ∷ reply.mcast_addr in
    let port = head ++ b' ' ∷ print reply.data_port in
    let name = port ++ b' ' ∷ reply.name in
    lacks-append 0 name (b'\n' ∷ [])
      (lacks-append 0 port (b' ' ∷ reply.name)
        (lacks-append 0 head (b' ' ∷ print reply.data_port)
          (lacks-append 0 reply_prefix (b' ' ∷ reply.mcast_addr) refl h.no_zero)
          (print-lacks_zero reply.data_port))
        (name-lacks reply.name h.valid_name))
      refl

-- The requests of the receiver are lookups from its address.
delivered-look_around :
    (src_addr discover_addr : SockaddrIn) (ticks : List Tick)
    → delivered src_addr (look_around discover_addr ticks)
      ≡ map message (replicate (asks ticks) (lookup src_addr))
unfolding look_around
delivered-look_around src discover [] = refl
delivered-look_around src discover (event terminate ∷ ticks) = refl
delivered-look_around src discover (event current_station_changed ∷ ticks) =
    delivered-look_around src discover ticks
delivered-look_around src discover (event station_added ∷ ticks) =
    delivered-look_around src discover ticks
delivered-look_around src discover (event station_removed ∷ ticks) =
    delivered-look_around src discover ticks
delivered-look_around src discover (event client_added ∷ ticks) =
    delivered-look_around src discover ticks
delivered-look_around src discover (event new_jobs ∷ ticks) =
    delivered-look_around src discover ticks
delivered-look_around src discover (writable ∷ ticks) =
    ap (λ rest. message (lookup src) ∷ rest) (delivered-look_around src discover ticks)

Sendable-lookups : (n : ℕ) (src_addr : SockaddrIn) → Sendable (replicate n (lookup src_addr))
Sendable-lookups zero src = tt
Sendable-lookups (suc n) src = Sendable-lookups n src

lookups-replicate :
    (n : ℕ) (src_addr : SockaddrIn) → lookups (replicate n (lookup src_addr)) ≡ replicate n src_addr
lookups-replicate zero src = refl
lookups-replicate (suc n) src = ap (λ rest. src ∷ rest) (lookups-replicate n src)

map-replicate :
    {A B : Type 0} (f : A → B) (n : ℕ) (a : A) → map f (replicate n a) ≡ replicate n (f a)
map-replicate f zero a = refl
map-replicate f (suc n) a = ap (λ rest. f a ∷ rest) (map-replicate f n a)

-- What the sender does with the requests: it answers each.
serve-asks :
    (st : Controller) (src_addr discover_addr : SockaddrIn) (ticks : List Tick)
    → st.replies ≡ []
    → (st' : Controller) × (serve st (delivered src_addr (look_around discover_addr ticks))
        ≡ ok st')
      × (st'.replies ≡ replicate (asks ticks) (src_addr, print_reply st.lookup_reply))
serve-asks st src discover ticks fresh =
    let n = asks ticks in
    let (st', runs, replies, _, _) =
      serve-requests st (replicate n (lookup src)) (Sendable-lookups n src) in
    let reply : SockaddrIn → SockaddrIn × Bytes = λ addr. (addr, print_reply st.lookup_reply) in
    (
      st',
      ap (serve st) (delivered-look_around src discover ticks) ∙ runs,
      replies
          ∙ ap (λ before. before ++ map reply (lookups (replicate n (lookup src)))) fresh
          ∙ ap (map reply) (lookups-replicate n src)
          ∙ map-replicate reply n src,
    )

-- The station that a reply from `ctrl_addr` stands for.
made :
    (net : Resolver) (now : ℕ) (ctrl_addr : SockaddrIn) (reply : LookupReply) (mcast : SockaddrIn)
    → is_valid_name reply.name ≡ true
    → get_addr net reply.mcast_addr reply.data_port ≡ ok mcast
    → new_station net now ctrl_addr reply
      ≡ ok (record {
        data_addr = record ctrl_addr { sin_port = net.htons reply.data_port };
        ctrl_addr = ctrl_addr;
        mcast_addr = mcast;
        name = reply.name;
        last_reply = now;
      })
unfolding new_station
made net now ctrl reply mcast valid found = rw (valid, found) refl

-- A receiver hears a reply.
hear-reply :
    (net : Resolver) (prio : Option Bytes) (st : Shared) (now : ℕ) (ctrl_addr : SockaddrIn)
    (reply : LookupReply) {x : RadioStation}
    → IsReadable net reply
    → new_station net now ctrl_addr reply ≡ ok x
    → CurrentIn st
    → (st' : Shared) × (hear net prio st (Heard.datagram now ctrl_addr (print_reply reply) ∷ [])
        ≡ ok st')
      × CurrentIn st'
      × Known now x st.stations st'.stations
unfolding hear hear_one
hear-reply net prio st now ctrl reply h is_x current =
    let (st', runs, current', _) =
      handle_lookup_reply-CurrentIn net prio now st reply ctrl is_x current in
    (
      st',
      rw
          (
            c_str_whole (print_reply reply) (print_reply-lacks reply h),
            parse_reply-print_reply net reply h.no_space h.small_port h.is_group h.valid_name,
            runs,
          )
          refl,
      current',
      handle_lookup_reply-Known net prio now st st' reply ctrl is_x runs,
    )

-- A sender that has answered nobody answers each lookup request of a receiver, and a receiver that
-- hears one of these answers, at any time, has a station with the name and the group of the sender, the
-- address that the answer came from and the time at which it was heard; or it had a station that it takes
-- for this one, which it keeps with the new time. This holds if the answer is readable and its group's
-- address is resolved. Neither meets a fault, and the current station is still one of the stations.
pub asks-found :
    (net : Resolver) (prio : Option Bytes) (sender : Controller) (st : Shared)
    (discover_addr src_addr ctrl_addr mcast : SockaddrIn) (ticks : List Tick) (now : ℕ)
    → IsReadable net sender.lookup_reply
    → get_addr net sender.lookup_reply.mcast_addr sender.lookup_reply.data_port ≡ ok mcast
    → sender.replies ≡ []
    → CurrentIn st
    → (sender' : Controller) × (serve sender (delivered src_addr (look_around discover_addr ticks))
        ≡ ok sender')
      × (answer : Bytes) × (sender'.replies ≡ replicate (asks ticks) (src_addr, answer))
      × (st' : Shared) × (hear net prio st (Heard.datagram now ctrl_addr answer ∷ []) ≡ ok st')
      × CurrentIn st'
      × (x : RadioStation) × Known now x st.stations st'.stations
      × (x.name ≡ sender.lookup_reply.name)
      × (x.mcast_addr ≡ mcast)
      × (x.ctrl_addr ≡ ctrl_addr)
      × (x.data_addr ≡ record ctrl_addr { sin_port = net.htons sender.lookup_reply.data_port })
      × (x.last_reply ≡ now)
asks-found net prio sender st discover src ctrl mcast ticks now h found fresh current =
    let reply = sender.lookup_reply in
    let (sender', serves, replies) = serve-asks sender src discover ticks fresh in
    let (st', hears, current', known) =
      hear-reply net prio st now ctrl reply h (made net now ctrl reply mcast h.valid_name found)
        current in
    (
      sender',
      serves,
      print_reply reply,
      replies,
      st',
      hears,
      current',
      _,
      known,
      refl,
      refl,
      refl,
      refl,
      refl,
    )
