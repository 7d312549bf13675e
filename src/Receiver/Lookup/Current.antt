-- ===== src/Receiver/Lookup/Current.antt =====
-- Replies of any text keep the current station among the stations.
use sik_telnet_radio.Prelude.{
  ℕ, ◌≡◌, refl, sym, subst, List, [], ◌∷◌, Option, none, some, leb, length, ◌==◌,
}
use sik_telnet_radio.Outcome.{
  Outcome, ok, crash, After, done, raised, Anything, After-crash, After-bind, After-guard,
  After-handled,
}
use sik_telnet_radio.Net.{Bytes, SockaddrIn, Resolver, get_mcast_addr, get_addr-After}
use sik_telnet_radio.Packet.{LookupReply}
use sik_telnet_radio.Station.{RadioStation, new_station, bytes_eq, is_valid_name}
use sik_telnet_radio.Text.{field, c_str}
use sik_telnet_radio.Datagram.{next_field, or_throw, is_some, behind_prefix, parse_reply}
use sik_telnet_radio.Events.{
  terminate, current_station_changed, station_added, station_removed, client_added, new_jobs,
}
use sik_telnet_radio.Text.Faults.{stoul-After}
use sik_telnet_radio.Receiver.{Shared}
use sik_telnet_radio.Receiver.Stations.{handle_lookup_reply}
use sik_telnet_radio.Receiver.Stations.Current.{CurrentIn, handle_lookup_reply-CurrentIn}
use sik_telnet_radio.Receiver.Lookup.{Heard, event, datagram, hear_one, hear}

or_throw-After : (o : Option (Bytes × Bytes)) → After Anything (or_throw o)
or_throw-After none = raised
or_throw-After (some parts) = done tt

next_field-After : (input : Bytes) → After Anything (next_field input)
unfolding next_field
next_field-After input = or_throw-After (field input)

behind_prefix-After : (prefix input : Bytes) → After Anything (behind_prefix prefix input)
unfolding behind_prefix
behind_prefix-After prefix input = After-bind (next_field-After input) (λ parts _.
    After-guard (length parts.0 == length prefix) (After-guard (bytes_eq parts.0 prefix) (done tt)))

parse_reply-After : (net : Resolver) (str : Bytes) → After Anything (parse_reply net str)
unfolding parse_reply
parse_reply-After net str = After-bind (behind_prefix-After _ _) (λ rest _.
    After-bind (next_field-After rest) (λ first _.
      After-bind (next_field-After first.1) (λ second _.
        After-bind (stoul-After second.0) (λ port _. After-guard (leb port 65535) (
          After-guard (is_some (get_mcast_addr net first.0 port))
            (After-guard (is_valid_name second.1) (done tt)))))))

new_station-After :
    (net : Resolver) (now : ℕ) (src_addr : SockaddrIn) (reply : LookupReply)
    → After Anything (new_station net now src_addr reply)
unfolding new_station
new_station-After net now src_addr reply =
    After-guard (is_valid_name reply.name)
      (After-bind (get_addr-After net reply.mcast_addr reply.data_port) (λ a _. done tt))

made-After :
    (net : Resolver) (prio : Option Bytes) (now : ℕ) (st : Shared) (reply : LookupReply)
    (src_addr : SockaddrIn) (made : Outcome RadioStation)
    → new_station net now src_addr reply ≡ made
    → After Anything made
    → CurrentIn st
    → After CurrentIn (handle_lookup_reply net prio now st reply src_addr)
unfolding handle_lookup_reply
made-After net prio now st reply src_addr (ok x) e _ h =
    let (st', run, h', _) = handle_lookup_reply-CurrentIn net prio now st reply src_addr e h in
    subst (After CurrentIn) (sym run) (done h')
made-After net prio now st reply src_addr (crash f) e mild h = rw e (After-crash mild)

pub hear_one-After :
    (net : Resolver) (prio : Option Bytes) (st : Shared) (now : ℕ) (src_addr : SockaddrIn)
    (bytes : Bytes)
    → CurrentIn st
    → After CurrentIn (hear_one net prio st now src_addr bytes)
unfolding hear_one
hear_one-After net prio st now src_addr bytes h =
    After-handled
      (After-bind (parse_reply-After net (c_str bytes)) (λ reply _.
        made-After net prio now st reply src_addr _ refl (new_station-After net now src_addr reply)
          h))
      h

-- Whatever datagrams the receiver hears, and from whom, the loop ends with a current station among the
-- stations, if it started so, or it is stopped by `fatal` or by an exception: no other fault occurs.
pub hear-CurrentIn :
    (net : Resolver) (prio : Option Bytes) (st : Shared) (heard : List Heard)
    → CurrentIn st
    → After CurrentIn (hear net prio st heard)
unfolding hear
hear-CurrentIn net prio st [] h = done h
hear-CurrentIn net prio st (event terminate ∷ rest) h = done h
hear-CurrentIn net prio st (event current_station_changed ∷ rest) h =
    hear-CurrentIn net prio st rest h
hear-CurrentIn net prio st (event station_added ∷ rest) h = hear-CurrentIn net prio st rest h
hear-CurrentIn net prio st (event station_removed ∷ rest) h = hear-CurrentIn net prio st rest h
hear-CurrentIn net prio st (event client_added ∷ rest) h = hear-CurrentIn net prio st rest h
hear-CurrentIn net prio st (event new_jobs ∷ rest) h = hear-CurrentIn net prio st rest h
hear-CurrentIn net prio st (datagram now src_addr bytes ∷ rest) h =
    After-bind (hear_one-After net prio st now src_addr bytes h)
      (λ st' h'. hear-CurrentIn net prio st' rest h')
