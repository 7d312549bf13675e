-- ===== src/Receiver/Stations/Tests.antt =====
-- The handlers on two concrete stations.
use sik_telnet_radio.Prelude.{◌≡◌, refl, [], ◌∷◌, some, none, length}
use sik_telnet_radio.Outcome.{ok}
use sik_telnet_radio.Net.{SockaddrIn, Resolver, addr_lt, get_addr}
use sik_telnet_radio.Packet.{LookupReply}
use sik_telnet_radio.Station.{
  RadioStation, bytes_lt, cmp, same, has, new_station, is_valid_name, all_printable,
}
use sik_telnet_radio.Receiver.{Shared}
use sik_telnet_radio.Receiver.Stations.{
  remove_from, find_prio, reset_current_station, remove_inactive,
}
use sik_telnet_radio.Receiver.Stations.Current.{CurrentIn}

abbrev net : Resolver
net = record {
  getaddrinfo = λ host. some (length host);
  inet_pton = λ host. some (length host);
  htons = λ port. port;
  ntohl = λ a. a;
}

abbrev here : SockaddrIn
here = record { sin_family = 2; s_addr = 7; sin_port = 30 }

abbrev reply : LookupReply
reply = record { mcast_addr = b'a' ∷ []; data_port = 40; name = b'X' ∷ [] }

abbrev at_port : SockaddrIn
at_port = record { sin_family = 2; s_addr = 1; sin_port = 40 }

abbrev first : RadioStation
first = record {
  data_addr = record { sin_family = 2; s_addr = 7; sin_port = 40 };
  ctrl_addr = here;
  mcast_addr = at_port;
  name = b'X' ∷ [];
  last_reply = 5;
}

abbrev second : RadioStation
second = record first { name = b'Y' ∷ []; last_reply = 30_000 }

abbrev nobody : Shared
nobody = record {
  stations = [];
  current_station = none;
  audio_receiver_event = [];
  ui_menu_event = [];
}

abbrev both : Shared
both = record {
  stations = first ∷ second ∷ [];
  current_station = some first;
  audio_receiver_event = [];
  ui_menu_event = [];
}

first_made : new_station net 5 here reply ≡ ok first
unfolding new_station is_valid_name all_printable get_addr
first_made = refl

both-CurrentIn : CurrentIn both
unfolding has same cmp bytes_lt addr_lt
both-CurrentIn = refl

-- The inactive first station goes, and the second becomes the current one.
removed : (remove_inactive (λ i. 31_000) none both).current_station ≡ some second
unfolding remove_inactive remove_from reset_current_station find_prio same cmp bytes_lt addr_lt
removed = refl
