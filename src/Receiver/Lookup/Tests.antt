-- ===== src/Receiver/Lookup/Tests.antt =====
-- A datagram that is no reply, and one that is.
use sik_telnet_radio.Prelude.{[], ◌∷◌, some, none, refl, List}
use sik_telnet_radio.Outcome.{After}
use sik_telnet_radio.Net.{SockaddrIn, Resolver}
use sik_telnet_radio.Packet.{LookupReply}
use sik_telnet_radio.Datagram.{print_reply}
use sik_telnet_radio.Receiver.{Shared}
use sik_telnet_radio.Receiver.Stations.Current.{CurrentIn}
use sik_telnet_radio.Receiver.Lookup.{Heard, datagram, hear}
use sik_telnet_radio.Receiver.Lookup.Current.{hear-CurrentIn}

abbrev pub system : Resolver
system = record {
  getaddrinfo = λ host. some 3_758_096_384;
  inet_pton = λ host. some 3_758_096_384;
  htons = λ port. port;
  ntohl = λ a. a;
}

abbrev pub sender : SockaddrIn
sender = record { sin_family = 2; s_addr = 7; sin_port = 30 }

abbrev pub introduction : LookupReply
introduction = record { mcast_addr = b'g' ∷ []; data_port = 40; name = b'X' ∷ [] }

abbrev empty : Shared
empty = record {
  stations = [];
  current_station = none;
  audio_receiver_event = [];
  ui_menu_event = [];
}

abbrev air : List Heard
air = datagram 3 sender (b'?' ∷ []) ∷ datagram 5 sender (print_reply introduction) ∷ []

hear-CurrentIn_example : After CurrentIn (hear system none empty air)
hear-CurrentIn_example = hear-CurrentIn system none empty air refl
