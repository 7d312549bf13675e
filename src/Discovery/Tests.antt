-- ===== src/Discovery/Tests.antt =====
-- A sender that is asked twice.
use sik_telnet_radio.Prelude.{◌≡◌, refl, List, [], ◌∷◌, none, arith}
use sik_telnet_radio.Outcome.{ok}
use sik_telnet_radio.Net.{Bytes, get_addr, get_mcast_addr}
use sik_telnet_radio.Station.{RadioStation, is_valid_name, all_printable}
use sik_telnet_radio.Events.{client_added, terminate}
use sik_telnet_radio.Sender.Controller.{Controller, serve}
use sik_telnet_radio.Sender.Controller.Tests.{idle, listener}
use sik_telnet_radio.Receiver.{Shared}
use sik_telnet_radio.Receiver.LookupSender.{Tick, event, writable, look_around}
use sik_telnet_radio.Receiver.Lookup.{Heard, hear}
use sik_telnet_radio.Receiver.Menu.Tests.{host, alone, alone-CurrentIn}
use sik_telnet_radio.Receiver.Stations.Known.{Known}
use sik_telnet_radio.Receiver.Stations.Current.{CurrentIn}
use sik_telnet_radio.Params.Tests.{net, group}
use sik_telnet_radio.Discovery.{IsReadable, delivered, asks-found}

idle-IsReadable : IsReadable net idle.lookup_reply
unfolding get_mcast_addr is_valid_name all_printable
idle-IsReadable = record {
  no_space = refl;
  no_zero = refl;
  small_port = omega arith;
  group = group 40;
  is_group = refl;
  valid_name = refl;
}

idle_resolved : get_addr net (b'g' ∷ []) 40 ≡ ok (group 40)
unfolding get_addr
idle_resolved = refl

abbrev ticks : List Tick
ticks = writable ∷ event client_added ∷ writable ∷ event terminate ∷ writable ∷ []

asks-found_example :
    (sender' : Controller) × (serve idle (delivered listener (look_around host ticks)) ≡ ok sender')
    × (answer : Bytes) × (sender'.replies ≡ (listener, answer) ∷ (listener, answer) ∷ [])
    × (st' : Shared) × (hear net none alone (Heard.datagram 5 host answer ∷ []) ≡ ok st')
    × CurrentIn st'
    × (x : RadioStation) × Known 5 x alone.stations st'.stations
    × (x.name ≡ b'X' ∷ [])
    × (x.mcast_addr ≡ group 40)
    × (x.ctrl_addr ≡ host)
    × (x.data_addr ≡ record host { sin_port = net.htons 40 })
    × (x.last_reply ≡ 5)
asks-found_example =
    asks-found net none idle alone host listener host (group 40) ticks 5 idle-IsReadable
      idle_resolved refl alone-CurrentIn
