-- ===== src/Receiver/Menu/Tests.antt =====
-- A stray bracket, then an arrow down, with one station.
use sik_telnet_radio.Prelude.{◌≡◌, refl, [], ◌∷◌, some}
use sik_telnet_radio.Outcome.{ok}
use sik_telnet_radio.Net.{Bytes, SockaddrIn}
use sik_telnet_radio.Station.{RadioStation, has, same_refl}
use sik_telnet_radio.Receiver.{Shared}
use sik_telnet_radio.Receiver.Stations.Current.{CurrentIn}
use sik_telnet_radio.Receiver.Menu.{escape, handle_keys}
use sik_telnet_radio.Receiver.Menu.Keys.{idle, moves, apply_all, down, handle_keys-moves}

abbrev pub host : SockaddrIn
host = record { sin_family = 2; s_addr = 7; sin_port = 30 }

abbrev only : RadioStation
only = record {
  data_addr = host;
  ctrl_addr = host;
  mcast_addr = host;
  name = b'X' ∷ [];
  last_reply = 0;
}

abbrev pub alone : Shared
alone = record {
  stations = only ∷ [];
  current_station = some only;
  audio_receiver_event = [];
  ui_menu_event = [];
}

abbrev typing : Bytes
typing = b'[' ∷ escape ∷ b'[' ∷ b'B' ∷ escape ∷ []

pub alone-CurrentIn : CurrentIn alone
unfolding has
alone-CurrentIn = rw (same_refl only) refl

moves_once : moves idle typing ≡ down ∷ []
moves_once = refl

handle_keys-moves_example :
    (typed : Bytes) × (st' : Shared) × (handle_keys alone [] typing ≡ ok (typed, st'))
    × (apply_all (moves idle typing) alone ≡ ok st')
    × CurrentIn st'
handle_keys-moves_example = handle_keys-moves alone typing alone-CurrentIn
