-- ===== src/Socket/Tests.antt =====
-- A system in which every call succeeds, and the socket of a receiver that hears of two stations.
use sik_telnet_radio.Prelude.{ℕ, ◌+◌, ◌≡◌, refl, true, List, [], ◌∷◌, none, some, length}
use sik_telnet_radio.Outcome.{ok}
use sik_telnet_radio.Net.{Resolver}
use sik_telnet_radio.Receiver.{Shared}
use sik_telnet_radio.Receiver.Menu.Tests.{host, alone, alone-CurrentIn}
use sik_telnet_radio.Receiver.Audio.Tuner.{change_stations}
use sik_telnet_radio.Receiver.Audio.Reception.{off, Tuned, silent}
use sik_telnet_radio.Receiver.Audio.Tuned.{wanted_last, change_stations-Tuned}
use sik_telnet_radio.Socket.{Log, Kernel, opened, open_fds, memberships, mcast_ttl}
use sik_telnet_radio.Socket.Udp.{UdpSocket, set_mcast_ttl}
use sik_telnet_radio.Socket.Runs.{Runs}
use sik_telnet_radio.Socket.Moved.{set_mcast_ttl-unchanged}

abbrev willing : Kernel
willing = record {
  socket = λ log. some (length log + 3);
  accept = λ log fd. some (length log + 3);
  succeeds = λ log call. true;
  read = λ log fd nbytes. none;
}

abbrev net : Resolver
net = record {
  getaddrinfo = λ host. some 7;
  inet_pton = λ host. some 7;
  htons = λ x. x;
  ntohl = λ x. x;
}

abbrev blank : UdpSocket
blank = record {
  fd = none;
  mcast_recv_enabled = true;
  ipmreq = record { imr_interface = 0; imr_multiaddr = 0; imr_sourceaddr = 0 };
  local_addr = host;
  conn_addr = host;
}

abbrev gone : Shared
gone = record alone { stations = []; current_station = none }

abbrev heard : List Shared
heard = alone ∷ gone ∷ alone ∷ []

change_stations-Tuned_example :
    Runs willing
      (λ end. Tuned [] [] (wanted_last off heard) (end.0) (end.1))
      (change_stations net (λ x. x) willing blank heard blank [])
unfolding open_fds memberships
change_stations-Tuned_example =
    change_stations-Tuned [] [] net willing (λ x. x) blank heard off blank []
      (alone-CurrentIn, (refl, (alone-CurrentIn, tt))) (silent refl refl refl)

set_mcast_ttl-unchanged_example :
    (log' : Log) × (set_mcast_ttl net willing (record blank { fd = some 3 }) 4 (opened 3 ∷ [])
      ≡ ok log')
    × ((f : ℕ) → mcast_ttl f log' ≡ mcast_ttl f (opened 3 ∷ []))
set_mcast_ttl-unchanged_example =
    set_mcast_ttl-unchanged net willing (record blank { fd = some 3 }) 4 3 (opened 3 ∷ []) refl refl
