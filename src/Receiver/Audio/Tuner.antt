-- ===== src/Receiver/Audio/Tuner.antt =====
-- `change_station` of receiver/audio_receiver.cc, with what becomes of the data socket.
use sik_telnet_radio.Prelude.{ℕ, List, [], ◌∷◌, Option, none, some}
use sik_telnet_radio.Outcome.{Outcome, ok, crash, bounds, ◌>>=◌}
use sik_telnet_radio.Net.{Resolver}
use sik_telnet_radio.Station.{RadioStation, StationSet}
use sik_telnet_radio.Receiver.{Shared}
use sik_telnet_radio.Socket.{Log, Kernel}
use sik_telnet_radio.Socket.Udp.{
  UdpSocket, new_udp_socket, enable_mcast_recv, bind, destroy, assign,
}

-- `memory` is where the new socket is made before it is moved.
module _ (net : Resolver) (ntohs : ℕ → ℕ) (sys : Kernel) (memory : UdpSocket) where
  -- The socket that is moved from goes at the end of the statement.
  unfoldable pub replace : UdpSocket → Log → Outcome (UdpSocket × Log)
  replace s log = do
    (fresh, log1) ← new_udp_socket net sys memory log
    let (s', moved) = assign s fresh
    (_, log2) ← destroy net sys moved log1
    ok (s', log2)

  unfoldable pub tune_to : RadioStation → UdpSocket → Log → Outcome (UdpSocket × Log)
  tune_to station s log = do
    (s1, log1) ← replace s log
    (s2, log2) ← enable_mcast_recv net sys s1 station.mcast_addr station.data_addr log1
    bind net sys s2 (ntohs station.data_addr.sin_port) log2

  -- To look through the iterator is to look past the end if it is `end()`.
  abbrev pub tune : StationSet → Option RadioStation → UdpSocket → Log → Outcome (UdpSocket × Log)
  tune [] current s log = ok (s, log)
  tune (_ ∷ _) none s log = crash bounds
  tune (_ ∷ _) (some station) s log = tune_to station s log

  unfoldable pub change_station : Shared → UdpSocket → Log → Outcome (UdpSocket × Log)
  change_station st s log = do
    (s', log') ← destroy net sys s log
    tune st.stations st.current_station s' log'

  -- The changes of station in a run of the worker, each with what the receiver's threads share then.
  unfoldable pub change_stations : List Shared → UdpSocket → Log → Outcome (UdpSocket × Log)
  change_stations [] s log = ok (s, log)
  change_stations (st ∷ sts) s log = do
    (s', log') ← change_station st s log
    change_stations sts s' log'

  -- The life of the data socket: the worker's constructor makes it, its destructor closes it.
  unfoldable pub lifetime : List Shared → Log → Outcome (UdpSocket × Log)
  lifetime sts log = do
    (s, log1) ← new_udp_socket net sys memory log
    (s', log2) ← change_stations sts s log1
    destroy net sys s' log2
