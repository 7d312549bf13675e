-- ===== src/Receiver/Audio/Tuned.antt =====
-- The data socket is a member of the current station's group, and of no other.
use mathlib.Core.List.{nil≢cons}
use sik_telnet_radio.Prelude.{ℕ, ◌≡◌, refl, ap, sym, List, [], ◌∷◌, Option, none, some}
use sik_telnet_radio.Net.{Resolver}
use sik_telnet_radio.Station.{RadioStation, StationSet}
use sik_telnet_radio.Receiver.{Shared}
use sik_telnet_radio.Receiver.Stations.Current.{IsCurrent, CurrentIn}
use sik_telnet_radio.Socket.{IpMreqSource, Log, Kernel, open_fds, memberships}
use sik_telnet_radio.Socket.Runs.{Runs, done, Runs-bind, Runs-map, must_on-Runs}
use sik_telnet_radio.Socket.Udp.{
  UdpSocket, set_local_port, set_opt, enable_mcast_recv, bind, destroy, assign,
}
use sik_telnet_radio.Receiver.Audio.Tuner.{
  replace, tune_to, tune, change_station, change_stations, lifetime,
}
use sik_telnet_radio.Receiver.Audio.Reception.{
  new_udp_socket-Tuned, Reception, off, idle, on, group, Tuned, silent, ready, joined, Ends,
  destroy-Tuned,
}

-- The reception that the stations ask for.
abbrev pub wanted_from : StationSet → Option RadioStation → Reception
wanted_from [] current = off
wanted_from (_ ∷ _) none = off
wanted_from (_ ∷ _) (some station) = on station

abbrev pub wanted : Shared → Reception
wanted st = wanted_from st.stations st.current_station

abbrev pub wanted_last : Reception → List Shared → Reception
wanted_last r [] = r
wanted_last r (st ∷ sts) = wanted_last (wanted st) sts

abbrev pub AllCurrentIn : List Shared → Type 0
AllCurrentIn [] = Unit {0}
AllCurrentIn (st ∷ sts) = CurrentIn st × AllCurrentIn sts

module _ (fds : List ℕ) (groups : List (ℕ × IpMreqSource)) (net : Resolver) (sys : Kernel) where
  module _ (ntohs : ℕ → ℕ) (memory : UdpSocket) where
    replace-Tuned :
        (s : UdpSocket) (log : Log)
        → Tuned fds groups off s log
        → Ends sys fds groups idle (replace net ntohs sys memory s log)
    unfolding replace assign destroy
    replace-Tuned s log (silent e h k) =
        Runs-bind (new_udp_socket-Tuned fds groups net sys memory log h k)
          (λ end tuned. done (moved end tuned))
      where
        moved :
            (end : UdpSocket × Log)
            → Tuned fds groups idle (end.0) (end.1)
            → Tuned fds groups idle (assign s (end.0)).0 (end.1)
        moved end (ready fd e enabled h k) = ready fd e enabled h k

    enable_mcast_recv-Tuned :
        (station : RadioStation) (s : UdpSocket) (log : Log)
        → Tuned fds groups idle s log
        → Ends sys fds groups
            (on station)
            (enable_mcast_recv net sys s station.mcast_addr station.data_addr log)
    unfolding enable_mcast_recv set_opt open_fds memberships
    enable_mcast_recv-Tuned station s log (ready fd e enabled h k) =
        Runs-bind
          {P = λ log'.
            (open_fds log' ≡ fd ∷ fds) × (memberships log' ≡ (fd, group station) ∷ groups)}
          (must_on-Runs sys s.fd fd _ log e (h, ap (λ groups. (fd, group station) ∷ groups) k))
          (λ log' (h', k'). done (joined fd e refl refl h' k'))

    bind-Tuned :
        (station : RadioStation) (s : UdpSocket) (port : ℕ) (log : Log)
        → Tuned fds groups (on station) s log
        → Ends sys fds groups (on station) (bind net sys s port log)
    unfolding bind set_local_port open_fds memberships
    bind-Tuned station s port log (joined fd e enabled same h k) =
        Runs-bind
          {P = λ log'.
            (open_fds log' ≡ fd ∷ fds) × (memberships log' ≡ (fd, group station) ∷ groups)}
          (must_on-Runs sys s.fd fd _ log e (h, k))
          (λ log' (h', k'). done (joined fd e enabled same h' k'))

    tune_to-Tuned :
        (station : RadioStation) (s : UdpSocket) (log : Log)
        → Tuned fds groups off s log
        → Ends sys fds groups (on station) (tune_to net ntohs sys memory station s log)
    unfolding tune_to
    tune_to-Tuned station s log h = Runs-bind (replace-Tuned s log h) (λ e1 h1.
        Runs-bind (enable_mcast_recv-Tuned station (e1.0) (e1.1) h1)
          (λ e2 h2. bind-Tuned station (e2.0) _ (e2.1) h2))

    tune-Tuned :
        (xs : StationSet) (c : Option RadioStation) (s : UdpSocket) (log : Log)
        → IsCurrent c xs
        → Tuned fds groups off s log
        → Ends sys fds groups (wanted_from xs c) (tune net ntohs sys memory xs c s log)
    tune-Tuned [] c s log current h = done h
    tune-Tuned (x ∷ xs) none s log current h = absurd (nil≢cons (sym current))
    tune-Tuned (x ∷ xs) (some station) s log current h = tune_to-Tuned station s log h

    pub change_station-Tuned :
        (r : Reception) (st : Shared) (s : UdpSocket) (log : Log)
        → CurrentIn st
        → Tuned fds groups r s log
        → Ends sys fds groups (wanted st) (change_station net ntohs sys memory st s log)
    unfolding change_station
    change_station-Tuned r st s log current h =
        Runs-bind (destroy-Tuned fds groups net sys r s log h)
          (λ end off. tune-Tuned st.stations st.current_station (end.0) (end.1) current off)

    -- From a data socket that is as its reception needs, through any changes of station at each of which the
    -- current station is among the stations: the data socket has then the descriptor and the membership that
    -- the last change asks for, and none that an earlier one got; or the run is stopped by `fatal`, and there is
    -- a call that the system refuses. Nothing else stops it.
    pub change_stations-Tuned :
        (sts : List Shared) (r : Reception) (s : UdpSocket) (log : Log)
        → AllCurrentIn sts
        → Tuned fds groups r s log
        → Runs sys
            (λ end. Tuned fds groups (wanted_last r sts) (end.0) (end.1))
            (change_stations net ntohs sys memory sts s log)
    unfolding change_stations
    change_stations-Tuned [] r s log h tuned = done tuned
    change_stations-Tuned (st ∷ sts) r s log (h, hs) tuned =
        Runs-bind (change_station-Tuned r st s log h tuned)
          (λ end tuned'. change_stations-Tuned sts (wanted st) (end.0) (end.1) hs tuned')

  -- The data socket leaves nothing behind: at the end of its life the descriptors and the memberships
  -- are those that were there at its beginning, unless the system refuses a call.
  pub lifetime-Tuned :
      (ntohs : ℕ → ℕ) (memory : UdpSocket) (sts : List Shared) (log : Log)
      → AllCurrentIn sts
      → open_fds log ≡ fds
      → memberships log ≡ groups
      → Runs sys
          (λ end. (open_fds (end.1) ≡ fds) × (memberships (end.1) ≡ groups))
          (lifetime net ntohs sys memory sts log)
  unfolding lifetime
  lifetime-Tuned ntohs memory sts log current h k =
      Runs-bind (new_udp_socket-Tuned fds groups net sys memory log h k) (λ e1 h1.
        Runs-bind (change_stations-Tuned ntohs memory sts idle (e1.0) (e1.1) current h1) (λ e2 h2.
          Runs-map (λ end h. nothing_left end h)
            (destroy-Tuned fds groups net sys (wanted_last idle sts) (e2.0) (e2.1) h2)))
    where
      nothing_left :
          (end : UdpSocket × Log)
          → Tuned fds groups off (end.0) (end.1)
          → (open_fds (end.1) ≡ fds) × (memberships (end.1) ≡ groups)
      nothing_left end (silent e h k) = (h, k)
