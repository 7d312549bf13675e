-- ===== src/Receiver/Audio/Reception.antt =====
-- What a data socket holds while it receives, and that to destroy it is to give that up.
use sik_telnet_radio.Prelude.{
  ℕ, ◌≡◌, refl, ap, sym, subst, Bool, true, false, List, ◌∷◌, none, some, inl, inr, Option-cases,
}
use sik_telnet_radio.Outcome.{Outcome, ok, ◌>>=◌}
use sik_telnet_radio.Net.{Resolver}
use sik_telnet_radio.Station.{RadioStation}
use sik_telnet_radio.Socket.{
  IpMreqSource, closed, Log, Kernel, open_fds, memberships, must, leave_joined, forget_opened,
}
use sik_telnet_radio.Socket.Runs.{Runs, done, no_socket, Runs-bind, must-Runs, must_on-Runs}
use sik_telnet_radio.Socket.Udp.{
  UdpSocket, new_udp_socket, set_local_port, set_opt, set_drop_membership, request,
  disable_mcast_recv, closing, destroy_fd, destroy,
}

-- What a data socket is for: nothing, a group it has not joined, or the group of a station.
pub data Reception : Type 0 where
  off idle : Reception
  on : RadioStation → Reception

abbrev pub group : RadioStation → IpMreqSource
group station = request station.mcast_addr station.data_addr

-- Beside the descriptors `fds` and the memberships `groups` of others, the socket has what its
-- reception needs, and it has its records straight.
pub data Tuned (fds : List ℕ) (groups : List (ℕ × IpMreqSource))
    : Reception → UdpSocket → Log → Type 0 where
  silent :
      {s : UdpSocket} {log : Log}
      → s.fd ≡ none
      → open_fds log ≡ fds
      → memberships log ≡ groups
      → Tuned fds groups off s log
  ready :
      {s : UdpSocket} {log : Log} (fd : ℕ)
      → s.fd ≡ some fd
      → s.mcast_recv_enabled ≡ false
      → open_fds log ≡ fd ∷ fds
      → memberships log ≡ groups
      → Tuned fds groups idle s log
  joined :
      {station : RadioStation} {s : UdpSocket} {log : Log} (fd : ℕ)
      → s.fd ≡ some fd
      → s.mcast_recv_enabled ≡ true
      → s.ipmreq ≡ group station
      → open_fds log ≡ fd ∷ fds
      → memberships log ≡ (fd, group station) ∷ groups
      → Tuned fds groups (on station) s log

-- A result that is tuned, unless the system refuses a call.
abbrev pub Ends :
    Kernel → List ℕ → List (ℕ × IpMreqSource) → Reception → Outcome (UdpSocket × Log) → Type 0
Ends sys fds groups r run = Runs sys (λ end. Tuned fds groups r (end.0) (end.1)) run

module _ (fds : List ℕ) (groups : List (ℕ × IpMreqSource)) (net : Resolver) (sys : Kernel) where
  pub new_udp_socket-Tuned :
      (memory : UdpSocket) (log : Log)
      → open_fds log ≡ fds
      → memberships log ≡ groups
      → Ends sys fds groups idle (new_udp_socket net sys memory log)
  unfolding new_udp_socket set_local_port open_fds memberships
  new_udp_socket-Tuned memory log h k = elim (Option-cases (sys.socket log)) [
    | inl e ↦ rw e (no_socket log e)
    | inr (fd, e) ↦ rw e (done (ready fd refl refl (ap (λ fds. fd ∷ fds) h) k))
  ]

  pub closed-Tuned :
      (s : UdpSocket) (fd : ℕ) (log : Log)
      → open_fds log ≡ fd ∷ fds
      → memberships log ≡ groups
      → Ends sys fds groups off
          (must sys (closed fd) log >>= λ log'. ok (record s { fd = none }, log'))
  unfolding open_fds memberships
  closed-Tuned s fd log h k =
      Runs-bind {P = λ log'. (open_fds log' ≡ fds) × (memberships log' ≡ groups)}
        (must-Runs sys (closed fd) log (rw h (forget_opened fd fds), k))
        (λ log' (h', k'). done (silent refl h' k'))

  pub disable_mcast_recv-Runs :
      (station : RadioStation) (s : UdpSocket) (fd : ℕ) (log : Log)
      → s.fd ≡ some fd
      → s.ipmreq ≡ group station
      → open_fds log ≡ fd ∷ fds
      → memberships log ≡ (fd, group station) ∷ groups
      → Runs sys
          (λ end. (open_fds (end.1) ≡ fd ∷ fds) × (memberships (end.1) ≡ groups))
          (disable_mcast_recv net sys s log)
  unfolding disable_mcast_recv set_drop_membership set_opt open_fds memberships
  disable_mcast_recv-Runs station s fd log e same h k =
      Runs-bind {P = λ log'. (open_fds log' ≡ fd ∷ fds) × (memberships log' ≡ groups)}
        (must_on-Runs sys s.fd fd _ log e
          (h, rw (same, k) (leave_joined fd (group station) groups)))
        (λ log' both. done both)

  -- To close a socket that has joined a group is to give it up first.
  pub closing-Tuned :
      (station : RadioStation) (s : UdpSocket) (fd : ℕ) (log : Log)
      → s.fd ≡ some fd
      → s.ipmreq ≡ group station
      → open_fds log ≡ fd ∷ fds
      → memberships log ≡ (fd, group station) ∷ groups
      → Ends sys fds groups off (closing net sys true s fd log)
  closing-Tuned station s fd log e same h k =
      Runs-bind (disable_mcast_recv-Runs station s fd log e same h k)
        (λ end (h', k'). closed-Tuned (end.0) fd (end.1) h' k')

  pub destroy_as :
      (s : UdpSocket) (log : Log) (fd : ℕ) {b : Bool}
      → s.fd ≡ some fd
      → s.mcast_recv_enabled ≡ b
      → Ends sys fds groups off (closing net sys b s fd log)
      → Ends sys fds groups off (destroy_fd net sys s s.fd log)
  destroy_as s log fd e enabled h =
      subst (λ o. Ends sys fds groups off (destroy_fd net sys s o log)) (sym e)
        (subst (λ b. Ends sys fds groups off (closing net sys b s fd log)) (sym enabled) h)

  -- To destroy a socket is to give up its group and to close its descriptor.
  pub destroy-Tuned :
      (r : Reception) (s : UdpSocket) (log : Log)
      → Tuned fds groups r s log
      → Ends sys fds groups off (destroy net sys s log)
  unfolding destroy
  destroy-Tuned off s log (silent e h k) =
      subst (λ o. Ends sys fds groups off (destroy_fd net sys s o log)) (sym e)
        (done (silent refl h k))
  destroy-Tuned idle s log (ready fd e enabled h k) =
      destroy_as s log fd e enabled (closed-Tuned s fd log h k)
  destroy-Tuned (on station) s log (joined fd e enabled same h k) =
      destroy_as s log fd e enabled (closing-Tuned station s fd log e same h k)
