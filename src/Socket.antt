-- ===== src/Socket.antt =====
-- The system calls behind common/udp_socket.cc and common/tcp_socket.cc: what the system answers, and
-- the log of the calls that succeeded, the last one first.
pub mod Udp
pub mod Tcp
pub mod Moved
pub mod Runs
mod Tests
use sik_telnet_radio.Prelude.{
  ℕ, ◌≡◌, Bool, true, ◌&&◌, List, [], ◌∷◌, Option, none, some, arith, ◌==◌, if◌then◌else◌,
}
use sik_telnet_radio.Outcome.{Outcome, ok, crash, fatal}
use sik_telnet_radio.Net.{Bytes, SockaddrIn}

-- `ip_mreq_source`
pub record IpMreqSource : Type 0 where
  pub imr_interface : ℕ
  pub imr_multiaddr : ℕ
  pub imr_sourceaddr : ℕ

-- The options of `setsockopt` with their values. The program has no call with `ip_multicast_ttl`.
pub data SocketOption : Type 0 where
  so_broadcast so_reuseaddr so_sndtimeo so_rcvtimeo ip_multicast_ttl : ℕ → SocketOption
  ip_add_source_membership ip_drop_source_membership : IpMreqSource → SocketOption

pub data Call : Type 0 where
  opened closed : ℕ → Call
  option : ℕ → SocketOption → Call
  bound connected : ℕ → SockaddrIn → Call
  listening : ℕ → ℕ → Call
  written : ℕ → Bytes → Call

abbrev pub Log : Type 0
Log = List Call

-- What the system answers after the calls before: the descriptor of `socket` or `accept`, `none` for
-- -1, whether another call succeeds, and the bytes that a `read` gives, `none` for -1.
pub record Kernel : Type 0 where
  pub socket : Log → Option ℕ
  pub accept : Log → ℕ → Option ℕ
  pub succeeds : Log → Call → Bool
  pub read : Log → ℕ → ℕ → Option Bytes

abbrev pub forget : ℕ → List ℕ → List ℕ
forget fd [] = []
forget fd (f ∷ fds) = if f == fd then fds else f ∷ forget fd fds

-- The descriptors that were opened and not closed since.
unfoldable pub open_fds : Log → List ℕ
open_fds [] = []
open_fds (opened fd ∷ log) = fd ∷ open_fds log
open_fds (closed fd ∷ log) = forget fd (open_fds log)
open_fds (_ ∷ log) = open_fds log

unfoldable pub mreq_eq : IpMreqSource → IpMreqSource → Bool
mreq_eq a b =
    a.imr_interface == b.imr_interface
    && a.imr_multiaddr == b.imr_multiaddr
    && a.imr_sourceaddr == b.imr_sourceaddr

abbrev pub leave : ℕ → IpMreqSource → List (ℕ × IpMreqSource) → List (ℕ × IpMreqSource)
leave fd req [] = []
leave fd req ((f, r) ∷ groups) =
    if f == fd && mreq_eq r req then groups else (f, r) ∷ leave fd req groups

-- The memberships that were asked for and not given up since by a call.
unfoldable pub memberships : Log → List (ℕ × IpMreqSource)
memberships [] = []
memberships (option fd (ip_add_source_membership req) ∷ log) = (fd, req) ∷ memberships log
memberships (option fd (ip_drop_source_membership req) ∷ log) = leave fd req (memberships log)
memberships (_ ∷ log) = memberships log

-- The last time to live of multicast datagrams that was set for a descriptor.
unfoldable pub mcast_ttl : ℕ → Log → Option ℕ
mcast_ttl fd [] = none
mcast_ttl fd (option f (ip_multicast_ttl ttl) ∷ log) =
    if f == fd then some ttl else mcast_ttl fd log
mcast_ttl fd (_ ∷ log) = mcast_ttl fd log

-- A call that must succeed.
unfoldable pub must : Kernel → Call → Log → Outcome Log
must sys call log = if sys.succeeds log call then ok (call ∷ log) else crash fatal

-- The same on a descriptor that may be -1, with which no call succeeds.
abbrev pub must_on : Kernel → Option ℕ → (ℕ → Call) → Log → Outcome Log
must_on sys none call log = crash fatal
must_on sys (some fd) call log = must sys (call fd) log

pub mreq_eq_refl : (r : IpMreqSource) → mreq_eq r r ≡ true
unfolding mreq_eq
mreq_eq_refl r = ground arith

pub leave_joined :
    (fd : ℕ) (req : IpMreqSource) (groups : List (ℕ × IpMreqSource))
    → leave fd req ((fd, req) ∷ groups) ≡ groups
leave_joined fd req groups = ground (arith, mreq_eq_refl req)

pub forget_opened : (fd : ℕ) (fds : List ℕ) → forget fd (fd ∷ fds) ≡ fds
forget_opened fd fds = ground arith
