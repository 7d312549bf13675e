-- ===== src/Net.antt =====
-- `sockaddr_in` and its comparisons of common/net.cc, and what the code asks of the system's resolver.
use sik_telnet_radio.Prelude.{
  ℕ, ◌≡◌, Bool, false, not, ◌&&◌, ◌||◌, List, Option, none, some, arith, ltb, ◌==◌, if◌then◌else◌,
  ◌^◌, ◌/◌,
}
use sik_telnet_radio.Outcome.{Outcome, ok, crash, fatal, After, done, stopped, Anything}

-- A string as its bytes.
abbrev pub Bytes : Type 0
Bytes = List ℕ

pub record SockaddrIn : Type 0 where
  pub sin_family : ℕ
  pub s_addr : ℕ
  pub sin_port : ℕ

-- `operator==`
unfoldable pub addr_eq : SockaddrIn → SockaddrIn → Bool
addr_eq a b = a.s_addr == b.s_addr && a.sin_port == b.sin_port && a.sin_family == b.sin_family

-- `operator<`: a tuple is compared by its first component that differs.
unfoldable pub addr_lt : SockaddrIn → SockaddrIn → Bool
addr_lt a b = ltb a.s_addr b.s_addr || not (ltb b.s_addr a.s_addr) && ltb a.sin_port b.sin_port

abbrev pub af_inet : ℕ
af_inet = 2

-- The system calls behind the two functions below: `getaddrinfo` and `inet_pton` give an address in
-- network byte order, `htons` and `ntohl` change the byte order.
pub record Resolver : Type 0 where
  pub getaddrinfo : Bytes → Option ℕ
  pub inet_pton : Bytes → Option ℕ
  pub htons : ℕ → ℕ
  pub ntohl : ℕ → ℕ

module _ (net : Resolver) where
  address : Option ℕ → ℕ → Outcome SockaddrIn
  address none port = crash fatal
  address (some a) port =
      ok (record { sin_family = af_inet; s_addr = a; sin_port = net.htons port })

  unfoldable pub get_addr : Bytes → ℕ → Outcome SockaddrIn
  unfolding address
  get_addr host port = address (net.getaddrinfo host) port

  -- `IN_MULTICAST`: the four highest bits of the address are 1110.
  abbrev pub in_multicast : ℕ → Bool
  in_multicast a = a / 2 ^ 28 == 14

  multicast : Option ℕ → ℕ → Option SockaddrIn
  multicast none port = none
  multicast (some a) port =
      if in_multicast (net.ntohl a)
      then some (record { sin_family = af_inet; s_addr = a; sin_port = net.htons port })
      else none

  unfoldable pub get_mcast_addr : Bytes → ℕ → Option SockaddrIn
  unfolding multicast
  get_mcast_addr host port = multicast (net.inet_pton host) port

pub addr_lt_irrefl : (a : SockaddrIn) → addr_lt a a ≡ false
unfolding addr_lt
addr_lt_irrefl a = ground arith

address-After : (net : Resolver) (a : Option ℕ) (port : ℕ) → After Anything (address net a port)
unfolding address
address-After net none port = stopped
address-After net (some a) port = done tt

pub get_addr-After :
    (net : Resolver) (host : Bytes) (port : ℕ) → After Anything (get_addr net host port)
unfolding get_addr
get_addr-After net host port = address-After net (net.getaddrinfo host) port
