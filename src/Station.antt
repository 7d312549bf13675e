-- ===== src/Station.antt =====
-- `RadioStation` of common/radio_station.cc, its order, and `StationSet`, a `std::set` in that order.
pub mod Order
pub mod Sorted
use sik_telnet_radio.Prelude.{
  ℕ, ◌≡◌, refl, Bool, true, false, not, ◌&&◌, ◌||◌, List, [], ◌∷◌, arith, ltb, leb, ◌==◌,
  if◌then◌else◌, length,
}
use sik_telnet_radio.Outcome.{Outcome, ok, thrown, ◌>>=◌, ◌>>◌, guard}
use sik_telnet_radio.Packet.{LookupReply}
use sik_telnet_radio.Net.{Bytes, SockaddrIn, addr_lt, addr_eq, Resolver, get_addr, addr_lt_irrefl}

-- `last_reply` is a time in milliseconds.
pub record RadioStation : Type 0 where
  pub data_addr : SockaddrIn
  pub ctrl_addr : SockaddrIn
  pub mcast_addr : SockaddrIn
  pub name : Bytes
  pub last_reply : ℕ

-- `operator==` and `operator<` of std::string.
unfoldable pub bytes_eq : Bytes → Bytes → Bool
bytes_eq [] [] = true
bytes_eq (x ∷ xs) (y ∷ ys) = x == y && bytes_eq xs ys
bytes_eq _ _ = false

unfoldable pub bytes_lt : Bytes → Bytes → Bool
bytes_lt [] [] = false
bytes_lt [] (y ∷ ys) = true
bytes_lt (x ∷ xs) [] = false
bytes_lt (x ∷ xs) (y ∷ ys) = ltb x y || not (ltb y x) && bytes_lt xs ys

abbrev pub last_of : ℕ → Bytes → ℕ
last_of d [] = d
last_of d (x ∷ xs) = last_of x xs

unfoldable pub all_printable : Bytes → Bool
all_printable [] = true
all_printable (c ∷ cs) = leb 32 c && leb c 127 && all_printable cs

abbrev pub station_name_max_len : ℕ
station_name_max_len = 64

unfoldable pub is_valid_name : Bytes → Bool
is_valid_name [] = false
is_valid_name (c ∷ cs) =
    not (c == b' ' || last_of c cs == b' ' || ltb station_name_max_len (length (c ∷ cs)))
    && all_printable (c ∷ cs)

-- `RadioStation(sender_addr, payload)` at time `now`.
unfoldable pub new_station : Resolver → ℕ → SockaddrIn → LookupReply → Outcome RadioStation
new_station net now sender_addr payload = do
  guard (is_valid_name payload.name) thrown
  mcast_addr ← get_addr net payload.mcast_addr payload.data_port
  ok (record {
    data_addr = record sender_addr { sin_port = net.htons payload.data_port };
    ctrl_addr = sender_addr;
    mcast_addr = mcast_addr;
    name = payload.name;
    last_reply = now;
  })

-- `operator==`
unfoldable pub station_eq : RadioStation → RadioStation → Bool
station_eq a b =
    bytes_eq a.name b.name && addr_eq a.mcast_addr b.mcast_addr && addr_eq a.data_addr b.data_addr

-- `RadioStation::cmp`
unfoldable pub cmp : RadioStation → RadioStation → Bool
cmp a b =
    bytes_lt a.name b.name
    || not (bytes_lt b.name a.name)
      && (addr_lt a.mcast_addr b.mcast_addr
          || not (addr_lt b.mcast_addr a.mcast_addr) && addr_lt a.data_addr b.data_addr)

abbrev pub StationSet : Type 0
StationSet = List RadioStation

-- A set finds an element by neither being less than the other. An iterator into the set is modelled by
-- the element that it points to, and two are equal if their elements are found as one.
unfoldable pub same : RadioStation → RadioStation → Bool
same a b = not (cmp a b) && not (cmp b a)

-- `find(s) != end()`
unfoldable pub has : RadioStation → StationSet → Bool
has s [] = false
has s (x ∷ xs) = same s x || has s xs

-- `insert`, of a station that the set does not have.
unfoldable pub insert : RadioStation → StationSet → StationSet
insert s [] = s ∷ []
insert s (x ∷ xs) = if cmp s x then s ∷ x ∷ xs else x ∷ insert s xs

pub bytes_eq_refl : (cs : Bytes) → bytes_eq cs cs ≡ true
unfolding bytes_eq
bytes_eq_refl [] = refl
bytes_eq_refl (c ∷ cs) = ground (arith, bytes_eq_refl cs)

bytes_lt_irrefl : (xs : Bytes) → bytes_lt xs xs ≡ false
unfolding bytes_lt
bytes_lt_irrefl [] = refl
bytes_lt_irrefl (x ∷ xs) = ground (arith, bytes_lt_irrefl xs)

cmp_irrefl : (s : RadioStation) → cmp s s ≡ false
unfolding cmp
cmp_irrefl s =
    ground (arith, bytes_lt_irrefl s.name, addr_lt_irrefl s.mcast_addr, addr_lt_irrefl s.data_addr)

pub same_refl : (s : RadioStation) → same s s ≡ true
unfolding same
same_refl s = ground (arith, cmp_irrefl s)

pub has-insert_self : (s : RadioStation) (xs : StationSet) → has s (insert s xs) ≡ true
unfolding has insert
has-insert_self s [] = ground (arith, same_refl s)
has-insert_self s (x ∷ xs) = ground (arith, same_refl s, has-insert_self s xs)

pub has-insert :
    (s x : RadioStation) (xs : StationSet) → has s xs ≡ true → has s (insert x xs) ≡ true
unfolding has insert
has-insert s x [] h = cc
has-insert s x (y ∷ ys) h = ground (arith, has-insert s x ys)
