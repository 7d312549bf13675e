-- ===== src/Receiver/Stations/Current.antt =====
-- The current station is one of the stations, as long as there are any.
use mathlib.Core.Bool.{false≢true}
use mathlib.Core.List.{nil≢cons}
use sik_telnet_radio.Prelude.{
  sym, length, ◌==◌, ℕ, ◌+◌, ◌≡◌, refl, ap, ◌∙◌, Bool, true, false, ◌||◌, [], ◌∷◌, Option, none,
  some, arith, if◌then◌else◌, Bool-cases, inl, inr,
}
use sik_telnet_radio.Outcome.{ok}
use sik_telnet_radio.Net.{Bytes, SockaddrIn, Resolver}
use sik_telnet_radio.Packet.{LookupReply}
use sik_telnet_radio.Station.{
  RadioStation, StationSet, same, cmp, has, insert, new_station, same_refl, has-insert_self,
  has-insert,
}
use sik_telnet_radio.Receiver.{Shared}
use sik_telnet_radio.Receiver.Stations.{
  touch, add_station, handle_lookup_reply, remove_from, find_prio, begin, or_begin,
  reset_current_station, remove_inactive, is_named,
}

abbrev pub IsCurrent : Option RadioStation → StationSet → Type 0
IsCurrent none xs = xs ≡ []
IsCurrent (some s) xs = has s xs ≡ true

abbrev pub CurrentIn : Shared → Type 0
CurrentIn st = IsCurrent st.current_station st.stations

same-touched : (s x : RadioStation) (now : ℕ) → same s (record x { last_reply = now }) ≡ same s x
unfolding same cmp
same-touched s x now = refl

has-touch : (s x : RadioStation) (now : ℕ) (xs : StationSet) → has s (touch now x xs) ≡ has s xs
unfolding has touch
has-touch s x now [] = refl
has-touch s x now (y ∷ ys) = elim (Bool-cases (same x y)) [
  | inl e ↦ rw e (ap (λ b. b || has s ys) (same-touched s y now))
  | inr e ↦ rw e (ap (λ b. same s y || b) (has-touch s x now ys))
]

touch-nil : (x : RadioStation) (now : ℕ) → touch now x [] ≡ []
unfolding touch
touch-nil x now = refl

touch-IsCurrent :
    (c : Option RadioStation) (x : RadioStation) (now : ℕ) (xs : StationSet)
    → IsCurrent c xs
    → IsCurrent c (touch now x xs)
touch-IsCurrent none x now xs h = ap (touch now x) h ∙ touch-nil x now
touch-IsCurrent (some s) x now xs h = has-touch s x now xs ∙ h

first_chosen :
    (prio : Option Bytes) (x : RadioStation) (xs : StationSet)
    → xs ≡ []
    → (length (insert x xs) == 1 || is_named prio x.name) ≡ true
unfolding insert
first_chosen prio x [] e = refl
first_chosen prio x (y ∷ ys) e = absurd (nil≢cons (sym e))

chosen-IsCurrent :
    (b : Bool) (c : Option RadioStation) (x : RadioStation) (xs : StationSet)
    → IsCurrent c xs
    → (xs ≡ [] → b ≡ true)
    → IsCurrent (if b then some x else c) (insert x xs)
chosen-IsCurrent true c x xs h first = has-insert_self x xs
chosen-IsCurrent false none x xs h first = absurd (false≢true (first h))
chosen-IsCurrent false (some s) x xs h first = has-insert s x xs h

add_station-CurrentIn :
    (prio : Option Bytes) (st : Shared) (station : RadioStation)
    → CurrentIn st
    → CurrentIn (add_station prio st station)
unfolding add_station
add_station-CurrentIn prio st x h =
    chosen-IsCurrent _ st.current_station x st.stations h (first_chosen prio x st.stations)

-- The state after a reply is the one in which the station is found or added.
pub lookup_run :
    (net : Resolver) (prio : Option Bytes) (now : ℕ) (st : Shared) (reply : LookupReply)
    (src_addr : SockaddrIn) {x : RadioStation}
    → new_station net now src_addr reply ≡ ok x
    → handle_lookup_reply net prio now st reply src_addr
      ≡ ok (
          if has x st.stations
          then record st { stations = touch now x st.stations }
          else add_station prio st x)
unfolding handle_lookup_reply
lookup_run net prio now st reply src_addr e = rw e

-- A reply from which a station can be made is handled without a fault. After it the station is in the
-- set, and the current station is one of the set, if it was before.
pub handle_lookup_reply-CurrentIn :
    (net : Resolver) (prio : Option Bytes) (now : ℕ) (st : Shared) (reply : LookupReply)
    (src_addr : SockaddrIn) {x : RadioStation}
    → new_station net now src_addr reply ≡ ok x
    → CurrentIn st
    → (st' : Shared) × (handle_lookup_reply net prio now st reply src_addr ≡ ok st')
      × CurrentIn st'
      × (has x st'.stations ≡ true)
handle_lookup_reply-CurrentIn net prio now st reply src_addr {x} made h =
    elim (Bool-cases (has x st.stations)) [
      | inl known ↦ (
        record st { stations = touch now x st.stations },
        lookup_run net prio now st reply src_addr made ∙ rw known,
        touch-IsCurrent st.current_station x now st.stations h,
        has-touch x x now st.stations ∙ known,
      )
      | inr fresh ↦ (
        add_station prio st x,
        lookup_run net prio now st reply src_addr made ∙ rw fresh,
        add_station-CurrentIn prio st x h,
        unfold add_station in has-insert_self x st.stations,
      )
    ]

-- What the loop keeps has the current station, unless the loop says that it was removed.
kept-IsCurrent :
    (now : ℕ → ℕ) (i : ℕ) (s : RadioStation) (xs : StationSet)
    → has s xs ≡ true
    → (remove_from now i (some s) xs).2 ≡ false
    → has s (remove_from now i (some s) xs).0 ≡ true
unfolding remove_from has
kept-IsCurrent now i s [] h e = h
kept-IsCurrent now i s (x ∷ xs) h e = ground (arith, kept-IsCurrent now (i + 1) s xs)

-- The loop removes something, or keeps everything.
kept_all :
    (now : ℕ → ℕ) (i : ℕ) (c : Option RadioStation) (xs : StationSet)
    → (remove_from now i c xs).1 ≡ false
    → (remove_from now i c xs).0 ≡ xs
unfolding remove_from
kept_all now i c [] e = refl
kept_all now i c (x ∷ xs) e = ground (arith, kept_all now (i + 1) c xs)

find_prio-has :
    (prio : Option Bytes) (xs : StationSet) {s : RadioStation}
    → find_prio prio xs ≡ some s
    → has s xs ≡ true
unfolding find_prio has
find_prio-has prio [] e = cc
find_prio-has prio (x ∷ xs) {s} e = ground (arith, same_refl x, find_prio-has prio xs {s = s})

-- The first station stands in the set, if there is one.
begin-IsCurrent : (xs : StationSet) → IsCurrent (begin xs) xs
unfolding has
begin-IsCurrent [] = refl
begin-IsCurrent (x ∷ xs) = ap (λ b. b || has x xs) (same_refl x)

or_begin-IsCurrent :
    (found : Option RadioStation) (xs : StationSet)
    → ((s : RadioStation) → found ≡ some s → has s xs ≡ true)
    → IsCurrent (or_begin found xs) xs
or_begin-IsCurrent none xs h = begin-IsCurrent xs
or_begin-IsCurrent (some s) xs h = h s refl

reset_current_station-CurrentIn :
    (prio : Option Bytes) (st : Shared) → CurrentIn (reset_current_station prio st)
unfolding reset_current_station
reset_current_station-CurrentIn prio st =
    or_begin-IsCurrent (find_prio prio st.stations) st.stations
      (λ s e. find_prio-has prio st.stations e)

remove_from-nil :
    (now : ℕ → ℕ) (c : Option RadioStation) (xs : StationSet)
    → xs ≡ []
    → (remove_from now 0 c xs).0 ≡ []
unfolding remove_from
remove_from-nil now c [] e = refl
remove_from-nil now c (x ∷ xs) e = absurd (nil≢cons (sym e))

kept_still-IsCurrent :
    (now : ℕ → ℕ) (c : Option RadioStation) (xs : StationSet)
    → IsCurrent c xs
    → (remove_from now 0 c xs).2 ≡ false
    → IsCurrent c (remove_from now 0 c xs).0
kept_still-IsCurrent now none xs h e = remove_from-nil now none xs h
kept_still-IsCurrent now (some s) xs h e = kept-IsCurrent now 0 s xs h e

-- After the inactive stations were removed, the current station is one of those that are left, and
-- there is none only if none is left.
pub remove_inactive-CurrentIn :
    (now : ℕ → ℕ) (prio : Option Bytes) (st : Shared)
    → CurrentIn st
    → CurrentIn (remove_inactive now prio st)
unfolding remove_inactive
remove_inactive-CurrentIn now prio st h =
    let out = remove_from now 0 st.current_station st.stations in
    elim (Bool-cases out.1) [
      | inl some_removed ↦ elim (Bool-cases out.2) [
        | inl lost ↦ rw (some_removed, lost) (reset_current_station-CurrentIn prio _)
        | inr kept ↦
            rw (some_removed, kept) (kept_still-IsCurrent now st.current_station st.stations h kept)
      ]
      | inr none_removed ↦
          rw (none_removed, kept_all now 0 st.current_station st.stations none_removed) h
    ]
