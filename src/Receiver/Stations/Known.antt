-- ===== src/Receiver/Stations/Known.antt =====
-- What the set of stations has after `handle_lookup_reply` of receiver/lookup_receiver.cc, as an element and not
-- only up to the comparison of the set.
use sik_telnet_radio.Prelude.{
  ℕ, ◌≡◌, refl, sym, ◌∙◌, subst, ◌⊎◌, inl, inr, true, false, [], ◌∷◌, ◌||◌, Option, Bool-cases,
}
use mathlib.Core.Bool.{false≢true}
use sik_telnet_radio.Outcome.{ok, ok_inj}
use sik_telnet_radio.Net.{Bytes, SockaddrIn, Resolver}
use sik_telnet_radio.Packet.{LookupReply}
use sik_telnet_radio.Station.{RadioStation, StationSet, same, cmp, has, insert, new_station}
use sik_telnet_radio.Receiver.{Shared}
use sik_telnet_radio.Receiver.Stations.{touch, add_station, handle_lookup_reply}
use sik_telnet_radio.Receiver.Stations.Current.{lookup_run}

-- The station with all its fields is an element of the set.
abbrev pub In : RadioStation → StationSet → Type 0
In s [] = ⊥
In s (x ∷ xs) = (x ≡ s) ⊎ In s xs

-- A station that was not in the set is, or one that the set takes for it stays as it was, with a new time.
abbrev pub Known : ℕ → RadioStation → StationSet → StationSet → Type 0
Known now x before behind =
    ((has x before ≡ false) × In x behind)
    ⊎ ((y : RadioStation) × In y before
        × (same x y ≡ true)
        × In (record y { last_reply = now }) behind)

insert-In : (s : RadioStation) (xs : StationSet) → In s (insert s xs)
unfolding insert
insert-In s [] = inl refl
insert-In s (x ∷ xs) = elim (Bool-cases (cmp s x)) [
  | inl e ↦ rw e (inl refl)
  | inr e ↦ rw e (inr (insert-In s xs))
]

touch-In :
    (now : ℕ) (s : RadioStation) (xs : StationSet)
    → has s xs ≡ true
    → (y : RadioStation) × In y xs
      × (same s y ≡ true)
      × In (record y { last_reply = now }) (touch now s xs)
unfolding touch has
touch-In now s [] h = absurd (false≢true h)
touch-In now s (x ∷ xs) h = elim (Bool-cases (same s x)) [
  | inl e ↦ (x, inl refl, e, rw e (inl refl))
  | inr e ↦
      let (y, there, found, touched) =
        touch-In now s xs (subst (λ b. (b || has s xs) ≡ true) e h) in
      (y, inr there, found, behind _ e touched)
]
  where
    behind :
        (y : RadioStation) → same s x ≡ false → In y (touch now s xs) → In y (touch now s (x ∷ xs))
    behind y e there = rw e (inr there)

pub handle_lookup_reply-Known :
    (net : Resolver) (prio : Option Bytes) (now : ℕ) (st st' : Shared) (reply : LookupReply)
    (src_addr : SockaddrIn) {x : RadioStation}
    → new_station net now src_addr reply ≡ ok x
    → handle_lookup_reply net prio now st reply src_addr ≡ ok st'
    → Known now x st.stations st'.stations
unfolding add_station
handle_lookup_reply-Known net prio now st st' reply src_addr {x} made runs =
    subst (λ st'. Known now x st.stations st'.stations)
      (ok_inj (sym (lookup_run net prio now st reply src_addr made) ∙ runs))
      (elim (Bool-cases (has x st.stations)) [
        | inl e ↦ rw e (inr (touch-In now x st.stations e))
        | inr e ↦ rw e (inl (refl, insert-In x st.stations))
      ])
