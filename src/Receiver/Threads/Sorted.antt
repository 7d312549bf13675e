-- ===== src/Receiver/Threads/Sorted.antt =====
-- The stations stay sorted, whatever the threads do with them.
use sik_telnet_radio.Prelude.{
  ℕ, ◌+◌, ◌-◌, ◌≡◌, sym, subst, Bool, true, false, [], ◌∷◌, Option, none, some, inl, inr, ltb,
  if◌then◌else◌, Bool-cases,
}
use sik_telnet_radio.Outcome.{ok, bind-passes, ok_inj, ok≢crash}
use sik_telnet_radio.Net.{Bytes, SockaddrIn, Resolver}
use sik_telnet_radio.Packet.{LookupReply}
use sik_telnet_radio.Station.{RadioStation, StationSet, cmp, same, has, new_station}
use sik_telnet_radio.Station.Sorted.{IsSorted, Before, finds, finds-has, insert-IsSorted}
use sik_telnet_radio.Datagram.{parse_reply}
use sik_telnet_radio.Text.{c_str}
use sik_telnet_radio.Receiver.{Shared}
use sik_telnet_radio.Receiver.Stations.{
  touch, add_station, handle_lookup_reply, removal_threshold, remove_from, reset_current_station,
  remove_inactive, changed, move_up_at, move_down_at, cmd_move_up, cmd_move_down, last_is,
}
use sik_telnet_radio.Receiver.Lookup.{hear_one}
use sik_telnet_radio.Receiver.Threads.{
  Threads, Step, hears, removes, moves_up, moves_down, shows, ignores, begins, changes, Steps, stay,
  next, started,
}
use sik_telnet_radio.Receiver.Threads.Tells.{handled-ok}

-- `update_last_reply` changes nothing that the order looks at.
touch-Before :
    (now : ℕ) (s x : RadioStation) (xs : StationSet) → Before x xs → Before x (touch now s xs)
unfolding touch cmp
touch-Before now s x [] h = h
touch-Before now s x (y ∷ ys) h = elim (Bool-cases (same s y)) [
  | inl e ↦ rw e (h.0, h.1)
  | inr e ↦ rw e (h.0, touch-Before now s x ys h.1)
]

Before-touched :
    (now : ℕ) (x : RadioStation) (xs : StationSet)
    → Before x xs
    → Before (record x { last_reply = now }) xs
unfolding cmp
Before-touched now x [] h = tt
Before-touched now x (y ∷ ys) h = (h.0, Before-touched now x ys h.1)

touch-IsSorted :
    (now : ℕ) (s : RadioStation) (xs : StationSet) → IsSorted xs → IsSorted (touch now s xs)
unfolding touch
touch-IsSorted now s [] h = h
touch-IsSorted now s (y ∷ ys) h = elim (Bool-cases (same s y)) [
  | inl e ↦ rw e (Before-touched now y ys h.0, h.1)
  | inr e ↦ rw e (touch-Before now s y ys h.0, touch-IsSorted now s ys h.1)
]

-- What is left of the stations is in the order in which it was.
remove_from-Before :
    (now : ℕ → ℕ) (i : ℕ) (c : Option RadioStation) (x : RadioStation) (xs : StationSet)
    → Before x xs
    → Before x (remove_from now i c xs).0
unfolding remove_from
remove_from-Before now i c x [] h = tt
remove_from-Before now i c x (y ∷ ys) h =
    elim (Bool-cases (ltb (now i - y.last_reply) removal_threshold)) [
      | inl e ↦ rw e (h.0, remove_from-Before now (i + 1) c x ys h.1)
      | inr e ↦ rw e (remove_from-Before now (i + 1) c x ys h.1)
    ]

remove_from-IsSorted :
    (now : ℕ → ℕ) (i : ℕ) (c : Option RadioStation) (xs : StationSet)
    → IsSorted xs
    → IsSorted (remove_from now i c xs).0
unfolding remove_from
remove_from-IsSorted now i c [] h = tt
remove_from-IsSorted now i c (y ∷ ys) h =
    elim (Bool-cases (ltb (now i - y.last_reply) removal_threshold)) [
      | inl e ↦
          rw e
            (remove_from-Before now (i + 1) c y ys h.0, remove_from-IsSorted now (i + 1) c ys h.1)
      | inr e ↦ rw e (remove_from-IsSorted now (i + 1) c ys h.1)
    ]

abbrev SortedIn : Shared → Type 0
SortedIn st = IsSorted st.stations

remove_inactive-SortedIn :
    (now : ℕ → ℕ) (prio : Option Bytes) (st : Shared)
    → SortedIn st
    → SortedIn (remove_inactive now prio st)
unfolding remove_inactive reset_current_station
remove_inactive-SortedIn now prio st h =
    let out = remove_from now 0 st.current_station st.stations in
    let kept = remove_from-IsSorted now 0 st.current_station st.stations h in
    elim (Bool-cases out.1) [
      | inl some_removed ↦ elim (Bool-cases out.2) [
        | inl lost ↦ rw (some_removed, lost) kept
        | inr still ↦ rw (some_removed, still) kept
      ]
      | inr none_removed ↦ rw none_removed kept
    ]

handle_lookup_reply-SortedIn :
    (net : Resolver) (prio : Option Bytes) (now : ℕ) (st st' : Shared) (reply : LookupReply)
    (src_addr : SockaddrIn)
    → handle_lookup_reply net prio now st reply src_addr ≡ ok st'
    → SortedIn st
    → SortedIn st'
unfolding handle_lookup_reply add_station
handle_lookup_reply-SortedIn net prio now st st' reply src e h =
    let (x, _, same_end) = bind-passes (new_station net now src reply) _ e in
    subst SortedIn (ok_inj same_end) (found x)
  where
    found :
        (x : RadioStation)
        → SortedIn (
            if has x st.stations
            then record st { stations = touch now x st.stations }
            else add_station prio st x)
    found x = elim (Bool-cases (has x st.stations)) [
      | inl old ↦ rw old (touch-IsSorted now x st.stations h)
      | inr new ↦
          subst
            (λ b. SortedIn (
              if b
              then record st { stations = touch now x st.stations }
              else add_station prio st x))
            (sym new) (insert-IsSorted x st.stations new h)
    ]

hear_one-SortedIn :
    (net : Resolver) (prio : Option Bytes) (st st' : Shared) (now : ℕ) (src_addr : SockaddrIn)
    (bytes : Bytes)
    → hear_one net prio st now src_addr bytes ≡ ok st'
    → SortedIn st
    → SortedIn st'
unfolding hear_one
hear_one-SortedIn net prio st st' now src bytes e h = elim (handled-ok _ e) [
  | inl runs ↦
      let (reply, _, handles) = bind-passes (parse_reply net (c_str bytes)) _ runs in
      handle_lookup_reply-SortedIn net prio now st st' reply src handles h
  | inr same ↦ subst SortedIn same h
]

-- A move leaves the stations as they are.
moved-SortedIn :
    (b : Bool) (st st' : Shared) (s : Option RadioStation)
    → (if b then ok st else ok (changed st s)) ≡ ok st'
    → SortedIn st
    → SortedIn st'
moved-SortedIn true st st' s e h = subst SortedIn (ok_inj e) h
moved-SortedIn false st st' s e h = subst SortedIn (ok_inj e) h

move_up_at-SortedIn :
    (st st' : Shared) (c : Option RadioStation) (xs : StationSet)
    → move_up_at st c xs ≡ ok st'
    → SortedIn st
    → SortedIn st'
unfolding move_up_at
move_up_at-SortedIn st st' c [] e h = subst SortedIn (ok_inj e) h
move_up_at-SortedIn st st' none (x ∷ xs) e h = subst SortedIn (ok_inj e) h
move_up_at-SortedIn st st' (some s) (x ∷ xs) e h = moved-SortedIn (same s x) st st' _ e h

move_down_at-SortedIn :
    (st st' : Shared) (c : Option RadioStation) (xs : StationSet)
    → move_down_at st c xs ≡ ok st'
    → SortedIn st
    → SortedIn st'
unfolding move_down_at
move_down_at-SortedIn st st' c [] e h = subst SortedIn (ok_inj e) h
move_down_at-SortedIn st st' none (x ∷ xs) e h = absurd (ok≢crash (sym e))
move_down_at-SortedIn st st' (some s) (x ∷ xs) e h =
    moved-SortedIn (last_is s (x ∷ xs)) st st' _ e h

module _ (net : Resolver) (prio : Option Bytes) where
  step-SortedIn : {t t' : Threads} → Step net prio t t' → SortedIn t.shared → SortedIn t'.shared
  unfolding cmd_move_up cmd_move_down
  step-SortedIn {t} (hears {st'} now src bytes e) h =
      hear_one-SortedIn net prio t.shared st' now src bytes e h
  step-SortedIn {t} (removes now) h = remove_inactive-SortedIn now prio t.shared h
  step-SortedIn {t} (moves_up {st'} e) h =
      move_up_at-SortedIn t.shared st' t.shared.current_station t.shared.stations e h
  step-SortedIn {t} (moves_down {st'} e) h =
      move_down_at-SortedIn t.shared st' t.shared.current_station t.shared.stations e h
  step-SortedIn (shows e) h = h
  step-SortedIn (ignores e other free) h = h
  step-SortedIn (begins e free) h = h
  step-SortedIn (changes busy) h = h

  -- However the handlers of the receiver's threads follow each other from the start on, the stations are
  -- in strictly ascending order, so that none is there twice, and the search of a set in this order finds
  -- a station exactly if one of them is the same.
  pub steps-IsSorted :
      {t : Threads}
      → Steps net prio started t
      → IsSorted t.shared.stations
        × ((s : RadioStation) → finds s t.shared.stations ≡ has s t.shared.stations)
  steps-IsSorted {t} steps = (sorted steps, λ s. finds-has s t.shared.stations (sorted steps))
    where
      sorted : {u : Threads} → Steps net prio started u → IsSorted u.shared.stations
      sorted stay = tt
      sorted (next steps step) = step-SortedIn step (sorted steps)
