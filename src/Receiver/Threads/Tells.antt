-- ===== src/Receiver/Threads/Tells.antt =====
-- A handler that changes the current station sends word of it.
use sik_telnet_radio.Prelude.{
  ℕ, ◌≡◌, refl, sym, subst, ◌⊎◌, inl, inr, Bool, true, false, [], ◌∷◌, Option, none, some,
  if◌then◌else◌, Bool-cases, length, ◌==◌, ◌||◌,
}
use sik_telnet_radio.Outcome.{
  Outcome, ok, crash, assertion, division, bounds, fatal, hang, thrown, handled, bind-passes,
  ok_inj, ok≢crash,
}
use sik_telnet_radio.Net.{Bytes, SockaddrIn, Resolver}
use sik_telnet_radio.Station.{RadioStation, StationSet, has, same, insert, new_station}
use sik_telnet_radio.Events.{push, current_station_changed, station_removed}
use sik_telnet_radio.Events.Waits.{Waits, Waits-push}
use sik_telnet_radio.Packet.{LookupReply}
use sik_telnet_radio.Datagram.{parse_reply}
use sik_telnet_radio.Text.{c_str}
use sik_telnet_radio.Receiver.{Shared}
use sik_telnet_radio.Receiver.Stations.{
  touch, add_station, handle_lookup_reply, remove_from, reset_current_station, remove_inactive,
  is_named, changed, move_up_at, move_down_at, last_is,
}
use sik_telnet_radio.Receiver.Lookup.{hear_one}

-- A handler that leaves the current station alone, or sends word of it.
pub data Tells (st st' : Shared) : Type 0 where
  silent :
      st'.current_station ≡ st.current_station
      → st'.audio_receiver_event ≡ st.audio_receiver_event
      → Tells st st'
  told : Waits current_station_changed st'.audio_receiver_event → Tells st st'

pub add_station-Tells :
    (prio : Option Bytes) (st : Shared) (station : RadioStation)
    → Tells st (add_station prio st station)
unfolding add_station push
add_station-Tells prio st station =
    elim (Bool-cases (length (insert station st.stations) == 1 || is_named prio station.name)) [
      | inl e ↦ told (rw e (Waits-push st.audio_receiver_event))
      | inr e ↦ silent (rw e refl) (rw e refl)
    ]

-- A reply that is handled finds its station or adds it.
pub handle_lookup_reply-Tells :
    (net : Resolver) (prio : Option Bytes) (now : ℕ) (st st' : Shared) (reply : LookupReply)
    (src_addr : SockaddrIn)
    → handle_lookup_reply net prio now st reply src_addr ≡ ok st'
    → Tells st st'
unfolding handle_lookup_reply
handle_lookup_reply-Tells net prio now st st' reply src e =
    let (x, _, same) = bind-passes (new_station net now src reply) _ e in
    subst (Tells st) (ok_inj same) (found (has x st.stations) x)
  where
    found :
        (b : Bool) (x : RadioStation)
        → Tells st
            (if b then record st { stations = touch now x st.stations } else add_station prio st x)
    found true x = silent refl refl
    found false x = add_station-Tells prio st x

pub handled-ok :
    {A : Type 0} {a b : A} (m : Outcome A) → handled m (ok a) ≡ ok b → (m ≡ ok b) ⊎ (a ≡ b)
handled-ok (ok x) e = inl e
handled-ok (crash thrown) e = inr (ok_inj e)
handled-ok (crash assertion) e = absurd (ok≢crash (sym e))
handled-ok (crash division) e = absurd (ok≢crash (sym e))
handled-ok (crash bounds) e = absurd (ok≢crash (sym e))
handled-ok (crash fatal) e = absurd (ok≢crash (sym e))
handled-ok (crash hang) e = absurd (ok≢crash (sym e))

pub hear_one-Tells :
    (net : Resolver) (prio : Option Bytes) (st st' : Shared) (now : ℕ) (src_addr : SockaddrIn)
    (bytes : Bytes)
    → hear_one net prio st now src_addr bytes ≡ ok st'
    → Tells st st'
unfolding hear_one
hear_one-Tells net prio st st' now src bytes e = elim (handled-ok _ e) [
  | inl runs ↦
      let (reply, _, handles) = bind-passes (parse_reply net (c_str bytes)) _ runs in
      handle_lookup_reply-Tells net prio now st st' reply src handles
  | inr same ↦ subst (Tells st) same (silent refl refl)
]

pub remove_inactive-Tells :
    (now : ℕ → ℕ) (prio : Option Bytes) (st : Shared) → Tells st (remove_inactive now prio st)
unfolding remove_inactive reset_current_station push
remove_inactive-Tells now prio st =
    cases (remove_from now 0 st.current_station st.stations).1
      (remove_from now 0 st.current_station st.stations).2
  where
    st'' : Shared
    st'' = record st {
      stations = (remove_from now 0 st.current_station st.stations).0;
      ui_menu_event = push st.ui_menu_event station_removed;
    }

    cases :
        (any current : Bool)
        → Tells st (
            if any
            then (if current then reset_current_station prio st'' else st'')
            else record st { stations = (remove_from now 0 st.current_station st.stations).0 })
    cases true true = told (Waits-push st.audio_receiver_event)
    cases true false = silent refl refl
    cases false current = silent refl refl

pub changed-Tells : (st : Shared) (s : Option RadioStation) → Tells st (changed st s)
unfolding push
changed-Tells st s = told (Waits-push st.audio_receiver_event)

pub moved-Tells :
    (b : Bool) (st st' : Shared) (s : Option RadioStation)
    → (if b then ok st else ok (changed st s)) ≡ ok st'
    → Tells st st'
moved-Tells true st st' s e = subst (Tells st) (ok_inj e) (silent refl refl)
moved-Tells false st st' s e = subst (Tells st) (ok_inj e) (changed-Tells st s)

pub move_up_at-Tells :
    (st st' : Shared) (c : Option RadioStation) (xs : StationSet)
    → move_up_at st c xs ≡ ok st'
    → Tells st st'
unfolding move_up_at
move_up_at-Tells st st' c [] e = subst (Tells st) (ok_inj e) (silent refl refl)
move_up_at-Tells st st' none (x ∷ xs) e = subst (Tells st) (ok_inj e) (changed-Tells st _)
move_up_at-Tells st st' (some s) (x ∷ xs) e = moved-Tells (same s x) st st' _ e

pub move_down_at-Tells :
    (st st' : Shared) (c : Option RadioStation) (xs : StationSet)
    → move_down_at st c xs ≡ ok st'
    → Tells st st'
unfolding move_down_at
move_down_at-Tells st st' c [] e = subst (Tells st) (ok_inj e) (silent refl refl)
move_down_at-Tells st st' none (x ∷ xs) e = absurd (ok≢crash (sym e))
move_down_at-Tells st st' (some s) (x ∷ xs) e = moved-Tells (last_is s (x ∷ xs)) st st' _ e
