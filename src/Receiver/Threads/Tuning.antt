-- ===== src/Receiver/Threads/Tuning.antt =====
-- The audio receiver follows the current station.
use sik_telnet_radio.Prelude.{true, ◌≡◌, ◌≢◌, refl, sym, ◌∙◌, subst, ◌⊎◌, inl, inr, ◌∷◌, Option}
use sik_telnet_radio.Outcome.{Outcome, ok, After, done, ok_inj}
use sik_telnet_radio.Net.{Bytes, Resolver}
use sik_telnet_radio.Station.{same}
use sik_telnet_radio.Events.{EventType, EventQueue, current_station_changed}
use sik_telnet_radio.Events.Waits.{Waits, here, later, pop-cons}
use sik_telnet_radio.Receiver.{Shared}
use sik_telnet_radio.Receiver.Stations.{cmd_move_up, cmd_move_down}
use sik_telnet_radio.Receiver.Stations.Current.{CurrentIn, remove_inactive-CurrentIn}
use sik_telnet_radio.Receiver.Stations.Moves.{cmd_move_up-CurrentIn, cmd_move_down-CurrentIn}
use sik_telnet_radio.Receiver.Lookup.Current.{hear_one-After}
use sik_telnet_radio.Receiver.Threads.{
  Threads, with_shared, Step, hears, removes, moves_up, moves_down, shows, ignores, begins, changes,
  Steps, stay, next, started,
}
use sik_telnet_radio.Receiver.Threads.Tells.{
  hear_one-Tells, remove_inactive-Tells, move_up_at-Tells, move_down_at-Tells, Tells, silent, told,
}

pub record IsTuned (t : Threads) : Type 0 where
  pub current : CurrentIn t.shared
  pub follows :
      (t.tuned ≡ t.shared.current_station)
      ⊎ (Waits current_station_changed t.shared.audio_receiver_event ⊎ (t.changing ≡ true))

-- What a handler makes of a receiver that is tuned.
tells-IsTuned :
    {t : Threads} {st' : Shared}
    → CurrentIn st'
    → Tells t.shared st'
    → IsTuned t
    → IsTuned (with_shared t st')
tells-IsTuned {t} {st'} current (told w) h = record { current = current; follows = inr (inl w) }
tells-IsTuned {t} {st'} current (silent same_current same_queue) h = record {
  current = current;
  follows = elim h.follows [
    | inl e ↦ inl (e ∙ sym same_current)
    | inr t ↦ inr (elim t [
      | inl w ↦ inl (subst (Waits current_station_changed) (sym same_queue) w)
      | inr busy ↦ inr busy
    ])
  ];
}

After-ok : {A : Type 0} {P : A → Type 0} {a : A} → After P (ok a) → P a
After-ok (done h) = h

-- The result of a handler that has one is that of its run.
result :
    {m : Outcome Shared} {st' : Shared}
    → (st : Shared) × (m ≡ ok st) × CurrentIn st
    → m ≡ ok st'
    → CurrentIn st'
result (st, runs, h) e = subst CurrentIn (ok_inj (sym runs ∙ e)) h

Waits-behind :
    {event : EventType} {queue : EventQueue}
    → event ≢ current_station_changed
    → Waits current_station_changed (event ∷ queue)
    → Waits current_station_changed queue
Waits-behind other here = absurd (other refl)
Waits-behind other (later w) = w

module _ (net : Resolver) (prio : Option Bytes) where
  step-IsTuned : {t t' : Threads} → Step net prio t t' → IsTuned t → IsTuned t'
  unfolding cmd_move_up cmd_move_down
  step-IsTuned {t} (hears {st'} now src bytes e) h =
      tells-IsTuned
        (After-ok
          (subst (After CurrentIn) e (hear_one-After net prio t.shared now src bytes h.current)))
        (hear_one-Tells net prio t.shared st' now src bytes e) h
  step-IsTuned {t} (removes now) h =
      tells-IsTuned (remove_inactive-CurrentIn now prio t.shared h.current)
        (remove_inactive-Tells now prio t.shared) h
  step-IsTuned {t} (moves_up {st'} e) h =
      tells-IsTuned (result (cmd_move_up-CurrentIn t.shared h.current) e)
        (move_up_at-Tells t.shared st' t.shared.current_station t.shared.stations e) h
  step-IsTuned {t} (moves_down {st'} e) h =
      tells-IsTuned (result (cmd_move_down-CurrentIn t.shared h.current) e)
        (move_down_at-Tells t.shared st' t.shared.current_station t.shared.stations e) h
  step-IsTuned {t} (shows e) h = record { current = h.current; follows = h.follows }
  step-IsTuned {t} (ignores {event} {queue} e other free) h = record {
    current = h.current;
    follows = elim h.follows [
      | inl same ↦ inl same
      | inr t' ↦ inr (elim t' [
        | inl w ↦ inl (
            Waits-behind other
              (subst (Waits current_station_changed) (pop-cons t.shared.audio_receiver_event e) w))
        | inr busy ↦ inr busy
      ])
    ];
  }
  step-IsTuned {t} (begins e free) h = record { current = h.current; follows = inr (inr refl) }
  step-IsTuned {t} (changes busy) h = record { current = h.current; follows = inl refl }

  steps-IsTuned : {t t' : Threads} → Steps net prio t t' → IsTuned t → IsTuned t'
  steps-IsTuned stay h = h
  steps-IsTuned (next steps step) h = step-IsTuned step (steps-IsTuned steps h)

  -- However the handlers of the receiver's threads follow each other from the start on, the current
  -- station is one of the stations, and it is the station that the audio receiver last changed to, or an
  -- event that tells of a change waits in the audio receiver's queue, or the audio receiver has popped one and
  -- is about to change.
  pub steps-tuned :
      {t : Threads}
      → Steps net prio started t
      → CurrentIn t.shared
        × ((t.tuned ≡ t.shared.current_station)
            ⊎ (Waits current_station_changed t.shared.audio_receiver_event ⊎ (t.changing ≡ true)))
  steps-tuned steps =
      let h = steps-IsTuned steps (record { current = refl; follows = inl refl }) in
      (h.current, h.follows)
