-- ===== src/Receiver/Threads.antt =====
-- The threads of the receiver that share the stations, and the one that follows the current station:
-- their handlers, as they can follow each other.
pub mod Sorted
pub mod Tells
pub mod Tuning
mod Tests
use sik_telnet_radio.Prelude.{ℕ, ◌≡◌, ◌≢◌, Bool, true, false, List, [], ◌∷◌, Option, none, some}
use sik_telnet_radio.Outcome.{ok}
use sik_telnet_radio.Net.{Bytes, SockaddrIn, Resolver}
use sik_telnet_radio.Station.{RadioStation}
use sik_telnet_radio.Events.{EventType, EventQueue, pop, current_station_changed}
use sik_telnet_radio.Receiver.{Shared}
use sik_telnet_radio.Receiver.Stations.{remove_inactive, cmd_move_up, cmd_move_down}
use sik_telnet_radio.Receiver.Lookup.{hear_one}

-- `tuned` is the current station as the audio receiver saw it when it last changed the station; `changing` says
-- that it has popped the event for a change, and has not made the change.
pub record Threads : Type 0 where
  pub shared : Shared
  pub tuned : Option RadioStation
  pub changing : Bool

abbrev pub with_shared : Threads → Shared → Threads
with_shared t st = record t { shared = st }

abbrev pub with_audio_events : Shared → EventQueue → Shared
with_audio_events st queue = record st { audio_receiver_event = queue }

module _ (net : Resolver) (prio : Option Bytes) where
  -- A handler that runs with its locks held is one step: a datagram that the lookup receiver hears, a
  -- round of the station remover, an arrow key, and a change of station. So is the pop of an event by the
  -- menu or the audio receiver, which takes no lock.
  pub data Step : Threads → Threads → Type 0 where
    hears :
        {t : Threads} {st' : Shared} (now : ℕ) (src_addr : SockaddrIn) (bytes : Bytes)
        → hear_one net prio t.shared now src_addr bytes ≡ ok st'
        → Step t (with_shared t st')
    removes :
        {t : Threads} (now : ℕ → ℕ) → Step t (with_shared t (remove_inactive now prio t.shared))
    moves_up :
        {t : Threads} {st' : Shared} → cmd_move_up t.shared ≡ ok st' → Step t (with_shared t st')
    moves_down :
        {t : Threads} {st' : Shared} → cmd_move_down t.shared ≡ ok st' → Step t (with_shared t st')
    shows :
        {t : Threads} {event : EventType} {queue : EventQueue}
        → pop t.shared.ui_menu_event ≡ some (event, queue)
        → Step t (with_shared t (record t.shared { ui_menu_event = queue }))
    ignores :
        {t : Threads} {event : EventType} {queue : EventQueue}
        → pop t.shared.audio_receiver_event ≡ some (event, queue)
        → event ≢ current_station_changed
        → t.changing ≡ false
        → Step t (with_shared t (with_audio_events t.shared queue))
    begins :
        {t : Threads} {queue : EventQueue}
        → pop t.shared.audio_receiver_event ≡ some (current_station_changed, queue)
        → t.changing ≡ false
        → Step t
            (record { shared = with_audio_events t.shared queue; tuned = t.tuned; changing = true })
    changes :
        {t : Threads}
        → t.changing ≡ true
        → Step t (record { shared = t.shared; tuned = t.shared.current_station; changing = false })

  pub data Steps : Threads → Threads → Type 0 where
    stay : {t : Threads} → Steps t t
    next : {t t' t'' : Threads} → Steps t t' → Step t' t'' → Steps t t''

-- The receiver as it starts.
abbrev pub started : Threads
started = record {
  shared = record {
    stations = [];
    current_station = none;
    audio_receiver_event = [];
    ui_menu_event = [];
  };
  tuned = none;
  changing = false;
}
