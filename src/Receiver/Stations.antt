-- ===== src/Receiver/Stations.antt =====
-- The handlers that change the stations or the current one: `handle_lookup_reply` of
-- receiver/lookup_receiver.cc, `remove_inactive` of receiver/station_remover.cc, and the moves of
-- receiver/ui_menu.cc.
pub mod Current
pub mod Known
pub mod Moves
mod Tests
use sik_telnet_radio.Prelude.{
  ℕ, zero, suc, ◌+◌, ◌-◌, Bool, true, false, not, ◌&&◌, ◌||◌, List, [], ◌∷◌, Option, none, some,
  ltb, leb, ◌==◌, if◌then◌else◌, length,
}
use sik_telnet_radio.Outcome.{Outcome, ok, crash, bounds, ◌>>=◌}
use sik_telnet_radio.Net.{Bytes, SockaddrIn, Resolver}
use sik_telnet_radio.Packet.{LookupReply}
use sik_telnet_radio.Station.{RadioStation, StationSet, same, has, insert, new_station, bytes_eq}
use sik_telnet_radio.Receiver.{Shared}
use sik_telnet_radio.Events.{push, current_station_changed, station_added, station_removed}

-- An optional name against a name.
abbrev pub is_named : Option Bytes → Bytes → Bool
is_named none name = false
is_named (some wanted) name = bytes_eq wanted name

-- `update_last_reply` on the element that is found.
unfoldable pub touch : ℕ → RadioStation → StationSet → StationSet
touch now s [] = []
touch now s (x ∷ xs) = if same s x then record x { last_reply = now } ∷ xs else x ∷ touch now s xs

unfoldable pub add_station : Option Bytes → Shared → RadioStation → Shared
add_station prio st station =
    let stations = insert station st.stations in
    let chosen = length stations == 1 || is_named prio station.name in
    record st {
      stations = stations;
      current_station = if chosen then some station else st.current_station;
      audio_receiver_event =
          if chosen
          then push st.audio_receiver_event current_station_changed
          else st.audio_receiver_event;
      ui_menu_event = push st.ui_menu_event station_added;
    }

unfoldable pub handle_lookup_reply :
    Resolver → Option Bytes → ℕ → Shared → LookupReply → SockaddrIn → Outcome Shared
handle_lookup_reply net prio now st reply src_addr = do
  station ← new_station net now src_addr reply
  ok (
      if has station st.stations
      then record st { stations = touch now station st.stations }
      else add_station prio st station)

-- 20 seconds, in milliseconds.
abbrev pub removal_threshold : ℕ
removal_threshold = 20_000

abbrev pub points_at : Option RadioStation → RadioStation → Bool
points_at none x = false
points_at (some s) x = same s x

-- The stations that stay, and the two flags of the loop. The clock is read in each round: `now i` is
-- what it shows in round `i`.
unfoldable pub remove_from :
    (ℕ → ℕ) → ℕ → Option RadioStation → StationSet → StationSet × Bool × Bool
remove_from now i current [] = ([], false, false)
remove_from now i current (x ∷ xs) =
    let (kept, removed_any, removed_current) = remove_from now (i + 1) current xs in
    if ltb (now i - x.last_reply) removal_threshold
    then (x ∷ kept, removed_any, removed_current)
    else (kept, true, points_at current x || removed_current)

-- The first station of the preferred name.
unfoldable pub find_prio : Option Bytes → StationSet → Option RadioStation
find_prio prio [] = none
find_prio prio (x ∷ xs) = if is_named prio x.name then some x else find_prio prio xs

abbrev pub begin : StationSet → Option RadioStation
begin [] = none
begin (x ∷ xs) = some x

abbrev or_begin : Option RadioStation → StationSet → Option RadioStation
or_begin none xs = begin xs
or_begin (some s) xs = some s

unfoldable pub reset_current_station : Option Bytes → Shared → Shared
reset_current_station prio st = record st {
  current_station = or_begin (find_prio prio st.stations) st.stations;
  audio_receiver_event = push st.audio_receiver_event current_station_changed;
}

unfoldable pub remove_inactive : (ℕ → ℕ) → Option Bytes → Shared → Shared
remove_inactive now prio st =
    let (kept, removed_any, removed_current) = remove_from now 0 st.current_station st.stations in
    let st' = record st { stations = kept } in
    let st'' = record st' { ui_menu_event = push st.ui_menu_event station_removed } in
    if removed_any then (if removed_current then reset_current_station prio st'' else st'') else st'

-- The station before `s`, with `last` the one before the list: `--it`.
unfoldable pub before : RadioStation → RadioStation → StationSet → Option RadioStation
before last s [] = none
before last s (x ∷ xs) = if same s x then some last else before x s xs

-- The station behind `s`: `++it`.
unfoldable pub behind : RadioStation → StationSet → Option RadioStation
behind s [] = none
behind s (x ∷ xs) = if same s x then begin xs else behind s xs

abbrev pub changed : Shared → Option RadioStation → Shared
changed st s = record st {
  current_station = s;
  audio_receiver_event = push st.audio_receiver_event current_station_changed;
}

-- `--end()`
abbrev pub last_station : RadioStation → StationSet → RadioStation
last_station x [] = x
last_station x (y ∷ ys) = last_station y ys

-- `cmd_move_up` and `cmd_move_down` up to the menus that they send. To step before the first station
-- or behind the end has no meaning in C++.
unfoldable pub move_up_at : Shared → Option RadioStation → StationSet → Outcome Shared
move_up_at st current [] = ok st
move_up_at st none (x ∷ xs) = ok (changed st (some (last_station x xs)))
move_up_at st (some s) (x ∷ xs) = if same s x then ok st else ok (changed st (before x s xs))

unfoldable pub cmd_move_up : Shared → Outcome Shared
cmd_move_up st = move_up_at st st.current_station st.stations

abbrev pub last_is : RadioStation → StationSet → Bool
last_is s [] = false
last_is s (x ∷ []) = same s x
last_is s (x ∷ y ∷ ys) = last_is s (y ∷ ys)

unfoldable pub move_down_at : Shared → Option RadioStation → StationSet → Outcome Shared
move_down_at st current [] = ok st
move_down_at st none (x ∷ xs) = crash bounds
move_down_at st (some s) (x ∷ xs) =
    if last_is s (x ∷ xs) then ok st else ok (changed st (behind s (x ∷ xs)))

unfoldable pub cmd_move_down : Shared → Outcome Shared
cmd_move_down st = move_down_at st st.current_station st.stations
