-- ===== src/Receiver/Threads/Tests.antt =====
-- A station that is heard and tuned to.
use sik_telnet_radio.Prelude.{◌≡◌, refl, true, false, ◌⊎◌, [], ◌∷◌, none, some}
use sik_telnet_radio.Outcome.{ok}
use sik_telnet_radio.Net.{get_addr, get_mcast_addr, addr_lt}
use sik_telnet_radio.Station.{
  RadioStation, has, insert, new_station, is_valid_name, all_printable, bytes_eq, bytes_lt, cmp,
  same,
}
use sik_telnet_radio.Text.{c_str, trimmed, field, stoul, stoull, digits}
use sik_telnet_radio.Datagram.{parse_reply, print_reply, behind_prefix, next_field}
use sik_telnet_radio.Events.{push, pop, current_station_changed, station_added}
use sik_telnet_radio.Events.Waits.{Waits}
use sik_telnet_radio.Receiver.{Shared}
use sik_telnet_radio.Receiver.Stations.{
  handle_lookup_reply, add_station, remove_inactive, remove_from, cmd_move_up, move_up_at,
}
use sik_telnet_radio.Receiver.Stations.Current.{CurrentIn}
use sik_telnet_radio.Receiver.Lookup.{hear_one}
use sik_telnet_radio.Receiver.Lookup.Tests.{system, sender, introduction}
use sik_telnet_radio.Receiver.Threads.{
  Threads, hears, removes, moves_up, begins, changes, Steps, stay, next, started,
}
use sik_telnet_radio.Receiver.Threads.Tuning.{steps-tuned}
use sik_telnet_radio.Receiver.Threads.Sorted.{steps-IsSorted}
use sik_telnet_radio.Station.Sorted.{IsSorted, finds}

abbrev station : RadioStation
station = record {
  data_addr = record sender { sin_port = 40 };
  ctrl_addr = sender;
  mcast_addr = record { sin_family = 2; s_addr = 3_758_096_384; sin_port = 40 };
  name = b'X' ∷ [];
  last_reply = 5;
}

abbrev found : Shared
found = record {
  stations = station ∷ [];
  current_station = some station;
  audio_receiver_event = current_station_changed ∷ [];
  ui_menu_event = station_added ∷ [];
}

abbrev tuned : Threads
tuned = record {
  shared = record found { audio_receiver_event = [] };
  tuned = some station;
  changing = false;
}

heard : hear_one system none started.shared 5 sender (print_reply introduction) ≡ ok found
unfolding hear_one handle_lookup_reply add_station insert push has new_station is_valid_name
    all_printable get_addr get_mcast_addr parse_reply print_reply behind_prefix next_field field
    trimmed c_str stoul stoull digits bytes_eq
heard = refl

still : remove_inactive (λ i. 6) none tuned.shared ≡ tuned.shared
unfolding remove_inactive remove_from
still = refl

at_top : cmd_move_up tuned.shared ≡ ok tuned.shared
unfolding cmd_move_up move_up_at same cmp bytes_lt addr_lt
at_top = refl

all_steps : Steps system none started tuned
unfolding remove_inactive remove_from pop
all_steps =
    next
      (next
        (next
          (next (next stay (hears {t = started} 5 sender (print_reply introduction) heard))
            (begins refl refl))
          (removes (λ i. 6)))
        (moves_up at_top))
      (changes refl)

steps-tuned_example :
    CurrentIn tuned.shared
    × ((tuned.tuned ≡ tuned.shared.current_station)
        ⊎ (Waits current_station_changed tuned.shared.audio_receiver_event
            ⊎ (tuned.changing ≡ true)))
steps-tuned_example = steps-tuned system none all_steps

-- A second station with a smaller name comes first.
abbrev neighbour : RadioStation
neighbour = record station { name = b'A' ∷ []; last_reply = 7 }

abbrev both : Shared
both = record found {
  stations = neighbour ∷ station ∷ [];
  audio_receiver_event = [];
  ui_menu_event = station_added ∷ station_added ∷ [];
}

heard_again :
    hear_one system none tuned.shared 7 sender
      (print_reply (record introduction { name = b'A' ∷ [] }))
    ≡ ok both
unfolding hear_one handle_lookup_reply add_station insert push has new_station is_valid_name
    all_printable get_addr get_mcast_addr parse_reply print_reply behind_prefix next_field field
    trimmed c_str stoul stoull digits bytes_eq same cmp bytes_lt addr_lt
heard_again = refl

steps-IsSorted_example :
    IsSorted both.stations × ((s : RadioStation) → finds s both.stations ≡ has s both.stations)
steps-IsSorted_example = steps-IsSorted system none (
    next all_steps (
      hears {t = tuned} 7 sender (print_reply (record introduction { name = b'A' ∷ [] }))
        heard_again))
