-- ===== src/Receiver/Screen.antt =====
-- `menu_to_str` of receiver/ui_menu.cc, with the escape sequences of receiver/ui.hh.
use Prim.Native.String.{String}
use sik_telnet_radio.Prelude.{[], ◌∷◌, ◌++◌, Option, if◌then◌else◌, replicate}
use sik_telnet_radio.Net.{Bytes}
use sik_telnet_radio.Text.{codes}
use sik_telnet_radio.Station.{RadioStation, StationSet}
use sik_telnet_radio.Receiver.{Shared}
use sik_telnet_radio.Receiver.Stations.{points_at}

abbrev newline : Bytes
newline = b'\r' ∷ b'\n' ∷ []

-- An escape sequence that begins with the byte 27 and a bracket.
abbrev pub sequence : String → Bytes
sequence text = 27 ∷ b'[' ∷ codes text

abbrev pub clear : Bytes
clear = sequence "2J" ++ sequence "H"

-- `BLINK`, `GREEN` and `BOLD`
abbrev blink : Bytes → Bytes
blink msg = sequence "5m" ++ msg ++ sequence "25m"

abbrev green : Bytes → Bytes
green msg = sequence "1;92m" ++ msg ++ sequence "0m"

abbrev bold : Bytes → Bytes
bold msg = sequence "1m" ++ msg ++ sequence "22m"

abbrev horizontal_bar : Bytes
horizontal_bar = replicate 72 b'-'

abbrev heading : Bytes
heading = horizontal_bar ++ newline ++ codes "SIK Radio" ++ newline ++ horizontal_bar ++ newline

unfoldable pub menu_line : Option RadioStation → RadioStation → Bytes
menu_line current station =
    (if points_at current station
      then blink (green (codes " > ")) ++ bold station.name
      else station.name)
    ++ newline

unfoldable pub menu_lines : Option RadioStation → StationSet → Bytes
menu_lines current [] = []
menu_lines current (x ∷ xs) = menu_line current x ++ menu_lines current xs

unfoldable pub menu_to_str : Shared → Bytes
menu_to_str st = heading ++ menu_lines st.current_station st.stations ++ horizontal_bar
