-- ===== src/Receiver.antt =====
-- What the receiver's threads share: the stations, the current one, and the queues of events. Every
-- handler below runs with the locks held that its source takes, so it is one step on this state.
pub mod Stations
pub mod Audio
pub mod Lookup
pub mod LookupSender
pub mod Screen
pub mod Clients
pub mod Menu
pub mod Rexmit
pub mod Printer
pub mod Threads
use sik_telnet_radio.Prelude.{Option}
use sik_telnet_radio.Station.{RadioStation, StationSet}
use sik_telnet_radio.Events.{EventQueue}

-- `current_station` is an iterator: `none` is `stations->end()`.
pub record Shared : Type 0 where
  pub stations : StationSet
  pub current_station : Option RadioStation
  pub audio_receiver_event : EventQueue
  pub ui_menu_event : EventQueue
