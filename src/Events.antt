-- ===== src/Events.antt =====
-- `EventQueue` of common/event_queue.cc: a pipe of one-byte events.
pub mod Pipe
pub mod Waits
mod Tests
use sik_telnet_radio.Prelude.{List, Option, none, some, [], ◌∷◌, ◌++◌}

-- `EventQueue::EventType`
pub data EventType : Type 0 where
  current_station_changed station_added station_removed client_added new_jobs terminate : EventType

-- Events leave a pipe in the order in which they came.
abbrev pub EventQueue : Type 0
EventQueue = List EventType

unfoldable pub push : EventQueue → EventType → EventQueue
push queue event = queue ++ event ∷ []

-- `none` where a `read` would wait.
unfoldable pub pop : EventQueue → Option (EventType × EventQueue)
pop [] = none
pop (event ∷ queue) = some (event, queue)
