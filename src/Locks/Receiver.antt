-- ===== src/Locks/Receiver.antt =====
-- What the handlers of the receiver's workers lock: receiver/audio_receiver.cc, audio_printer.cc,
-- lookup_receiver.cc, rexmit_sender.cc, station_remover.cc, ui_menu.cc and the signal handler.
pub mod Guarded
pub mod Order
pub mod Signals
use sik_telnet_radio.Prelude.{ℕ, zero, suc, ◌-◌, ◌<◌, ◌≡◌, Bool, List, [], ◌∷◌, ◌++◌, if◌then◌else◌}
use sik_telnet_radio.Locks.{LockOp, access, locking, lock_discarded}

-- The workers' numbers.
abbrev pub rexmit_sender : ℕ
rexmit_sender = 0

abbrev pub audio_printer : ℕ
audio_printer = 1

abbrev pub audio_receiver : ℕ
audio_receiver = 2

abbrev pub lookup_receiver : ℕ
lookup_receiver = 3

abbrev pub lookup_sender : ℕ
lookup_sender = 4

abbrev pub station_remover : ℕ
station_remover = 5

abbrev pub ui_menu : ℕ
ui_menu = 6

abbrev pub num_workers : ℕ
num_workers = 7

-- The mutexes, numbered in the order in which the workers take them.
abbrev pub stations : ℕ
stations = 0

abbrev pub current_station : ℕ
current_station = 1

abbrev pub buffer : ℕ
buffer = 2

abbrev pub event_queue : ℕ → ℕ
event_queue worker = 9 - worker

abbrev notify : ℕ → List LockOp
notify worker = locking (event_queue worker) (access (event_queue worker) ∷ [])

-- `menu_to_str` takes no lock.
pub menu_to_str_locks : Bool → List LockOp
menu_to_str_locks empty = access stations ∷ (if empty then [] else access current_station ∷ [])

pub cmd_move_locks : Bool → Bool → List LockOp
unfolding menu_to_str_locks
cmd_move_locks empty moved = locking stations (
    locking current_station (
      access stations
        ∷ (if empty
            then []
            else access current_station ∷ (if moved then notify audio_receiver else []))
      ++ menu_to_str_locks empty))

-- The loop of the signal handler from `worker - 1` down to 0, for those that were not signalled before; its
-- locks are temporaries.
pub terminate_all_locks : (ℕ → Bool) → ℕ → List LockOp
terminate_all_locks signalled zero = []
terminate_all_locks signalled (suc worker) =
    (if signalled worker
      then []
      else lock_discarded (event_queue worker) ++ access (event_queue worker) ∷ [])
    ++ terminate_all_locks signalled worker

order_retransmission_locks : Bool → List LockOp
order_retransmission_locks connected = locking stations (
    locking current_station (
      access current_station
      ∷ access stations
      ∷ (if connected then locking buffer (access buffer ∷ access current_station ∷ []) else [])))

handle_print_locks : List LockOp
handle_print_locks = locking buffer (access buffer ∷ [])

change_station_locks : Bool → List LockOp
change_station_locks empty = locking stations (
    locking current_station (access stations ∷ (if empty then [] else access current_station ∷ [])))

handle_audio_packet_locks : Bool → Bool → Bool → Bool → Bool → List LockOp
handle_audio_packet_locks old too_large new_session late wakes =
    if old
    then []
    else access buffer
      ∷ (if too_large
          then []
          else (if new_session then locking buffer (access buffer ∷ []) else [])
            ++ access buffer
              ∷ (if late
                  then []
                  else locking buffer (
                      access buffer
                      ∷ (if wakes
                          then lock_discarded (event_queue audio_printer)
                            ++ access (event_queue audio_printer) ∷ []
                          else []))))

handle_lookup_reply_locks : Bool → Bool → List LockOp
handle_lookup_reply_locks known chosen = locking stations (
    access stations
    ∷ (if known
        then []
        else (if chosen
            then locking current_station (access current_station ∷ notify audio_receiver)
            else [])
          ++ notify ui_menu))

remove_inactive_locks : Bool → Bool → List LockOp
remove_inactive_locks removed_any removed_current = locking stations (
    locking current_station (
      access stations
      ∷ (if removed_any
          then access current_station
            ∷ locking (event_queue ui_menu) (
                access (event_queue ui_menu)
                ∷ (if removed_current
                    then access stations ∷ access current_station ∷ notify audio_receiver
                    else []))
          else [])))

-- A call of a handler, with the outcomes of its tests; an access of a value stands for all in its place.
pub data Call : Type 0 where
  order_retransmission : (connected : Bool) → Call
  handle_print : Call
  change_station : (empty : Bool) → Call
  handle_audio_packet : (old too_large new_session late wakes : Bool) → Call
  handle_lookup_reply : (known chosen : Bool) → Call
  remove_inactive : (removed_any removed_current : Bool) → Call
  cmd_move_up cmd_move_down : (empty moved : Bool) → Call
  menu_shown : (empty : Bool) → Call
  event_popped : (worker : ℕ) → Call
  signal_handled : (worker : ℕ) (signalled : ℕ → Bool) → Call

unfoldable pub path : Call → List LockOp
unfolding order_retransmission_locks handle_print_locks change_station_locks
    handle_audio_packet_locks handle_lookup_reply_locks remove_inactive_locks cmd_move_locks
    terminate_all_locks menu_to_str_locks
path (order_retransmission connected) = order_retransmission_locks connected
path handle_print = handle_print_locks
path (change_station empty) = change_station_locks empty
path (handle_audio_packet old too_large new_session late wakes) =
    handle_audio_packet_locks old too_large new_session late wakes
path (handle_lookup_reply known chosen) = handle_lookup_reply_locks known chosen
path (remove_inactive removed_any removed_current) =
    remove_inactive_locks removed_any removed_current
path (cmd_move_up empty moved) = cmd_move_locks empty moved
path (cmd_move_down empty moved) = cmd_move_locks empty moved
path (menu_shown empty) = menu_to_str_locks empty
path (event_popped worker) = access (event_queue worker) ∷ []
path (signal_handled worker signalled) = terminate_all_locks signalled num_workers

-- The thread that makes the call; the kernel chooses one for a signal, a worker or `main`.
unfoldable pub worker_of : Call → ℕ
worker_of (order_retransmission connected) = rexmit_sender
worker_of handle_print = audio_printer
worker_of (change_station empty) = audio_receiver
worker_of (handle_audio_packet old too_large new_session late wakes) = audio_receiver
worker_of (handle_lookup_reply known chosen) = lookup_receiver
worker_of (remove_inactive removed_any removed_current) = station_remover
worker_of (cmd_move_up empty moved) = ui_menu
worker_of (cmd_move_down empty moved) = ui_menu
worker_of (menu_shown empty) = ui_menu
worker_of (event_popped worker) = worker
worker_of (signal_handled worker signalled) = worker

-- The threads that may make the call have a number below this: the thread behind the workers is `main`, which
-- runs no handler but the signal's.
unfoldable pub thread_limit : Call → ℕ
thread_limit (signal_handled worker signalled) = suc num_workers
thread_limit _ = num_workers

abbrev pub Handles : ℕ → List LockOp → Type 0
Handles i ops = (call : Call) × (i < thread_limit call) × (worker_of call ≡ i) × (path call ≡ ops)
