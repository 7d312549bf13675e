-- ===== src/Locks/Receiver/Order.antt =====
-- The receiver's threads never wait for each other in a circle.
use sik_telnet_radio.Prelude.{
  ℕ, zero, suc, ◌≤◌, ◌≢◌, refl, Bool, true, false, List, [], arith, subst, Bool-cases, inl, inr,
}
use sik_telnet_radio.Locks.{LockOp, State, Steps, unlocked}
use sik_telnet_radio.Locks.Order.{Fits}
use sik_telnet_radio.Locks.Progress.{CanMove, never_stuck}
use sik_telnet_radio.Locks.Receiver.{
  Call, order_retransmission, handle_print, change_station, handle_audio_packet,
  handle_lookup_reply, remove_inactive, cmd_move_up, cmd_move_down, menu_shown, event_popped,
  signal_handled, terminate_all_locks, num_workers, cmd_move_locks, path, Handles,
}

cmd_move_locks-Fits : (empty moved : Bool) → Fits 10 [] (cmd_move_locks empty moved)
unfolding cmd_move_locks
cmd_move_locks-Fits true m = omega arith
cmd_move_locks-Fits false true = omega arith
cmd_move_locks-Fits false false = omega arith

terminate_all_locks-Fits :
    (signalled : ℕ → Bool) (n : ℕ) → n ≤ num_workers → Fits 10 [] (terminate_all_locks signalled n)
unfolding terminate_all_locks
terminate_all_locks-Fits signalled zero h = tt
terminate_all_locks-Fits signalled (suc n) h = elim (Bool-cases (signalled n)) [
  | inl old ↦ rw old (terminate_all_locks-Fits signalled n (omega arith))
  | inr new ↦ rw new (omega arith, tt, (refl, terminate_all_locks-Fits signalled n (omega arith)))
]

-- Each handler keeps the order of the mutexes.
path-Fits : (call : Call) → Fits 10 [] (path call)
unfolding path
path-Fits (order_retransmission true) = omega arith
path-Fits (order_retransmission false) = omega arith
path-Fits handle_print = omega arith
path-Fits (change_station true) = omega arith
path-Fits (change_station false) = omega arith
path-Fits (handle_audio_packet true t n l w) = omega arith
path-Fits (handle_audio_packet false true n l w) = omega arith
path-Fits (handle_audio_packet false false true true w) = omega arith
path-Fits (handle_audio_packet false false false true w) = omega arith
path-Fits (handle_audio_packet false false true false true) = omega arith
path-Fits (handle_audio_packet false false false false true) = omega arith
path-Fits (handle_audio_packet false false true false false) = omega arith
path-Fits (handle_audio_packet false false false false false) = omega arith
path-Fits (handle_lookup_reply true c) = omega arith
path-Fits (handle_lookup_reply false true) = omega arith
path-Fits (handle_lookup_reply false false) = omega arith
path-Fits (remove_inactive false c) = omega arith
path-Fits (remove_inactive true true) = omega arith
path-Fits (remove_inactive true false) = omega arith
path-Fits (cmd_move_up e m) = cmd_move_locks-Fits e m
path-Fits (cmd_move_down e m) = cmd_move_locks-Fits e m
path-Fits (menu_shown true) = omega arith
path-Fits (menu_shown false) = omega arith
path-Fits (event_popped worker) = omega arith
path-Fits (signal_handled worker signalled) =
    terminate_all_locks-Fits signalled num_workers (omega arith)

pub Handles-Fits : (i : ℕ) (ops : List LockOp) → Handles i ops → Fits 10 [] ops
Handles-Fits i ops (call, _, _, e) = subst (Fits 10 []) e (path-Fits call)

-- However the receiver's workers lock and unlock, as their handlers run after each other and the signal
-- handler runs between them, in a worker or in `main`: in each state that is reached with a handler under way, some thread can go on. So the
-- threads never wait for each other in a circle.
pub receiver-never_stuck :
    {s : State} → Steps Handles unlocked s → (j : ℕ) → (s.thread j).rest ≢ [] → CanMove s
receiver-never_stuck = never_stuck Handles-Fits
