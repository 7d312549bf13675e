-- ===== src/Locks/Receiver/Guarded.antt =====
-- What the receiver's threads access only under its mutex, and that they never meet there.
use sik_telnet_radio.Prelude.{
  zero, suc, Bool-cases, inl, inr, ℕ, ◌≤◌, ◌<◌, ◌≡◌, ◌≢◌, Bool, true, false, List, [], ◌∷◌, arith,
  subst,
}
use sik_telnet_radio.Locks.{LockOp, access, State, Steps, unlocked}
use sik_telnet_radio.Locks.Races.{Guarded, accesses-exclusive}
use sik_telnet_radio.Locks.Receiver.{
  Call, order_retransmission, handle_print, change_station, handle_audio_packet,
  handle_lookup_reply, remove_inactive, cmd_move_up, cmd_move_down, menu_shown, event_popped,
  signal_handled, terminate_all_locks, cmd_move_locks, menu_to_str_locks, path, worker_of,
  thread_limit, num_workers, buffer, ui_menu, audio_receiver, Handles,
}
use sik_telnet_radio.Locks.Receiver.Order.{Handles-Fits}

-- The workers that access the value of `m` under its mutex: the menu shows the stations without a lock,
-- and the audio receiver reads the buffer's sizes without one.
abbrev pub IsCareful : ℕ → ℕ → Type 0
IsCareful m i = (m ≤ buffer) × (m < buffer → i ≢ ui_menu) × (m ≡ buffer → i ≢ audio_receiver)

cmd_move_locks-Guarded :
    (m : ℕ) (empty moved : Bool) → m ≤ buffer → Guarded m [] (cmd_move_locks empty moved)
unfolding cmd_move_locks
cmd_move_locks-Guarded m true x c = ground arith
cmd_move_locks-Guarded m false true c = ground arith
cmd_move_locks-Guarded m false false c = ground arith

handle_audio_packet-Guarded :
    (m : ℕ)
    → m < buffer
    → (old too_large new_session late wakes : Bool)
    → Guarded m [] (path (handle_audio_packet old too_large new_session late wakes))
unfolding path
handle_audio_packet-Guarded m c true t n l w = ground arith
handle_audio_packet-Guarded m c false true n l w = ground arith
handle_audio_packet-Guarded m c false false true true w = ground arith
handle_audio_packet-Guarded m c false false false true w = ground arith
handle_audio_packet-Guarded m c false false true false true = ground arith
handle_audio_packet-Guarded m c false false false false true = ground arith
handle_audio_packet-Guarded m c false false true false false = ground arith
handle_audio_packet-Guarded m c false false false false false = ground arith

menu_shown-Guarded : (m : ℕ) → m ≡ buffer → (empty : Bool) → Guarded m [] (menu_to_str_locks empty)
unfolding menu_to_str_locks
menu_shown-Guarded m c true = ground arith
menu_shown-Guarded m c false = ground arith

terminate_all_locks-Guarded :
    (m : ℕ) (signalled : ℕ → Bool) (n : ℕ)
    → m ≤ buffer
    → n ≤ num_workers
    → Guarded m [] (terminate_all_locks signalled n)
unfolding terminate_all_locks
terminate_all_locks-Guarded m signalled zero c h = tt
terminate_all_locks-Guarded m signalled (suc n) c h = elim (Bool-cases (signalled n)) [
  | inl old ↦ rw old (terminate_all_locks-Guarded m signalled n c (omega arith))
  | inr new ↦
      rw new (λ e. absurd (omega arith), terminate_all_locks-Guarded m signalled n c (omega arith))
]

path-Guarded :
    (m i : ℕ)
    → IsCareful m i
    → (call : Call) → i < thread_limit call
    → worker_of call ≡ i
    → Guarded m [] (path call)
unfolding path worker_of thread_limit
path-Guarded m i c (order_retransmission true) w e = ground arith
path-Guarded m i c (order_retransmission false) w e = ground arith
path-Guarded m i c handle_print w e = ground arith
path-Guarded m i c (change_station true) w e = ground arith
path-Guarded m i c (change_station false) w e = ground arith
path-Guarded m i c (handle_lookup_reply true x) w e = ground arith
path-Guarded m i c (handle_lookup_reply false true) w e = ground arith
path-Guarded m i c (handle_lookup_reply false false) w e = ground arith
path-Guarded m i c (remove_inactive false x) w e = ground arith
path-Guarded m i c (remove_inactive true true) w e = ground arith
path-Guarded m i c (remove_inactive true false) w e = ground arith
path-Guarded m i c (handle_audio_packet o t n l k) w e =
    handle_audio_packet-Guarded m (ground arith) o t n l k
path-Guarded m i c (cmd_move_up x y) w e = cmd_move_locks-Guarded m x y c.0
path-Guarded m i c (cmd_move_down x y) w e = cmd_move_locks-Guarded m x y c.0
path-Guarded m i c (menu_shown x) w e = menu_shown-Guarded m (ground arith) x
path-Guarded m i c (event_popped worker) w e = ground arith
path-Guarded m i c (signal_handled worker signalled) w e =
    terminate_all_locks-Guarded m signalled num_workers c.0 (omega arith)

Handles-Guarded : (m i : ℕ) (ops : List LockOp) → IsCareful m i → Handles i ops → Guarded m [] ops
Handles-Guarded m i ops c (call, w, e, p) = subst (Guarded m []) p (path-Guarded m i c call w e)

-- In each state that the receiver's threads reach, two threads that are both about to access the
-- stations or the current station are one thread, unless one of them is the menu's; so are two that are
-- about to access the buffer, unless one of them is the audio receiver's.
pub receiver-exclusive :
    {s : State}
    → Steps Handles unlocked s
    → (m i j : ℕ) → IsCareful m i
    → IsCareful m j
    → {rest rest' : List LockOp} → (s.thread i).rest ≡ access m ∷ rest
    → (s.thread j).rest ≡ access m ∷ rest'
    → i ≡ j
receiver-exclusive steps m =
    accesses-exclusive m (IsCareful m) Handles-Fits (Handles-Guarded m) steps
