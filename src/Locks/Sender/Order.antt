-- ===== src/Locks/Sender/Order.antt =====
-- The sender's threads never wait for each other in a circle.
use sik_telnet_radio.Prelude.{
  ℕ, zero, suc, ◌≤◌, ◌≢◌, refl, Bool, List, [], arith, subst, Bool-cases, inl, inr,
}
use sik_telnet_radio.Locks.{LockOp, State, Steps, unlocked}
use sik_telnet_radio.Locks.Order.{Fits}
use sik_telnet_radio.Locks.Progress.{CanMove, never_stuck}
use sik_telnet_radio.Locks.Sender.{
  Call, send_packet, handle_lookup_request, handle_rexmit_request, new_jobs_done, event_popped,
  signal_handled, terminate_all_locks, num_workers, jobs_done_locks, path, Handles,
}

jobs_done_locks-Fits : (new_jobs : ℕ) → Fits 5 [] (jobs_done_locks new_jobs)
unfolding jobs_done_locks
jobs_done_locks-Fits zero = tt
jobs_done_locks-Fits (suc new_jobs) = (omega arith, tt, (refl, jobs_done_locks-Fits new_jobs))

terminate_all_locks-Fits :
    (signalled : ℕ → Bool) (n : ℕ) → n ≤ num_workers → Fits 5 [] (terminate_all_locks signalled n)
unfolding terminate_all_locks
terminate_all_locks-Fits signalled zero h = tt
terminate_all_locks-Fits signalled (suc n) h = elim (Bool-cases (signalled n)) [
  | inl old ↦ rw old (terminate_all_locks-Fits signalled n (omega arith))
  | inr new ↦ rw new (omega arith, tt, (refl, terminate_all_locks-Fits signalled n (omega arith)))
]

-- Each handler keeps the order of the mutexes.
path-Fits : (call : Call) → Fits 5 [] (path call)
unfolding path
path-Fits send_packet = omega arith
path-Fits handle_lookup_request = tt
path-Fits handle_rexmit_request = omega arith
path-Fits (new_jobs_done n) = (omega arith, tt, (refl, jobs_done_locks-Fits n))
path-Fits (event_popped worker) = tt
path-Fits (signal_handled worker signalled) =
    terminate_all_locks-Fits signalled num_workers (omega arith)

Handles-Fits : (i : ℕ) (ops : List LockOp) → Handles i ops → Fits 5 [] ops
Handles-Fits i ops (call, _, _, e) = subst (Fits 5 []) e (path-Fits call)

-- However the sender's workers lock and unlock, as their handlers run after each other and the signal
-- handler runs between them, in a worker or in `main`: in each state that is reached with a handler under way, some thread can go on.
pub sender-never_stuck :
    {s : State} → Steps Handles unlocked s → (j : ℕ) → (s.thread j).rest ≢ [] → CanMove s
sender-never_stuck = never_stuck Handles-Fits
