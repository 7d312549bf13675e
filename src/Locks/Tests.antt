-- ===== src/Locks/Tests.antt =====
-- Threads in the middle of their handlers.
use sik_telnet_radio.Prelude.{ℕ, ◌≡◌, ◌≢◌, refl, sym, true, false, List, [], drop, some, arith}
use mathlib.Core.List.{nil≢cons}
use sik_telnet_radio.Locks.{
  LockOp, State, acquire, proceed, acquires, moves, calls, Steps, stay, next, unlocked, interrupt,
}
use sik_telnet_radio.Locks.Progress.{CanMove}
use sik_telnet_radio.Locks.Receiver
use sik_telnet_radio.Locks.Receiver.{Call}
use sik_telnet_radio.Locks.Receiver.Order.{receiver-never_stuck}
use sik_telnet_radio.Locks.Receiver.Guarded.{receiver-exclusive}
use sik_telnet_radio.Locks.Receiver.Signals.{interrupted-hangs}
use sik_telnet_radio.Locks.Sender
use sik_telnet_radio.Locks.Sender.Order.{sender-never_stuck}

-- What is left of the handling of a reply from a new station, after so many steps.
abbrev reply : ℕ → List LockOp
unfolding Receiver.path
reply n = drop n (Receiver.path (Receiver.handle_lookup_reply false true))

-- A reply from a new station is handled, and a client moves down at the same time: the lookup receiver
-- has the stations and is about to access them.
abbrev contended : State
contended =
    acquire 3 0 (reply 1)
      (proceed 6 (Receiver.path (Receiver.cmd_move_down false true)) (proceed 3 (reply 0) unlocked))

contended-reached : Steps Receiver.Handles unlocked contended
unfolding acquire proceed Receiver.path Receiver.worker_of Receiver.thread_limit
contended-reached =
    next
      (next
        (next stay
          (calls 3 refl (Receiver.handle_lookup_reply false true, omega arith, refl, refl)))
        (calls 6 refl (Receiver.cmd_move_down false true, omega arith, refl, refl)))
      (moves 3 (acquires refl refl))

receiver-never_stuck_example : CanMove contended
unfolding acquire proceed Receiver.path
receiver-never_stuck_example = receiver-never_stuck contended-reached 6 (λ e. nil≢cons (sym e))

receiver-exclusive_example : ◌≡◌ {A = ℕ} 3 3
unfolding acquire proceed Receiver.path
receiver-exclusive_example =
    receiver-exclusive contended-reached 0 3 3 (omega arith) (omega arith) refl refl

-- The controller is about to queue a request, the retransmitter is about to see how many there are, and
-- `main` has raised the signal.
abbrev queueing : State
queueing = proceed 3 (Sender.path (Sender.signal_handled 3 (λ i. false))) (
    proceed 0 (Sender.path (Sender.new_jobs_done 1))
      (proceed 1 (Sender.path Sender.handle_rexmit_request) unlocked))

sender-never_stuck_example : CanMove queueing
unfolding acquire proceed Sender.path Sender.worker_of Sender.thread_limit
sender-never_stuck_example =
    sender-never_stuck
      (next
        (next (next stay (calls 1 refl (Sender.handle_rexmit_request, omega arith, refl, refl)))
          (calls 0 refl (Sender.new_jobs_done 1, omega arith, refl, refl)))
        (calls 3 refl (Sender.signal_handled 3 (λ i. false), omega arith, refl, refl)))
      0 (λ e. nil≢cons (sym e))

-- The lookup receiver has the queue of the audio receiver locked.
abbrev notified : State
notified = acquire 3 7 (reply 5) (
    proceed 3 (reply 4) (
      acquire 3 1 (reply 3)
        (proceed 3 (reply 2) (acquire 3 0 (reply 1) (proceed 3 (reply 0) unlocked)))))

abbrev interrupted : State
interrupted = interrupt 3 (Receiver.path (Receiver.signal_handled 3 (λ i. false))) notified

-- The handler of the signal has locked the menu's queue, the first that it locks.
abbrev menu_told : State
menu_told = acquire 3 3 (drop 1 (interrupted.thread 3).rest) interrupted

interrupted-hangs_example :
    ((menu_told.thread 3).rest ≢ []) × (menu_told.owner (Receiver.event_queue 2) ≡ some 3)
unfolding acquire proceed interrupt Receiver.path
interrupted-hangs_example =
    interrupted-hangs notified menu_told 3 2 (λ i. false) (omega arith) refl refl
      (next stay (moves 3 (acquires refl refl)))
