-- ===== src/Locks/Receiver/Signals.antt =====
-- A signal that comes while a thread has an event queue locked: the signal handler of receiver.cc locks
-- the queues.
use sik_telnet_radio.Prelude.{
  Bool, false, ℕ, zero, suc, ◌≤◌, ◌<◌, ◌≡◌, ◌≢◌, sym, subst, List, [], ◌++◌, some, arith, ◌==◌,
  Bool-cases, inl, inr, ==_iff,
}
use sik_telnet_radio.Locks.{LockOp, State, Steps, proceed, interrupt}
use sik_telnet_radio.Locks.Order.{put_self}
use sik_telnet_radio.Locks.Signals.{
  Relocks, here, past_lock, past_access, past_unlock, Relocks-some, Steps-Hangs,
}
use sik_telnet_radio.Locks.Receiver.{
  num_workers, event_queue, terminate_all_locks, path, signal_handled, Handles,
}

-- The loop of the handler locks each queue that was not signalled, and of those before only unlocks others.
terminate_all_locks-Relocks :
    (signalled : ℕ → Bool) (n worker : ℕ)
    → worker < n
    → n ≤ num_workers
    → signalled worker ≡ false
    → (rest : List LockOp) → Relocks (event_queue worker) (terminate_all_locks signalled n ++ rest)
unfolding terminate_all_locks
terminate_all_locks-Relocks signalled zero worker inside small h rest = absurd (omega arith)
terminate_all_locks-Relocks signalled (suc n) worker inside small h rest =
    elim (Bool-cases (worker == n)) [
      | inl e ↦ let same = (==_iff worker n).0 e in rw (← same) (rw h here)
      | inr e ↦
          let later =
            terminate_all_locks-Relocks signalled n worker (ground arith) (omega arith) h rest in
          elim (Bool-cases (signalled n)) [
            | inl old ↦ rw old later
            | inr new ↦ rw new (past_lock (past_unlock (ground arith) (past_access later)))
          ]
    ]

-- If a signal comes to a thread of the receiver that has the event queue of a worker locked, and that
-- worker was not signalled before, the signal's handler never returns and the queue stays locked, whatever
-- the other threads do.
pub interrupted-hangs :
    (s s' : State) (i worker : ℕ) (signalled : ℕ → Bool)
    → worker < num_workers
    → signalled worker ≡ false
    → s.owner (event_queue worker) ≡ some i
    → Steps Handles (interrupt i (path (signal_handled i signalled)) s) s'
    → ((s'.thread i).rest ≢ []) × (s'.owner (event_queue worker) ≡ some i)
unfolding interrupt path proceed
interrupted-hangs s s' i worker signalled inside new owner steps =
    let h = Steps-Hangs (event_queue worker) i (owner, waits) steps in
    (Relocks-some (event_queue worker) h.1, h.0)
  where
    waits :
        Relocks
          (event_queue worker)
          ((interrupt i (path (signal_handled i signalled)) s).thread i).rest
    waits =
        subst (λ t. Relocks (event_queue worker) t.rest) (sym (put_self i _ s.thread))
          (terminate_all_locks-Relocks signalled num_workers worker inside (omega arith) new
            (s.thread i).rest)
