-- ===== src/Shutdown/Ending.antt =====
-- How the threads of a program come to their end: the loops of the workers on their events, and `main`, which
-- joins them; sender/sender.cc and receiver/receiver.cc.
pub mod Bounded
pub mod Joined
pub mod Mains
pub mod Told
mod Tests
use sik_telnet_radio.Prelude.{
  ℕ, ◌<◌, ◌≡◌, ◌≢◌, Bool, true, false, List, [], ◌∷◌, some, ◌==◌, if◌then◌else◌,
}
use sik_telnet_radio.Events.{EventType, EventQueue, push, pop, terminate}
use sik_telnet_radio.Shutdown.{Process, signal_handler}

-- What `main` does once the workers run.
pub data MainOp : Type 0 where
  join : ℕ → MainOp
  raise_sigint : MainOp

-- The sender's workers have the numbers of its source: 2 is the audio sender, which `main` joins first.
abbrev pub sender_main : List MainOp
sender_main = join 2 ∷ raise_sigint ∷ join 1 ∷ join 0 ∷ []

abbrev pub receiver_main : List MainOp
receiver_main = join 6 ∷ join 5 ∷ join 4 ∷ join 3 ∷ join 2 ∷ join 1 ∷ join 0 ∷ []

-- Where a worker's loop stands: at work, which is what `poll`'s answer asks for and ends with the test of
-- `running`, in the `poll` or the sleep behind the test, or behind the loop's end. The loop begins with the
-- test; that a worker is not held up in its work is for the locks to show.
pub data Phase : Type 0 where
  works polls ended : Phase

-- `main` is what `main` is still to do.
pub record Program : Type 0 where
  pub process : Process
  pub phase : ℕ → Phase
  pub main : List MainOp

abbrev pub queue_of : Program → ℕ → EventQueue
queue_of p w = p.process.event_queues w

unfoldable pub set_phase : ℕ → Phase → Program → Program
set_phase w phase p = record p { phase = λ i. if i == w then phase else p.phase i }

unfoldable pub set_queue : ℕ → EventQueue → Program → Program
set_queue w queue p = record p {
  process = record p.process {
    event_queues = λ i. if i == w then queue else p.process.event_queues i;
  };
}

-- A program: how many workers there are, which of them look at their queue of events, the others sleeping
-- between their rounds, and which of them may return by themselves, as the audio sender at the end of its
-- input.
pub record Workers : Type 0 where
  pub num_workers : ℕ
  pub has_queue : ℕ → Bool
  pub may_return : ℕ → Bool

abbrev pub sender_workers : Workers
sender_workers = record { num_workers = 3; has_queue = λ w. true; may_return = λ w. w == 2 }

-- The rexmit sender, 0, and the station remover, 5, sleep.
abbrev pub receiver_workers : Workers
receiver_workers = record {
  num_workers = 7;
  has_queue = λ w. if w == 0 then false else if w == 5 then false else true;
  may_return = λ w. false;
}

unfoldable pub signalled_program : Workers → Program → Program
signalled_program ws p = record p { process = signal_handler ws.num_workers p.process }

module _ (ws : Workers) where
  -- What worker `w` does. `poll` answers with an event of its queue, or, while there is none, with something
  -- else; what comes to the queue later is for the next round. Behind the work `running` is tested.
  pub data Round (w : ℕ) : Program → Program → Type 0 where
    goes_on :
        {p : Program}
        → p.phase w ≡ works
        → p.process.running ≡ true
        → Round w p (set_phase w polls p)
    leaves :
        {p : Program}
        → p.phase w ≡ works
        → p.process.running ≡ false
        → Round w p (set_phase w ended p)
    told :
        {p : Program} {queue : EventQueue}
        → p.phase w ≡ polls
        → ws.has_queue w ≡ true
        → pop (queue_of p w) ≡ some (terminate, queue)
        → Round w p (set_phase w ended (set_queue w queue p))
    takes :
        {p : Program} {event : EventType} {queue : EventQueue}
        → p.phase w ≡ polls
        → ws.has_queue w ≡ true
        → pop (queue_of p w) ≡ some (event, queue)
        → event ≢ terminate
        → Round w p (set_phase w works (set_queue w queue p))
    serves :
        {p : Program}
        → p.phase w ≡ polls
        → ws.has_queue w ≡ true
        → queue_of p w ≡ []
        → Round w p (set_phase w works p)
    sleeps :
        {p : Program} → p.phase w ≡ polls → ws.has_queue w ≡ false → Round w p (set_phase w works p)
    returns :
        {p : Program} → p.phase w ≡ works → ws.may_return w ≡ true → Round w p (set_phase w ended p)

  pub data MainStep : Program → Program → Type 0 where
    joins :
        {p : Program} {w : ℕ} {rest : List MainOp}
        → p.main ≡ join w ∷ rest
        → p.phase w ≡ ended
        → MainStep p (record p { main = rest })
    raises :
        {p : Program} {rest : List MainOp}
        → p.main ≡ raise_sigint ∷ rest
        → MainStep p (record (signalled_program ws p) { main = rest })

  -- Only the workers make rounds. A signal may come at any time, and a handler pushes an event; the signal's
  -- handler runs as a whole and breaks off no `poll`.
  pub data Step : Program → Program → Type 0 where
    round : {p p' : Program} (w : ℕ) → w < ws.num_workers → Round w p p' → Step p p'
    main : {p p' : Program} → MainStep p p' → Step p p'
    signals : {p : Program} → Step p (signalled_program ws p)
    pushes :
        {p : Program} (w : ℕ) (event : EventType)
        → Step p (set_queue w (push (queue_of p w) event) p)

  pub data Steps (p : Program) : Program → Type 0 where
    stay : Steps p p
    next : {p' p'' : Program} → Steps p p' → Step p' p'' → Steps p p''

-- The threads have been made.
abbrev pub running_program : List MainOp → Program
running_program ops = record {
  process = record { running = true; signalled = λ w. false; event_queues = λ w. [] };
  phase = λ w. works;
  main = ops;
}
