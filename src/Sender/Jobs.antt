-- ===== src/Sender/Jobs.antt =====
-- The queue of retransmissions between sender/controller.cc and the loop of sender/retransmitter.cc: the
-- steps of both threads, as they can follow each other. `push`, `pop` and `size` of a queue, and taking the
-- reference of `front`, are one step each, and others come between them; `front` and `pop` of the jobs take no
-- lock, and what two accesses at the same moment would do to the memory of the queue is not modelled.
pub mod Kept
pub mod Watched
mod Tests
use sik_telnet_radio.Prelude.{
  ℕ, zero, suc, ◌≡◌, Bool, true, false, List, [], ◌∷◌, ◌++◌, Option, some, length,
}
use sik_telnet_radio.Events.{
  EventType, EventQueue, push, pop, terminate, station_added, station_removed,
  current_station_changed, client_added, new_jobs,
}
use sik_telnet_radio.Datagram.{RexmitRequest}
use sik_telnet_radio.Sender.Controller.{Controller}

-- Where the retransmitter's loop stands: before the `pop` of an event, behind it with jobs to count, in the
-- `while` with so many jobs to go, in `handle_retransmission` of the first job with so many to go behind it,
-- or behind its end.
pub data Phase : Type 0 where
  idle woken over : Phase
  working handling : ℕ → Phase

-- `arrived` and `handled` are the jobs that came and those that went to `handle_retransmission`; `notifying`
-- says that the controller is between its two `push`es, where it has the jobs locked.
pub record Sending : Type 0 where
  pub controller : Controller
  pub phase : Phase
  pub notifying : Bool
  pub arrived : List RexmitRequest
  pub handled : List RexmitRequest

abbrev pub jobs : Sending → List RexmitRequest
jobs st = st.controller.rexmit_job_queue

abbrev pub events : Sending → EventQueue
events st = st.controller.retransmitter_event

abbrev pub with_events : Sending → EventQueue → Sending
with_events st queue = record st {
  controller = record st.controller { retransmitter_event = queue };
}

abbrev pub with_jobs : Sending → List RexmitRequest → Sending
with_jobs st queue = record st { controller = record st.controller { rexmit_job_queue = queue } }

-- What the loop does with an event.
abbrev pub phase_after : EventType → Phase
phase_after terminate = over
phase_after new_jobs = woken
phase_after current_station_changed = idle
phase_after station_added = idle
phase_after station_removed = idle
phase_after client_added = idle

-- The two halves of `handle_rexmit_request`.
unfoldable pub queue_job : Sending → RexmitRequest → Sending
queue_job st req = record (with_jobs st (jobs st ++ req ∷ [])) {
  notifying = true;
  arrived = st.arrived ++ req ∷ [];
}

unfoldable pub notify : Sending → Sending
notify st = record (with_events st (push (events st) new_jobs)) { notifying = false }

-- The signal handler pushes `terminate`.

unfoldable pub signal : Sending → Sending
signal st = with_events st (push (events st) terminate)

-- `counts` locks the jobs, which the controller has locked while it is between its `push`es.
pub data Step : Sending → Sending → Type 0 where
  queues : {st : Sending} (req : RexmitRequest) → st.notifying ≡ false → Step st (queue_job st req)
  notifies : {st : Sending} → st.notifying ≡ true → Step st (notify st)
  signals : {st : Sending} → Step st (signal st)
  pops :
      {st : Sending} {event : EventType} {queue : EventQueue}
      → st.phase ≡ idle
      → pop (events st) ≡ some (event, queue)
      → Step st (record (with_events st queue) { phase = phase_after event })
  counts :
      {st : Sending}
      → st.phase ≡ woken
      → st.notifying ≡ false
      → Step st (record st { phase = working (length (jobs st)) })
  takes :
      {st : Sending} {n : ℕ} {req : RexmitRequest} {queue : List RexmitRequest}
      → st.phase ≡ working (suc n)
      → jobs st ≡ req ∷ queue
      → Step st (record st { phase = handling n; handled = st.handled ++ req ∷ [] })
  drops :
      {st : Sending} {n : ℕ} {req : RexmitRequest} {queue : List RexmitRequest}
      → st.phase ≡ handling n
      → jobs st ≡ req ∷ queue
      → Step st (record (with_jobs st queue) { phase = working n })
  rests : {st : Sending} → st.phase ≡ working zero → Step st (record st { phase = idle })

pub data Steps : Sending → Sending → Type 0 where
  stay : {st : Sending} → Steps st st
  next : {st st' st'' : Sending} → Steps st st' → Step st' st'' → Steps st st''

-- Nothing has come yet.
abbrev pub fresh : Controller → Sending
fresh controller = record {
  controller = controller;
  phase = idle;
  notifying = false;
  arrived = [];
  handled = [];
}
