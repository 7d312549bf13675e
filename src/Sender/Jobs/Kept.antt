-- ===== src/Sender/Jobs/Kept.antt =====
-- No job is lost, and none is taken from an empty queue.
use sik_telnet_radio.Prelude.{
  ◌≡◌, refl, ap, sym, ◌∙◌, subst, inl, inr, Bool, false, List, [], ◌∷◌, ◌++◌, arith, append_assoc,
  append-nil,
}
use mathlib.Core.Bool.{false≢true}
use sik_telnet_radio.Events.{
  EventType, EventQueue, push, terminate, station_added, station_removed, current_station_changed,
  client_added, new_jobs,
}
use sik_telnet_radio.Events.Waits.{Waits-nil, pop-cons}
use sik_telnet_radio.Datagram.{RexmitRequest}
use sik_telnet_radio.Sender.Controller.{Controller, handle_rexmit_request}
use sik_telnet_radio.Sender.Jobs.{
  Phase, idle, woken, over, working, handling, Sending, jobs, events, phase_after, queue_job,
  notify, signal, Step, queues, notifies, signals, pops, counts, takes, drops, rests, Steps, stay,
  next, fresh,
}
use sik_telnet_radio.Sender.Jobs.Watched.{
  Watched, Watched-more, Watched-queued, Watched-notified, Watched-popped, Watched-dropped,
  Watched-rest,
}

-- The jobs of the queue that were not handled; the one that is in hand is still the first of the queue.
abbrev pub unhandled : Phase → List RexmitRequest → List RexmitRequest
unhandled (handling n) [] = []
unhandled (handling n) (req ∷ queue) = queue
unhandled idle queue = queue
unhandled woken queue = queue
unhandled over queue = queue
unhandled (working n) queue = queue

pub record IsKept (st : Sending) : Type 0 where
  pub all_here : st.arrived ≡ st.handled ++ unhandled st.phase (jobs st)
  pub watched : Watched st.phase (jobs st) (events st) st.notifying

-- The two halves are the whole.
notify-queue_job :
    (st : Sending) (req : RexmitRequest)
    → (notify (queue_job st req)).controller ≡ handle_rexmit_request st.controller req
unfolding notify queue_job handle_rexmit_request
notify-queue_job st req = refl

-- A new job is behind those that are not handled, also if one is in hand.
unhandled-queued :
    (phase : Phase) (queue : List RexmitRequest) (req : RexmitRequest) (waiting : EventQueue)
    (busy : Bool)
    → Watched phase queue waiting busy
    → unhandled phase (queue ++ req ∷ []) ≡ unhandled phase queue ++ req ∷ []
unhandled-queued (handling n) [] req waiting busy (known, _) = absurd (omega (arith, known))
unhandled-queued (handling n) (x ∷ queue) req waiting busy w = refl
unhandled-queued idle queue req waiting busy w = refl
unhandled-queued woken queue req waiting busy w = refl
unhandled-queued over queue req waiting busy w = refl
unhandled-queued (working n) queue req waiting busy w = refl

-- What comes of an event is no job in hand.
unhandled-popped :
    (event : EventType) (queue : List RexmitRequest) → unhandled (phase_after event) queue ≡ queue
unhandled-popped terminate queue = refl
unhandled-popped new_jobs queue = refl
unhandled-popped current_station_changed queue = refl
unhandled-popped station_added queue = refl
unhandled-popped station_removed queue = refl
unhandled-popped client_added queue = refl

-- What is kept, where the phase is known.
module _ {st : Sending} {phase : Phase} (at : st.phase ≡ phase) (h : IsKept st) where
  here_at : st.arrived ≡ st.handled ++ unhandled phase (jobs st)
  here_at = subst (λ phase. st.arrived ≡ st.handled ++ unhandled phase (jobs st)) at h.all_here

  at_phase-Watched : Watched phase (jobs st) (events st) st.notifying
  at_phase-Watched = subst (λ phase. Watched phase (jobs st) (events st) st.notifying) at h.watched

  -- And the queue is.
  here_with :
      {queue : List RexmitRequest}
      → jobs st ≡ queue
      → st.arrived ≡ st.handled ++ unhandled phase queue
  here_with e = subst (λ queue. st.arrived ≡ st.handled ++ unhandled phase queue) e here_at

  with_queue-Watched :
      {queue : List RexmitRequest} → jobs st ≡ queue → Watched phase queue (events st) st.notifying
  with_queue-Watched e =
      subst (λ queue. Watched phase queue (events st) st.notifying) e at_phase-Watched

step-IsKept : {st st' : Sending} → Step st st' → IsKept st → IsKept st'
unfolding queue_job notify signal push
step-IsKept {st} (queues req free) h = record {
  all_here =
      ap (λ before. before ++ req ∷ []) h.all_here
      ∙ append_assoc st.handled (unhandled st.phase (jobs st)) (req ∷ [])
      ∙ ap (λ jobs. st.handled ++ jobs)
          (sym (unhandled-queued st.phase (jobs st) req (events st) st.notifying h.watched));
  watched = Watched-queued st.phase (jobs st) req (events st) st.notifying h.watched;
}
step-IsKept {st} (notifies busy) h = record {
  all_here = h.all_here;
  watched = Watched-notified st.phase (jobs st) (events st) st.notifying h.watched;
}
step-IsKept {st} signals h = record {
  all_here = h.all_here;
  watched = Watched-more st.phase (jobs st) (events st) terminate st.notifying h.watched;
}
step-IsKept {st} (pops {event} {queue} at e) h = record {
  all_here =
      here_at at h ∙ ap (λ jobs. st.handled ++ jobs) (sym (unhandled-popped event (jobs st)));
  watched = Watched-popped event (jobs st) queue st.notifying (
      subst (λ events. Watched idle (jobs st) events st.notifying) (pop-cons (events st) e)
        (at_phase-Watched at h));
}
step-IsKept {st} (counts at free) h = record {
  all_here = here_at at h;
  watched = (omega arith, inl refl);
}
step-IsKept {st} (takes {n} {req} {queue} at e) h = record {
  all_here =
      here_with at h e
      ∙ sym (append_assoc st.handled (req ∷ []) queue)
      ∙ ap (λ queue. (st.handled ++ req ∷ []) ++ unhandled (handling n) queue) (sym e);
  watched = at_phase-Watched at h;
}
step-IsKept {st} (drops {n} {req} {queue} at e) h = record {
  all_here = here_with at h e;
  watched = Watched-dropped n req queue (events st) st.notifying (with_queue-Watched at h e);
}
step-IsKept {st} (rests at) h = record {
  all_here = here_at at h;
  watched = Watched-rest (jobs st) (events st) st.notifying (at_phase-Watched at h);
}

pub steps-IsKept : {st st' : Sending} → Steps st st' → IsKept st → IsKept st'
steps-IsKept stay h = h
steps-IsKept (next steps step) h = step-IsKept step (steps-IsKept steps h)

-- However the steps of the controller, the signal handler and the retransmitter follow each other, jobs that
-- come while one is handled included: when the retransmitter waits for an event and none is there or under
-- way from the controller, every job that has come was handled, once and in the order in which they came.
pub steps-all_handled :
    {controller : Controller} {st : Sending}
    → controller.rexmit_job_queue ≡ []
    → Steps (fresh controller) st
    → st.phase ≡ idle
    → events st ≡ []
    → st.notifying ≡ false
    → st.handled ≡ st.arrived
steps-all_handled {controller} {st} none_left steps waits quiet free =
    let h = steps-IsKept steps (record { all_here = sym none_left; watched = inl none_left }) in
    elim (at_phase-Watched waits h) [
      | inl e ↦ sym (here_with waits h e ∙ append-nil st.handled)
      | inr t ↦ elim t [
        | inl w ↦ absurd (Waits-nil w quiet)
        | inr will ↦ absurd (false≢true (sym free ∙ will))
      ]
    ]
