-- ===== src/Sender/Jobs/Watched.antt =====
-- What the loop of sender/retransmitter.cc knows of the jobs that wait.
use sik_telnet_radio.Prelude.{
  ℕ, zero, suc, ◌≤◌, ◌≡◌, refl, ◌⊎◌, inl, inr, Bool, true, false, List, [], ◌∷◌, ◌++◌, length,
  arith, length-append,
}
use sik_telnet_radio.Events.{
  EventType, EventQueue, terminate, station_added, station_removed, current_station_changed,
  client_added, new_jobs,
}
use sik_telnet_radio.Events.Waits.{Waits, later, Waits-push, Waits-more}
use sik_telnet_radio.Datagram.{RexmitRequest}
use sik_telnet_radio.Sender.Jobs.{Phase, idle, woken, over, working, handling, phase_after}

-- An event that tells of jobs waits, or will be pushed by the controller.
abbrev pub Told : EventQueue → Bool → Type 0
Told events notifying = Waits new_jobs events ⊎ (notifying ≡ true)

-- Jobs that the loop does not know of are told of, unless it will count them or has ended. The loop knows of
-- no more jobs than there are.
abbrev pub Watched : Phase → List RexmitRequest → EventQueue → Bool → Type 0
Watched idle queue events busy = (queue ≡ []) ⊎ Told events busy
Watched woken queue events busy = Unit {0}
Watched over queue events busy = Unit {0}
Watched (working n) queue events busy = (n ≤ length queue) × ((length queue ≡ n) ⊎ Told events busy)
Watched (handling n) queue events busy =
    (suc n ≤ length queue) × ((length queue ≡ suc n) ⊎ Told events busy)

Told-more :
    (event : EventType) {waiting : EventQueue} {busy : Bool}
    → Told waiting busy
    → Told (waiting ++ event ∷ []) busy
Told-more event (inl w) = inl (Waits-more event w)
Told-more event (inr will) = inr will

pub Watched-more :
    (phase : Phase) (queue : List RexmitRequest) (waiting : EventQueue) (event : EventType)
    (busy : Bool)
    → Watched phase queue waiting busy
    → Watched phase queue (waiting ++ event ∷ []) busy
Watched-more idle queue waiting event busy (inl none_left) = inl none_left
Watched-more idle queue waiting event busy (inr t) = inr (Told-more event t)
Watched-more woken queue waiting event busy w = tt
Watched-more over queue waiting event busy w = tt
Watched-more (working n) queue waiting event busy (known, inl all) = (known, inl all)
Watched-more (working n) queue waiting event busy (known, inr t) = (known, inr (Told-more event t))
Watched-more (handling n) queue waiting event busy (known, inl all) = (known, inl all)
Watched-more (handling n) queue waiting event busy (known, inr t) = (known, inr (Told-more event t))

pub Watched-queued :
    (phase : Phase) (queue : List RexmitRequest) (req : RexmitRequest) (waiting : EventQueue)
    (busy : Bool)
    → Watched phase queue waiting busy
    → Watched phase (queue ++ req ∷ []) waiting true
Watched-queued idle queue req waiting busy w = inr (inr refl)
Watched-queued woken queue req waiting busy w = tt
Watched-queued over queue req waiting busy w = tt
Watched-queued (working n) queue req waiting busy (known, _) =
    (omega (arith, known, length-append queue (req ∷ [])), inr (inr refl))
Watched-queued (handling n) queue req waiting busy (known, _) =
    (omega (arith, known, length-append queue (req ∷ [])), inr (inr refl))

pub Watched-notified :
    (phase : Phase) (queue : List RexmitRequest) (waiting : EventQueue) (busy : Bool)
    → Watched phase queue waiting busy
    → Watched phase queue (waiting ++ new_jobs ∷ []) false
Watched-notified idle queue waiting busy w = inr (inl (Waits-push waiting))
Watched-notified woken queue waiting busy w = tt
Watched-notified over queue waiting busy w = tt
Watched-notified (working n) queue waiting busy (known, _) = (known, inr (inl (Waits-push waiting)))
Watched-notified (handling n) queue waiting busy (known, _) =
    (known, inr (inl (Waits-push waiting)))

-- An event that is popped is looked at, or it is not the one that tells.
pub Watched-popped :
    (event : EventType) (queue : List RexmitRequest) (waiting : EventQueue) (busy : Bool)
    → (queue ≡ []) ⊎ Told (event ∷ waiting) busy
    → Watched (phase_after event) queue waiting busy
Watched-popped terminate queue waiting busy w = tt
Watched-popped new_jobs queue waiting busy w = tt
Watched-popped current_station_changed queue waiting busy (inl e) = inl e
Watched-popped current_station_changed queue waiting busy (inr (inl (later w))) = inr (inl w)
Watched-popped current_station_changed queue waiting busy (inr (inr will)) = inr (inr will)
Watched-popped station_added queue waiting busy (inl e) = inl e
Watched-popped station_added queue waiting busy (inr (inl (later w))) = inr (inl w)
Watched-popped station_added queue waiting busy (inr (inr will)) = inr (inr will)
Watched-popped station_removed queue waiting busy (inl e) = inl e
Watched-popped station_removed queue waiting busy (inr (inl (later w))) = inr (inl w)
Watched-popped station_removed queue waiting busy (inr (inr will)) = inr (inr will)
Watched-popped client_added queue waiting busy (inl e) = inl e
Watched-popped client_added queue waiting busy (inr (inl (later w))) = inr (inl w)
Watched-popped client_added queue waiting busy (inr (inr will)) = inr (inr will)

pub Watched-dropped :
    (n : ℕ) (req : RexmitRequest) (queue : List RexmitRequest) (waiting : EventQueue) (busy : Bool)
    → Watched (handling n) (req ∷ queue) waiting busy
    → Watched (working n) queue waiting busy
Watched-dropped n req queue waiting busy (known, inl all) =
    (omega (arith, known), inl (omega (arith, all)))
Watched-dropped n req queue waiting busy (known, inr t) = (omega (arith, known), inr t)

pub Watched-rest :
    (queue : List RexmitRequest) (waiting : EventQueue) (busy : Bool)
    → Watched (working zero) queue waiting busy
    → Watched idle queue waiting busy
Watched-rest [] waiting busy (known, w) = inl refl
Watched-rest (x ∷ queue) waiting busy (known, inl all) = absurd (omega (arith, all))
Watched-rest (x ∷ queue) waiting busy (known, inr t) = inr t
