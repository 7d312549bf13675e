-- ===== src/Shutdown.antt =====
-- `terminate_worker` and `signal_handler`, which sender/sender.cc and receiver/receiver.cc both have.
pub mod Ending
mod Tests
use sik_telnet_radio.Prelude.{
  ℕ, zero, suc, ◌+◌, ◌<◌, ◌≡◌, refl, ap, ◌∙◌, Bool, true, false, not, ◌&&◌, ◌||◌, List, [], ◌∷◌,
  ◌++◌, arith, ltb, ◌==◌, if◌then◌else◌, Bool-cases, inl, inr, ==_iff,
}
use sik_telnet_radio.Events.{EventQueue, push, terminate}

-- The static variables; a worker's number is its index in the arrays.
pub record Process : Type 0 where
  pub running : Bool
  pub signalled : ℕ → Bool
  pub event_queues : ℕ → EventQueue

unfoldable pub terminate_worker : Process → ℕ → Process
terminate_worker st worker_id = if st.signalled worker_id then st else record st {
  signalled = λ i. i == worker_id || st.signalled i;
  event_queues =
      λ i. if i == worker_id then push (st.event_queues i) terminate else st.event_queues i;
}

-- The loop from `i - 1` down to 0.
unfoldable pub terminate_all : Process → ℕ → Process
terminate_all st zero = st
terminate_all st (suc i) = terminate_all (terminate_worker st i) i

unfoldable pub signal_handler : ℕ → Process → Process
signal_handler num_workers st = record (terminate_all st num_workers) { running = false }

-- Several signals, one after another.
unfoldable pub signals : ℕ → ℕ → Process → Process
signals num_workers zero st = st
signals num_workers (suc n) st = signals num_workers n (signal_handler num_workers st)

-- A worker's flag is found again under an equal number.
same_flag :
    (st : Process) (id i : ℕ) {b : Bool}
    → (i == id) ≡ true
    → st.signalled id ≡ b
    → st.signalled i ≡ b
same_flag st id i e h = ap st.signalled ((==_iff i id).0 e) ∙ h

worker-signalled :
    (st : Process) (id i : ℕ) → (terminate_worker st id).signalled i ≡ (i == id || st.signalled i)
unfolding terminate_worker
worker-signalled st id i = elim (Bool-cases (st.signalled id)) [
  | inl e ↦ elim (Bool-cases (i == id)) [
    | inl here ↦ rw (e, here) (same_flag st id i here e)
    | inr other ↦ rw (e, other) refl
  ]
  | inr e ↦ rw e refl
]

worker-queue :
    (st : Process) (id i : ℕ)
    → (terminate_worker st id).event_queues i ≡ (
        if i == id && not (st.signalled i)
        then push (st.event_queues i) terminate
        else st.event_queues i)
unfolding terminate_worker
worker-queue st id i = elim (Bool-cases (st.signalled id)) [
  | inl e ↦ elim (Bool-cases (i == id)) [
    | inl here ↦ rw (e, here, same_flag st id i here e) refl
    | inr other ↦ rw (e, other) refl
  ]
  | inr e ↦ elim (Bool-cases (i == id)) [
    | inl here ↦ rw (e, here, same_flag st id i here e) refl
    | inr other ↦ rw (e, other) refl
  ]
]

all-signalled :
    (st : Process) (n i : ℕ) → (terminate_all st n).signalled i ≡ (ltb i n || st.signalled i)
unfolding terminate_all
all-signalled st zero i = ground arith
all-signalled st (suc n) i =
    all-signalled (terminate_worker st n) n i ∙ ground (arith, worker-signalled st n i)

all-queue :
    (st : Process) (n i : ℕ)
    → (terminate_all st n).event_queues i ≡ (
        if ltb i n && not (st.signalled i)
        then push (st.event_queues i) terminate
        else st.event_queues i)
unfolding terminate_all
all-queue st zero i = ground arith
all-queue st (suc n) i =
    all-queue (terminate_worker st n) n i
    ∙ ground (arith, worker-signalled st n i, worker-queue st n i)

-- A worker that was told to end is not told again.
settled :
    (num_workers n : ℕ) (st : Process) (i : ℕ)
    → st.signalled i ≡ true
    → (signals num_workers n st).event_queues i ≡ st.event_queues i
unfolding signals signal_handler
settled w zero st i h = refl
settled w (suc n) st i h =
    settled w n (record (terminate_all st w) { running = false }) i
      (ground (arith, all-signalled st w i))
    ∙ ground (arith, all-queue st w i)

-- However many signals come, one or more, each worker that was not told to end before gets one event to
-- end, behind the events that its queue has.
pub signals-once :
    (num_workers n : ℕ) (st : Process) (i : ℕ)
    → i < num_workers
    → st.signalled i ≡ false
    → (signals num_workers (suc n) st).event_queues i ≡ push (st.event_queues i) terminate
unfolding signals signal_handler
signals-once w n st i inside h =
    settled w n (record (terminate_all st w) { running = false }) i
      (ground (arith, all-signalled st w i))
    ∙ ground (arith, all-queue st w i)
