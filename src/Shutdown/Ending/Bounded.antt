-- ===== src/Shutdown/Ending/Bounded.antt =====
-- Once the signal's handler has run, each worker ends within two steps, and is never blocked before.
use sik_telnet_radio.Prelude.{
  ℕ, suc, ◌+◌, ◌≤◌, ◌<◌, ◌≡◌, ◌⊎◌, inl, inr, refl, ap, ◌∙◌, true, false, [], ◌∷◌, some, arith, ◌==◌,
  if◌then◌else◌, Bool-cases, ==_iff,
}
use sik_telnet_radio.Events.{
  EventType, EventQueue, pop, terminate, current_station_changed, station_added, station_removed,
  client_added, new_jobs,
}
use sik_telnet_radio.Events.Waits.{Waits, Waits-nil}
use sik_telnet_radio.Shutdown.{signal_handler}
use sik_telnet_radio.Shutdown.Ending.{
  Phase, works, polls, ended, Program, queue_of, set_phase, set_queue, Workers, signalled_program,
  Round, goes_on, leaves, told, takes, serves, sleeps, returns, MainStep, joins, raises, round,
  main, signals, pushes, Steps, stay, next,
}
use sik_telnet_radio.Shutdown.Ending.Told.{IsTold}

module _ (ws : Workers) where
  -- `w` is a worker and can go on.
  abbrev pub CanRound : ℕ → Program → Type 0
  CanRound w p = (w < ws.num_workers) × (p' : Program) × Round ws w p p'

  -- An event that is there is taken.
  takes_event :
      (w : ℕ) (p : Program) (event : EventType) {queue : EventQueue}
      → w < ws.num_workers
      → p.phase w ≡ polls
      → ws.has_queue w ≡ true
      → pop (queue_of p w) ≡ some (event, queue)
      → CanRound w p
  takes_event w p terminate i e looks taken = (i, _, told e looks taken)
  takes_event w p current_station_changed i e looks taken = (i, _, takes e looks taken (λ same. cc))
  takes_event w p station_added i e looks taken = (i, _, takes e looks taken (λ same. cc))
  takes_event w p station_removed i e looks taken = (i, _, takes e looks taken (λ same. cc))
  takes_event w p client_added i e looks taken = (i, _, takes e looks taken (λ same. cc))
  takes_event w p new_jobs i e looks taken = (i, _, takes e looks taken (λ same. cc))

  popped :
      (w : ℕ) (p : Program) (queue : EventQueue)
      → queue_of p w ≡ queue
      → w < ws.num_workers
      → p.phase w ≡ polls
      → ws.has_queue w ≡ true
      → Waits terminate queue
      → CanRound w p
  unfolding pop
  popped w p [] e i in_round looks waits = absurd (Waits-nil waits refl)
  popped w p (event ∷ queue) e i in_round looks waits =
      takes_event w p event i in_round looks (ap pop e)

  -- A worker that was told and has not ended is not blocked.
  pub told_goes_on :
      (w : ℕ) (p : Program)
      → IsTold ws p
      → p.process.running ≡ false
      → w < ws.num_workers
      → (p.phase w ≡ ended) ⊎ CanRound w p
  told_goes_on w p t stopped inside = by_phase (p.phase w) refl
    where
      by_phase : (phase : Phase) → p.phase w ≡ phase → (p.phase w ≡ ended) ⊎ CanRound w p
      by_phase ended e = inl e
      by_phase works e = inr (inside, _, leaves e stopped)
      by_phase polls e = elim (Bool-cases (ws.has_queue w)) [
        | inr sleeping ↦ inr (inside, _, sleeps e sleeping)
        | inl looks ↦ elim (t.told_by w (t.all_signalled stopped w inside)) [
          | inl over ↦ inl over
          | inr waits ↦ inr (popped w p (queue_of p w) refl inside e looks waits)
        ]
      ]

  -- How many steps a worker has before its end at most, while `running` is false.
  abbrev pub steps_left : Phase → ℕ
  steps_left ended = 0
  steps_left works = 1
  steps_left polls = 2

  -- The steps of worker `w` among these.
  unfoldable pub rounds_of : {p p' : Program} → ℕ → Steps ws p p' → ℕ
  rounds_of w stay = 0
  rounds_of w (next steps (round v inside r)) = (if w == v then 1 else 0) + rounds_of w steps
  rounds_of w (next steps (main m)) = rounds_of w steps
  rounds_of w (next steps signals) = rounds_of w steps
  rounds_of w (next steps (pushes v event)) = rounds_of w steps

  -- A step of worker `v` counts for worker `v` alone.
  abbrev Fewer : ℕ → ℕ → Program → Program → Type 0
  Fewer w v p p' = (if w == v then 1 else 0) + steps_left (p'.phase w) ≤ steps_left (p.phase w)

  phase-Fewer :
      (v w : ℕ) (phase old : Phase) (p : Program)
      → p.phase v ≡ old
      → suc (steps_left phase) ≤ steps_left old
      → (if w == v then 1 else 0) + steps_left (if w == v then phase else p.phase w)
        ≤ steps_left (p.phase w)
  phase-Fewer v w phase old p e less = elim (Bool-cases (w == v)) [
    | inl same ↦ let e' = ap p.phase ((==_iff w v).0 same) ∙ e in rw same (rw e' (omega arith))
    | inr other ↦ rw other (omega arith)
  ]

  round-Fewer :
      (v w : ℕ) {p p' : Program}
      → Round ws v p p'
      → p.process.running ≡ false
      → (p'.process.running ≡ false) × Fewer w v p p'
  unfolding set_phase set_queue
  round-Fewer v w (goes_on e on) stopped = absurd (cc)
  round-Fewer v w (leaves {p} e _) stopped =
      (stopped, phase-Fewer v w ended works p e (omega arith))
  round-Fewer v w (told {p} e _ _) stopped =
      (stopped, phase-Fewer v w ended polls p e (omega arith))
  round-Fewer v w (takes {p} e _ _ _) stopped =
      (stopped, phase-Fewer v w works polls p e (omega arith))
  round-Fewer v w (serves {p} e _ _) stopped =
      (stopped, phase-Fewer v w works polls p e (omega arith))
  round-Fewer v w (sleeps {p} e _) stopped =
      (stopped, phase-Fewer v w works polls p e (omega arith))
  round-Fewer v w (returns {p} e _) stopped =
      (stopped, phase-Fewer v w ended works p e (omega arith))

  main-stopped :
      {p p' : Program}
      → MainStep ws p p'
      → p.process.running ≡ false
      → (p'.process.running ≡ false) × ((w : ℕ) → p'.phase w ≡ p.phase w)
  unfolding signalled_program signal_handler
  main-stopped (joins e over) stopped = (stopped, λ w. refl)
  main-stopped (raises e) stopped = (refl, λ w. refl)

  pub steps-bounded :
      (w : ℕ) {p p' : Program} (steps : Steps ws p p')
      → p.process.running ≡ false
      → (p'.process.running ≡ false)
        × (rounds_of w steps + steps_left (p'.phase w) ≤ steps_left (p.phase w))
  unfolding rounds_of signalled_program signal_handler set_queue
  steps-bounded w stay stopped = (stopped, omega arith)
  steps-bounded w (next steps (round v inside r)) stopped =
      let (stopped', less) = steps-bounded w steps stopped in
      let (stopped'', less') = round-Fewer v w r stopped' in (stopped'', omega (arith, less, less'))
  steps-bounded w (next steps (main m)) stopped =
      let (stopped', less) = steps-bounded w steps stopped in
      let (stopped'', same) = main-stopped m stopped' in (stopped'', rw (same w) less)
  steps-bounded w (next steps signals) stopped = (refl, (steps-bounded w steps stopped).1)
  steps-bounded w (next steps (pushes v event)) stopped = steps-bounded w steps stopped

  left_at_most : (phase : Phase) → steps_left phase ≤ 2
  left_at_most ended = omega arith
  left_at_most works = omega arith
  left_at_most polls = omega arith

  pub rounds-few :
      (w : ℕ) {p p' : Program} (steps : Steps ws p p')
      → p.process.running ≡ false
      → rounds_of w steps ≤ 2
  rounds-few w {p} steps stopped =
      let (_, less) = steps-bounded w steps stopped in omega (arith, less, left_at_most (p.phase w))
