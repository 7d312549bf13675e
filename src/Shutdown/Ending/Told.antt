-- ===== src/Shutdown/Ending/Told.antt =====
-- Who is signalled has ended or is told to by an event, whatever the threads do.
use sik_telnet_radio.Prelude.{
  ℕ, ◌<◌, ◌≡◌, ◌≢◌, ◌⊎◌, inl, inr, refl, sym, ◌∙◌, subst, true, false, List, [], ◌∷◌, ◌++◌, arith,
  lt→ltb, ◌==◌, if◌then◌else◌, Bool-cases, ==_iff,
}
use sik_telnet_radio.Events.{EventType, EventQueue, push, terminate}
use sik_telnet_radio.Events.Waits.{Waits, here, later, Waits-push, Waits-more, pop-cons}
use sik_telnet_radio.Shutdown.{signal_handler, terminate_all, all-signalled, all-queue}
use sik_telnet_radio.Shutdown.Ending.{
  MainOp, Phase, works, polls, ended, Program, queue_of, set_phase, set_queue, Workers,
  signalled_program, Round, goes_on, leaves, told, takes, serves, sleeps, returns, joins, raises,
  Step, round, main, signals, pushes, Steps, stay, next, running_program,
}

-- After the handler all workers are signalled, and who is signalled has ended or is told to by an event.
pub record IsTold (ws : Workers) (p : Program) : Type 0 where
  pub all_signalled :
      p.process.running ≡ false → (w : ℕ) → w < ws.num_workers → p.process.signalled w ≡ true
  pub told_by :
      (w : ℕ) → p.process.signalled w ≡ true → (p.phase w ≡ ended) ⊎ Waits terminate (queue_of p w)

module _ (ws : Workers) where
  signalled-IsTold : (p : Program) → IsTold ws p → IsTold ws (signalled_program ws p)
  unfolding signalled_program signal_handler push
  signalled-IsTold p t = record {
    all_signalled = λ _ w inside.
        all-signalled p.process ws.num_workers w ∙ rw (lt→ltb w ws.num_workers inside) refl;
    told_by = λ w e. elim (Bool-cases (p.process.signalled w)) [
      | inl old ↦ elim (t.told_by w old) [
        | inl over ↦ inl over
        | inr waits ↦ inr (subst (Waits terminate) (sym (queue_kept w old)) waits)
      ]
      | inr new ↦
          inr (subst (Waits terminate) (sym (queue_pushed w e new)) (Waits-push (queue_of p w)))
    ];
  }
    where
      queue_kept :
          (w : ℕ)
          → p.process.signalled w ≡ true
          → (terminate_all p.process ws.num_workers).event_queues w ≡ queue_of p w
      queue_kept w old = ground (arith, all-queue p.process ws.num_workers w)

      queue_pushed :
          (w : ℕ)
          → (terminate_all p.process ws.num_workers).signalled w ≡ true
          → p.process.signalled w ≡ false
          → (terminate_all p.process ws.num_workers).event_queues w ≡ queue_of p w ++ terminate ∷ []
      queue_pushed w e new =
          ground
            (arith, all-queue p.process ws.num_workers w, all-signalled p.process ws.num_workers w)

  -- A step of worker `v` that leaves the queues alone.
  phase-IsTold :
      (v : ℕ) (phase : Phase) (p : Program)
      → (p.phase v ≡ ended → phase ≡ ended)
      → IsTold ws p
      → IsTold ws (set_phase v phase p)
  unfolding set_phase
  phase-IsTold v phase p over t = record {
    all_signalled = t.all_signalled;
    told_by = λ w e. elim (t.told_by w e) [ inl done ↦ inl (kept w done) | inr waits ↦ inr waits ];
  }
    where
      kept : (w : ℕ) → p.phase w ≡ ended → (if w == v then phase else p.phase w) ≡ ended
      kept w done = elim (Bool-cases (w == v)) [
        | inl e ↦ rw e (over (subst (λ k. p.phase k ≡ ended) ((==_iff w v).0 e) done))
        | inr e ↦ rw e done
      ]

  -- Worker `v` has taken an event, or one was pushed to it.
  queue-IsTold :
      (v : ℕ) (queue : EventQueue) (p : Program)
      → (Waits terminate (queue_of p v) → Waits terminate queue ⊎ (p.phase v ≡ ended))
      → IsTold ws p
      → IsTold ws (set_queue v queue p)
  unfolding set_queue
  queue-IsTold v queue p still t = record {
    all_signalled = t.all_signalled;
    told_by = λ w e. elim (t.told_by w e) [ inl done ↦ inl done | inr waits ↦ kept w waits ];
  }
    where
      kept :
          (w : ℕ)
          → Waits terminate (queue_of p w)
          → (p.phase w ≡ ended) ⊎ Waits terminate (if w == v then queue else queue_of p w)
      kept w waits = elim (Bool-cases (w == v)) [
        | inl e ↦
            let same = (==_iff w v).0 e in
            elim (still (subst (λ k. Waits terminate (queue_of p k)) same waits)) [
              | inl waits' ↦ inr (rw e waits')
              | inr done ↦ inl (subst (λ k. p.phase k ≡ ended) (sym same) done)
            ]
        | inr e ↦ inr (rw e waits)
      ]

  behind_event :
      {event : EventType} {queue : EventQueue}
      → event ≢ terminate
      → Waits terminate (event ∷ queue)
      → Waits terminate queue
  behind_event other here = absurd (other refl)
  behind_event other (later w) = w

  round-IsTold : (v : ℕ) {p p' : Program} → Round ws v p p' → IsTold ws p → IsTold ws p'
  unfolding set_phase set_queue
  round-IsTold v (goes_on {p} e _) t = phase-IsTold v polls p (λ over. absurd (cc)) t
  round-IsTold v (leaves {p} e _) t = phase-IsTold v ended p (λ over. refl) t
  round-IsTold v (told {p} {queue} e _ _) t =
      queue-IsTold v queue (set_phase v ended p) (λ waits. inr (rw ((==_iff v v).1 refl) refl))
        (phase-IsTold v ended p (λ over. refl) t)
  round-IsTold v (takes {p} {event} {queue} e _ taken other) t =
      phase-IsTold v works (set_queue v queue p) (λ over. absurd (cc))
        (queue-IsTold v queue p
          (λ waits.
            inl
              (behind_event other (subst (Waits terminate) (pop-cons (queue_of p v) taken) waits)))
          t)
  round-IsTold v (serves {p} e _ _) t = phase-IsTold v works p (λ over. absurd (cc)) t
  round-IsTold v (sleeps {p} e _) t = phase-IsTold v works p (λ over. absurd (cc)) t
  round-IsTold v (returns {p} e _) t = phase-IsTold v ended p (λ over. refl) t

  step-IsTold : {p p' : Program} → Step ws p p' → IsTold ws p → IsTold ws p'
  unfolding push
  step-IsTold (round w inside r) t = round-IsTold w r t
  step-IsTold (main (joins e over)) t = record {
    all_signalled = t.all_signalled;
    told_by = t.told_by;
  }
  step-IsTold (main (raises {p} e)) t =
      let t' = signalled-IsTold p t in
      record { all_signalled = t'.all_signalled; told_by = t'.told_by }
  step-IsTold (signals {p}) t = signalled-IsTold p t
  step-IsTold (pushes {p} w event) t = queue-IsTold w _ p (λ waits. inl (Waits-more event waits)) t

  pub steps-IsTold : {p p' : Program} → Steps ws p p' → IsTold ws p → IsTold ws p'
  steps-IsTold stay t = t
  steps-IsTold (next steps step) t = step-IsTold step (steps-IsTold steps t)

  running-IsTold : (ops : List MainOp) → IsTold ws (running_program ops)
  running-IsTold ops = record { all_signalled = λ e. absurd (cc); told_by = λ w e. absurd (cc) }

  pub reached-IsTold :
      {ops : List MainOp} {p : Program} → Steps ws (running_program ops) p → IsTold ws p
  reached-IsTold {ops} steps = steps-IsTold steps (running-IsTold ops)
