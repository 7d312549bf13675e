-- ===== src/Shutdown/Ending/Joined.antt =====
-- What `main` does when the program ends: it joins the workers.
use sik_telnet_radio.Prelude.{
  ℕ, zero, suc, ◌+◌, length, ◌≤◌, ◌<◌, ◌≡◌, ◌≢◌, ◌⊎◌, inl, inr, refl, sym, ◌∙◌, subst, false, List,
  [], ◌∷◌, arith, ◌==◌, if◌then◌else◌, Bool-cases, ==_iff,
}
use sik_telnet_radio.Shutdown.Ending.{
  MainOp, join, raise_sigint, Phase, works, polls, ended, Program, set_phase, set_queue, Workers,
  signalled_program, Round, goes_on, leaves, told, takes, serves, sleeps, returns, MainStep, joins,
  raises, Step, round, main, signals, pushes, Steps, stay, next, running_program,
}
use sik_telnet_radio.Shutdown.Ending.Told.{reached-IsTold}
use sik_telnet_radio.Shutdown.Ending.Bounded.{CanRound, told_goes_on}

-- `main` is still to join worker `w`.
abbrev pub ToJoin : ℕ → List MainOp → Type 0
ToJoin w [] = ⊥
ToJoin w (join v ∷ ops) = (v ≡ w) ⊎ ToJoin w ops
ToJoin w (raise_sigint ∷ ops) = ToJoin w ops

abbrev pub JoinsBelow : ℕ → List MainOp → Type 0
JoinsBelow n [] = Unit
JoinsBelow n (join v ∷ ops) = (v < n) × JoinsBelow n ops
JoinsBelow n (raise_sigint ∷ ops) = JoinsBelow n ops

abbrev pub AllEnded : ℕ → Program → Type 0
AllEnded zero p = Unit
AllEnded (suc n) p = (p.phase n ≡ ended) × AllEnded n p

pub record IsJoining (ws : Workers) (p : Program) : Type 0 where
  pub ended_or_joined : (w : ℕ) → w < ws.num_workers → (p.phase w ≡ ended) ⊎ ToJoin w p.main
  pub below : JoinsBelow ws.num_workers p.main

module _ (ws : Workers) where
  set_phase-ended :
      (v w : ℕ) (phase old : Phase) (p : Program)
      → p.phase v ≡ old
      → old ≢ ended
      → p.phase w ≡ ended
      → (if w == v then phase else p.phase w) ≡ ended
  set_phase-ended v w phase old p e live done = elim (Bool-cases (w == v)) [
    | inl same ↦ absurd (live (sym e ∙ subst (λ k. p.phase k ≡ ended) ((==_iff w v).0 same) done))
    | inr other ↦ rw other done
  ]

  -- A worker that has ended stays so.
  round-ended :
      (v w : ℕ) {p p' : Program} → Round ws v p p' → p.phase w ≡ ended → p'.phase w ≡ ended
  unfolding set_phase set_queue
  round-ended v w (goes_on {p} e _) = set_phase-ended v w polls works p e (λ over. cc)
  round-ended v w (leaves {p} e _) = set_phase-ended v w ended works p e (λ over. cc)
  round-ended v w (told {p} e _ _) = set_phase-ended v w ended polls p e (λ over. cc)
  round-ended v w (takes {p} e _ _ _) = set_phase-ended v w works polls p e (λ over. cc)
  round-ended v w (serves {p} e _ _) = set_phase-ended v w works polls p e (λ over. cc)
  round-ended v w (sleeps {p} e _) = set_phase-ended v w works polls p e (λ over. cc)
  round-ended v w (returns {p} e _) = set_phase-ended v w ended works p e (λ over. cc)

  pub round-main :
      (v : ℕ) {p p' : Program}
      → Round ws v p p'
      → (p'.main ≡ p.main) × (p'.process.running ≡ p.process.running)
  unfolding set_phase set_queue
  round-main v (goes_on e _) = (refl, refl)
  round-main v (leaves e _) = (refl, refl)
  round-main v (told e _ _) = (refl, refl)
  round-main v (takes e _ _ _) = (refl, refl)
  round-main v (serves e _ _) = (refl, refl)
  round-main v (sleeps e _) = (refl, refl)
  round-main v (returns e _) = (refl, refl)

  joined :
      (v w : ℕ) (phase : ℕ → Phase) (rest : List MainOp)
      → phase v ≡ ended
      → (phase w ≡ ended) ⊎ ToJoin w (join v ∷ rest)
      → (phase w ≡ ended) ⊎ ToJoin w rest
  joined v w phase rest over (inl done) = inl done
  joined v w phase rest over (inr (inl same)) = inl (subst (λ k. phase k ≡ ended) same over)
  joined v w phase rest over (inr (inr later)) = inr later

  step-IsJoining : {p p' : Program} → Step ws p p' → IsJoining ws p → IsJoining ws p'
  unfolding signalled_program set_queue
  step-IsJoining (round v inside r) t = record {
    ended_or_joined = λ w inside. elim (t.ended_or_joined w inside) [
      | inl done ↦ inl (round-ended v w r done)
      | inr later ↦ inr (rw (round-main v r).0 later)
    ];
    below = rw (round-main v r).0 t.below;
  }
  step-IsJoining (main (joins {p} {w = v} {rest} e over)) t = record {
    ended_or_joined = λ w inside.
        joined v w p.phase rest over
          (subst (λ ops. (p.phase w ≡ ended) ⊎ ToJoin w ops) e (t.ended_or_joined w inside));
    below = (subst (JoinsBelow ws.num_workers) e t.below).1;
  }
  step-IsJoining (main (raises {p} {rest} e)) t = record {
    ended_or_joined = λ w inside.
        subst (λ ops. (p.phase w ≡ ended) ⊎ ToJoin w ops) e (t.ended_or_joined w inside);
    below = subst (JoinsBelow ws.num_workers) e t.below;
  }
  step-IsJoining signals t = record { ended_or_joined = t.ended_or_joined; below = t.below }
  step-IsJoining (pushes w event) t = record {
    ended_or_joined = t.ended_or_joined;
    below = t.below;
  }

  pub steps-IsJoining :
      {ops : List MainOp} {p : Program}
      → Steps ws (running_program ops) p
      → IsJoining ws (running_program ops)
      → IsJoining ws p
  steps-IsJoining stay t = t
  steps-IsJoining (next steps step) t = step-IsJoining step (steps-IsJoining steps t)

  all_ended :
      (n : ℕ) (p : Program) → n ≤ ws.num_workers → IsJoining ws p → p.main ≡ [] → AllEnded n p
  all_ended zero p small t e = tt
  all_ended (suc n) p small t e = (
    elim (subst (λ ops. (p.phase n ≡ ended) ⊎ ToJoin n ops) e (t.ended_or_joined n (omega arith))) [
      | inl done ↦ done
      | inr later ↦ absurd later
    ],
    all_ended n p (omega arith) t e,
  )

  -- `main` has returned and all workers have ended, or it can go on, or it waits for a worker that can go on,
  -- and that `running` makes end.
  abbrev pub GoesOn : Program → Type 0
  GoesOn p =
      ((p.main ≡ []) × AllEnded ws.num_workers p)
      ⊎ (((p' : Program) × MainStep ws p p')
          ⊎ ((w : ℕ) × (rest : List MainOp) × (p.main ≡ join w ∷ rest)
              × (p.process.running ≡ false)
              × CanRound ws w p))

  -- The steps of `main` among these.
  unfoldable pub mains_of : {p p' : Program} → Steps ws p p' → ℕ
  mains_of stay = 0
  mains_of (next steps (main m)) = suc (mains_of steps)
  mains_of (next steps (round v inside r)) = mains_of steps
  mains_of (next steps signals) = mains_of steps
  mains_of (next steps (pushes v event)) = mains_of steps

  main-shorter : {p p' : Program} → MainStep ws p p' → suc (length p'.main) ≡ length p.main
  main-shorter (joins e over) = rw e refl
  main-shorter (raises e) = rw e refl

  -- Each step of `main` does one of the things that it is to do.
  pub mains-counted :
      {p p' : Program} (steps : Steps ws p p') → mains_of steps + length p'.main ≡ length p.main
  unfolding mains_of signalled_program set_queue
  mains-counted stay = omega arith
  mains-counted (next steps (main m)) =
      let before = mains-counted steps in
      let shorter = main-shorter m in omega (arith, before, shorter)
  mains-counted (next steps (round v inside r)) = rw (round-main v r).0 (mains-counted steps)
  mains-counted (next steps signals) = mains-counted steps
  mains-counted (next steps (pushes v event)) = mains-counted steps

  -- From the program's start on.
  pub mains-few :
      {ops : List MainOp} {p p' : Program}
      → Steps ws (running_program ops) p
      → (steps : Steps ws p p') → mains_of steps ≤ length ops
  mains-few reached steps =
      let before = mains-counted reached in
      let behind = mains-counted steps in omega (arith, before, behind)

  pub follow : {p p' p'' : Program} → Steps ws p p' → Steps ws p' p'' → Steps ws p p''
  follow steps stay = steps
  follow steps (next more step) = next (follow steps more) step

  pub steps-ended :
      (w : ℕ) {p p' : Program} → Steps ws p p' → p.phase w ≡ ended → p'.phase w ≡ ended
  unfolding signalled_program set_queue
  steps-ended w stay over = over
  steps-ended w (next steps (round v inside r)) over = round-ended v w r (steps-ended w steps over)
  steps-ended w (next steps (main (joins e done))) over = steps-ended w steps over
  steps-ended w (next steps (main (raises e))) over = steps-ended w steps over
  steps-ended w (next steps signals) over = steps-ended w steps over
  steps-ended w (next steps (pushes v event)) over = steps-ended w steps over

  pub stopped-GoesOn :
      {ops : List MainOp} {p : Program}
      → Steps ws (running_program ops) p
      → IsJoining ws p
      → p.process.running ≡ false
      → GoesOn p
  stopped-GoesOn {ops} {p} reached t stopped = by_main p.main refl
    where
      by_main : (todo : List MainOp) → p.main ≡ todo → GoesOn p
      by_main [] e = inl (e, all_ended ws.num_workers p (omega arith) t e)
      by_main (raise_sigint ∷ rest) e = inr (inl (_, raises e))
      by_main (join w ∷ rest) e =
          elim (told_goes_on ws w p (reached-IsTold ws reached) stopped
            (subst (JoinsBelow ws.num_workers) e t.below).0) [
              | inl over ↦ inr (inl (_, joins e over))
              | inr goes ↦ inr (inr (w, rest, e, stopped, goes))
            ]
