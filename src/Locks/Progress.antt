-- ===== src/Locks/Progress.antt =====
-- No deadlock where the threads keep the order of the locks.
use sik_telnet_radio.Prelude.{
  ℕ, zero, suc, ◌+◌, ◌≤◌, ◌<◌, ◌≡◌, ◌≢◌, ◌⊎◌, refl, subst, List, [], ◌∷◌, some, arith, inl, inr,
  true, Option-cases,
}
use sik_telnet_radio.Locks.{
  LockOp, lock, unlock, access, State, Move, acquires, releases, accesses, Steps, unlocked, holds,
  acquire, release, proceed,
}
use sik_telnet_radio.Locks.Order.{Fits, Above, Above-lt, Orderly, Steps-Orderly}

-- Some thread can go on.
abbrev pub CanMove : State → Type 0
CanMove s = (i : ℕ) × (s' : State) × Move i s s'

-- What a thread waits for, that can do nothing else, is larger than all it holds.
Waits : ℕ → State → ℕ → Type 0
Waits bound s j = (m : ℕ) × (k : ℕ) × (s.owner m ≡ some k) × (m < bound) × Above m (s.thread j).held

module _ {bound : ℕ} {s : State} (v : Orderly bound s) where
  goes_on_or_waits :
      (j : ℕ) (rest : List LockOp)
      → (s.thread j).rest ≡ rest
      → rest ≢ []
      → CanMove s ⊎ Waits bound s j
  unfolding Waits
  goes_on_or_waits j [] e some_left = absurd (some_left refl)
  goes_on_or_waits j (unlock m ∷ rest) e _ = inl (
    j,
    release j m rest s,
    releases e
        (v.owns m j (newest (s.thread j).held (subst (Fits bound (s.thread j).held) e (v.fits j)))),
  )
    where
      newest : (held : List ℕ) → Fits bound held (unlock m ∷ rest) → holds m held ≡ true
      newest [] f = absurd f
      newest (h ∷ held) f = ground (arith, f.0)
  goes_on_or_waits j (access m ∷ rest) e _ = inl (j, proceed j rest s, accesses e)
  goes_on_or_waits j (lock m ∷ rest) e _ = elim (Option-cases (s.owner m)) [
    | inl free ↦ inl (j, acquire j m rest s, acquires e free)
    | inr (k, taken) ↦ inr (m, k, taken, fit.0, fit.1)
  ]
    where
      fit : Fits bound (s.thread j).held (lock m ∷ rest)
      fit = subst (Fits bound (s.thread j).held) e (v.fits j)

  -- Who holds something has something to do.
  busy : (m j : ℕ) → s.owner m ≡ some j → (s.thread j).rest ≢ []
  busy m j taken e =
      holder (s.thread j).held (v.owned m j taken)
        (subst (Fits bound (s.thread j).held) e (v.fits j))
    where
      holder : (held : List ℕ) → holds m held ≡ true → Fits bound held [] → ⊥
      holder [] h f = cc
      holder (x ∷ held) h f = f

  -- The owner of a mutex moves, or waits for a larger one.
  owner_moves : (fuel m j : ℕ) → s.owner m ≡ some j → bound ≤ m + fuel → m < bound → CanMove s
  unfolding Waits
  owner_moves zero m j taken h below = absurd (omega arith)
  owner_moves (suc fuel) m j taken h below =
      elim (goes_on_or_waits j (s.thread j).rest refl (busy m j taken)) [
        | inl moves ↦ moves
        | inr (m', k, taken', below', above) ↦
            owner_moves fuel m' k taken'
              (omega (arith, Above-lt m' m (s.thread j).held above (v.owned m j taken))) below'
      ]

  pub Orderly-moves : (j : ℕ) → (s.thread j).rest ≢ [] → CanMove s
  unfolding Waits
  Orderly-moves j some_left = elim (goes_on_or_waits j (s.thread j).rest refl some_left) [
    | inl moves ↦ moves
    | inr (m, k, taken, below, above) ↦ owner_moves bound m k taken (omega arith) below
  ]

-- If the handlers keep the order, then in each reachable state with a handler under way some thread moves.
pub never_stuck :
    {Handles : ℕ → List LockOp → Type 0} {bound : ℕ}
    → ((i : ℕ) (path : List LockOp) → Handles i path → Fits bound [] path)
    → {s : State} → Steps Handles unlocked s
    → (j : ℕ) → (s.thread j).rest ≢ []
    → CanMove s
never_stuck fit steps = Orderly-moves (Steps-Orderly fit steps)
