-- ===== src/Locks/Order.antt =====
-- A discipline of locking, and that every reachable state keeps it: a thread locks a mutex only if its
-- number is larger than those that it holds, and unlocks in the opposite order.
use mathlib.Core.Option.{some-ne-none}
use sik_telnet_radio.Prelude.{
  ℕ, ◌<◌, ◌≡◌, sym, ap, subst, true, false, List, [], ◌∷◌, none, some, arith, ◌==◌, Bool-cases, inl,
  inr, ==_iff, refl, drop, ◌||◌,
}
use sik_telnet_radio.Locks.{
  LockOp, lock, unlock, access, Thread, State, put, acquire, release, proceed, Move, acquires,
  releases, accesses, Step, moves, calls, Steps, stay, next, unlocked, holds,
}

-- `m` is larger than all of these.
abbrev pub Above : ℕ → List ℕ → Type 0
Above m [] = Unit
Above m (h ∷ held) = (h < m) × Above m held

-- With the mutexes `held` locked, `rest` locks only larger ones that are below `bound`, unlocks the newest
-- each time, and ends with none.
abbrev pub Fits : ℕ → List ℕ → List LockOp → Type 0
Fits bound [] [] = Unit
Fits bound (h ∷ held) [] = ⊥
Fits bound [] (unlock m ∷ rest) = ⊥
Fits bound (h ∷ held) (unlock m ∷ rest) = (h ≡ m) × Fits bound held rest
Fits bound held (lock m ∷ rest) = (m < bound) × Above m held × Fits bound (m ∷ held) rest
Fits bound held (access m ∷ rest) = Fits bound held rest

abbrev pub Ordered : List ℕ → Type 0
Ordered [] = Unit
Ordered (h ∷ held) = Above h held × Ordered held

pub Above-lt : (m h : ℕ) (held : List ℕ) → Above m held → holds h held ≡ true → h < m
Above-lt m h [] above e = cc
Above-lt m h (x ∷ held) above e = ground (arith, Above-lt m h held above.1)

pub Above-holds : (m : ℕ) (held : List ℕ) → Above m held → holds m held ≡ false
Above-holds m held above = elim (Bool-cases (holds m held)) [
  | inl e ↦ absurd (omega (arith, Above-lt m m held above e))
  | inr e ↦ e
]

pub put_self {ℓ} : {A : Type ℓ} (i : ℕ) (a : A) (f : ℕ → A) → put i a f i ≡ a
put_self i a f = rw ((==_iff i i).1 refl)

-- A property of every thread, after one of them has changed.
pub put-all {ℓ} :
    {A : Type ℓ} (P : ℕ → A → Type 0) (i : ℕ) (a : A) (f : ℕ → A)
    → P i a
    → ((j : ℕ) → P j (f j))
    → (j : ℕ) → P j (put i a f j)
put-all P i a f new old j = elim (Bool-cases (j == i)) [
  | inl e ↦ rw e (subst (λ k. P k a) (sym ((==_iff j i).0 e)) new)
  | inr e ↦ rw e (old j)
]

-- A thread that keeps the discipline, and whose guards are what the mutexes know of it.
pub record Orderly (bound : ℕ) (s : State) : Type 0 where
  pub fits : (j : ℕ) → Fits bound (s.thread j).held (s.thread j).rest
  pub ordered : (j : ℕ) → Ordered (s.thread j).held
  pub owned : (m j : ℕ) → s.owner m ≡ some j → holds m (s.thread j).held ≡ true
  pub owns : (m j : ℕ) → holds m (s.thread j).held ≡ true → s.owner m ≡ some j

-- What `unlock` leaves of the mutexes that a thread holds.
abbrev Unlocks : ℕ → ℕ → List ℕ → List LockOp → Type 0
Unlocks bound m held rest =
    Fits bound (drop 1 held) rest
    × Ordered (drop 1 held)
    × ((m' : ℕ) → holds m' held ≡ (m' == m || holds m' (drop 1 held)))
    × (holds m (drop 1 held) ≡ false)

unlocks :
    (bound m : ℕ) (held : List ℕ) (rest : List LockOp)
    → Fits bound held (unlock m ∷ rest)
    → Ordered held
    → Unlocks bound m held rest
unlocks bound m [] rest fit o = absurd fit
unlocks bound m (h ∷ held) rest fit o = (
  fit.1,
  o.1,
  λ m'. ap (λ n. m' == n || holds m' held) fit.0,
  Above-holds m held (subst (λ n. Above n held) fit.0 o.0),
)

-- A thread whose handler has returned holds nothing.
pub idle : (bound : ℕ) (t : Thread) → t.rest ≡ [] → Fits bound t.held t.rest → t.held ≡ []
idle bound t e fit = empty t.held (subst (Fits bound t.held) e fit)
  where
    empty : (held : List ℕ) → Fits bound held [] → held ≡ []
    empty [] f = refl
    empty (h ∷ held) f = absurd f

module _ {bound : ℕ} {s : State} (v : Orderly bound s) (i : ℕ) where
  acquire-Orderly :
      (m : ℕ) (rest : List LockOp)
      → (s.thread i).rest ≡ lock m ∷ rest
      → s.owner m ≡ none
      → Orderly bound (acquire i m rest s)
  unfolding acquire
  acquire-Orderly m rest e free = record {
    fits = put-all (λ j t. Fits bound t.held t.rest) i _ s.thread fit.2 v.fits;
    ordered = put-all (λ j t. Ordered t.held) i _ s.thread (fit.1, v.ordered i) v.ordered;
    owned = λ m' j. ground (arith, v.owned m' j, v.owned m' i);
    owns = λ m' j. ground (arith, v.owns m' j, v.owns m' i, v.owns m j, v.owns m i);
  }
    where
      fit : Fits bound (s.thread i).held (lock m ∷ rest)
      fit = subst (Fits bound (s.thread i).held) e (v.fits i)

  proceed-Orderly :
      (m : ℕ) (rest : List LockOp)
      → (s.thread i).rest ≡ access m ∷ rest
      → Orderly bound (proceed i rest s)
  unfolding proceed
  proceed-Orderly m rest e = record {
    fits =
        put-all (λ j t. Fits bound t.held t.rest) i _ s.thread
          (subst (Fits bound (s.thread i).held) e (v.fits i)) v.fits;
    ordered = put-all (λ j t. Ordered t.held) i _ s.thread (v.ordered i) v.ordered;
    owned = λ m' j. ground (arith, v.owned m' j, v.owned m' i);
    owns = λ m' j. ground (arith, v.owns m' j, v.owns m' i);
  }

  release-Orderly :
      (m : ℕ) (rest : List LockOp)
      → (s.thread i).rest ≡ unlock m ∷ rest
      → Orderly bound (release i m rest s)
  unfolding release
  release-Orderly m rest e = record {
    fits = put-all (λ j t. Fits bound t.held t.rest) i _ s.thread top.0 v.fits;
    ordered = put-all (λ j t. Ordered t.held) i _ s.thread top.1 v.ordered;
    owned = λ m' j. ground (arith, v.owned m' j, v.owned m' i, top.2 m');
    owns = λ m' j.
        ground (arith, v.owns m' j, v.owns m' i, v.owns m i, v.owns m j, top.2 m', top.2 m, top.3);
  }
    where
      top : Unlocks bound m (s.thread i).held rest
      top =
          unlocks bound m (s.thread i).held rest (subst (Fits bound (s.thread i).held) e (v.fits i))
            (v.ordered i)

Move-Orderly : {bound : ℕ} (i : ℕ) {s s' : State} → Move i s s' → Orderly bound s → Orderly bound s'
Move-Orderly i (acquires e free) v = acquire-Orderly v i _ _ e free
Move-Orderly i (releases e _) v = release-Orderly v i _ _ e
Move-Orderly i (accesses e) v = proceed-Orderly v i _ _ e

module _ {Handles : ℕ → List LockOp → Type 0} {bound : ℕ} where
  Step-Orderly :
      ((i : ℕ) (path : List LockOp) → Handles i path → Fits bound [] path)
      → {s s' : State} → Step Handles s s'
      → Orderly bound s
      → Orderly bound s'
  unfolding proceed
  Step-Orderly fit (moves i move) v = Move-Orderly i move v
  Step-Orderly fit (calls {s} {path} i e handles) v = record {
    fits =
        put-all (λ j t. Fits bound t.held t.rest) i _ s.thread
          (rw (idle bound (s.thread i) e (v.fits i)) (fit i path handles)) v.fits;
    ordered = put-all (λ j t. Ordered t.held) i _ s.thread (v.ordered i) v.ordered;
    owned = λ m' j. ground (arith, v.owned m' j, v.owned m' i);
    owns = λ m' j. ground (arith, v.owns m' j, v.owns m' i);
  }

  -- If each handler keeps the discipline, every reachable state does.
  pub Steps-Orderly :
      ((i : ℕ) (path : List LockOp) → Handles i path → Fits bound [] path)
      → {s : State} → Steps Handles unlocked s
      → Orderly bound s
  Steps-Orderly fit stay = record {
    fits = λ j. tt;
    ordered = λ j. tt;
    owned = λ m j e. absurd (some-ne-none _ (sym e));
    owns = λ m j e. cc;
  }
  Steps-Orderly fit (next steps step) = Step-Orderly fit step (Steps-Orderly fit steps)
