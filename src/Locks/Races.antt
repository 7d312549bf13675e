-- ===== src/Locks/Races.antt =====
-- No two threads access a value at a time where they hold its mutex for it.
use mathlib.Core.Option.{some-injective}
use sik_telnet_radio.Prelude.{ℕ, ◌≡◌, refl, sym, ◌∙◌, subst, true, List, [], ◌∷◌, drop, some}
use sik_telnet_radio.Locks.{
  LockOp, lock, unlock, access, Thread, State, Move, acquires, releases, accesses, moves, calls,
  Steps, stay, next, unlocked, holds, acquire, release, proceed,
}
use sik_telnet_radio.Locks.Order.{Fits, Steps-Orderly, put-all, idle}

-- With the mutexes `held` locked, `rest` accesses the value of `m` only with its mutex locked.
abbrev pub Guarded : ℕ → List ℕ → List LockOp → Type 0
Guarded m held [] = Unit
Guarded m held (lock n ∷ rest) = Guarded m (n ∷ held) rest
Guarded m held (unlock n ∷ rest) = Guarded m (drop 1 held) rest
Guarded m held (access n ∷ rest) = (n ≡ m → holds m held ≡ true) × Guarded m held rest

abbrev GuardedThread : ℕ → Thread → Type 0
GuardedThread m t = Guarded m t.held t.rest

-- The threads that access the value of `m` only with its mutex locked, by all of their handlers.
abbrev AllGuarded : ℕ → (ℕ → Type 0) → State → Type 0
AllGuarded m Careful s = (j : ℕ) → Careful j → GuardedThread m (s.thread j)

module _ (m : ℕ) (Careful : ℕ → Type 0) where
  Move-Guarded :
      (i : ℕ) {s s' : State} → Move i s s' → AllGuarded m Careful s → AllGuarded m Careful s'
  unfolding acquire release proceed
  Move-Guarded i (acquires {s} {m = n} e free) v =
      put-all (λ j t. Careful j → GuardedThread m t) i _ s.thread
        (λ c. subst (Guarded m (s.thread i).held) e (v i c)) v
  Move-Guarded i (releases {s} e _) v =
      put-all (λ j t. Careful j → GuardedThread m t) i _ s.thread
        (λ c. subst (Guarded m (s.thread i).held) e (v i c)) v
  Move-Guarded i (accesses {s} {m = n} {rest} e) v =
      put-all (λ j t. Careful j → GuardedThread m t) i _ s.thread
        (λ c. (subst (Guarded m (s.thread i).held) e (v i c)).1) v

  module _ {Handles : ℕ → List LockOp → Type 0} {bound : ℕ} where
    Steps-Guarded :
        ((i : ℕ) (path : List LockOp) → Handles i path → Fits bound [] path)
        → ((i : ℕ) (path : List LockOp) → Careful i → Handles i path → Guarded m [] path)
        → {s : State} → Steps Handles unlocked s
        → AllGuarded m Careful s
    unfolding proceed
    Steps-Guarded fit guarded stay = λ j c. tt
    Steps-Guarded fit guarded (next steps (moves i move)) =
        Move-Guarded i move (Steps-Guarded fit guarded steps)
    Steps-Guarded fit guarded (next {t = s} steps (calls {path} i e handles)) =
        put-all (λ j t. Careful j → GuardedThread m t) i _ s.thread
          (λ c.
            rw (idle bound (s.thread i) e ((Steps-Orderly fit steps).fits i))
              (guarded i path c handles))
          (Steps-Guarded fit guarded steps)

    -- Two careful threads that are both about to access the value of `m` are the same thread.
    pub accesses-exclusive :
        ((i : ℕ) (path : List LockOp) → Handles i path → Fits bound [] path)
        → ((i : ℕ) (path : List LockOp) → Careful i → Handles i path → Guarded m [] path)
        → {s : State} → Steps Handles unlocked s
        → (i j : ℕ) → Careful i
        → Careful j
        → {rest rest' : List LockOp} → (s.thread i).rest ≡ access m ∷ rest
        → (s.thread j).rest ≡ access m ∷ rest'
        → i ≡ j
    accesses-exclusive fit guarded {s} steps i j ci cj ei ej =
        some_injective_lem (sym (owns i ci ei) ∙ owns j cj ej)
      where
        some_injective_lem : {a b : ℕ} → some a ≡ some b → a ≡ b
        some_injective_lem e = some-injective _ _ e

        owns :
            (k : ℕ)
            → Careful k
            → {rest : List LockOp} → (s.thread k).rest ≡ access m ∷ rest
            → s.owner m ≡ some k
        owns k c e =
            (Steps-Orderly fit steps).owns m k
              ((subst (Guarded m (s.thread k).held) e (Steps-Guarded fit guarded steps k c)).0 refl)
