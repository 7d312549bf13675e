-- ===== src/Locks/Signals.antt =====
-- A thread that locks a mutex which it owns waits for ever, as `std::mutex` knows of no recursion.
use mathlib.Core.List.{nil≢cons}
use mathlib.Core.Option.{some-injective, some-ne-none}
use sik_telnet_radio.Prelude.{ℕ, ◌≡◌, ◌≢◌, refl, sym, ◌∙◌, subst, List, [], ◌∷◌, some, none, arith}
use sik_telnet_radio.Locks.{
  LockOp, lock, unlock, access, Thread, State, Move, acquires, releases, accesses, moves, calls,
  Steps, stay, next, put, acquire, release, proceed,
}
use sik_telnet_radio.Locks.Order.{put-all}

-- Before it unlocks `q`, this locks it.
pub data Relocks (q : ℕ) : List LockOp → Type 0 where
  here : {rest : List LockOp} → Relocks q (lock q ∷ rest)
  past_lock : {m : ℕ} {rest : List LockOp} → Relocks q rest → Relocks q (lock m ∷ rest)
  past_access : {m : ℕ} {rest : List LockOp} → Relocks q rest → Relocks q (access m ∷ rest)
  past_unlock : {m : ℕ} {rest : List LockOp} → m ≢ q → Relocks q rest → Relocks q (unlock m ∷ rest)

-- Thread `i` owns `q` and will lock it again before it unlocks it.
abbrev pub Hangs : ℕ → ℕ → State → Type 0
Hangs q i s = (s.owner q ≡ some i) × Relocks q (s.thread i).rest

module _ (q : ℕ) where
  pub Relocks-some : {rest : List LockOp} → Relocks q rest → rest ≢ []
  Relocks-some here e = nil≢cons (sym e)
  Relocks-some (past_lock r) e = nil≢cons (sym e)
  Relocks-some (past_access r) e = nil≢cons (sym e)
  Relocks-some (past_unlock _ r) e = nil≢cons (sym e)

  -- A lock of a mutex that is free is not the one of `q`, which is owned.
  Relocks-lock :
      {m : ℕ} {ops rest : List LockOp}
      → Relocks q ops
      → ops ≡ lock m ∷ rest
      → m ≢ q
      → Relocks q rest
  Relocks-lock here e other = absurd (ground (arith, other))
  Relocks-lock (past_lock r) e other = subst (Relocks q) (cc) r
  Relocks-lock (past_access r) e other = absurd (cc)
  Relocks-lock (past_unlock _ r) e other = absurd (cc)

  Relocks-unlock :
      {m : ℕ} {ops rest : List LockOp}
      → Relocks q ops
      → ops ≡ unlock m ∷ rest
      → (m ≢ q) × Relocks q rest
  Relocks-unlock here e = absurd (cc)
  Relocks-unlock (past_lock r) e = absurd (cc)
  Relocks-unlock (past_access r) e = absurd (cc)
  Relocks-unlock (past_unlock other r) e = (ground (arith, other), subst (Relocks q) (cc) r)

  Relocks-access :
      {m : ℕ} {ops rest : List LockOp} → Relocks q ops → ops ≡ access m ∷ rest → Relocks q rest
  Relocks-access here e = absurd (cc)
  Relocks-access (past_lock r) e = absurd (cc)
  Relocks-access (past_access r) e = subst (Relocks q) (cc) r
  Relocks-access (past_unlock _ r) e = absurd (cc)

  module _ (i : ℕ) where
    -- What a step of thread `j` leaves of it.
    kept :
        (s : State) (j : ℕ) (t : Thread)
        → Hangs q i s
        → (Relocks q (s.thread j).rest → Relocks q t.rest)
        → Relocks q (put j t s.thread i).rest
    kept s j t h stays =
        put-all (λ k t'. k ≡ i → Relocks q t'.rest) j t s.thread
          (λ e. stays (subst (λ k. Relocks q (s.thread k).rest) (sym e) h.1))
          (λ k e. subst (λ k'. Relocks q (s.thread k').rest) (sym e) h.1) i refl

    other_owner : (s : State) (m : ℕ) → Hangs q i s → s.owner m ≡ none → m ≢ q
    other_owner s m h free e = some-ne-none i (sym h.0 ∙ subst (λ n. s.owner n ≡ none) e free)

    not_its :
        (s : State) (m j : ℕ) {rest : List LockOp}
        → Hangs q i s
        → (s.thread j).rest ≡ unlock m ∷ rest
        → s.owner m ≡ some j
        → m ≢ q
    not_its s m j {rest} h e own same =
        let j_is_i =
          some-injective j i (sym own ∙ subst (λ n. s.owner n ≡ some i) (sym same) h.0) in
        (Relocks-unlock h.1 (subst (λ k. (s.thread k).rest ≡ unlock m ∷ rest) j_is_i e)).0 same

    Move-Hangs : (j : ℕ) {s s' : State} → Move j s s' → Hangs q i s → Hangs q i s'
    unfolding acquire release proceed
    Move-Hangs j (acquires {s} {m} {rest} e free) h =
        let other = other_owner s m h free in
        (ground (arith, other, h.0), kept s j _ h (λ r. Relocks-lock r e other))
    Move-Hangs j (releases {s} {m} {rest} e own) h =
        let other = not_its s m j h e own in
        (ground (arith, other, h.0), kept s j _ h (λ r. (Relocks-unlock r e).1))
    Move-Hangs j (accesses {s} {m} {rest} e) h = (h.0, kept s j _ h (λ r. Relocks-access r e))

    module _ {Handles : ℕ → List LockOp → Type 0} where
      pub Steps-Hangs : {s s' : State} → Hangs q i s → Steps Handles s s' → Hangs q i s'
      unfolding proceed
      Steps-Hangs h stay = h
      Steps-Hangs h (next steps (moves j move)) = Move-Hangs j move (Steps-Hangs h steps)
      Steps-Hangs h (next {t = s} steps (calls j e handles)) =
          let h' = Steps-Hangs h steps in (h'.0, kept s j _ h' (λ r. absurd (Relocks-some r e)))
