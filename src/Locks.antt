-- ===== src/Locks.antt =====
-- The locks of common/synced_ptr.hh and how threads take them: what each handler locks is in the
-- children Receiver and Sender, and what follows from the order of the locks in Order and Progress.
pub mod Order
pub mod Progress
pub mod Races
pub mod Receiver
pub mod Sender
pub mod Signals
mod Tests
use sik_telnet_radio.Prelude.{
  ℕ, ◌≡◌, Bool, false, List, [], ◌∷◌, ◌++◌, drop, Option, none, some, ◌||◌, ◌==◌, if◌then◌else◌,
}

-- What a thread does with a `SyncedPtr`: its mutex is locked when the guard is made and unlocked when
-- the guard's scope ends, and `*` or `->` access the value. A number names the mutex and its value.
pub data LockOp : Type 0 where
  lock unlock access : ℕ → LockOp

-- The rest of a scope below `auto guard = resource.lock();`.
abbrev pub locking : ℕ → List LockOp → List LockOp
locking m scope = lock m ∷ scope ++ unlock m ∷ []

-- `resource.lock();` as a statement: the guard is a temporary and is gone before the next statement.
abbrev pub lock_discarded : ℕ → List LockOp
lock_discarded m = locking m []

-- A thread has guards for the mutexes in `held`, the newest first, and is to do what is in `rest` until
-- its handler returns.
pub record Thread : Type 0 where
  pub held : List ℕ
  pub rest : List LockOp

-- `owner` is what each mutex knows.
pub record State : Type 0 where
  pub owner : ℕ → Option ℕ
  pub thread : ℕ → Thread

abbrev pub put {ℓ} : {A : Type ℓ} → ℕ → A → (ℕ → A) → ℕ → A
put i a f j = if j == i then a else f j

unfoldable pub acquire : ℕ → ℕ → List LockOp → State → State
acquire i m rest s = record {
  owner = put m (some i) s.owner;
  thread = put i (record { held = m ∷ (s.thread i).held; rest = rest }) s.thread;
}

unfoldable pub release : ℕ → ℕ → List LockOp → State → State
release i m rest s = record {
  owner = put m none s.owner;
  thread = put i (record { held = drop 1 (s.thread i).held; rest = rest }) s.thread;
}

unfoldable pub proceed : ℕ → List LockOp → State → State
proceed i rest s = record s {
  thread = put i (record { held = (s.thread i).held; rest = rest }) s.thread;
}

-- What thread `i` may do next: a mutex is locked only while nobody owns it, and unlocked by its owner.
pub data Move (i : ℕ) : State → State → Type 0 where
  acquires :
      {s : State} {m : ℕ} {rest : List LockOp}
      → (s.thread i).rest ≡ lock m ∷ rest
      → s.owner m ≡ none
      → Move i s (acquire i m rest s)
  releases :
      {s : State} {m : ℕ} {rest : List LockOp}
      → (s.thread i).rest ≡ unlock m ∷ rest
      → s.owner m ≡ some i
      → Move i s (release i m rest s)
  accesses :
      {s : State} {m : ℕ} {rest : List LockOp}
      → (s.thread i).rest ≡ access m ∷ rest
      → Move i s (proceed i rest s)

-- `Handles i path` says that a handler of thread `i` may run as `path`; a handler is called when the one
-- before has returned.
module _ (Handles : ℕ → List LockOp → Type 0) where
  pub data Step : State → State → Type 0 where
    moves : {s s' : State} (i : ℕ) → Move i s s' → Step s s'
    calls :
        {s : State} {path : List LockOp} (i : ℕ)
        → (s.thread i).rest ≡ []
        → Handles i path
        → Step s (proceed i path s)

  pub data Steps (s : State) : State → Type 0 where
    stay : Steps s s
    next : {t u : State} → Steps s t → Step t u → Steps s u

-- Thread `i` breaks off for a handler of a signal, and goes on when that has returned.
unfoldable pub interrupt : ℕ → List LockOp → State → State
unfolding proceed
interrupt i path s = proceed i (path ++ (s.thread i).rest) s

-- No mutex is locked, and no handler runs.
abbrev pub unlocked : State
unlocked = record { owner = λ m. none; thread = λ i. record { held = []; rest = [] } }

abbrev pub holds : ℕ → List ℕ → Bool
holds m [] = false
holds m (h ∷ held) = m == h || holds m held
