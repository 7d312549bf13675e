-- ===== src/Socket/Runs.antt =====
-- What a run over the calls of the system comes to: every fault that it meets is `fatal`, which the sockets
-- call if the system refuses them something.
use sik_telnet_radio.Prelude.{
  ◌≡◌, sym, subst, ◌∷◌, false, Option, none, some, ℕ, Bool-cases, inl, inr,
}
use sik_telnet_radio.Outcome.{Outcome, ok, crash, fatal, ◌>>=◌}
use sik_telnet_radio.Socket.{Call, Log, Kernel, must, must_on}

-- A run ends with a value that has the property, or is stopped by `fatal`, and there is a call that the system
-- refuses. It meets no other fault and no exception.
pub data Runs {A : Type 0} (sys : Kernel) (P : A → Type 0) : Outcome A → Type 0 where
  done : {a : A} → P a → Runs sys P (ok a)
  refused : (log : Log) (call : Call) → sys.succeeds log call ≡ false → Runs sys P (crash fatal)
  no_socket : (log : Log) → sys.socket log ≡ none → Runs sys P (crash fatal)

module _ {sys : Kernel} where
  pub Runs-bind :
      {A B : Type 0} {P : A → Type 0} {Q : B → Type 0} {m : Outcome A} {f : A → Outcome B}
      → Runs sys P m
      → ((a : A) → P a → Runs sys Q (f a))
      → Runs sys Q (m >>= f)
  Runs-bind (done {a} h) k = k a h
  Runs-bind (refused log call e) k = refused log call e
  Runs-bind (no_socket log e) k = no_socket log e

  pub Runs-map :
      {A : Type 0} {P Q : A → Type 0} {m : Outcome A}
      → ((a : A) → P a → Q a)
      → Runs sys P m
      → Runs sys Q m
  Runs-map f (done {a} h) = done (f a h)
  Runs-map f (refused log call e) = refused log call e
  Runs-map f (no_socket log e) = no_socket log e

-- A call that must succeed leaves its entry in the log, or it is refused.
pub must-Runs :
    {P : Log → Type 0} (sys : Kernel) (call : Call) (log : Log)
    → P (call ∷ log)
    → Runs sys P (must sys call log)
unfolding must
must-Runs sys call log h = elim (Bool-cases (sys.succeeds log call)) [
  | inl e ↦ rw e (done h)
  | inr e ↦ rw e (refused log call e)
]

pub must_on-Runs :
    {P : Log → Type 0} (sys : Kernel) (o : Option ℕ) (fd : ℕ) (call : ℕ → Call) (log : Log)
    → o ≡ some fd
    → P (call fd ∷ log)
    → Runs sys P (must_on sys o call log)
must_on-Runs {P} sys o fd call log e h =
    subst (λ o. Runs sys P (must_on sys o call log)) (sym e) (must-Runs sys (call fd) log h)
