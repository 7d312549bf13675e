-- ===== src/Outcome.antt =====
-- What a run of the program's code can come to: a value, or one of the ways in which a C++ run ends
-- or loses its meaning. `size_t` and `uint64_t` arithmetic, and arrays with checked bounds.
use mathlib.Core.Bool.{false≢true}
use sik_telnet_radio.Prelude.{
  refl, ap, sym, ◌≢◌, ℕ, zero, suc, ◌+◌, ◌-◌, ◌/◌, ◌%◌, ◌^◌, ◌<◌, ◌≡◌, Bool, true, false, ◌&&◌,
  List, [], ◌∷◌, arith, ltb, leb, ◌==◌, if◌then◌else◌, get_or,
}

-- `assertion` is a failed `assert`, `division` a division by zero, `bounds` an access outside of an
-- array, `fatal` the macro of that name in log.hh, `hang` a loop that outlives its fuel, and `thrown`
-- an exception on its way to a handler.
pub data Fault : Type 0 where
  assertion division bounds fatal hang thrown : Fault

pub data Outcome {ℓ} (A : Type ℓ) : Type ℓ where
  ok : A → Outcome A
  crash : Fault → Outcome A

infixl 5 ◌>>=◌ ◌>>◌
abbrev pub ◌>>=◌ {ℓ κ} : {A : Type ℓ} {B : Type κ} → Outcome A → (A → Outcome B) → Outcome B
ok a >>= f = f a
crash e >>= f = crash e

abbrev pub ◌>>◌ {ℓ} : {B : Type ℓ} → Outcome (Unit {0}) → Outcome B → Outcome B
m >> k = m >>= λ _. k

abbrev pub guard : Bool → Fault → Outcome (Unit {0})
guard true e = ok tt
guard false e = crash e

abbrev pub word : ℕ
word = 2 ^ 64

-- Sums and differences of `size_t` and `uint64_t`.
abbrev pub add_size : ℕ → ℕ → ℕ
add_size a b = (a + b) % word

abbrev pub sub_size : ℕ → ℕ → ℕ
sub_size a b = (a + word - b) % word

unfoldable pub div_size : ℕ → ℕ → Outcome ℕ
div_size a b = if b == 0 then crash division else ok (a / b)

unfoldable pub mod_size : ℕ → ℕ → Outcome ℕ
mod_size a b = if b == 0 then crash division else ok (a % b)

pub mod_size_lem : (a b : ℕ) → 0 < b → mod_size a b ≡ ok (a % b)
unfolding mod_size
mod_size_lem a b h = ground arith

pub div_size_lem : (a b : ℕ) → 0 < b → div_size a b ≡ ok (a / b)
unfolding div_size
div_size_lem a b h = ground arith

-- An array: what each index holds. Its size stands beside it, and each access is checked against it.
abbrev pub Array : Type 0 → Type 0
Array A = ℕ → A

abbrev pub within : ℕ → ℕ → ℕ → Bool
within pos len i = leb pos i && ltb i (pos + len)

-- `memset(a + pos, v, len)`
unfoldable pub memset : {A : Type 0} → Array A → ℕ → ℕ → A → Array A
memset a pos len v i = if within pos len i then v else a i

-- `memcpy(a + pos, source, len)`
unfoldable pub memcpy : Array ℕ → ℕ → ℕ → List ℕ → Array ℕ
memcpy a pos len source i = if within pos len i then get_or source (i - pos) 0 else a i

-- The `len` items from index `pos` on.
unfoldable pub read_from : {A : Type 0} → Array A → ℕ → ℕ → List A
read_from a pos zero = []
read_from a pos (suc len) = a pos ∷ read_from a (pos + 1) len

-- `try { m } catch (const std::exception&) { h }`
abbrev pub handled {ℓ} : {A : Type ℓ} → Outcome A → Outcome A → Outcome A
handled (crash thrown) h = h
handled m h = m

abbrev pub Anything : {A : Type 0} → A → Type 0
Anything a = Unit {0}

-- A run ends with a value that has the property, or is stopped by `fatal` or an exception, and by
-- nothing worse.
pub data After {A : Type 0} (P : A → Type 0) : Outcome A → Type 0 where
  done : {a : A} → P a → After P (ok a)
  stopped : After P (crash fatal)
  raised : After P (crash thrown)

pub After-crash :
    {A B : Type 0} {P : A → Type 0} {Q : B → Type 0} {f : Fault}
    → After P (crash f)
    → After Q (crash f)
After-crash stopped = stopped
After-crash raised = raised

pub After-bind :
    {A B : Type 0} {P : A → Type 0} {Q : B → Type 0} {m : Outcome A} {f : A → Outcome B}
    → After P m
    → ((a : A) → P a → After Q (f a))
    → After Q (m >>= f)
After-bind (done {a} h) k = k a h
After-bind stopped k = stopped
After-bind raised k = raised

pub After-guard :
    {B : Type 0} {Q : B → Type 0} {m : Outcome B} (b : Bool)
    → After Q m
    → After Q (guard b thrown >> m)
After-guard true h = h
After-guard false h = raised

pub After-handled :
    {A : Type 0} {P : A → Type 0} {m : Outcome A} {a : A}
    → After P m
    → P a
    → After P (handled m (ok a))
After-handled (done h) k = done h
After-handled stopped k = stopped
After-handled raised k = done k

pub After-map :
    {A : Type 0} {P Q : A → Type 0} {m : Outcome A} → ((a : A) → P a → Q a) → After P m → After Q m
After-map f (done {a} h) = done (f a h)
After-map f stopped = stopped
After-map f raised = raised

is_ok {ℓ} : {A : Type ℓ} → Outcome A → Bool
is_ok (ok a) = true
is_ok (crash e) = false

value_of {ℓ} : {A : Type ℓ} → A → Outcome A → A
value_of d (ok a) = a
value_of d (crash e) = d

pub ok≢crash {ℓ} : {A : Type ℓ} {a : A} {e : Fault} → ok a ≢ crash e
unfolding is_ok
ok≢crash h = false≢true (sym (ap is_ok h))

pub ok_inj {ℓ} : {A : Type ℓ} {a b : A} → ok a ≡ ok b → a ≡ b
unfolding value_of
ok_inj {a} h = ap (value_of a) h

-- A run that gave a result has passed its first step.
pub guard-passes {ℓ} :
    {A : Type ℓ} {a : A} (e : Fault) (b : Bool) (m : Outcome A)
    → (guard b e >> m) ≡ ok a
    → (b ≡ true) × (m ≡ ok a)
guard-passes e true m h = (refl, h)
guard-passes e false m h = absurd (ok≢crash (sym h))

pub bind-passes {ℓ κ} :
    {A : Type ℓ} {B : Type κ} {b : B} (m : Outcome A) (f : A → Outcome B)
    → (m >>= f) ≡ ok b
    → (a : A) × (m ≡ ok a) × (f a ≡ ok b)
bind-passes (ok a) f h = (a, refl, h)
bind-passes (crash e) f h = absurd (ok≢crash (sym h))
