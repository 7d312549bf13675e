-- ===== src/Params/Ready.antt =====
-- The state in which the receiver's workers start.
use sik_telnet_radio.Prelude.{
  ℕ, ◌<◌, ◌≡◌, refl, Bool, true, false, not, List, Option, none, some, arith, ltb, if◌then◌else◌,
  Bool-cases, inl, inr,
}
use sik_telnet_radio.Outcome.{Outcome, ok, ◌>>=◌, After, done, stopped, raised, After-bind}
use sik_telnet_radio.Net.{Bytes, Resolver, get_addr-After}
use sik_telnet_radio.Station.{is_valid_name}
use sik_telnet_radio.Buffer.{create}
use sik_telnet_radio.Receiver.Stations.Current.{CurrentIn}
use sik_telnet_radio.Params.{value_or, or_fatal}
use sik_telnet_radio.Params.Receiver.{
  ReceiverOptions, ReceiverParams, Receiver, read_prio, read_params, from_options, prepare,
  new_receiver_params, start_receiver,
}

-- A name that is preferred is a valid one.
abbrev pub IsPrio : Option Bytes → Type 0
IsPrio none = Unit {0}
IsPrio (some name) = is_valid_name name ≡ true

abbrev pub IsChecked : Option ReceiverParams → Type 0
IsChecked none = Unit {0}
IsChecked (some p) = (0 < p.bsize) × IsPrio p.prio_station_name

-- The exit after the help message, or a receiver with no station that waits with an empty buffer.
abbrev pub IsReady : Option Receiver → Type 0
IsReady none = Unit {0}
IsReady (some r) =
    CurrentIn r.shared
    × (0 < r.audio.buffer.capacity)
    × (r.audio.buffer.empty ≡ true)
    × IsPrio r.prio_station_name

read_prio-IsPrio : (name : Option Bytes) → After IsPrio (read_prio name)
read_prio-IsPrio none = done tt
read_prio-IsPrio (some name) = elim (Bool-cases (is_valid_name name)) [
  | inl e ↦ rw e (done e)
  | inr e ↦ rw e raised
]

some_bytes : (bsize : ℕ) → not (ltb bsize 1) ≡ true → 0 < bsize
some_bytes bsize h = ground arith

read_params-IsChecked : (vm : ReceiverOptions) → After (λ p. IsChecked (some p)) (read_params vm)
unfolding read_params
read_params-IsChecked vm = After-bind (read_prio-IsPrio vm.name) (λ prio valid.
    elim (Bool-cases (not (ltb (value_or vm.bsize 65536) 1))) [
      | inl e ↦ rw e (done (some_bytes (value_or vm.bsize 65536) e, valid))
      | inr e ↦ rw e raised
    ])

or_fatal-After : {A : Type 0} {P : A → Type 0} {m : Outcome A} → After P m → After P (or_fatal m)
or_fatal-After (done h) = done h
or_fatal-After stopped = stopped
or_fatal-After raised = stopped

from_options-IsChecked : (o : Option ReceiverOptions) → After IsChecked (from_options o)
from_options-IsChecked none = raised
from_options-IsChecked (some vm) = helped vm.help
  where
    read : Outcome (Option ReceiverParams)
    read = read_params vm >>= λ p. ok (some p)

    helped : (b : Bool) → After IsChecked (if b then ok none else read)
    helped true = done tt
    helped false = After-bind (read_params-IsChecked vm) (λ p h. done h)

module _ (net : Resolver) (parse_command_line : List Bytes → Option ReceiverOptions) where
  prepare-IsReady : (o : Option ReceiverParams) → IsChecked o → After IsReady (prepare net o)
  unfolding create
  prepare-IsReady none h = done tt
  prepare-IsReady (some p) (room, prio) =
      After-bind (get_addr-After net p.discover_addr p.ctrl_port)
        (λ addr _. done (refl, room, refl, prio))

  -- Whatever the command line, a receiver that starts has no station and an empty buffer of at least
  -- one byte, and prefers no station or one with a valid name; otherwise it exits after its help message
  -- or is stopped by `fatal` or an exception.
  pub start_receiver-IsReady :
      (argv : List Bytes) → After IsReady (start_receiver net parse_command_line argv)
  unfolding start_receiver new_receiver_params
  start_receiver-IsReady argv =
      After-bind (or_fatal-After (from_options-IsChecked (parse_command_line argv))) prepare-IsReady
