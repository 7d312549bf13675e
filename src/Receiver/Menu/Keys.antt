-- ===== src/Receiver/Menu/Keys.antt =====
-- The keys of a client against an automaton with three states.
use sik_telnet_radio.Prelude.{
  ℕ, ◌≡◌, refl, ap, ◌∙◌, List, [], ◌∷◌, Option, none, some, arith, ◌==◌, if◌then◌else◌, Bool-cases,
  inl, inr, ==_iff,
}
use sik_telnet_radio.Outcome.{Outcome, ok, ◌>>=◌}
use sik_telnet_radio.Net.{Bytes}
use sik_telnet_radio.Station.{bytes_eq}
use sik_telnet_radio.Receiver.{Shared}
use sik_telnet_radio.Receiver.Stations.{cmd_move_up, cmd_move_down}
use sik_telnet_radio.Receiver.Stations.Current.{CurrentIn}
use sik_telnet_radio.Receiver.Stations.Moves.{cmd_move_up-CurrentIn, cmd_move_down-CurrentIn}
use sik_telnet_radio.Receiver.Menu.{escape, apply_cmd, handle_key, handle_keys}

pub data KeyState : Type 0 where
  idle escaped delimited : KeyState

pub data Move : Type 0 where
  up down : Move

-- An escape, a bracket and a letter are a move; any other byte leads back to the start.
abbrev pub next : KeyState → ℕ → KeyState × Option Move
next idle c = (if c == escape then escaped else idle, none)
next escaped c = (if c == b'[' then delimited else idle, none)
next delimited c = (idle, if c == b'A' then some up else if c == b'B' then some down else none)

abbrev prepend : Option Move → List Move → List Move
prepend none ms = ms
prepend (some m) ms = m ∷ ms

abbrev pub moves : KeyState → Bytes → List Move
moves k [] = []
moves k (c ∷ cs) = prepend (next k c).1 (moves (next k c).0 cs)

abbrev pub apply : Move → Shared → Outcome Shared
apply up st = cmd_move_up st
apply down st = cmd_move_down st

abbrev pub apply_all : List Move → Shared → Outcome Shared
apply_all [] st = ok st
apply_all (m ∷ ms) st = apply m st >>= λ st'. apply_all ms st'

abbrev pub typed_of : KeyState → Bytes
typed_of idle = []
typed_of escaped = escape ∷ []
typed_of delimited = escape ∷ b'[' ∷ []

optional : Option Move → Shared → Outcome Shared
optional none st = ok st
optional (some m) st = apply m st

key_step :
    (k : KeyState) (st : Shared) (c : ℕ)
    → handle_key st (typed_of k) c
      ≡ (optional (next k c).1 st >>= λ st'. ok (typed_of (next k c).0, st'))
unfolding handle_key apply_cmd optional bytes_eq
key_step idle st c = elim (Bool-cases (c == escape)) [
  | inl e ↦ rw ((==_iff c escape).0 e) refl
  | inr e ↦ rw e ground arith
]
key_step escaped st c = elim (Bool-cases (c == b'[')) [
  | inl e ↦ rw ((==_iff c b'[').0 e) refl
  | inr e ↦ rw e ground arith
]
key_step delimited st c = elim (Bool-cases (c == b'A')) [
  | inl e ↦ rw ((==_iff c b'A').0 e) refl
  | inr e ↦ elim (Bool-cases (c == b'B')) [
    | inl e' ↦ rw ((==_iff c b'B').0 e') refl
    | inr e' ↦ rw (e, e') ground arith
  ]
]

pub apply-CurrentIn :
    (m : Move) (st : Shared) → CurrentIn st → (st' : Shared) × (apply m st ≡ ok st') × CurrentIn st'
apply-CurrentIn up st h = cmd_move_up-CurrentIn st h
apply-CurrentIn down st h = cmd_move_down-CurrentIn st h

moved :
    (o : Option Move) (ms : List Move) (st : Shared)
    → CurrentIn st
    → (st' : Shared) × (optional o st ≡ ok st')
      × CurrentIn st'
      × (apply_all (prepend o ms) st ≡ apply_all ms st')
unfolding optional
moved none ms st h = (st, refl, h, refl)
moved (some m) ms st h =
    let (st', run, h') = apply-CurrentIn m st h in
    (st', run, h', ap (λ r. r >>= λ st'. apply_all ms st') run)

follow :
    (k : KeyState) (st : Shared) (cs : Bytes)
    → CurrentIn st
    → (k' : KeyState) × (st' : Shared) × (handle_keys st (typed_of k) cs ≡ ok (typed_of k', st'))
      × (apply_all (moves k cs) st ≡ ok st')
      × CurrentIn st'
unfolding handle_keys
follow k st [] h = (k, st, refl, refl, h)
follow k st (c ∷ cs) h =
    let (st1, run, h1, first) = moved (next k c).1 (moves (next k c).0 cs) st h in
    let (k', st', runs, rest, h') = follow (next k c).0 st1 cs h1 in
    (k', st', rw (key_step k st c, run) runs, first ∙ rest, h')

-- Whatever bytes a new client sends, the menu handles them without a fault, if the current station is
-- one of the stations: no index leaves the buffer and no command is unknown. The stations are moved
-- through as an automaton with three states reads the bytes, and the current station stays one of them.
pub handle_keys-moves :
    (st : Shared) (cs : Bytes)
    → CurrentIn st
    → (typed : Bytes) × (st' : Shared) × (handle_keys st [] cs ≡ ok (typed, st'))
      × (apply_all (moves idle cs) st ≡ ok st')
      × CurrentIn st'
handle_keys-moves st cs h =
    let (k', st', runs, rest, h') = follow idle st cs h in (typed_of k', st', runs, rest, h')
