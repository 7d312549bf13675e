-- ===== src/Receiver/Clients/Typing.antt =====
-- What a client may have typed, and what the next byte makes of it.
use sik_telnet_radio.Prelude.{
  ℕ, ◌+◌, ◌≡◌, refl, sym, subst, ◌<◌, ◌⊎◌, arith, true, false, [], ◌∷◌, ◌++◌, ◌==◌, Bool-cases, inl,
  inr, ==_iff, length,
}
use sik_telnet_radio.Outcome.{ok}
use sik_telnet_radio.Net.{Bytes}
use sik_telnet_radio.Station.{bytes_eq}
use sik_telnet_radio.Receiver.{Shared}
use sik_telnet_radio.Receiver.Stations.Current.{CurrentIn}
use sik_telnet_radio.Receiver.Stations.Moves.{cmd_move_up-CurrentIn, cmd_move_down-CurrentIn}
use sik_telnet_radio.Receiver.Menu.{escape, up_command, down_command, verdict, apply_cmd}
use sik_telnet_radio.Receiver.Menu.Keys.{KeyState, idle, escaped, delimited, typed_of}

abbrev pub IsTyping : Bytes → Type 0
IsTyping typed = (k : KeyState) × (typed ≡ typed_of k)

abbrev pub IsCommand : Bytes → Type 0
IsCommand typed = (typed ≡ up_command) ⊎ (typed ≡ down_command)

-- The three ways on for a byte behind what was typed.
pub data Next (typed : Bytes) (c : ℕ) : Type 0 where
  refused : (verdict (length typed + 1) c).0 ≡ false → Next typed c
  waiting :
      (verdict (length typed + 1) c).0 ≡ true
      → (verdict (length typed + 1) c).1 ≡ false
      → IsTyping (typed ++ c ∷ [])
      → Next typed c
  complete :
      (verdict (length typed + 1) c).0 ≡ true
      → (verdict (length typed + 1) c).1 ≡ true
      → IsCommand (typed ++ c ∷ [])
      → Next typed c

every_key-Next : (k : KeyState) (c : ℕ) → Next (typed_of k) c
every_key-Next idle c = elim (Bool-cases (c == escape)) [
  | inl e ↦ subst (Next []) (sym ((==_iff c escape).0 e)) (waiting refl refl (escaped, refl))
  | inr e ↦ refused (rw e ground arith)
]
every_key-Next escaped c = elim (Bool-cases (c == b'[')) [
  | inl e ↦
      subst (Next (typed_of escaped)) (sym ((==_iff c b'[').0 e))
        (waiting refl refl (delimited, refl))
  | inr e ↦ refused (rw e ground arith)
]
every_key-Next delimited c = elim (Bool-cases (c == b'A')) [
  | inl e ↦
      subst (Next (typed_of delimited)) (sym ((==_iff c b'A').0 e)) (complete refl refl (inl refl))
  | inr e ↦ elim (Bool-cases (c == b'B')) [
    | inl e' ↦
        subst (Next (typed_of delimited)) (sym ((==_iff c b'B').0 e'))
          (complete refl refl (inr refl))
    | inr e' ↦ refused (rw (e, e') ground arith)
  ]
]

pub typing-Next : (typed : Bytes) (c : ℕ) → IsTyping typed → Next typed c
typing-Next typed c (k, e) = subst (λ t. Next t c) (sym e) (every_key-Next k c)

pub short : (typed : Bytes) → IsTyping typed → length typed < 4
short typed (k, e) = subst (λ t. length t < 4) (sym e) (short_of k)
  where
    short_of : (k : KeyState) → length (typed_of k) < 4
    short_of idle = omega arith
    short_of escaped = omega arith
    short_of delimited = omega arith

-- A command is known, and its move runs.
pub apply_cmd-CurrentIn :
    (st : Shared) (cmd : Bytes)
    → IsCommand cmd
    → CurrentIn st
    → (st' : Shared) × (apply_cmd st cmd ≡ ok st') × CurrentIn st'
unfolding apply_cmd bytes_eq
apply_cmd-CurrentIn st cmd (inl e) h =
    subst (λ c. (st' : Shared) × (apply_cmd st c ≡ ok st') × CurrentIn st') (sym e)
      (cmd_move_up-CurrentIn st h)
apply_cmd-CurrentIn st cmd (inr e) h =
    subst (λ c. (st' : Shared) × (apply_cmd st c ≡ ok st') × CurrentIn st') (sym e)
      (cmd_move_down-CurrentIn st h)
