-- ===== src/Receiver/Stations/Moves.antt =====
-- `cmd_move_up` and `cmd_move_down`: where they lead.
use mathlib.Core.List.{nil≢cons}
use sik_telnet_radio.Prelude.{
  ◌≡◌, refl, sym, ap, true, false, ◌||◌, [], ◌∷◌, Option, none, some, arith, Bool-cases, inl, inr,
  ◌≢◌, subst,
}
use sik_telnet_radio.Outcome.{ok}
use sik_telnet_radio.Station.{RadioStation, StationSet, same, has, same_refl}
use sik_telnet_radio.Receiver.{Shared}
use sik_telnet_radio.Receiver.Stations.{
  before, behind, last_station, move_up_at, cmd_move_up, last_is, move_down_at, cmd_move_down,
  changed,
}
use sik_telnet_radio.Receiver.Stations.Current.{IsCurrent, CurrentIn}

has-head : (x : RadioStation) (xs : StationSet) → has x (x ∷ xs) ≡ true
unfolding has
has-head x xs = ap (λ b. b || has x xs) (same_refl x)

has-cons : (s x : RadioStation) (xs : StationSet) → has s xs ≡ true → has s (x ∷ xs) ≡ true
unfolding has
has-cons s x xs h = ground arith

grow-IsCurrent :
    (c : Option RadioStation) (x : RadioStation) (xs : StationSet)
    → c ≢ none
    → IsCurrent c xs
    → IsCurrent c (x ∷ xs)
grow-IsCurrent none x xs h e = absurd (h refl)
grow-IsCurrent (some s) x xs h e = has-cons s x xs e

before-IsCurrent :
    (last s : RadioStation) (xs : StationSet)
    → has s xs ≡ true
    → (before last s xs ≢ none) × IsCurrent (before last s xs) (last ∷ xs)
unfolding before has
before-IsCurrent last s [] h = cc
before-IsCurrent last s (x ∷ xs) h = elim (Bool-cases (same s x)) [
  | inl here ↦ rw here (cc, has-head last (x ∷ xs))
  | inr on ↦ rw on (
      let (found, inside) = before-IsCurrent x s xs (ground arith) in
      (found, grow-IsCurrent (before x s xs) last (x ∷ xs) found inside))
]

behind-IsCurrent :
    (s : RadioStation) (xs : StationSet)
    → has s xs ≡ true
    → last_is s xs ≡ false
    → (behind s xs ≢ none) × IsCurrent (behind s xs) xs
unfolding behind has
behind-IsCurrent s [] h l = cc
behind-IsCurrent s (x ∷ []) h l = ground arith
behind-IsCurrent s (x ∷ y ∷ ys) h l = elim (Bool-cases (same s x)) [
  | inl here ↦ rw here (cc, has-cons y x (y ∷ ys) (has-head y ys))
  | inr on ↦ rw on (
      let (found, inside) = behind-IsCurrent s (y ∷ ys) (ground arith) l in
      (found, grow-IsCurrent (behind s (y ∷ ys)) x (y ∷ ys) found inside))
]

last_station-IsCurrent :
    (x : RadioStation) (xs : StationSet) → has (last_station x xs) (x ∷ xs) ≡ true
last_station-IsCurrent x [] = has-head x []
last_station-IsCurrent x (y ∷ ys) =
    has-cons (last_station y ys) x (y ∷ ys) (last_station-IsCurrent y ys)

-- A move up runs without a fault if the current station is one of the stations, and it is one of them
-- after the move.
pub cmd_move_up-CurrentIn :
    (st : Shared) → CurrentIn st → (st' : Shared) × (cmd_move_up st ≡ ok st') × CurrentIn st'
unfolding cmd_move_up move_up_at has
cmd_move_up-CurrentIn st h = moved_up st st.current_station st.stations refl h h
  where
    moved_up :
        (st : Shared) (c : Option RadioStation) (xs : StationSet)
        → st.stations ≡ xs
        → CurrentIn st
        → IsCurrent c xs
        → (st' : Shared) × (move_up_at st c xs ≡ ok st') × CurrentIn st'
    moved_up st c [] e k h = (st, refl, k)
    moved_up st none (x ∷ xs) e k h = absurd (nil≢cons (sym h))
    moved_up st (some s) (x ∷ xs) e k h = elim (Bool-cases (same s x)) [
      | inl here ↦ (st, rw here, k)
      | inr on ↦ (
        changed st (before x s xs),
        rw on,
        subst (IsCurrent (before x s xs)) (sym e) (before-IsCurrent x s xs (ground arith)).1,
      )
    ]

-- A move down runs without a fault if the current station is one of the stations, and it is one of
-- them after the move.
pub cmd_move_down-CurrentIn :
    (st : Shared) → CurrentIn st → (st' : Shared) × (cmd_move_down st ≡ ok st') × CurrentIn st'
unfolding cmd_move_down move_down_at
cmd_move_down-CurrentIn st h = moved_down st st.current_station st.stations refl h h
  where
    moved_down :
        (st : Shared) (c : Option RadioStation) (xs : StationSet)
        → st.stations ≡ xs
        → CurrentIn st
        → IsCurrent c xs
        → (st' : Shared) × (move_down_at st c xs ≡ ok st') × CurrentIn st'
    moved_down st c [] e k h = (st, refl, k)
    moved_down st none (x ∷ xs) e k h = absurd (nil≢cons (sym h))
    moved_down st (some s) (x ∷ xs) e k h = elim (Bool-cases (last_is s (x ∷ xs))) [
      | inl here ↦ (st, rw here, k)
      | inr on ↦ (
        changed st (behind s (x ∷ xs)),
        rw on,
        subst (IsCurrent (behind s (x ∷ xs))) (sym e) (behind-IsCurrent s (x ∷ xs) h on).1,
      )
    ]
