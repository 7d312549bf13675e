-- ===== src/Station/Sorted.antt =====
-- `StationSet` as a `std::set` keeps it: in ascending order, no station twice.
use sik_telnet_radio.Prelude.{
  ◌≡◌, refl, Bool, true, false, not, [], ◌∷◌, arith, if◌then◌else◌, Bool-cases, inl, inr,
}
use sik_telnet_radio.Station.{RadioStation, StationSet, cmp, same, has, insert}
use sik_telnet_radio.Station.Order.{lt_trans, cmp-IsStrictOrder}

-- `s` comes before all of these.
abbrev pub Before : RadioStation → StationSet → Type 0
Before s [] = Unit
Before s (x ∷ xs) = (cmp s x ≡ true) × Before s xs

abbrev pub IsSorted : StationSet → Type 0
IsSorted [] = Unit
IsSorted (x ∷ xs) = Before x xs × IsSorted xs

-- What `std::set::find` compares: the first element that is not less than `s`, if `s` is not less than it.
unfoldable pub finds : RadioStation → StationSet → Bool
finds s [] = false
finds s (x ∷ xs) = if cmp x s then finds s xs else not (cmp s x)

Before-trans : (s x : RadioStation) (xs : StationSet) → cmp s x ≡ true → Before x xs → Before s xs
Before-trans s x [] h below = tt
Before-trans s x (y ∷ ys) h below =
    (lt_trans cmp-IsStrictOrder s x y h below.0, Before-trans s x ys h below.1)

-- A station that comes before all others is not among them.
Before-has :
    (s x : RadioStation) (xs : StationSet) → cmp s x ≡ true → Before x xs → has s xs ≡ false
unfolding has same
Before-has s x [] h below = refl
Before-has s x (y ∷ ys) h below =
    ground (arith, lt_trans cmp-IsStrictOrder s x y h below.0, Before-has s x ys h below.1)

-- In a sorted set, looking at each element finds what `find` finds.
pub finds-has : (s : RadioStation) (xs : StationSet) → IsSorted xs → finds s xs ≡ has s xs
unfolding finds has same
finds-has s [] h = refl
finds-has s (x ∷ xs) h = elim (Bool-cases (cmp x s)) [
  | inl less ↦ rw less (ground (arith, finds-has s xs h.1, cmp-IsStrictOrder.asymm x s))
  | inr not_less ↦ elim (Bool-cases (cmp s x)) [
    | inl before ↦ ground (arith, Before-has s x xs before h.0)
    | inr equal ↦ ground arith
  ]
]

Before-insert :
    (x s : RadioStation) (xs : StationSet) → cmp x s ≡ true → Before x xs → Before x (insert s xs)
unfolding insert
Before-insert x s [] h below = (h, tt)
Before-insert x s (y ∷ ys) h below = elim (Bool-cases (cmp s y)) [
  | inl e ↦ rw e (h, below)
  | inr e ↦ rw e (below.0, Before-insert x s ys h below.1)
]

pub insert-IsSorted :
    (s : RadioStation) (xs : StationSet) → has s xs ≡ false → IsSorted xs → IsSorted (insert s xs)
unfolding insert has same
insert-IsSorted s [] new h = (tt, tt)
insert-IsSorted s (x ∷ xs) new h = elim (Bool-cases (cmp s x)) [
  | inl e ↦ rw e ((e, Before-trans s x xs e h.0), h)
  | inr e ↦ rw e (Before-insert x s xs (ground arith) h.0, insert-IsSorted s xs (ground arith) h.1)
]
