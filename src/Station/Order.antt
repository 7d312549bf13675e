-- ===== src/Station/Order.antt =====
-- `RadioStation::cmp` is a strict weak order, as a `std::set` asks of it.
use sik_telnet_radio.Prelude.{◌≡◌, refl, Bool, true, false, not, ◌&&◌, ◌||◌, [], ◌∷◌, arith, ltb}
use sik_telnet_radio.Net.{Bytes, addr_lt}
use sik_telnet_radio.Station.{bytes_lt, cmp}

-- What a comparison has to fulfil: `cotrans` says that what is neither less nor greater is transitive too.
pub record IsStrictOrder {A : Type 0} (lt : A → A → Bool) : Type 0 where
  pub asymm : (a b : A) → lt a b ≡ true → lt b a ≡ false
  pub cotrans : (a b c : A) → lt a c ≡ true → (lt a b || lt b c) ≡ true

module _ {A : Type 0} {lt : A → A → Bool} (o : IsStrictOrder lt) where
  pub lt_trans : (a b c : A) → lt a b ≡ true → lt b c ≡ true → lt a c ≡ true
  lt_trans a b c h k = ground (arith, o.cotrans a c b, o.asymm b c)

-- A tuple is less by its first component that differs.
module _ {A : Type 0} (first second : A → A → Bool) where
  abbrev lexicographic : A → A → Bool
  lexicographic a b = first a b || not (first b a) && second a b

  lexicographic-IsStrictOrder :
      IsStrictOrder first → IsStrictOrder second → IsStrictOrder lexicographic
  lexicographic-IsStrictOrder o p = record {
    asymm = λ a b. ground (arith, o.asymm a b, o.asymm b a, p.asymm a b);
    cotrans = λ a b c. ground (
      arith,
      o.cotrans a b c,
      o.cotrans c b a,
      o.cotrans b c a,
      o.cotrans c a b,
      o.cotrans a c b,
      o.cotrans b a c,
      p.cotrans a b c,
    );
  }

by-IsStrictOrder :
    {A B : Type 0} (f : A → B) {lt : B → B → Bool}
    → IsStrictOrder lt
    → IsStrictOrder (λ a b. lt (f a) (f b))
by-IsStrictOrder f o = record {
  asymm = λ a b. o.asymm (f a) (f b);
  cotrans = λ a b c. o.cotrans (f a) (f b) (f c);
}

ltb-IsStrictOrder : IsStrictOrder ltb
ltb-IsStrictOrder = record { asymm = λ a b. ground arith; cotrans = λ a b c. ground arith }

addr_lt-IsStrictOrder : IsStrictOrder addr_lt
unfolding addr_lt
addr_lt-IsStrictOrder =
    lexicographic-IsStrictOrder _ _ (by-IsStrictOrder (λ a. a.s_addr) ltb-IsStrictOrder)
      (by-IsStrictOrder (λ a. a.sin_port) ltb-IsStrictOrder)

bytes_lt_asymm : (xs ys : Bytes) → bytes_lt xs ys ≡ true → bytes_lt ys xs ≡ false
unfolding bytes_lt
bytes_lt_asymm [] [] h = cc
bytes_lt_asymm [] (y ∷ ys) h = refl
bytes_lt_asymm (x ∷ xs) [] h = cc
bytes_lt_asymm (x ∷ xs) (y ∷ ys) h = ground (arith, bytes_lt_asymm xs ys)

bytes_lt_cotrans :
    (xs ys zs : Bytes) → bytes_lt xs zs ≡ true → (bytes_lt xs ys || bytes_lt ys zs) ≡ true
unfolding bytes_lt
bytes_lt_cotrans [] [] zs h = h
bytes_lt_cotrans [] (y ∷ ys) zs h = refl
bytes_lt_cotrans (x ∷ xs) ys [] h = cc
bytes_lt_cotrans (x ∷ xs) [] (z ∷ zs) h = refl
bytes_lt_cotrans (x ∷ xs) (y ∷ ys) (z ∷ zs) h = ground (arith, bytes_lt_cotrans xs ys zs)

bytes_lt-IsStrictOrder : IsStrictOrder bytes_lt
bytes_lt-IsStrictOrder = record { asymm = bytes_lt_asymm; cotrans = bytes_lt_cotrans }

pub cmp-IsStrictOrder : IsStrictOrder cmp
unfolding cmp
cmp-IsStrictOrder =
    lexicographic-IsStrictOrder _ _ (by-IsStrictOrder (λ s. s.name) bytes_lt-IsStrictOrder) (
      lexicographic-IsStrictOrder _ _ (by-IsStrictOrder (λ s. s.mcast_addr) addr_lt-IsStrictOrder)
        (by-IsStrictOrder (λ s. s.data_addr) addr_lt-IsStrictOrder))
